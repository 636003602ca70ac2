-- ===== src/Query/Tests/Analysis.antt =====
-- Runs of the analysis (normalize.c).
use evlog.Prelude.{◌^◌, false, none, some, [], ◌∷◌, ◌++◌, codes, ◌≡◌, refl, arith}
use evlog.Query.Tree.{eq, contains, Pnode, name, val, string, op_node}
use evlog.Query.Evaluate.{evaluate_tree}
use evlog.Query.Normalize.Result.{ok}
use evlog.Query.Normalize.Operand.{op_in}
use evlog.Query.Normalize.Member.{normalize_att_pid}
use evlog.Query.Normalize.Age.{parse_age}
use evlog.Query.Normalize.Host.{normalize_att_host}
use evlog.Query.Normalize.Analysis.{normalize_tree}
use evlog.Query.Normalize.Tracking.{Analysed, normalize_tree-Analysed}
use evlog.Query.Normalize.Ranges.{Decided, byte_width, normalize_value-Ranges}
use evlog.Query.Normalize.Numerals.{minutes, parse_age-decimal}
use evlog.Query.Normalize.HostName.{normalize_att_host-decimal, host_contains-Undefined}
use evlog.Query.Tests.Samples.{eval_env, norm_env, entry, parsed, normalized, start, analysed}

normalizes_sample : normalize_tree norm_env parsed start ≡ ok (normalized, analysed)
unfolding normalize_tree normalize_att_pid
normalizes_sample = refl

normalize_tree-Analysed_example : Analysed start (normalized, analysed)
normalize_tree-Analysed_example =
    normalize_tree-Analysed norm_env parsed start (normalized, analysed) ((tt, tt), (tt, tt))
      (λ h. h, λ h. h) (record { indexed = tt }) normalizes_sample

-- 200 in a byte is accepted as -56.
normalize_value-Ranges_example : Decided 1 (2 ^ 7) (codes "x") false 200
normalize_value-Ranges_example =
    normalize_value-Ranges byte_width (codes "x") false 200 (ground arith)

parse_age-decimal_example : parse_age (codes "15" ++ b'm' ∷ []) ≡ some 900
parse_age-decimal_example =
    parse_age-decimal (codes "15") b'm' 60 (refl, (refl, tt)) minutes (ground arith)

normalize_att_host-decimal_example :
    normalize_att_host norm_env eq (codes "host") (string (codes "2" ++ b'.' ∷ codes "14"))
    ≡ ok (val false 526)
unfolding op_in
normalize_att_host-decimal_example =
    normalize_att_host-decimal norm_env eq (codes "host") (codes "2") (codes "14") refl (refl, tt)
      (refl, (refl, tt)) (ground arith) (ground arith)

host_contains-Undefined_example :
    (t : Pnode) × (normalize_tree norm_env
        (op_node contains (name (codes "host")) (name (codes "node1")))
        start
      ≡ ok (t, start))
    × (evaluate_tree eval_env none entry [] t ≡ none)
host_contains-Undefined_example =
    host_contains-Undefined norm_env eval_env (codes "node1") start none entry []
