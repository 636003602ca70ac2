-- ===== src/Query/Tests/Creation.antt =====
-- Runs of the functions on query objects (posix1.c).
use evlog.Prelude.{All, ℕ, true, false, none, some, List, [], ◌∷◌, ◌==◌, ◌≡◌, refl, arith}
use evlog.Query.Normal.{holds}
use evlog.Query.Screen.{evaluate_query}
use evlog.Query.Screen.Refs.{reference_atts}
use evlog.Query.Normalize.Result.{ok}
use evlog.Query.Normalize.Member.{normalize_att_pid}
use evlog.Query.Normalize.Analysis.{normalize_tree}
use evlog.Query.Create.{
  Query, Created, einval, ebusy, argument_error, is_bad_purpose, initial_state, query_create,
  query_get, query_destroy, is_null_tree,
}
use evlog.Query.Create.Sound.{evaluate_query-query_create}
use evlog.Query.Create.Errors.{
  Leaves, query_create-Leaves, IsQuery, Gives, query_get-Gives, query_destroy-once,
}
use evlog.Query.Create.RoundTrip.{query_get-query_create}
use evlog.Query.Tests.Samples.{
  entry, template, sample_atts, sample_texts, eval_env, norm_env, parser, parsed, normalized,
  analysed, query_text, blank_query,
}

abbrev buffer : List ℕ
buffer = 1 ∷ 2 ∷ 3 ∷ []

sample_query : Query
sample_query = record blank_query {
  qu_tree = normalized;
  qu_expr = some query_text;
  qu_purpose = 6;
}

sample_query-IsQuery : IsQuery sample_query query_text 6
unfolding sample_query is_null_tree is_bad_purpose
sample_query-IsQuery = record { tree = refl; expr = refl; has_purpose = refl; fine = refl }

pub normalizes : normalize_tree norm_env parsed (initial_state 6) ≡ ok (normalized, analysed)
unfolding normalize_tree initial_state normalize_att_pid
normalizes = refl

pub fine_arguments : argument_error (some query_text) (some blank_query) 6 ≡ none
unfolding argument_error
fine_arguments = refl

query_text-no_null : All (λ c. (c == 0) ≡ false) query_text
query_text-no_null = ground arith

evaluate_query-query_create_example :
    (q : Query) × (query_create parser norm_env false (some query_text) 6 (some blank_query) buffer
      ≡ some (record { status = none; query = some q; errbuf = buffer; locked = false }))
    × IsQuery q query_text 6
    × ((evaluate_query eval_env entry [] (some template) q.qu_nonstd_atts q.qu_tree).truth
        ≡ some (holds eval_env sample_atts entry [] normalized))
unfolding reference_atts
evaluate_query-query_create_example =
    evaluate_query-query_create parser norm_env eval_env query_text 6 blank_query buffer parsed
      (normalized, analysed) fine_arguments refl ((tt, tt), (tt, tt)) (λ h. h, λ h. h) normalizes
      (some template) entry [] sample_texts

-- The parser is in use.
refused : Created
refused = record { status = some ebusy; query = some blank_query; errbuf = buffer; locked = true }

refuses :
    query_create parser norm_env true (some query_text) 6 (some blank_query) buffer ≡ some refused
unfolding query_create refused
refuses = refl

query_create-Leaves_example : Leaves true (some blank_query) buffer refused
query_create-Leaves_example =
    query_create-Leaves parser norm_env 6 (some blank_query) buffer true (some query_text) refused
      refuses

query_get-Gives_example : Gives query_text 6 buffer (query_get (some sample_query) (some buffer))
query_get-Gives_example =
    query_get-Gives sample_query query_text 6 buffer sample_query-IsQuery query_text-no_null

query_destroy-once_example :
    ((query_destroy (some sample_query)).0 ≡ none)
    × ((query_destroy (query_destroy (some sample_query)).1).0 ≡ some einval)
    × ((query_get (query_destroy (some sample_query)).1 (some buffer)).status ≡ some einval)
query_destroy-once_example =
    query_destroy-once sample_query query_text 6 (some buffer) sample_query-IsQuery

query_get-query_create_example :
    (c : Created) × (query_create parser norm_env false
        (some query_text)
        6
        (some blank_query)
        buffer
      ≡ some c)
    × Gives query_text 6 buffer (query_get c.query (some buffer))
query_get-query_create_example =
    query_get-query_create parser norm_env eval_env query_text 6 blank_query buffer buffer parsed
      (normalized, analysed) fine_arguments refl ((tt, tt), (tt, tt)) (λ h. h, λ h. h) normalizes
      query_text-no_null
