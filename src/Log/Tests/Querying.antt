-- ===== src/Log/Tests/Querying.antt =====
-- A query from its text to a record of a log: user/lib/posix1.c.
use evlog.Prelude.{true, false, none, some, [], ◌∷◌, Option, Text, ◌≡◌, refl, codes}
use evlog.Query.Tree.{Entry}
use evlog.Query.Create.{Query, query_create}
use evlog.Query.Normal.{holds}
use evlog.Query.Evaluate.{evaluate_comparison}
use evlog.Query.Screen.{Template}
use evlog.Query.Screen.Refs.{reference_atts}
use evlog.Query.Tests.Samples.{
  template, sample_texts, eval_env, norm_env, parser, parsed, normalized, analysed, query_text,
  blank_query,
}
use evlog.Query.Tests.Creation.{fine_arguments, normalizes}
use evlog.Log.File.{success}
use evlog.Log.Layout.{Rec, entry_of, member, le_bytes}
use evlog.Log.Descriptor.{LogDesc, log_read}
use evlog.Log.Api.{seek_first, log_seek, evl_evaluate_query}
use evlog.Log.Seeking.{first}
use evlog.Log.Append.{log_header}
use evlog.Log.Queries.{Texts, log_read-log_seek-query_create}
use evlog.Log.Tests.Samples.{rec_a, rec_b, recs, sample_head}
use evlog.Log.Tests.Reading.{desc, desc-IsOpen}

abbrev templates : Entry → Text → Option Template
templates e body = some template

texts : (r : Rec) → Texts parser norm_env eval_env templates (normalized, analysed) r
unfolding reference_atts
texts r behind = record {
  member_text = λ a h. (codes "text", refl);
  att_text = sample_texts.att_text;
}

-- The second record has the process id 20.
log_read-log_seek-query_create_example :
    (q : Query) × (d' : LogDesc) × (d'' : LogDesc) × (query_create parser norm_env false
        (some query_text)
        6
        (some blank_query)
        []
      ≡ some (record { status = none; query = some q; errbuf = []; locked = false }))
    × (log_seek
          (evl_evaluate_query eval_env templates)
          (codes "old")
          (some desc)
          (some q)
          seek_first
        ≡ some (success, some d'))
    × (log_read (some d') true (some 8192)
        ≡ record { status = success; entry = rec_b.head; var_data = rec_b.body; desc = some d'' })
unfolding reference_atts holds entry_of member sample_head le_bytes evaluate_comparison
log_read-log_seek-query_create_example =
    log_read-log_seek-query_create parser norm_env eval_env templates query_text 6 blank_query []
      parsed (normalized, analysed) fine_arguments refl ((tt, tt), (tt, tt)) (λ h. h, λ h. h)
      normalizes first log_header [] recs (rec_a ∷ []) [] desc rec_b (codes "old") desc-IsOpen refl
      (texts rec_a, tt) (texts rec_b) (λ behind. refl, tt) (λ behind. refl)
