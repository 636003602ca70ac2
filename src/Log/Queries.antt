-- ===== src/Log/Queries.antt =====
-- user/lib/posix1.c: a query from its text to the record that it finds: `posix_log_query_create`,
-- `posix_log_seek` and `posix_log_read`.
use evlog.Prelude.{
  ℕ, ◌≡◌, refl, ◌∙◌, Bool, true, false, Option, none, some, List, [], ◌∷◌, ◌++◌, inr, Text, c_text,
  All,
}
use evlog.Query.Tree.{Pnode, Entry}
use evlog.Query.Evaluate.{EvalEnv}
use evlog.Query.Normal.{holds, HasTexts}
use evlog.Query.Screen.{Template}
use evlog.Query.Normalize.Result.{ok, NormEnv}
use evlog.Query.Normalize.Analysis.{State, normalize_tree}
use evlog.Query.Normalize.Normalized.{IsParsed, AvoidsHostName}
use evlog.Query.Create.{Query, ParseEnv, argument_error, initial_state, query_create}
use evlog.Query.Create.Errors.{validate-IsQuery}
use evlog.Query.Create.Sound.{query_atts, query_create-Stored, Means, fine_purpose}
use evlog.Log.File.{Bytes, success}
use evlog.Log.Layout.{Rec, entry_of}
use evlog.Log.Descriptor.{LogDesc, log_read}
use evlog.Log.Api.{Direction, evl_evaluate_query, log_seek}
use evlog.Log.Seek.{selects}
use evlog.Log.Forward.{Rejects}
use evlog.Log.Seeking.{IsOpen, Search, met, by_query}
use evlog.Log.Session.{log_seek-finds, log_read-whole}

module _ (parser : ParseEnv) (env : NormEnv) (eval : EvalEnv)
    (templates : Entry → Text → Option Template) where
  -- A search sees a record with the bytes `behind` its data in the buffer. The template of a record,
  -- what an analysed tree says of the record, and the texts that the evaluation may ask for.
  abbrev pub template_of : Rec → Bytes → Option Template
  template_of r behind = templates (entry_of r.head) (r.body ++ behind)

  abbrev pub says : Pnode × State → Rec → Bytes → Bool
  says p r behind =
      holds eval (query_atts (template_of r behind) p.1.nonstd) (entry_of r.head)
        (c_text (r.body ++ behind)) p.0

  abbrev pub Texts : Pnode × State → Rec → Type 0
  Texts p r =
      (behind : Bytes)
      → HasTexts eval (query_atts (template_of r behind) p.1.nonstd) (entry_of r.head)

  -- The tree is false, or true, of a record, whatever lies behind its data.
  abbrev pub Denies : Pnode × State → Rec → Type 0
  Denies p r = (behind : Bytes) → says p r behind ≡ false

  abbrev pub Affirms : Pnode × State → Rec → Type 0
  Affirms p r = (behind : Bytes) → says p r behind ≡ true

  evaluate-says :
      (q : Query) (p : Pnode × State) (r : Rec) (behind : Bytes)
      → Means eval p.1.nonstd p.0 (q.qu_tree, q.qu_nonstd_atts)
      → Texts p r
      → evl_evaluate_query eval templates q r.head (r.body ++ behind) ≡ says p r behind
  unfolding evl_evaluate_query
  evaluate-says q p r behind means texts =
      rw (means (template_of r behind) (entry_of r.head) (c_text (r.body ++ behind)) (texts behind))

  Rejects-All :
      (q : Query) (p : Pnode × State) (rs : List Rec)
      → Means eval p.1.nonstd p.0 (q.qu_tree, q.qu_nonstd_atts)
      → All (Texts p) rs
      → All (Denies p) rs
      → All (Rejects (by_query (evl_evaluate_query eval templates) q)) rs
  unfolding selects
  Rejects-All q p [] means texts h = tt
  Rejects-All q p (r ∷ rs) means texts h = (
    λ behind. evaluate-says q p r behind means texts.0 ∙ h.0 behind,
    Rejects-All q p rs means texts.1 h.1,
  )

  -- From a query's text to a record: when `posix_log_query_create` gets no bad argument, finds the
  -- mutex free, and the parser accepts the text with a tree of the grammar that does not compare
  -- the host by `contains` with a bare name, and the analysis accepts the tree, it makes a query.
  -- `posix_log_seek` with it, in each of the directions first, last, forward and backward, on a log
  -- of whole records, stops at the first record that it meets of which the analysed tree holds,
  -- and `posix_log_read` gives that record, header and data. The tree is false of the records that
  -- the search meets before, and true of this one, whatever bytes of earlier records lie behind
  -- their data in the buffer of the search, and the texts that the evaluation asks for are there
  -- for these records.
  pub log_read-log_seek-query_create :
      (s : Text) (purpose : ℕ) (query : Query) (errbuf : List ℕ) (t : Pnode) (p : Pnode × State)
      → argument_error (some s) (some query) purpose ≡ none
      → parser.qqparse s ≡ inr t
      → IsParsed t
      → AvoidsHostName t
      → normalize_tree env t (initial_state purpose) ≡ ok p
      → {direction : Direction} (search : Search direction) (header : Bytes)
        (past future skipped rest : List Rec) (d : LogDesc) (r : Rec) (memory : Bytes)
      → IsOpen header past future d
      → met search past future ≡ skipped ++ r ∷ rest
      → All (Texts p) skipped
      → Texts p r
      → All (Denies p) skipped
      → Affirms p r
      → (q : Query) × (d' : LogDesc) × (d'' : LogDesc) × (query_create parser env false
            (some s)
            purpose
            (some query)
            errbuf
          ≡ some (record { status = none; query = some q; errbuf = errbuf; locked = false }))
        × (log_seek (evl_evaluate_query eval templates) memory (some d) (some q) direction
            ≡ some (success, some d'))
        × (log_read (some d') true (some 8192)
            ≡ record { status = success; entry = r.head; var_data = r.body; desc = some d'' })
  unfolding selects
  log_read-log_seek-query_create s purpose query errbuf t p args parsed h avoid norm search header
        past future skipped rest d r memory o meets texts text none_before match =
      let (o', eq, tree, means) =
        query_create-Stored parser env eval s purpose query errbuf t p args parsed h avoid norm in
      let q : Query = record {
        qu_tree = o'.0;
        qu_nonstd_atts = o'.1;
        qu_expr = some s;
        qu_purpose = purpose;
      } in
      let valid = validate-IsQuery {q = q} {s = s} {purpose = purpose} (record {
        tree = tree;
        expr = refl;
        has_purpose = refl;
        fine = fine_purpose s query purpose args;
      }) in
      let (d', before, after, found, open', same) =
        log_seek-finds (evl_evaluate_query eval templates) q memory search past future d valid o
          skipped rest r meets (Rejects-All q p skipped means texts none_before)
          (λ behind. evaluate-says q p r behind means text ∙ match behind) in
      let (d'', read, o'') = log_read-whole d' r open' in (q, d', d'', eq, found, read)
