-- ===== src/Query/Create/Sound.antt =====
-- user/lib/posix1.c: `posix_log_query_create` from the tree of the parser to the query object, and
-- what the query then says of a record.
use evlog.Prelude.{arith, ℕ, true, false, Option, none, some, List, inr, Text, ◌≡◌, refl, sym, ◌∙◌}
use mathlib.Core.Path.{subst}
use mathlib.Core.Option.{some-injective}
use evlog.Query.Tree.{Pnode, null, NonStdAtts, Entry}
use evlog.Query.Attribute.{TmplAtts}
use evlog.Query.Evaluate.{EvalEnv}
use evlog.Query.Normal.{IsNormal, holds, HasTexts}
use evlog.Query.Total.{evaluate_tree-holds}
use evlog.Query.Screen.{Template, evaluate_query}
use evlog.Query.Screen.Refs.{reference_atts, IsIndexed}
use evlog.Query.Optimize.Annotate.{optimize_tree}
use evlog.Query.Optimize.Classify.{refers}
use evlog.Query.Optimize.DivideSound.{Divided, whole, parted}
use evlog.Query.Pipeline.Optimized.{optimize_tree-some, optimize_tree-evaluate}
use evlog.Query.Normalize.Result.{ok, NormEnv, Ensures}
use evlog.Query.Normalize.Analysis.{State, atts_of, normalize_tree}
use evlog.Query.Normalize.Normalized.{IsParsed, AvoidsHostName}
use evlog.Query.Normalize.Tracking.{Analysed, normalize_tree-Ensures}
use evlog.Query.Create.Errors.{IsQuery}
use evlog.Query.Create.{
  is_bad_purpose, Query, ParseEnv, Created, argument_error, initial_state, store_query,
  create_normalized, create_parsed, create_checked, query_create, is_null_tree,
}

-- The values of the non-standard attributes that a list refers to, in a populated template.
abbrev pub query_atts : Option Template → Option NonStdAtts → TmplAtts
query_atts tmpl none = none
query_atts tmpl (some ns) = reference_atts tmpl ns.ns_atts

-- Evaluating the optimised query is what the normalised tree says, on every record.
abbrev pub Means : EvalEnv → Option NonStdAtts → Pnode → Pnode × Option NonStdAtts → Type 0
Means env nonstd t (tree, nonstd') =
    (tmpl : Option Template) (e : Entry) (buf : Text)
    → HasTexts env (query_atts tmpl nonstd) e
    → (evaluate_query env e buf tmpl nonstd' tree).truth
      ≡ some (holds env (query_atts tmpl nonstd) e buf t)

-- Any record serves to see that the optimiser succeeds.
abbrev blank_entry : Entry
blank_entry = record {
  log_recid = 0;
  log_size = 0;
  log_format = 0;
  log_event_type = 0;
  log_facility = 0;
  log_severity = 0;
  log_uid = 0;
  log_gid = 0;
  log_pid = 0;
  log_pgrp = 0;
  log_time = 0;
  log_flags = 0;
  log_thread = 0;
  log_processor = 0;
}

-- What the optimiser makes of an analysed tree.
abbrev Optimized : EvalEnv → Pnode → Option NonStdAtts → Type 0
Optimized env t nonstd =
    (p : Pnode × Option NonStdAtts) × (optimize_tree t nonstd ≡ some p)
    × (is_null_tree p.0 ≡ false)
    × Means env nonstd t p

normal-tree : (t : Pnode) → IsNormal t → is_null_tree t ≡ false
unfolding is_null_tree
normal-tree null n = elim n [ ]
normal-tree _ n = refl

Divided-tree :
    {env : EvalEnv} {atts : TmplAtts} {e : Entry} {buf : Text} {t t' : Pnode}
    → Divided env atts e buf t t'
    → is_null_tree t' ≡ false
unfolding is_null_tree
Divided-tree {t} (whole n) = normal-tree t n
Divided-tree (parted root l r h cl nr same) = refl

plain-Means : (env : EvalEnv) (t : Pnode) → IsNormal t → Means env none t (t, none)
unfolding evaluate_query
plain-Means env t n tmpl e buf texts = evaluate_tree-holds env none e buf texts t n

optimized-Means :
    (env : EvalEnv) (t : Pnode) (ns : NonStdAtts) (p : Pnode × Option NonStdAtts)
    → IsNormal t
    → refers t ≡ true
    → IsIndexed 0 ns.ns_atts
    → optimize_tree t (some ns) ≡ some p
    → Means env (some ns) t p
optimized-Means env t ns p n refs ix eq tmpl e buf texts =
    let (t', ns', eq', same) = optimize_tree-evaluate env e buf tmpl t ns n refs ix texts in
    subst
      (λ q.
        (evaluate_query env e buf tmpl q.1 q.0).truth
        ≡ some (holds env (reference_atts tmpl ns.ns_atts) e buf t))
      (some-injective (t', some ns') p (sym eq' ∙ eq))
      (same ∙ evaluate_tree-holds env (reference_atts tmpl ns.ns_atts) e buf texts t n)

optimized :
    (env : EvalEnv) (t : Pnode) (o : Option NonStdAtts)
    → IsNormal t
    → IsIndexed 0 (atts_of o)
    → elim o [ none ↦ false | some ns ↦ true ] ≡ refers t
    → Optimized env t o
unfolding optimize_tree
optimized env t none n ix has = ((t, none), refl, normal-tree t n, plain-Means env t n)
optimized env t (some ns) n ix has =
    let (t', ns', eq, d) = optimize_tree-some env blank_entry t ns n (sym has) in
    ((t', some ns'), eq, Divided-tree d, optimized-Means env t ns (t', some ns') n (sym has) ix eq)

-- Arguments without an error.
pub fine_purpose :
    (s : Text) (q : Query) (purpose : ℕ)
    → argument_error (some s) (some q) purpose ≡ none
    → is_bad_purpose purpose ≡ false
unfolding argument_error
fine_purpose s q purpose h = ground arith

module _ (parser : ParseEnv) (env : NormEnv) (eval : EvalEnv) where
  -- The query object that the call stores, and what it means.
  abbrev pub Stored : ℕ → Text → List ℕ → Pnode × State → Option Created → Type 0
  Stored purpose s errbuf (t, st) result =
      (p : Pnode × Option NonStdAtts) × (result
        ≡ some (record {
          status = none;
          query = some (record {
            qu_tree = p.0;
            qu_nonstd_atts = p.1;
            qu_expr = some s;
            qu_purpose = purpose;
          });
          errbuf = errbuf;
          locked = false;
        }))
      × (is_null_tree p.0 ≡ false)
      × Means eval st.nonstd t p

  normalized-Stored :
      (purpose : ℕ) (s : Text) (query : Option Query) (errbuf : List ℕ) (p : Pnode × State)
      → Analysed (initial_state purpose) p
      → Stored purpose s errbuf p (create_normalized parser env s purpose query errbuf (ok p))
  unfolding create_normalized store_query initial_state
  normalized-Stored purpose s query errbuf (t, st) (n, (v, has)) =
      let (q, eq, tree, means) = optimized eval t st.nonstd n v.indexed has in
      (q, rw eq, tree, means)

  -- The call on a text that the parser and the analysis accept.
  pub query_create-Stored :
      (s : Text) (purpose : ℕ) (query : Query) (errbuf : List ℕ) (t : Pnode) (p : Pnode × State)
      → argument_error (some s) (some query) purpose ≡ none
      → parser.qqparse s ≡ inr t
      → IsParsed t
      → AvoidsHostName t
      → normalize_tree env t (initial_state purpose) ≡ ok p
      → Stored purpose s errbuf p
          (query_create parser env false (some s) purpose (some query) errbuf)
  unfolding query_create create_checked create_parsed
  query_create-Stored s purpose query errbuf t p args parsed h avoid norm =
      rw (args, parsed, norm)
        (normalized-Stored purpose s (some query) errbuf p (
          subst (Ensures (Analysed (initial_state purpose))) norm (
            normalize_tree-Ensures env t (initial_state purpose) h avoid
              (record { indexed = unfold initial_state in tt }))))

  -- When the arguments have no error, the mutex is free, the parser accepts the text with a tree
  -- of the grammar that does not compare the host by `contains` with a bare name, and the analysis
  -- accepts the tree, `posix_log_query_create` succeeds, with the mutex released and the message
  -- buffer untouched, and stores a valid query with the text and the purpose. On every record,
  -- with or without a template, for which the texts that the evaluation asks for are there, the
  -- query is evaluated without a failed assertion, and the result is what the analysed tree says
  -- of the record.
  pub evaluate_query-query_create :
      (s : Text) (purpose : ℕ) (query : Query) (errbuf : List ℕ) (t : Pnode) (p : Pnode × State)
      → argument_error (some s) (some query) purpose ≡ none
      → parser.qqparse s ≡ inr t
      → IsParsed t
      → AvoidsHostName t
      → normalize_tree env t (initial_state purpose) ≡ ok p
      → (tmpl : Option Template) (e : Entry) (buf : Text)
      → HasTexts eval (query_atts tmpl p.1.nonstd) e
      → (q : Query) × (query_create parser env false (some s) purpose (some query) errbuf
          ≡ some (record { status = none; query = some q; errbuf = errbuf; locked = false }))
        × IsQuery q s purpose
        × ((evaluate_query eval e buf tmpl q.qu_nonstd_atts q.qu_tree).truth
            ≡ some (holds eval (query_atts tmpl p.1.nonstd) e buf p.0))
  evaluate_query-query_create s purpose query errbuf t p args parsed h avoid norm tmpl e buf texts =
      let (q, eq, tree, means) =
        query_create-Stored s purpose query errbuf t p args parsed h avoid norm in
      (
        _,
        eq,
        record {
          tree = tree;
          expr = refl;
          has_purpose = refl;
          fine = fine_purpose s query purpose args;
        },
        means tmpl e buf texts,
      )
