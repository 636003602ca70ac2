-- ===== src/Query/Screen/Verdict.antt =====
-- user/lib/query/evaluate.c: what `prepareNonStdAtts` decides before it populates a template, and
-- what it leaves otherwise.
use mathlib.Core.Path.{subst}
use evlog.Prelude.{
  All, ℕ, eq_of_==, Bool, true, false, if◌then◌else◌, Option, none, some, List, [], ◌∷◌, map, Text,
  get_elem?, ◌≡◌, refl, sym, ap, ◌∙◌, Bool-cases, inl, inr, ◌⊎◌,
}
use evlog.Query.Tree.{
  Pnode, Entry, Fuzzy, fuzzy_false, fuzzy_maybe, fuzzy_true, NonStdAtt, NonStdAtts,
}
use evlog.Query.Attribute.{TmplAtts, present_att}
use evlog.Query.Evaluate.{EvalEnv}
use evlog.Query.Normal.{holds}
use evlog.Query.Optimize.Missing.{simulate_missing_nsa, is_missing}
use evlog.Query.Optimize.MissingSound.{Agrees, AreMissing, simulate_missing_nsa-Agrees}
use evlog.Query.Screen.{
  Template, AttRef, Screening, screen_atts, init_screening, is_null_ref, is_maybe, first_decisive,
  screen_verdict, populated_ref, Prepared, prepare_screened, prepare_verdict, prepare_nonstd_atts,
}
use evlog.Query.Screen.Refs.{
  reference_atts, IsIndexed, ref_of, refs-screen_atts, populated-refs, existing-null, IsNull,
  null-refs, existing-no_refs, valid-screen_atts,
}

-- The annotations are those of `_evlQOptimizeTree` for this tree.
pub record IsAnnotated (t : Pnode) (ns : NonStdAtts) : Type 0 where
  pub all_missing : simulate_missing_nsa none t ≡ some ns.result_if_all_missing
  pub each_missing :
      All (λ nsa. simulate_missing_nsa (some nsa.nsa_att) t ≡ some nsa.result_if_missing) ns.ns_atts

first_known-Agrees :
    (f g : Fuzzy) (b : Bool) → Agrees f b → Agrees g b → Agrees (if is_maybe f then g else f) b
unfolding is_maybe
first_known-Agrees fuzzy_false g b h k = h
first_known-Agrees fuzzy_maybe g b h k = k
first_known-Agrees fuzzy_true g b h k = h

one-AreMissing :
    (t : Template) (refs : List AttRef) (j : ℕ)
    → is_null_ref (get_elem? refs j) ≡ true
    → AreMissing (some (map (populated_ref t) refs)) (some j)
unfolding is_missing present_att
one-AreMissing t refs j p i m = rw (eq_of_== i j m) (existing-null t refs j p)

All-AreMissing :
    (t : Template) (refs : List AttRef)
    → All IsNull refs
    → AreMissing (some (map (populated_ref t) refs)) none
unfolding present_att
All-AreMissing t refs h i m = rw (null-refs t refs h) (existing-no_refs refs i)

module _ (env : EvalEnv) (e : Entry) (buf : Text) (q : Pnode) where
  decisive-Agrees :
      (t : Template) (refs : List AttRef) (nsas : List NonStdAtt)
      → All (λ nsa. simulate_missing_nsa (some nsa.nsa_att) q ≡ some nsa.result_if_missing) nsas
      → Agrees (first_decisive refs nsas) (holds env (some (map (populated_ref t) refs)) e buf q)
  unfolding first_decisive is_maybe
  decisive-Agrees t refs [] h = tt
  decisive-Agrees t refs (nsa ∷ nsas) h =
      let rest = decisive-Agrees t refs nsas h.1 in
      elim (Bool-cases (is_null_ref (get_elem? refs nsa.nsa_att))) [
        | inl p ↦ rw p (
            first_known-Agrees nsa.result_if_missing _ _
              (simulate_missing_nsa-Agrees env _ e buf (some nsa.nsa_att)
                (one-AreMissing t refs nsa.nsa_att p) q h.0)
              rest)
        | inr p ↦ rw p rest
      ]

  verdict-Agrees :
      (t : Template) (ns : NonStdAtts) (s : Screening)
      → IsAnnotated q ns
      → (s.any_valid_atts ≡ false → All IsNull s.refs)
      → Agrees (screen_verdict ns s) (holds env (some (map (populated_ref t) s.refs)) e buf q)
  unfolding screen_verdict
  verdict-Agrees t ns s ann nulls = elim (Bool-cases s.any_valid_atts) [
    | inl p ↦ elim (Bool-cases s.found_invalid_att) [
      | inl f ↦ rw (p, f) (decisive-Agrees t s.refs ns.ns_atts ann.each_missing)
      | inr f ↦ rw (p, f) tt
    ]
    | inr p ↦ rw p (
        simulate_missing_nsa-Agrees env _ e buf none (All-AreMissing t s.refs (nulls p)) q
          ann.all_missing)
  ]

-- A prepared evaluation: a verdict that is not maybe is the meaning of the query, and otherwise
-- the array holds the attributes of the reference.
pub record IsPrepared (env : EvalEnv) (e : Entry) (buf : Text) (q : Pnode) (atts : TmplAtts)
    (p : Prepared) : Type 0 where
  pub agrees : Agrees p.verdict (holds env atts e buf q)
  pub complete : (is_maybe p.verdict ≡ false) ⊎ (p.tmpl_atts ≡ atts)

module _ (env : EvalEnv) (e : Entry) (buf : Text) (q : Pnode) (t : Template)
    (refs : List AttRef) where
  prepare_verdict-IsPrepared :
      (any_valid : Bool) (fb : Fuzzy)
      → Agrees fb (holds env (some (map (populated_ref t) refs)) e buf q)
      → (any_valid ≡ false → All IsNull refs)
      → IsPrepared env e buf q
          (some (map (populated_ref t) refs))
          (prepare_verdict t refs any_valid fb)
  unfolding prepare_verdict is_maybe
  prepare_verdict-IsPrepared true fuzzy_maybe a nulls = record { agrees = tt; complete = inr refl }
  prepare_verdict-IsPrepared true fuzzy_false a nulls = record { agrees = a; complete = inl refl }
  prepare_verdict-IsPrepared true fuzzy_true a nulls = record { agrees = a; complete = inl refl }
  prepare_verdict-IsPrepared false fb a nulls = record {
    agrees = a;
    complete = inr (ap some (sym (null-refs t refs (nulls refl))));
  }

module _ (env : EvalEnv) (e : Entry) (buf : Text) (q : Pnode) where
  -- The preparation of a record's template for a query whose list is annotated, with indices that
  -- count up: the verdict agrees with the meaning of the query on the populated template, and it
  -- is not maybe, or the evaluation is handed exactly the attributes of that template that the
  -- query refers to.
  pub prepare-IsPrepared :
      (tmpl : Option Template) (ns : NonStdAtts)
      → IsAnnotated q ns
      → IsIndexed 0 ns.ns_atts
      → IsPrepared env e buf q (reference_atts tmpl ns.ns_atts) (prepare_nonstd_atts tmpl ns)
  unfolding prepare_nonstd_atts reference_atts
  prepare-IsPrepared none ns ann ix = record {
    agrees =
        simulate_missing_nsa-Agrees env none e buf none (λ i m. unfold present_att in refl) q
          ann.all_missing;
    complete = inr refl;
  }
  prepare-IsPrepared (some t) ns ann ix =
      let s = screen_atts t ns.ns_atts (init_screening ns.ns_atts) in
      let refs : s.refs ≡ map (ref_of t) ns.ns_atts = refs-screen_atts t ns.ns_atts ix in
      let nulls : s.any_valid_atts ≡ false → All IsNull s.refs =
        λ h. rw refs (valid-screen_atts t ns.ns_atts (init_screening ns.ns_atts) h).1 in
      subst (λ atts. IsPrepared env e buf q (some atts) (prepare_screened t ns s))
        (ap (map (populated_ref t)) refs ∙ populated-refs t ns.ns_atts)
        (unfold prepare_screened in
          prepare_verdict-IsPrepared env e buf q t s.refs s.any_valid_atts (screen_verdict ns s)
            (verdict-Agrees env e buf q t ns s ann nulls) nulls)
