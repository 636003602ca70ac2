-- ===== src/Query/Screen/Release.antt =====
-- user/lib/query/evaluate.c: how often a template is released (`prepareNonStdAtts` and the end of
-- `evaluateNsaTree`).
use evlog.Prelude.{Bool, true, false, some, List, Text, ◌≡◌, refl}
use evlog.Query.Tree.{Fuzzy, fuzzy_false, fuzzy_maybe, fuzzy_true, Pnode, NonStdAtts, Entry}
use evlog.Query.Evaluate.{EvalEnv}
use evlog.Query.Screen.{
  Template, AttRef, screen_atts, init_screening, is_maybe, screen_verdict, Prepared, screened_out,
  prepare_verdict, prepare_screened, prepare_nonstd_atts, evaluate_left, finish_nsa, after_left,
  evaluate_nsa_tree,
}

-- The template is held once, and was released if the verdict is final.
abbrev Holds : Prepared → Type 0
Holds p = (p.has_tmpl ≡ true) × (is_maybe p.verdict ≡ false → p.releases ≡ 1)

verdict-Holds :
    (tm : Template) (refs : List AttRef) (any : Bool) (fb : Fuzzy)
    → Holds (prepare_verdict tm refs any fb)
unfolding prepare_verdict screened_out is_maybe
verdict-Holds tm refs true fuzzy_maybe = (refl, λ h. cc)
verdict-Holds tm refs true fuzzy_false = (refl, λ h. refl)
verdict-Holds tm refs true fuzzy_true = (refl, λ h. refl)
verdict-Holds tm refs false fb = (refl, λ h. refl)

prepare-Holds : (tm : Template) (ns : NonStdAtts) → Holds (prepare_nonstd_atts (some tm) ns)
unfolding prepare_nonstd_atts prepare_screened
prepare-Holds tm ns =
    let s = screen_atts tm ns.ns_atts (init_screening ns.ns_atts) in
    verdict-Holds tm s.refs s.any_valid_atts (screen_verdict ns s)

-- When the left part of the query is inconclusive, or there is none, and the screening of the
-- template that the record has settles the query, the template is released twice.
pub evaluate_nsa_tree-released :
    (env : EvalEnv) (e : Entry) (buf : Text) (tm : Template) (ns : NonStdAtts) (t : Pnode)
    (was_set : Bool)
    → evaluate_left env e buf t ≡ some (fuzzy_maybe, was_set)
    → is_maybe (prepare_nonstd_atts (some tm) ns).verdict ≡ false
    → (evaluate_nsa_tree env e buf (some tm) ns t).released ≡ 2
unfolding evaluate_nsa_tree after_left finish_nsa
evaluate_nsa_tree-released env e buf tm ns t was_set left settled =
    let (held, once) = prepare-Holds tm ns in
    rw left (unfold is_maybe in rw (held, once settled) refl)
