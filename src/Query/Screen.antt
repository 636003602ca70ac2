-- ===== src/Query/Screen.antt =====
-- user/lib/query/evaluate.c: queries with non-standard attributes. The record's template is looked
-- up, screened, and populated only if the query cannot be decided without its values.
pub mod Refs
pub mod Verdict
pub mod Release
use evlog.Prelude.{
  ℕ, suc, ◌+◌, Bool, true, false, not, ◌||◌, ◌&&◌, if◌then◌else◌, Option, none, some, List, [], ◌∷◌,
  map, Text, length, get_elem?, set,
}
use evlog.Query.Tree.{
  Op, conj_later, disj_later, Pnode, op_node, Entry, Fuzzy, fuzzy_false, fuzzy_maybe, fuzzy_true,
  NonStdAtt, NonStdAtts,
}
use evlog.Query.Attribute.{Attribute, TmplAtts, is_numeric_att}
use evlog.Query.Evaluate.{EvalEnv, evaluate_tree}

-- What `evl_gettemplate` finds for the record, as `evltemplate_getatt` shows it by attribute names:
-- the clone before `evl_populatetemplate`, its master, and the clone afterwards.
pub record Template : Type 0 where
  pub clone_att : Text → Option Attribute
  pub master_att : Text → Option Attribute
  pub populated_att : Text → Option Attribute

-- An entry of `tmplAtts` while the template is prepared: NULL, or a pointer to an attribute of the
-- clone, whose value changes when the clone is populated, or of the master, whose value does not.
pub data AttRef : Type 0 where
  null_ref : AttRef
  clone_ref : Text → AttRef
  master_ref : Text → Attribute → AttRef

-- `ec` after the first loop of `screenUnpopulatedTemplate`, with its `foundInvalidAtt`.
pub record Screening : Type 0 where
  pub refs : List AttRef
  pub any_valid_atts : Bool
  pub any_strrefs : Bool
  pub found_invalid_att : Bool

-- The template that an attribute is looked up in.
unfoldable pub lookup_att : Template → NonStdAtt → Option Attribute
lookup_att t nsa = if nsa.is_strref then t.master_att nsa.nsa_name else t.clone_att nsa.nsa_name

unfoldable pub is_usable : NonStdAtt → Attribute → Bool
unfolding is_numeric_att
is_usable nsa att = not (nsa.is_numeric && not (is_numeric_att att))

unfoldable pub make_ref : NonStdAtt → Attribute → AttRef
make_ref nsa att = if nsa.is_strref then master_ref nsa.nsa_name att else clone_ref nsa.nsa_name

-- One round of the loop, on the result of the lookup.
unfoldable pub screen_att : NonStdAtt → Option Attribute → Screening → Screening
unfolding is_usable make_ref
screen_att nsa none s = record s {
  refs = set s.refs nsa.nsa_att null_ref;
  any_strrefs = s.any_strrefs || nsa.is_strref;
  found_invalid_att = true;
}
screen_att nsa (some att) s =
    if is_usable nsa att
    then record s {
      refs = set s.refs nsa.nsa_att (make_ref nsa att);
      any_strrefs = s.any_strrefs || nsa.is_strref;
      any_valid_atts = true;
    }
    else record s {
      refs = set s.refs nsa.nsa_att null_ref;
      any_strrefs = s.any_strrefs || nsa.is_strref;
      found_invalid_att = true;
    }

unfoldable pub screen_atts : Template → List NonStdAtt → Screening → Screening
unfolding screen_att lookup_att
screen_atts t [] s = s
screen_atts t (nsa ∷ nsas) s = screen_atts t nsas (screen_att nsa (lookup_att t nsa) s)

unfoldable pub is_null_ref : Option AttRef → Bool
is_null_ref (some null_ref) = true
is_null_ref (some _) = false
is_null_ref none = true

unfoldable pub is_maybe : Fuzzy → Bool
is_maybe fuzzy_maybe = true
is_maybe _ = false

-- The second loop: the first missing attribute that decides the query.
unfoldable pub first_decisive : List AttRef → List NonStdAtt → Fuzzy
unfolding is_null_ref is_maybe
first_decisive refs [] = fuzzy_maybe
first_decisive refs (nsa ∷ nsas) =
    let rest = first_decisive refs nsas in
    if is_null_ref (get_elem? refs nsa.nsa_att)
    then if is_maybe nsa.result_if_missing then rest else nsa.result_if_missing
    else rest

-- `malloc` leaves the array unset; every entry is written by the loop.
unfoldable pub blank_refs : List NonStdAtt → List AttRef
blank_refs nsas = map (λ nsa. null_ref) nsas

unfoldable pub init_screening : List NonStdAtt → Screening
unfolding blank_refs
init_screening nsas = record {
  refs = blank_refs nsas;
  any_valid_atts = false;
  any_strrefs = false;
  found_invalid_att = false;
}

-- The verdict of `screenUnpopulatedTemplate` after its first loop.
unfoldable pub screen_verdict : NonStdAtts → Screening → Fuzzy
unfolding first_decisive
screen_verdict ns s =
    if not s.any_valid_atts
    then ns.result_if_all_missing
    else if not s.found_invalid_att
    then fuzzy_maybe
    else first_decisive s.refs ns.ns_atts

-- `fixStructRefs` on one entry, and the value behind the pointer once the clone is populated.
unfoldable pub populated_ref : Template → AttRef → Option Attribute
populated_ref t null_ref = none
populated_ref t (clone_ref n) = t.populated_att n
populated_ref t (master_ref n att) = t.populated_att n

-- What `prepareNonStdAtts` leaves: its verdict, `tmplAtts`, whether `ec->tmpl` is set, and how
-- often the template has been released so far.
pub record Prepared : Type 0 where
  pub verdict : Fuzzy
  pub tmpl_atts : TmplAtts
  pub has_tmpl : Bool
  pub releases : ℕ

unfoldable pub no_refs : List AttRef → List (Option Attribute)
no_refs refs = map (λ r. none) refs

-- The branch that releases the template and returns the verdict.
unfoldable pub screened_out : Fuzzy → List AttRef → Prepared
unfolding no_refs
screened_out fb refs = record {
  verdict = fb;
  tmpl_atts = some (no_refs refs);
  has_tmpl = true;
  releases = 1;
}

-- `if (!ec->anyValidAtts || fb != evlFuzzyMaybe)`, and the populated template otherwise.
unfoldable pub prepare_verdict : Template → List AttRef → Bool → Fuzzy → Prepared
unfolding screened_out populated_ref
prepare_verdict t refs true fuzzy_maybe = record {
  verdict = fuzzy_maybe;
  tmpl_atts = some (map (populated_ref t) refs);
  has_tmpl = true;
  releases = 0;
}
prepare_verdict t refs any_valid fb = screened_out fb refs

unfoldable pub prepare_screened : Template → NonStdAtts → Screening → Prepared
unfolding screen_verdict prepare_verdict
prepare_screened t ns s = prepare_verdict t s.refs s.any_valid_atts (screen_verdict ns s)

-- `prepareNonStdAtts`; the option is what `evl_gettemplate` finds.
unfoldable pub prepare_nonstd_atts : Option Template → NonStdAtts → Prepared
unfolding screen_atts init_screening prepare_screened
prepare_nonstd_atts none ns = record {
  verdict = ns.result_if_all_missing;
  tmpl_atts = none;
  has_tmpl = false;
  releases = 0;
}
prepare_nonstd_atts (some t) ns =
    prepare_screened t ns (screen_atts t ns.ns_atts (init_screening ns.ns_atts))

-- The result of a query, with the number of releases of the template.
pub record Outcome : Type 0 where
  pub truth : Option Bool
  pub released : ℕ

unfoldable pub right_of : Pnode → Pnode
right_of (op_node op l r) = r
right_of t = t

unfoldable pub is_fuzzy_true : Fuzzy → Bool
is_fuzzy_true fuzzy_true = true
is_fuzzy_true _ = false

unfoldable pub left_verdict : Op → Bool → Fuzzy
left_verdict conj_later true = fuzzy_maybe
left_verdict conj_later false = fuzzy_false
left_verdict _ true = fuzzy_true
left_verdict _ false = fuzzy_maybe

unfoldable pub left_of : Op → Option Bool → Option (Fuzzy × Bool)
unfolding left_verdict
left_of op none = none
left_of op (some b) = some (left_verdict op b, true)

-- `evaluateLeft`: its result, and whether `*leftResult` was set. `none` is a failed assertion.
module _ (env : EvalEnv) (e : Entry) (buf : Text) where
  unfoldable pub evaluate_left : Pnode → Option (Fuzzy × Bool)
  unfolding left_of
  evaluate_left (op_node conj_later l r) = left_of conj_later (evaluate_tree env none e buf l)
  evaluate_left (op_node disj_later l r) = left_of disj_later (evaluate_tree env none e buf l)
  evaluate_left _ = some (fuzzy_maybe, false)

  -- The end of `evaluateNsaTree`: the verdict or the evaluation, and the release.
  unfoldable pub finish_nsa : Pnode → Prepared → Outcome
  unfolding is_maybe is_fuzzy_true
  finish_nsa t p = record {
    truth =
        if is_maybe p.verdict
        then evaluate_tree env p.tmpl_atts e buf t
        else some (is_fuzzy_true p.verdict);
    released = if p.has_tmpl then p.releases + 1 else p.releases;
  }

  unfoldable pub after_left : Option Template → NonStdAtts → Pnode → Option (Fuzzy × Bool) → Outcome
  unfolding finish_nsa prepare_nonstd_atts right_of is_maybe is_fuzzy_true
  after_left tmpl ns t none = record { truth = none; released = 0 }
  after_left tmpl ns t (some (fb, was_set)) =
      if is_maybe fb
      then finish_nsa (if was_set then right_of t else t) (prepare_nonstd_atts tmpl ns)
      else record { truth = some (is_fuzzy_true fb); released = 0 }

  -- `evaluateNsaTree`
  unfoldable pub evaluate_nsa_tree : Option Template → NonStdAtts → Pnode → Outcome
  unfolding after_left evaluate_left
  evaluate_nsa_tree tmpl ns t = after_left tmpl ns t (evaluate_left t)

  -- `_evlQEvaluateTree`
  unfoldable pub evaluate_query : Option Template → Option NonStdAtts → Pnode → Outcome
  unfolding evaluate_nsa_tree
  evaluate_query tmpl (some ns) t = evaluate_nsa_tree tmpl ns t
  evaluate_query tmpl none t = record { truth = evaluate_tree env none e buf t; released = 0 }
