-- ===== src/Query/Pipeline.antt =====
-- user/lib/query: the evaluation (evaluate.c) of divided and annotated queries (qopt.c), with its
-- short cuts.
pub mod Optimized
use mathlib.Core.Option.{some-injective}
use evlog.Prelude.{
  All, ◌⊎◌, ℕ, zero, suc, Bool, true, false, not, ◌||◌, ◌&&◌, if◌then◌else◌, Option, none, some,
  List, [], ◌∷◌, map, Text, ◌≡◌, refl, sym, ap, ap₂, ◌∙◌, arith, Bool-cases, Option-cases, inl, inr,
}
use evlog.Query.Tree.{
  Op, negation, conj, disj, conj_later, disj_later, Pnode, null, name, attname, nsaname, val,
  string, regex, op_node, Entry, Fuzzy, fuzzy_false, fuzzy_maybe, fuzzy_true, NonStdAtt, NonStdAtts,
}
use evlog.Query.Attribute.{TmplAtts, present_att}
use evlog.Query.Evaluate.{
  EvalEnv, evaluate_tree, evaluate_comparison, evaluate_std_comparison, or_else,
}
use evlog.Query.Normal.{IsNormal, IsAttNode, is_true, holds, HasTexts}
use evlog.Query.Total.{evaluate_tree-holds}
use evlog.Query.Optimize.Divide.{refs_nonstd_atts, is_nsaname, divide_tree, ◌>>=◌}
use evlog.Query.Optimize.Missing.{
  simulate_missing_nsa, missing_comparison, missing_std, missing_nsa, fuzzy₁, fuzzy₂,
}
use evlog.Query.Optimize.MissingSound.{Agrees}
use evlog.Query.Optimize.Annotate.{annotate_atts, annotate, reorder_tree, optimize_tree}
use evlog.Query.Optimize.Classify.{IsChosen, IsPure, IsDivisible, join, refers, refs-some}
use evlog.Query.Optimize.DivideSound.{
  Divided, whole, parted, later_of, divide_tree-Divided, holds-later,
}
use evlog.Query.Screen.{
  Template, is_maybe, is_fuzzy_true, Prepared, prepare_nonstd_atts, evaluate_left, left_of,
  left_verdict, finish_nsa, after_left, right_of, evaluate_nsa_tree, evaluate_query,
}
use evlog.Query.Screen.Refs.{resolve, reference_atts, IsIndexed}
use evlog.Query.Screen.Verdict.{IsAnnotated, IsPrepared, prepare-IsPrepared}

-- A tree that refers to standard attributes alone means the same whatever the template.
or_pure : (a b : Option Bool) → or_else a b ≡ some false → (a ≡ some false) × (b ≡ some false)
unfolding or_else
or_pure none b h = cc
or_pure (some true) b h = cc
or_pure (some false) b h = (refl, h)

module _ (env : EvalEnv) (atts atts' : TmplAtts) (e : Entry) (buf : Text) where
  pure_comparison :
      (op : Op) (l r : Pnode)
      → IsAttNode l
      → is_nsaname l ≡ false
      → evaluate_comparison env atts e buf op l r ≡ evaluate_comparison env atts' e buf op l r
  unfolding evaluate_comparison is_nsaname
  pure_comparison op (attname a n) r h p = refl
  pure_comparison op (nsaname i n) r h p = cc
  pure_comparison op null r h p = elim h [ ]
  pure_comparison op (name n) r h p = elim h [ ]
  pure_comparison op (val m w) r h p = elim h [ ]
  pure_comparison op (string s) r h p = elim h [ ]
  pure_comparison op (regex s) r h p = elim h [ ]
  pure_comparison op (op_node o l m) r h p = elim h [ ]

  holds_pure :
      (t : Pnode) → IsNormal t → IsPure t → holds env atts e buf t ≡ holds env atts' e buf t
  unfolding holds refs_nonstd_atts
  holds_pure (attname a n) h p = refl
  holds_pure (nsaname i n) h p = absurd (cc)
  holds_pure (op_node negation l r) h p = ap not (holds_pure l h p)
  holds_pure (op_node conj l r) h p =
      let (pl, pr) = or_pure _ _ p in ap₂ ◌&&◌ (holds_pure l h.0 pl) (holds_pure r h.1 pr)
  holds_pure (op_node disj l r) h p =
      let (pl, pr) = or_pure _ _ p in ap₂ ◌||◌ (holds_pure l h.0 pl) (holds_pure r h.1 pr)
  holds_pure (op_node conj_later l r) h p = elim h [ ]
  holds_pure (op_node disj_later l r) h p = elim h [ ]
  holds_pure (op_node op l r) h p = ap is_true (pure_comparison op l r h.0 (some-injective _ _ p))
  holds_pure null h p = elim h [ ]
  holds_pure (name n) h p = elim h [ ]
  holds_pure (val m w) h p = elim h [ ]
  holds_pure (string s) h p = elim h [ ]
  holds_pure (regex s) h p = elim h [ ]

no_template_texts :
    {env : EvalEnv} {atts : TmplAtts} {e : Entry} → HasTexts env atts e → HasTexts env none e
unfolding present_att
no_template_texts h = record { member_text = h.member_text; att_text = λ i att p. absurd (cc p) }

decided : (f : Fuzzy) (b : Bool) → is_maybe f ≡ false → Agrees f b → is_fuzzy_true f ≡ b
unfolding is_maybe is_fuzzy_true
decided fuzzy_false b m h = sym h
decided fuzzy_maybe b m h = cc
decided fuzzy_true b m h = sym h

-- With the left part of a divided query true (or false), the right part has the query's meaning.
left_decides :
    (root : Op) (a b : Bool)
    → IsDivisible root
    → Agrees (left_verdict (later_of root) a) (join root a b)
unfolding left_verdict
left_decides conj true b h = tt
left_decides conj false b h = refl
left_decides disj true b h = refl
left_decides disj false b h = tt
left_decides _ a b h = elim h [ ]

right_decides :
    (root : Op) (a b : Bool)
    → IsDivisible root
    → is_maybe (left_verdict (later_of root) a) ≡ true
    → b ≡ join root a b
unfolding left_verdict is_maybe
right_decides conj true b h m = refl
right_decides conj false b h m = cc
right_decides disj true b h m = cc
right_decides disj false b h m = refl
right_decides _ a b h m = elim h [ ]

handed_over : {A : Type 0} (b : Bool) → b ≡ true → (b ≡ false) ⊎ A → A
handed_over true m (inl h) = absurd (cc h)
handed_over true m (inr a) = a
handed_over false m h = absurd (cc m)

module _ (env : EvalEnv) (e : Entry) (buf : Text) (atts : TmplAtts) (ok : HasTexts env atts e) where
  -- The verdict of a prepared evaluation, or the evaluation of a tree, is the meaning of `q`, if
  -- the tree means what `q` does.
  finish_lem :
      (q t : Pnode) (p : Prepared)
      → IsPrepared env e buf q atts p
      → IsNormal t
      → holds env atts e buf t ≡ holds env atts e buf q
      → (finish_nsa env e buf t p).truth ≡ some (holds env atts e buf q)
  unfolding finish_nsa is_fuzzy_true
  finish_lem q t p pr n same = elim (Bool-cases (is_maybe p.verdict)) [
    | inl m ↦
        rw (m, handed_over _ m pr.complete, evaluate_tree-holds env atts e buf ok t n)
          (ap some same)
    | inr m ↦ rw m (ap some (decided p.verdict _ m pr.agrees))
  ]

evaluate_left-normal :
    (env : EvalEnv) (e : Entry) (buf : Text) (t : Pnode)
    → IsNormal t
    → evaluate_left env e buf t ≡ some (fuzzy_maybe, false)
unfolding evaluate_left
evaluate_left-normal env e buf (op_node conj_later l r) n = elim n [ ]
evaluate_left-normal env e buf (op_node disj_later l r) n = elim n [ ]
evaluate_left-normal env e buf _ n = refl

evaluate_left-later :
    (env : EvalEnv) (e : Entry) (buf : Text) (root : Op) (l r : Pnode)
    → IsDivisible root
    → evaluate_left env e buf (op_node (later_of root) l r)
      ≡ left_of (later_of root) (evaluate_tree env none e buf l)
unfolding evaluate_left
evaluate_left-later env e buf conj l r h = refl
evaluate_left-later env e buf disj l r h = refl
evaluate_left-later env e buf _ l r h = elim h [ ]

module _ (env : EvalEnv) (e : Entry) (buf : Text) (tmpl : Option Template) (ns : NonStdAtts)
    (ok : HasTexts env (reference_atts tmpl ns.ns_atts) e) (ix : IsIndexed 0 ns.ns_atts) where
  parted_lem :
      (root : Op) (l r : Pnode)
      → IsDivisible root
      → IsNormal r
      → IsAnnotated (op_node (later_of root) l r) ns
      → (after_left env e buf tmpl ns (op_node (later_of root) l r) (
          some (
            left_verdict (later_of root) (holds env (reference_atts tmpl ns.ns_atts) e buf l),
            true,
          ))).truth
        ≡ some (holds env (reference_atts tmpl ns.ns_atts) e buf (op_node (later_of root) l r))
  unfolding after_left right_of
  parted_lem root l r h nr ann =
      let atts = reference_atts tmpl ns.ns_atts in
      let a = holds env atts e buf l in
      let b = holds env atts e buf r in
      let q = op_node (later_of root) l r in
      let split = holds-later env atts e buf root l r h in
      elim (Bool-cases (is_maybe (left_verdict (later_of root) a))) [
        | inl m ↦ rw m (
            finish_lem env e buf atts ok q r _ (prepare-IsPrepared env e buf q tmpl ns ann ix) nr
              (right_decides root a b h m ∙ sym split))
        | inr m ↦ rw m (
            ap some
              (decided (left_verdict (later_of root) a) _ m (left_decides root a b h) ∙ sym split))
      ]

  -- The evaluation of a divided tree with its short cuts is the meaning of the tree that was
  -- divided, when the list of non-standard attributes is annotated for the divided tree and its
  -- indices count up, and the texts that the evaluation asks for are there.
  pub evaluate_nsa_tree-holds :
      {t t' : Pnode}
      → Divided env (reference_atts tmpl ns.ns_atts) e buf t t'
      → IsAnnotated t' ns
      → (evaluate_nsa_tree env e buf tmpl ns t').truth
        ≡ some (holds env (reference_atts tmpl ns.ns_atts) e buf t)
  unfolding evaluate_nsa_tree
  evaluate_nsa_tree-holds {t} (whole n) ann = rw (evaluate_left-normal env e buf t n) (
      unfold after_left is_maybe in
      finish_lem env e buf _ ok t t _ (prepare-IsPrepared env e buf t tmpl ns ann ix) n refl)
  evaluate_nsa_tree-holds (parted root l r h cl nr same) ann =
      rw
        (
          evaluate_left-later env e buf root l r h,
          evaluate_tree-holds env none e buf (no_template_texts ok) l cl.1,
          holds_pure env none (reference_atts tmpl ns.ns_atts) e buf l cl.1 cl.0,
        )
        (unfold left_of in parted_lem root l r h nr ann ∙ ap some same)
