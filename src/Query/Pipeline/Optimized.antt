-- ===== src/Query/Pipeline/Optimized.antt =====
-- user/lib/query/qopt.c: what `_evlQOptimizeTree` makes of normal trees, and its evaluation.
use mathlib.Core.Path.{subst}
use evlog.Prelude.{
  All, ℕ, suc, true, Option, none, some, List, [], ◌∷◌, map, Text, ◌≡◌, refl, sym, ap, ap₂, ◌∙◌,
}
use evlog.Query.Tree.{
  Op, negation, conj, disj, conj_later, disj_later, Pnode, null, name, attname, nsaname, val,
  string, regex, op_node, Entry, Fuzzy, fuzzy_not, fuzzy_and, fuzzy_or, NonStdAtt, NonStdAtts,
}
use evlog.Query.Attribute.{Attribute, TmplAtts}
use evlog.Query.Evaluate.{EvalEnv, evaluate_tree}
use evlog.Query.Normal.{IsNormal, holds, HasTexts}
use evlog.Query.Total.{evaluate_tree-holds}
use evlog.Query.Optimize.Missing.{simulate_missing_nsa, fuzzy₂}
use evlog.Query.Optimize.Annotate.{annotate_atts, annotate, reorder_tree, optimize_tree}
use evlog.Query.Optimize.Classify.{IsDivisible, refers}
use evlog.Query.Optimize.DivideSound.{Divided, whole, parted, later_of, divide_tree-Divided}
use evlog.Query.Screen.{Template, lookup_att, evaluate_query}
use evlog.Query.Screen.Refs.{resolve, usable_att, reference_atts, IsIndexed}
use evlog.Query.Screen.Verdict.{IsAnnotated}
use evlog.Query.Pipeline.{evaluate_nsa_tree-holds}

abbrev Defined : Option Fuzzy → Type 0
Defined o = (f : Fuzzy) × (o ≡ some f)

both-Defined :
    (k : Fuzzy → Fuzzy → Fuzzy) {a b : Option Fuzzy}
    → Defined a
    → Defined b
    → Defined (fuzzy₂ k a b)
unfolding fuzzy₂
both-Defined k (f, p) (g, q) = (k f g, rw (p, q))

module _ (nsa : Option ℕ) where
  simulate-Defined : (t : Pnode) → IsNormal t → Defined (simulate_missing_nsa nsa t)
  unfolding simulate_missing_nsa
  simulate-Defined (attname a n) h = (_, refl)
  simulate-Defined (nsaname i n) h = (_, refl)
  simulate-Defined (op_node negation l r) h =
      let (f, p) = simulate-Defined l h in (fuzzy_not f, rw p)
  simulate-Defined (op_node conj l r) h =
      both-Defined fuzzy_and (simulate-Defined l h.0) (simulate-Defined r h.1)
  simulate-Defined (op_node disj l r) h =
      both-Defined fuzzy_or (simulate-Defined l h.0) (simulate-Defined r h.1)
  simulate-Defined (op_node conj_later l r) h = elim h [ ]
  simulate-Defined (op_node disj_later l r) h = elim h [ ]
  simulate-Defined (op_node op l r) h = (_, refl)
  simulate-Defined null h = elim h [ ]
  simulate-Defined (name n) h = elim h [ ]
  simulate-Defined (val m w) h = elim h [ ]
  simulate-Defined (string s) h = elim h [ ]
  simulate-Defined (regex s) h = elim h [ ]

  later-Defined :
      (root : Op) (l r : Pnode)
      → IsDivisible root
      → IsNormal l
      → IsNormal r
      → Defined (simulate_missing_nsa nsa (op_node (later_of root) l r))
  unfolding simulate_missing_nsa
  later-Defined conj l r h nl nr =
      both-Defined fuzzy_and (simulate-Defined l nl) (simulate-Defined r nr)
  later-Defined disj l r h nl nr =
      both-Defined fuzzy_or (simulate-Defined l nl) (simulate-Defined r nr)
  later-Defined _ l r h nl nr = elim h [ ]

Divided-Defined :
    {env : EvalEnv} {atts : TmplAtts} {e : Entry} {buf : Text} {t t' : Pnode} (nsa : Option ℕ)
    → Divided env atts e buf t t'
    → Defined (simulate_missing_nsa nsa t')
Divided-Defined {t} nsa (whole n) = simulate-Defined nsa t n
Divided-Defined nsa (parted root l r h cl nr same) = later-Defined nsa root l r h cl.1 nr

usable-annotated :
    (tm : Template) (nsa : NonStdAtt) (f : Fuzzy) (o : Option Attribute)
    → usable_att tm (record nsa { result_if_missing = f }) o ≡ usable_att tm nsa o
unfolding usable_att
usable-annotated tm nsa f none = refl
usable-annotated tm nsa f (some att) = refl

-- The annotation of a list: it succeeds, records the predictions, and changes nothing else.
module _ (t : Pnode) (sim : (nsa : Option ℕ) → Defined (simulate_missing_nsa nsa t)) where
  abbrev Annotates : List NonStdAtt → List NonStdAtt → Type 0
  Annotates nsas nsas' =
      (annotate_atts t nsas ≡ some nsas')
      × All (λ nsa. simulate_missing_nsa (some nsa.nsa_att) t ≡ some nsa.result_if_missing) nsas'
      × ((k : ℕ) → IsIndexed k nsas → IsIndexed k nsas')
      × ((tm : Template) → map (resolve tm) nsas' ≡ map (resolve tm) nsas)

  annotate_atts_lem : (nsas : List NonStdAtt) → (nsas' : List NonStdAtt) × Annotates nsas nsas'
  unfolding annotate_atts resolve lookup_att
  annotate_atts_lem [] = ([], (refl, tt, λ k h. h, λ tm. refl))
  annotate_atts_lem (nsa ∷ nsas) =
      let (f, p) = sim (some nsa.nsa_att) in
      let (nsas', (q, all, ix, same)) = annotate_atts_lem nsas in
      (
        record nsa { result_if_missing = f } ∷ nsas',
        (
          rw (p, q),
          (p, all),
          λ k h. (h.0, ix (suc k) h.1),
          λ tm. ap₂ ◌∷◌ (usable-annotated tm nsa f (lookup_att tm nsa)) (same tm),
        ),
      )

  annotate_lem :
      (ns : NonStdAtts)
      → (ns' : NonStdAtts) × (annotate t ns ≡ some ns')
        × IsAnnotated t ns'
        × (IsIndexed 0 ns.ns_atts → IsIndexed 0 ns'.ns_atts)
        × ((tmpl : Option Template)
            → reference_atts tmpl ns'.ns_atts ≡ reference_atts tmpl ns.ns_atts)
  unfolding annotate reference_atts
  annotate_lem ns =
      let (nsas', (q, all, ix, same)) = annotate_atts_lem ns.ns_atts in
      let (f, p) = sim none in
      (
        record { ns_atts = nsas'; result_if_all_missing = f },
        rw (q, p),
        record { all_missing = p; each_missing = all },
        ix 0,
        elim [ none ↦ refl | some tm ↦ ap some (same tm) ],
      )

-- Optimisation of such a tree succeeds, whatever it is evaluated on.
pub optimize_tree-some :
    (env : EvalEnv) (e : Entry) (t : Pnode) (ns : NonStdAtts)
    → IsNormal t
    → refers t ≡ true
    → (t' : Pnode) × (ns' : NonStdAtts) × (optimize_tree t (some ns) ≡ some (t', some ns'))
      × Divided env none e [] t t'
unfolding optimize_tree reorder_tree
optimize_tree-some env e t ns n refs =
    let (t', eq, d) = divide_tree-Divided env none e [] t n refs in
    let (ns', eq', _, _, _) = annotate_lem t' (λ nsa. Divided-Defined nsa d) ns in
    (t', ns', rw (eq, eq'), d)

module _ (env : EvalEnv) (e : Entry) (buf : Text) (tmpl : Option Template) (t : Pnode)
    (ns : NonStdAtts) where
  -- Optimisation of a normal tree that refers to a non-standard attribute succeeds, with a list
  -- whose indices count up. When the texts that the evaluation asks for are there, the optimised
  -- query, evaluated with its short cuts, has the result of the plain evaluation of the tree on
  -- the attributes of the populated template.
  pub optimize_tree-evaluate :
      IsNormal t
      → refers t ≡ true
      → IsIndexed 0 ns.ns_atts
      → HasTexts env (reference_atts tmpl ns.ns_atts) e
      → (t' : Pnode) × (ns' : NonStdAtts) × (optimize_tree t (some ns) ≡ some (t', some ns'))
        × ((evaluate_query env e buf tmpl (some ns') t').truth
            ≡ evaluate_tree env (reference_atts tmpl ns.ns_atts) e buf t)
  unfolding optimize_tree reorder_tree evaluate_query
  optimize_tree-evaluate n refs ix ok =
      let atts = reference_atts tmpl ns.ns_atts in
      let (t', eq, d) = divide_tree-Divided env atts e buf t n refs in
      let (ns', eq', ann, ix', same) = annotate_lem t' (λ nsa. Divided-Defined nsa d) ns in
      (
        t',
        ns',
        rw (eq, eq'),
        evaluate_nsa_tree-holds env e buf tmpl ns'
              (subst (λ a. HasTexts env a e) (sym (same tmpl)) ok) (ix' ix)
              (subst (λ a. Divided env a e buf t t') (sym (same tmpl)) d) ann
            ∙ ap (λ (a : TmplAtts). some (holds env a e buf t)) (same tmpl)
            ∙ sym (evaluate_tree-holds env atts e buf ok t n),
      )
