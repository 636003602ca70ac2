-- ===== src/Query/Optimize/Classify.antt =====
-- user/lib/query/qopt.c: what `diClassify` gathers from a tree.
pub mod Adding
use evlog.Prelude.{
  All, suc, ◌+◌, Bool, true, false, ◌&&◌, ◌||◌, some, Text, List, [], ◌∷◌, ◌++◌, length,
  length-append, ◌≡◌, refl, arith, ap, sym, ◌∙◌,
}
use evlog.Query.Tree.{
  Op, negation, conj, disj, conj_later, disj_later, Pnode, null, name, attname, nsaname, val,
  string, regex, op_node, Entry,
}
use evlog.Query.Attribute.{TmplAtts}
use evlog.Query.Evaluate.{EvalEnv, or_else}
use evlog.Query.Normal.{IsNormal, is_true, holds}
use evlog.Query.Optimize.Divide.{
  refs_nonstd_atts, is_nsaname, DivInfo, di_place, di_leaf, di_classify,
}

abbrev pub IsDivisible : Op → Type 0
IsDivisible conj = Unit
IsDivisible disj = Unit
IsDivisible _ = ⊥

-- The root operator on truth values, and the value of an empty list.
abbrev pub join : Op → Bool → Bool → Bool
join conj a b = a && b
join _ a b = a || b

abbrev pub neutral : Op → Bool
neutral conj = true
neutral _ = false

pub All-append {ℓ κ} :
    {A : Type ℓ} (P : A → Type κ) (xs ys : List A) → All P xs → All P ys → All P (xs ++ ys)
All-append P [] ys h k = k
All-append P (x ∷ xs) ys h k = (h.0, All-append P xs ys h.1 k)

abbrev pub IsPure : Pnode → Type 0
IsPure t = refs_nonstd_atts t ≡ some false

-- What the left subtree of a divided query is.
abbrev pub IsChosen : Pnode → Type 0
IsChosen t = IsPure t × IsNormal t

abbrev pub is_cons : List Pnode → Bool
is_cons [] = false
is_cons (t ∷ ts) = true

abbrev pub refers : Pnode → Bool
refers t = is_true (refs_nonstd_atts t)

abbrev pub HasRoot : Op → Pnode → Type 0
HasRoot root (op_node op l r) = op ≡ root
HasRoot root _ = ⊥

-- On normal trees the test for non-standard attributes does not fail.
pub refs-some : (t : Pnode) → IsNormal t → (b : Bool) × (refs_nonstd_atts t ≡ some b)
unfolding refs_nonstd_atts or_else
refs-some (attname a n) h = (false, refl)
refs-some (nsaname i n) h = (true, refl)
refs-some (op_node negation l r) h = refs-some l h
refs-some (op_node conj l r) h =
    let (a, p) = refs-some l h.0 in
    let (b, q) = refs-some r h.1 in (a || b, rw (p, q) (ground arith))
refs-some (op_node disj l r) h =
    let (a, p) = refs-some l h.0 in
    let (b, q) = refs-some r h.1 in (a || b, rw (p, q) (ground arith))
refs-some (op_node conj_later l r) h = elim h [ ]
refs-some (op_node disj_later l r) h = elim h [ ]
refs-some (op_node op l r) h = (is_nsaname l, refl)
refs-some null h = elim h [ ]
refs-some (name n) h = elim h [ ]
refs-some (val m w) h = elim h [ ]
refs-some (string s) h = elim h [ ]
refs-some (regex p) h = elim h [ ]

module _ (env : EvalEnv) (atts : TmplAtts) (e : Entry) (buf : Text) (root : Op) where
  -- The value of a list of nodes under the root operator.
  abbrev pub combine : List Pnode → Bool
  combine [] = neutral root
  combine (t ∷ ts) = join root (holds env atts e buf t) (combine ts)

  abbrev pub value : DivInfo → Bool
  value di = join root (combine di.pure_list) (combine di.impure_list)

-- What holds of the lists at every moment.
pub record IsSorted (root : Op) (di : DivInfo) : Type 0 where
  pub pures : All IsChosen di.pure_list
  pub impures : All IsNormal di.impure_list
  pub recycled : All (HasRoot root) di.recycle_list

-- What classifying a tree adds to the lists: its value, and one recycled node less than others.
pub record Adds (env : EvalEnv) (atts : TmplAtts) (e : Entry) (buf : Text) (root : Op) (t : Pnode)
    (di di' : DivInfo) : Type 0 where
  pub sorted : IsSorted root di'
  pub same_value :
      value env atts e buf root di'
      ≡ join root (value env atts e buf root di) (holds env atts e buf t)
  pub same_refs : is_cons di'.impure_list ≡ is_cons di.impure_list || refers t
  pub same_count :
      length di'.pure_list + length di'.impure_list + length di.recycle_list
      ≡ suc (length di.pure_list + length di.impure_list + length di'.recycle_list)
