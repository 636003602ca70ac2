-- ===== src/Query/Total.antt =====
-- user/lib/query/evaluate.c: the assertions and the result of `evaluateTree` on normal trees.
use evlog.Prelude.{
  ℕ, Bool, false, ◌==◌, Option, none, some, Text, ◌≡◌, refl, arith, Option-cases, Bool-cases, inl,
  inr,
}
use evlog.Query.Tree.{
  Op, negation, conj, disj, conj_later, disj_later, Attr, body, host, Pnode, null, name, attname,
  nsaname, val, string, regex, op_node, Entry, age,
}
use evlog.Query.Attribute.{TmplAtts, Attribute, present_att}
use evlog.Query.Evaluate.{
  EvalEnv, compare_text_status, compare_text, compare_att, compare_present, compare_member_text,
  evaluate_nonstd_comparison, evaluate_std_comparison, evaluate_comparison, evaluate_tree,
  posix_log_string,
}
use evlog.Query.Normal.{
  IsAttNode, IsOperand, AttOperand, OperandOf, IsNormal, is_true, holds, HasTexts,
}

abbrev IsText : Pnode → Type 0
IsText (string s) = Unit
IsText (regex p) = Unit
IsText _ = ⊥

abbrev Defined : Option Bool → Type 0
Defined r = (b : Bool) × (r ≡ some b)

module _ (env : EvalEnv) (op : Op) where
  compare_text-Defined : (r : Pnode) (s : Text) → IsText r → Defined (compare_text env op r s)
  unfolding compare_text
  compare_text-Defined (string t) s h = (_, refl)
  compare_text-Defined (regex p) s h = (_, refl)
  compare_text-Defined null s h = elim h [ ]
  compare_text-Defined (name n) s h = elim h [ ]
  compare_text-Defined (attname a n) s h = elim h [ ]
  compare_text-Defined (nsaname i n) s h = elim h [ ]
  compare_text-Defined (val m w) s h = elim h [ ]
  compare_text-Defined (op_node o l r) s h = elim h [ ]

  status-Defined :
      (r : Pnode) (o : Option Text)
      → IsText r
      → ((s : Text) × (o ≡ some s))
      → Defined (compare_text_status env op r o)
  unfolding compare_text_status
  status-Defined r none t h = cc (h.1)
  status-Defined r (some s) t h = compare_text-Defined r s t

module _ (env : EvalEnv) (atts : TmplAtts) (e : Entry) (buf : Text) (ok : HasTexts env atts e) where
  member-Defined :
      (op : Op) (a : Attr) (r : Pnode)
      → IsText r
      → AttOperand a r
      → Defined (compare_member_text env op a e buf r)
  unfolding compare_member_text
  member-Defined op body r t k = elim (Bool-cases (e.log_format == posix_log_string)) [
    | inl p ↦ rw p (status-Defined env op r (some buf) t (buf, refl))
    | inr p ↦ (false, rw p)
  ]
  member-Defined op host r t k = status-Defined env op r _ t (_, refl)
  member-Defined op age (string s) t k = elim k [ ]
  member-Defined op age (regex p) t k = elim k [ ]
  member-Defined op age _ t k = elim t [ ]
  member-Defined op a r t k = status-Defined env op r _ t (ok.member_text a tt)

  operand : (a : Attr) (r : Pnode) → AttOperand a r → IsOperand r
  operand age (val m w) h = tt
  operand age null h = elim h [ ]
  operand age (name n) h = elim h [ ]
  operand age (attname b n) h = elim h [ ]
  operand age (nsaname i n) h = elim h [ ]
  operand age (string s) h = elim h [ ]
  operand age (regex p) h = elim h [ ]
  operand age (op_node o l r) h = elim h [ ]
  operand _ r h = h

  std-Defined :
      (op : Op) (a : Attr) (r : Pnode)
      → IsOperand r
      → AttOperand a r
      → Defined (evaluate_std_comparison env op a e buf r)
  unfolding evaluate_std_comparison
  std-Defined op a (val m w) h k = (_, refl)
  std-Defined op a (string s) h k = member-Defined op a (string s) h k
  std-Defined op a (regex p) h k = member-Defined op a (regex p) h k
  std-Defined op a null h k = elim h [ ]
  std-Defined op a (name n) h k = elim h [ ]
  std-Defined op a (attname b n) h k = elim h [ ]
  std-Defined op a (nsaname i n) h k = elim h [ ]
  std-Defined op a (op_node o l r) h k = elim h [ ]

  att-Defined :
      (op : Op) (att : Attribute) (r : Pnode)
      → ((s : Text) × (att.att_string ≡ some s))
      → IsOperand r
      → Defined (compare_att env op att r)
  unfolding compare_att
  att-Defined op att (val m w) t h = (_, refl)
  att-Defined op att (string s) t h = status-Defined env op (string s) att.att_string h t
  att-Defined op att (regex p) t h = status-Defined env op (regex p) att.att_string h t
  att-Defined op att null t h = elim h [ ]
  att-Defined op att (name n) t h = elim h [ ]
  att-Defined op att (attname b n) t h = elim h [ ]
  att-Defined op att (nsaname i n) t h = elim h [ ]
  att-Defined op att (op_node o l r) t h = elim h [ ]

  present-Defined :
      (op : Op) (r : Pnode) (i : ℕ)
      → IsOperand r
      → Defined (evaluate_nonstd_comparison env op atts i r)
  unfolding evaluate_nonstd_comparison
  present-Defined op r i h = elim (Option-cases (present_att atts i)) [
    | inl p ↦ rw p (unfold compare_present in (false, refl))
    | inr (att, p) ↦ rw p (unfold compare_present in att-Defined op att r (ok.att_text i att p) h)
  ]

  pub comparison-Defined :
      (op : Op) (l r : Pnode)
      → IsAttNode l
      → OperandOf l r
      → Defined (evaluate_comparison env atts e buf op l r)
  unfolding evaluate_comparison
  comparison-Defined op (nsaname i n) r hl hr = present-Defined op r i hr
  comparison-Defined op (attname a n) r hl hr = std-Defined op a r (operand a r hr) hr
  comparison-Defined op null r hl hr = elim hl [ ]
  comparison-Defined op (name n) r hl hr = elim hl [ ]
  comparison-Defined op (val m w) r hl hr = elim hl [ ]
  comparison-Defined op (string s) r hl hr = elim hl [ ]
  comparison-Defined op (regex p) r hl hr = elim hl [ ]
  comparison-Defined op (op_node o l m) r hl hr = elim hl [ ]

  is_true-Defined : (r : Option Bool) → Defined r → r ≡ some (is_true r)
  unfolding is_true
  is_true-Defined r (b, p) = rw p

  -- On a normal tree, when the texts that the evaluation asks for are there, it ends without a
  -- failed assertion, in the meaning of the query: the short-circuit evaluation of its connectives
  -- gives what logic gives.
  pub evaluate_tree-holds :
      (t : Pnode) → IsNormal t → evaluate_tree env atts e buf t ≡ some (holds env atts e buf t)
  unfolding evaluate_tree holds
  evaluate_tree-holds (attname a n) h = refl
  evaluate_tree-holds (nsaname i n) h = refl
  evaluate_tree-holds (op_node negation l r) h = rw (evaluate_tree-holds l h)
  evaluate_tree-holds (op_node conj l r) h =
      rw (evaluate_tree-holds l h.0, evaluate_tree-holds r h.1) (ground arith)
  evaluate_tree-holds (op_node disj l r) h =
      rw (evaluate_tree-holds l h.0, evaluate_tree-holds r h.1) (ground arith)
  evaluate_tree-holds (op_node conj_later l r) h = elim h [ ]
  evaluate_tree-holds (op_node disj_later l r) h = elim h [ ]
  evaluate_tree-holds (op_node op l r) h = is_true-Defined _ (comparison-Defined op l r h.0 h.1)
  evaluate_tree-holds null h = elim h [ ]
  evaluate_tree-holds (name n) h = elim h [ ]
  evaluate_tree-holds (val m w) h = elim h [ ]
  evaluate_tree-holds (string s) h = elim h [ ]
  evaluate_tree-holds (regex p) h = elim h [ ]
