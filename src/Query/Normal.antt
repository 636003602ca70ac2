-- ===== src/Query/Normal.antt =====
-- Normal trees, those on which evaluation is defined, and what a query means: a Boolean for every
-- tree, the reference for the evaluation and for the optimisations of user/lib/query.
use evlog.Prelude.{ℕ, Bool, true, false, not, ◌&&◌, ◌||◌, Option, none, some, Text, ◌≡◌}
use evlog.Query.Tree.{
  negation, conj, disj, conj_later, disj_later, Attr, Pnode, null, attname, nsaname, val, string,
  regex, op_node, Entry, body, age, host,
}
use evlog.Query.Attribute.{TmplAtts, Attribute, present_att}
use evlog.Query.Evaluate.{EvalEnv, has_attribute, is_present, evaluate_comparison}

abbrev pub IsAttNode : Pnode → Type 0
IsAttNode (attname a n) = Unit
IsAttNode (nsaname i n) = Unit
IsAttNode _ = ⊥

abbrev pub IsOperand : Pnode → Type 0
IsOperand (val minus w) = Unit
IsOperand (string s) = Unit
IsOperand (regex p) = Unit
IsOperand _ = ⊥

abbrev pub IsValue : Pnode → Type 0
IsValue (val minus w) = Unit
IsValue _ = ⊥

-- The operands of an attribute's comparisons: an age is compared with a number only.
abbrev pub AttOperand : Attr → Pnode → Type 0
AttOperand age r = IsValue r
AttOperand _ r = IsOperand r

abbrev pub OperandOf : Pnode → Pnode → Type 0
OperandOf (attname a n) r = AttOperand a r
OperandOf _ r = IsOperand r

-- Connectives over attributes and over comparisons of an attribute with an operand.
abbrev pub IsNormal : Pnode → Type 0
IsNormal (attname a n) = Unit
IsNormal (nsaname i n) = Unit
IsNormal (op_node negation l r) = IsNormal l
IsNormal (op_node conj l r) = IsNormal l × IsNormal r
IsNormal (op_node disj l r) = IsNormal l × IsNormal r
IsNormal (op_node conj_later l r) = ⊥
IsNormal (op_node disj_later l r) = ⊥
IsNormal (op_node op l r) = IsAttNode l × OperandOf l r
IsNormal _ = ⊥

unfoldable pub is_true : Option Bool → Bool
is_true none = false
is_true (some b) = b

module _ (env : EvalEnv) (atts : TmplAtts) (e : Entry) (buf : Text) where
  -- The reference: the connectives of the query as those of logic, with no order of evaluation.
  -- A null query matches everything.
  unfoldable pub holds : Pnode → Bool
  unfolding has_attribute is_present present_att is_true
  holds null = true
  holds (attname a n) = has_attribute a e
  holds (nsaname i n) = is_present (present_att atts i)
  holds (op_node negation l r) = not (holds l)
  holds (op_node conj l r) = holds l && holds r
  holds (op_node conj_later l r) = holds l && holds r
  holds (op_node disj l r) = holds l || holds r
  holds (op_node disj_later l r) = holds l || holds r
  holds (op_node op l r) = is_true (evaluate_comparison env atts e buf op l r)
  holds _ = false

-- The members of a record that `posix_log_memtostr` converts.
abbrev pub IsMember : Attr → Type 0
IsMember body = ⊥
IsMember age = ⊥
IsMember host = ⊥
IsMember _ = Unit

-- The texts that evaluation asks for are there: `posix_log_memtostr` and `evlatt_getstring`
-- succeed.
pub record HasTexts (env : EvalEnv) (atts : TmplAtts) (e : Entry) : Type 0 where
  pub member_text : (a : Attr) → IsMember a → (s : Text) × (env.memtostr a e ≡ some s)
  pub att_text :
      (i : ℕ) (att : Attribute)
      → present_att atts i ≡ some att
      → (s : Text) × (att.att_string ≡ some s)
