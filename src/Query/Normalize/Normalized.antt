-- ===== src/Query/Normalize/Normalized.antt =====
-- user/lib/query/normalize.c: trees as the grammar (query.y) builds them, and what
-- `_evlQNormalizeTree` makes of them.
use mathlib.Core.Option.{some-injective}
use mathlib.Core.Path.{subst}
use evlog.Prelude.{
  All, ℕ, Bool, true, false, Option, none, some, [], ◌∷◌, Text, codes, text_eq, eq_of_text_eq,
  Bool-cases, inl, inr, ◌≡◌, refl, sym, arith,
}
use evlog.Query.Tree.{
  Op, contains, negation, conj, disj, conj_later, disj_later, Attr, host, Pnode, null, name,
  attname, nsaname, val, string, regex, op_node,
}
use evlog.Query.Normal.{AttOperand, OperandOf, IsOperand, IsAttNode, IsNormal}
use evlog.Query.Normalize.Result.{Result, NormEnv, Ensures, Ensures-bind, Ensures-if, Ensures-mono}
use evlog.Query.Normalize.Names.{NvPairs, evl_attributes, get_value_by_name}
use evlog.Query.Normalize.Operand.{standard_int_ops, verified_integer, normalize_string_or_regex}
use evlog.Query.Normalize.Member.{normalize_member}
use evlog.Query.Normalize.Operands.{verified_integer-Fits, normalize_string_or_regex-Fits}
use evlog.Query.Normalize.NormalForm.{KeepsName, member-AttOperand}
use evlog.Query.Normalize.Analysis.{
  State, make_attname_node, make_attname_of, other_attname, normalize_nonstd, normalize_right,
  normalize_comparison, normalize_tree,
}

abbrev pub IsNameNode : Pnode → Type 0
IsNameNode (name s) = Unit
IsNameNode _ = ⊥

abbrev pub IsParsedOperand : Pnode → Type 0
IsParsedOperand (name s) = Unit
IsParsedOperand (val minus w) = Unit
IsParsedOperand (string s) = Unit
IsParsedOperand _ = ⊥

-- The trees that the actions of query.y build.
abbrev pub IsParsed : Pnode → Type 0
IsParsed (name s) = Unit
IsParsed (op_node negation l r) = IsParsed l × (r ≡ null)
IsParsed (op_node conj l r) = IsParsed l × IsParsed r
IsParsed (op_node disj l r) = IsParsed l × IsParsed r
IsParsed (op_node conj_later l r) = ⊥
IsParsed (op_node disj_later l r) = ⊥
IsParsed (op_node op l r) = IsNameNode l × IsParsedOperand r
IsParsed _ = ⊥

-- `host contains x`, with a bare name on the right.
abbrev pub IsHostName : Op → Pnode → Pnode → Type 0
IsHostName contains (name h) (name s) = h ≡ codes "host"
IsHostName _ _ _ = ⊥

abbrev pub AvoidsHostName : Pnode → Type 0
AvoidsHostName (op_node negation l r) = AvoidsHostName l
AvoidsHostName (op_node conj l r) = AvoidsHostName l × AvoidsHostName r
AvoidsHostName (op_node disj l r) = AvoidsHostName l × AvoidsHostName r
AvoidsHostName (op_node op l r) = ¬ IsHostName op l r
AvoidsHostName _ = Unit

-- A node that a name is turned into: an attribute, and that of the host only for the name "host".
abbrev HostOnly : Text → Pnode → Type 0
HostOnly s (attname host n) = s ≡ codes "host"
HostOnly s _ = Unit

abbrev AttNode : Text → Pnode × State → Type 0
AttNode s (node, st) = IsAttNode node × HostOnly s node

abbrev is_host : Attr → Bool
is_host host = true
is_host _ = false

no_host :
    (table : NvPairs Attr) (s : Text) {a : Attr}
    → All (λ p. is_host p.1 ≡ false) table
    → get_value_by_name table s ≡ some a
    → is_host a ≡ false
unfolding get_value_by_name
no_host [] s h p = cc
no_host ((n, v) ∷ table) s {a} h p = elim (Bool-cases (text_eq n s)) [
  | inl q ↦ subst (λ b. is_host b ≡ false) (some-injective v a (rw q at p)) h.0
  | inr q ↦ no_host table s h.1 (rw q at p)
]

attributes_no_host : All (λ (p : Text × Attr). is_host p.1 ≡ false) evl_attributes
attributes_no_host = ground arith

HostOnly-of : (s n : Text) (a : Attr) → is_host a ≡ false → HostOnly s (attname a n)
HostOnly-of s n host h = cc
HostOnly-of s n _ h = tt

other_attname-AttNode : (s : Text) (st : State) → Ensures (AttNode s) (other_attname s st)
unfolding other_attname
other_attname-AttNode s st =
    Ensures-if (AttNode s) (text_eq s (codes "data")) _ _
      (λ p. Ensures-if (AttNode s) st.restricted_flag _ _ (λ q. tt) (λ q. (tt, tt)))
      (λ p.
        Ensures-if (AttNode s) (text_eq s (codes "age")) _ _ (λ q. (tt, tt))
          (λ q.
            Ensures-if (AttNode s) (text_eq s (codes "host")) _ _ (λ r. (tt, eq_of_text_eq s _ r))
              (λ r. Ensures-if (AttNode s) st.template_flag _ _ (λ t. (tt, tt)) (λ t. tt))))

make_attname_of-AttNode :
    (s : Text) (st : State) (o : Option Attr)
    → ((a : Attr) → o ≡ some a → is_host a ≡ false)
    → Ensures (AttNode s) (make_attname_of s st o)
unfolding make_attname_of
make_attname_of-AttNode s st none h = other_attname-AttNode s st
make_attname_of-AttNode s st (some a) h = (tt, HostOnly-of s s a (h a refl))

make_attname_node-AttNode : (s : Text) (st : State) → Ensures (AttNode s) (make_attname_node s st)
unfolding make_attname_node
make_attname_node-AttNode s st =
    make_attname_of-AttNode s st _ (λ a p. no_host evl_attributes s attributes_no_host p)

-- A comparison of an attribute with an operand.
abbrev Compared : Op → Pnode × State → Type 0
Compared op (node, st) =
    (l : Pnode) × (r : Pnode) × (node ≡ op_node op l r) × IsAttNode l × OperandOf l r

nonstd-Fits :
    (env : NormEnv) (op : Op) (i : ℕ) (att : Text) (right : Pnode) (st : State)
    → Ensures (λ p. IsOperand p.0) (normalize_nonstd env op i att right st)
unfolding normalize_nonstd
nonstd-Fits env op i att (val m w) st =
    Ensures-bind IsOperand (λ p. IsOperand p.0)
      (verified_integer false 8 op standard_int_ops att (val m w)) _
      (verified_integer-Fits false 8 op standard_int_ops att (val m w)) (λ v h. h)
nonstd-Fits env op i att (string s) st =
    Ensures-bind IsOperand (λ p. IsOperand p.0) (normalize_string_or_regex env op att s) _
      (normalize_string_or_regex-Fits env op att s) (λ v h. h)
nonstd-Fits env op i att _ st = tt

right-Compared :
    (env : NormEnv) (op : Op) (left right : Pnode) (st : State)
    → IsAttNode left
    → ((a : Attr) (n : Text) → left ≡ attname a n → ¬ KeepsName a op right)
    → Ensures (Compared op) (normalize_right env op left right st)
unfolding normalize_right
right-Compared env op (nsaname i n) right st h k =
    Ensures-bind (λ p. IsOperand p.0) (Compared op) (normalize_nonstd env op i n right st) _
      (nonstd-Fits env op i n right st) (λ p q. (nsaname i n, p.0, refl, tt, q))
right-Compared env op (attname a n) right st h k =
    Ensures-bind (AttOperand a) (Compared op) (normalize_member env a op n right) _
      (member-AttOperand env a op n right (k a n refl)) (λ v q. (attname a n, v, refl, tt, q))
right-Compared env op _ right st h k = tt

keeps_none :
    (s : Text) (a : Attr) (n : Text) (op : Op) (right : Pnode)
    → HostOnly s (attname a n)
    → ¬ IsHostName op (name s) right
    → ¬ KeepsName a op right
keeps_none s host n contains (name x) h avoid = λ k. avoid h
keeps_none s _ n _ _ h avoid = λ k. k

comparison-Compared :
    (env : NormEnv) (op : Op) (l r : Pnode) (st : State)
    → ¬ IsHostName op l r
    → Ensures (Compared op) (normalize_comparison env op l r st)
unfolding normalize_comparison
comparison-Compared env op (name s) r st avoid =
    Ensures-bind (AttNode s) (Compared op) (make_attname_node s st) _
      (make_attname_node-AttNode s st)
      (λ p h.
        right-Compared env op p.0 r p.1 h.0
          (λ a n e. keeps_none s a n op r (subst (HostOnly s) e h.1) avoid))
comparison-Compared env op _ r st avoid = tt

abbrev pub NormalResult : Pnode × State → Type 0
NormalResult p = IsNormal p.0

Compared-Normal :
    (op : Op) (m : Result (Pnode × State))
    → ((l r : Pnode) → IsAttNode l → OperandOf l r → IsNormal (op_node op l r))
    → Ensures (Compared op) m
    → Ensures NormalResult m
Compared-Normal op m k h =
    Ensures-mono (Compared op) NormalResult m h
      (λ p c. let (l, r, e, hl, hr) = c in subst IsNormal (sym e) (k l r hl hr))

att_node-IsNormal : (node : Pnode) → IsAttNode node → IsNormal node
att_node-IsNormal (attname a n) h = tt
att_node-IsNormal (nsaname i n) h = tt
att_node-IsNormal null h = elim h [ ]
att_node-IsNormal (name s) h = elim h [ ]
att_node-IsNormal (val m w) h = elim h [ ]
att_node-IsNormal (string s) h = elim h [ ]
att_node-IsNormal (regex s) h = elim h [ ]
att_node-IsNormal (op_node op l r) h = elim h [ ]

module _ (env : NormEnv) where
  pub normalize_tree-NormalResult :
      (t : Pnode) (st : State)
      → IsParsed t
      → AvoidsHostName t
      → Ensures NormalResult (normalize_tree env t st)
  unfolding normalize_tree
  normalize_tree-NormalResult (name s) st h avoid =
      Ensures-mono (AttNode s) NormalResult (make_attname_node s st)
        (make_attname_node-AttNode s st) (λ p a. att_node-IsNormal p.0 a.0)
  normalize_tree-NormalResult (op_node negation l r) st h avoid =
      Ensures-bind NormalResult NormalResult (normalize_tree env l st) _
        (normalize_tree-NormalResult l st h.0 avoid) (λ p n. n)
  normalize_tree-NormalResult (op_node conj l r) st h avoid =
      Ensures-bind NormalResult NormalResult (normalize_tree env l st) _
        (normalize_tree-NormalResult l st h.0 avoid.0)
        (λ p n.
          Ensures-bind NormalResult NormalResult (normalize_tree env r p.1) _
            (normalize_tree-NormalResult r p.1 h.1 avoid.1) (λ q m. (n, m)))
  normalize_tree-NormalResult (op_node disj l r) st h avoid =
      Ensures-bind NormalResult NormalResult (normalize_tree env l st) _
        (normalize_tree-NormalResult l st h.0 avoid.0)
        (λ p n.
          Ensures-bind NormalResult NormalResult (normalize_tree env r p.1) _
            (normalize_tree-NormalResult r p.1 h.1 avoid.1) (λ q m. (n, m)))
  normalize_tree-NormalResult (op_node conj_later l r) st h avoid = elim h [ ]
  normalize_tree-NormalResult (op_node disj_later l r) st h avoid = elim h [ ]
  normalize_tree-NormalResult (op_node op l r) st h avoid =
      Compared-Normal op (normalize_comparison env op l r st) (λ x y hx hy. (hx, hy))
        (comparison-Compared env op l r st avoid)
  normalize_tree-NormalResult null st h avoid = elim h [ ]
  normalize_tree-NormalResult (attname a n) st h avoid = elim h [ ]
  normalize_tree-NormalResult (nsaname i n) st h avoid = elim h [ ]
  normalize_tree-NormalResult (val m w) st h avoid = elim h [ ]
  normalize_tree-NormalResult (string s) st h avoid = elim h [ ]
  normalize_tree-NormalResult (regex s) st h avoid = elim h [ ]
