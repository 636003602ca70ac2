-- ===== src/Query/Normalize/Tracking.antt =====
-- user/lib/query/normalize.c: the list of non-standard attributes in the course of the analysis.
use mathlib.Core.Path.{subst}
use evlog.Prelude.{
  ℕ, Bool, true, false, ◌||◌, Option, none, some, Text, text_eq, codes, Option-cases, inl, inr, ◌≡◌,
  refl, ◌∙◌, sym, ap, arith,
}
use evlog.Query.Tree.{
  Op, negation, conj, disj, conj_later, disj_later, Attr, Pnode, null, name, attname, nsaname, val,
  string, regex, op_node,
}
use evlog.Query.Normal.{IsNormal, is_true}
use evlog.Query.Optimize.Divide.{refs_nonstd_atts, is_nsaname}
use evlog.Query.Optimize.Classify.{refers, IsDivisible}
use evlog.Query.Optimize.Classify.Adding.{refers-join}
use evlog.Query.Normalize.Result.{
  Result, ok, err, NormEnv, Ensures, Ensures-bind, Ensures-after, Ensures-if, Ensures-mono,
}
use evlog.Query.Normalize.Names.{evl_attributes, get_value_by_name}
use evlog.Query.Normalize.Operand.{standard_int_ops, verified_integer, normalize_string_or_regex}
use evlog.Query.Normalize.Member.{normalize_member}
use evlog.Query.Normalize.Normalized.{
  IsParsed, AvoidsHostName, NormalResult, normalize_tree-NormalResult,
}
use evlog.Query.Normalize.Register.{
  IsValid, has_list, register_nonstd_att-IsValid, mark_nonstd-IsIndexed,
}
use evlog.Query.Normalize.Analysis.{
  State, register_nonstd_att, other_attname, make_attname_of, make_attname_node, mark_nonstd,
  normalize_nonstd, normalize_right, normalize_comparison, normalize_tree,
}

-- What the analysis of a tree does to the list.
abbrev pub Tracks : State → Pnode × State → Type 0
Tracks st (t, st') = IsValid st' × (has_list st' ≡ has_list st || refers t)

or_false : (a : Bool) → a ≡ a || false
or_false a = ground arith

or_true : (a : Bool) → true ≡ a || true
or_true a = ground arith

or_chain : (a b c d e : Bool) → b ≡ a || d → c ≡ b || e → c ≡ a || (d || e)
or_chain a b c d e p q = ground arith

unchanged : (st : State) (a : Attr) (n : Text) → IsValid st → Tracks st (attname a n, st)
unfolding refs_nonstd_atts is_true
unchanged st a n v = (v, or_false (has_list st))

registered :
    (st : State) (s : Text)
    → IsValid st
    → Tracks st (nsaname (register_nonstd_att s st).0 s, (register_nonstd_att s st).1)
unfolding refs_nonstd_atts is_true
registered st s v =
    let (v', l) = register_nonstd_att-IsValid s st v in (v', l ∙ or_true (has_list st))

other_attname-Tracks :
    (s : Text) (st : State) → IsValid st → Ensures (Tracks st) (other_attname s st)
unfolding other_attname
other_attname-Tracks s st v =
    Ensures-if (Tracks st) (text_eq s (codes "data")) _ _
      (λ p. Ensures-if (Tracks st) st.restricted_flag _ _ (λ q. tt) (λ q. unchanged st _ s v))
      (λ p.
        Ensures-if (Tracks st) (text_eq s (codes "age")) _ _ (λ q. unchanged st _ s v)
          (λ q.
            Ensures-if (Tracks st) (text_eq s (codes "host")) _ _ (λ r. unchanged st _ s v)
              (λ r.
                Ensures-if (Tracks st) st.template_flag _ _ (λ t. registered st s v) (λ t. tt))))

make_attname_of-Tracks :
    (s : Text) (st : State) (o : Option Attr)
    → IsValid st
    → Ensures (Tracks st) (make_attname_of s st o)
unfolding make_attname_of
make_attname_of-Tracks s st none v = other_attname-Tracks s st v
make_attname_of-Tracks s st (some a) v = unchanged st a s v

make_attname-Tracks :
    (s : Text) (st : State) → IsValid st → Ensures (Tracks st) (make_attname_node s st)
unfolding make_attname_node
make_attname-Tracks s st v = make_attname_of-Tracks s st (get_value_by_name evl_attributes s) v

-- A state whose list is there or not as before.
abbrev Keeps : State → State → Type 0
Keeps st st' = IsValid st' × (has_list st' ≡ has_list st)

has_list-mark :
    (i : ℕ) (st : State) → has_list (record st { nonstd = mark_nonstd i st.nonstd }) ≡ has_list st
unfolding mark_nonstd
has_list-mark i st = elim (Option-cases st.nonstd) [ inl p ↦ rw p | inr (ns, p) ↦ rw p ]

nonstd-Keeps :
    (env : NormEnv) (op : Op) (i : ℕ) (att : Text) (right : Pnode) (st : State)
    → IsValid st
    → Ensures (λ p. Keeps st p.1) (normalize_nonstd env op i att right st)
unfolding normalize_nonstd
nonstd-Keeps env op i att (val m w) st v =
    Ensures-after (λ p. Keeps st p.1) (verified_integer false 8 op standard_int_ops att (val m w)) _
      (λ x. (record { indexed = mark_nonstd-IsIndexed i st.nonstd v.indexed }, has_list-mark i st))
nonstd-Keeps env op i att (string s) st v =
    Ensures-after (λ p. Keeps st p.1) (normalize_string_or_regex env op att s) _ (λ x. (v, refl))
nonstd-Keeps env op i att _ st v = tt

-- A comparison, its attribute and the list.
abbrev Compares : Op → State → Pnode × State → Type 0
Compares op st (node, st') =
    IsValid st'
    × ((l : Pnode) × (r : Pnode) × (node ≡ op_node op l r)
        × (has_list st' ≡ has_list st || is_nsaname l))

right-Compares :
    (env : NormEnv) (op : Op) (left right : Pnode) (st st₁ : State)
    → IsValid st₁
    → has_list st₁ ≡ has_list st || refers left
    → Ensures (Compares op st) (normalize_right env op left right st₁)
unfolding normalize_right refs_nonstd_atts is_nsaname is_true
right-Compares env op (nsaname i n) right st st₁ v h =
    Ensures-bind (λ p. Keeps st₁ p.1) (Compares op st) (normalize_nonstd env op i n right st₁) _
      (nonstd-Keeps env op i n right st₁ v) (λ p k. (k.0, (nsaname i n, p.0, refl, k.1 ∙ h)))
right-Compares env op (attname a n) right st st₁ v h =
    Ensures-after (Compares op st) (normalize_member env a op n right) _
      (λ x. (v, (attname a n, x, refl, h)))
right-Compares env op _ right st st₁ v h = tt

comparison-Compares :
    (env : NormEnv) (op : Op) (l r : Pnode) (st : State)
    → IsValid st
    → Ensures (Compares op st) (normalize_comparison env op l r st)
unfolding normalize_comparison
comparison-Compares env op (name s) r st v =
    Ensures-bind (Tracks st) (Compares op st) (make_attname_node s st) _
      (make_attname-Tracks s st v) (λ p t. right-Compares env op p.0 r st p.1 t.0 t.1)
comparison-Compares env op _ r st v = tt

Compares-Tracks :
    (op : Op) (st : State) (m : Result (Pnode × State))
    → ((l r : Pnode) → refers (op_node op l r) ≡ is_nsaname l)
    → Ensures (Compares op st) m
    → Ensures (Tracks st) m
Compares-Tracks op st m k h = Ensures-mono (Compares op st) (Tracks st) m h (λ p c.
    let (v, (l, r, e, q)) = c in
    (v, q ∙ ap (λ b. has_list st || b) (sym (k l r) ∙ ap refers (sym e))))

-- The tree is normal, and the list is there exactly if it was or the tree refers to it.
abbrev pub Analysed : State → Pnode × State → Type 0
Analysed st p = NormalResult p × Tracks st p

both-Ensures :
    (st : State) (m : Result (Pnode × State))
    → Ensures NormalResult m
    → Ensures (Tracks st) m
    → Ensures (Analysed st) m
both-Ensures st (ok p) h k = (h, k)
both-Ensures st (err e) h k = tt

-- Two subtrees in turn.
pair-Analysed :
    (root : Op) (st : State) (p q : Pnode × State)
    → IsDivisible root
    → ((l r : Pnode) → IsNormal l → IsNormal r → IsNormal (op_node root l r))
    → Analysed st p
    → Analysed p.1 q
    → Analysed st (op_node root p.0 q.0, q.1)
pair-Analysed root st p q div k a b = (
  k p.0 q.0 a.0 b.0,
  (
    b.1.0,
    or_chain (has_list st) (has_list p.1) (has_list q.1) (refers p.0) (refers q.0) a.1.1 b.1.1
        ∙ ap (λ x. has_list st || x) (sym (refers-join root p.0 q.0 div a.0)),
  ),
)

module _ (env : NormEnv) where
  pub normalize_tree-Ensures :
      (t : Pnode) (st : State)
      → IsParsed t
      → AvoidsHostName t
      → IsValid st
      → Ensures (Analysed st) (normalize_tree env t st)
  unfolding normalize_tree refs_nonstd_atts is_true
  normalize_tree-Ensures (name s) st h avoid v =
      both-Ensures st (make_attname_node s st) (normalize_tree-NormalResult env (name s) st h avoid)
        (make_attname-Tracks s st v)
  normalize_tree-Ensures (op_node negation l r) st h avoid v =
      Ensures-bind (Analysed st) (Analysed st) (normalize_tree env l st) _
        (normalize_tree-Ensures l st h.0 avoid v) (λ p a. a)
  normalize_tree-Ensures (op_node conj l r) st h avoid v =
      Ensures-bind (Analysed st) (Analysed st) (normalize_tree env l st) _
        (normalize_tree-Ensures l st h.0 avoid.0 v)
        (λ p a.
          Ensures-bind (Analysed p.1) (Analysed st) (normalize_tree env r p.1) _
            (normalize_tree-Ensures r p.1 h.1 avoid.1 a.1.0)
            (λ q b. pair-Analysed conj st p q tt (λ x y nx ny. (nx, ny)) a b))
  normalize_tree-Ensures (op_node disj l r) st h avoid v =
      Ensures-bind (Analysed st) (Analysed st) (normalize_tree env l st) _
        (normalize_tree-Ensures l st h.0 avoid.0 v)
        (λ p a.
          Ensures-bind (Analysed p.1) (Analysed st) (normalize_tree env r p.1) _
            (normalize_tree-Ensures r p.1 h.1 avoid.1 a.1.0)
            (λ q b. pair-Analysed disj st p q tt (λ x y nx ny. (nx, ny)) a b))
  normalize_tree-Ensures (op_node conj_later l r) st h avoid v = elim h [ ]
  normalize_tree-Ensures (op_node disj_later l r) st h avoid v = elim h [ ]
  normalize_tree-Ensures (op_node op l r) st h avoid v =
      both-Ensures st (normalize_comparison env op l r st)
        (normalize_tree-NormalResult env (op_node op l r) st h avoid)
        (Compares-Tracks op st _ (λ x y. refl) (comparison-Compares env op l r st v))
  normalize_tree-Ensures null st h avoid v = elim h [ ]
  normalize_tree-Ensures (attname a n) st h avoid v = elim h [ ]
  normalize_tree-Ensures (nsaname i n) st h avoid v = elim h [ ]
  normalize_tree-Ensures (val m w) st h avoid v = elim h [ ]
  normalize_tree-Ensures (string s) st h avoid v = elim h [ ]
  normalize_tree-Ensures (regex s) st h avoid v = elim h [ ]

  -- What the analysis makes of a tree of the grammar that it accepts and that does not compare the
  -- host by `contains` with a bare name: the tree is normal, the list of non-standard attributes
  -- stays well-formed, and there is a list exactly if there was one before or the tree refers to
  -- such an attribute.
  pub normalize_tree-Analysed :
      (t : Pnode) (st : State) (p : Pnode × State)
      → IsParsed t
      → AvoidsHostName t
      → IsValid st
      → normalize_tree env t st ≡ ok p
      → Analysed st p
  normalize_tree-Analysed t st p h avoid v eq =
      subst (Ensures (Analysed st)) eq (normalize_tree-Ensures t st h avoid v)
