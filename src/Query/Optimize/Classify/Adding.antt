-- ===== src/Query/Optimize/Classify/Adding.antt =====
-- user/lib/query/qopt.c: the value of the lists of `diClassify` from tree to tree.
use evlog.Prelude.{
  Bool, true, false, ◌||◌, some, Text, List, [], ◌∷◌, ◌++◌, length-append, ◌≡◌, refl, arith, ap,
  sym, ◌∙◌,
}
use evlog.Query.Tree.{
  Op, conj, disj, Pnode, null, name, attname, nsaname, val, string, regex, op_node, Entry,
}
use evlog.Query.Attribute.{TmplAtts}
use evlog.Query.Evaluate.{EvalEnv, or_else}
use evlog.Query.Normal.{IsNormal, is_true, holds}
use evlog.Query.Optimize.Divide.{refs_nonstd_atts, DivInfo, di_place, di_leaf, di_classify}
use evlog.Query.Optimize.Classify.{
  Adds, All-append, HasRoot, IsChosen, IsDivisible, IsSorted, combine, is_cons, join, neutral,
  refers, refs-some,
}

join_assoc : (root : Op) (a b c : Bool) → join root (join root a b) c ≡ join root a (join root b c)
join_assoc conj a b c = ground arith
join_assoc _ a b c = ground arith

join_swap : (root : Op) (a b c : Bool) → join root (join root a b) c ≡ join root (join root a c) b
join_swap conj a b c = ground arith
join_swap _ a b c = ground arith

pub join-neutral : (root : Op) (a : Bool) → join root a (neutral root) ≡ a
join-neutral conj a = ground arith
join-neutral _ a = ground arith

pub neutral-join : (root : Op) (a : Bool) → join root (neutral root) a ≡ a
neutral-join conj a = refl
neutral-join _ a = refl

or_of_true : (a b : Bool) → b ≡ true → (a || b) ≡ true
or_of_true a b h = ground arith

or_of_false : (a b : Bool) → b ≡ false → (a || b) ≡ a
or_of_false a b h = ground arith

or_steps : (x y z a b c : Bool) → y ≡ x || a → z ≡ y || b → c ≡ a || b → z ≡ x || c
or_steps x y z a b c p q r = ground arith

refers-eq : (t : Pnode) {b : Bool} → refs_nonstd_atts t ≡ some b → refers t ≡ b
unfolding is_true
refers-eq t p = rw p

is_cons-append : (xs : List Pnode) (t : Pnode) → is_cons (xs ++ t ∷ []) ≡ true
is_cons-append [] t = refl
is_cons-append (x ∷ xs) t = refl

pub refers-join :
    (root : Op) (l r : Pnode)
    → IsDivisible root
    → IsNormal l
    → refers (op_node root l r) ≡ refers l || refers r
unfolding refs_nonstd_atts is_true or_else
refers-join conj l r h n = let (b, p) = refs-some l n in rw p (ground arith)
refers-join disj l r h n = let (b, p) = refs-some l n in rw p (ground arith)
refers-join _ l r h n = elim h [ ]

pub holds-join :
    (env : EvalEnv) (atts : TmplAtts) (e : Entry) (buf : Text) (root : Op) (l r : Pnode)
    → IsDivisible root
    → holds env atts e buf (op_node root l r)
      ≡ join root (holds env atts e buf l) (holds env atts e buf r)
unfolding holds
holds-join env atts e buf conj l r h = refl
holds-join env atts e buf disj l r h = refl
holds-join env atts e buf _ l r h = elim h [ ]

-- The node of the root operator goes to the list of nodes to reuse.
abbrev recycle : Op → Pnode → Pnode → DivInfo → DivInfo
recycle op l r di = record di { recycle_list = di.recycle_list ++ op_node op l r ∷ [] }

recycle-IsSorted :
    (root : Op) (l r : Pnode) (di : DivInfo)
    → IsSorted root di
    → IsSorted root (recycle root l r di)
recycle-IsSorted root l r di s = record {
  pures = s.pures;
  impures = s.impures;
  recycled = All-append (HasRoot root) di.recycle_list _ s.recycled (refl, tt);
}

module _ (env : EvalEnv) (atts : TmplAtts) (e : Entry) (buf : Text) where
  combine-append :
      (root : Op) (xs : List Pnode) (t : Pnode)
      → combine env atts e buf root (xs ++ t ∷ [])
        ≡ join root (combine env atts e buf root xs) (holds env atts e buf t)
  combine-append root [] t = join-neutral root _ ∙ sym (neutral-join root _)
  combine-append root (x ∷ xs) t =
      ap (join root (holds env atts e buf x)) (combine-append root xs t)
      ∙ sym (join_assoc root _ _ _)

  place-Adds :
      (root : Op) (t : Pnode) (di : DivInfo) (b : Bool)
      → IsSorted root di
      → IsNormal t
      → refs_nonstd_atts t ≡ some b
      → Adds env atts e buf root t di (di_place t di b)
  unfolding di_place
  place-Adds root t di true s n p = record {
    sorted = record {
      pures = s.pures;
      impures = All-append IsNormal di.impure_list _ s.impures (n, tt);
      recycled = s.recycled;
    };
    same_refs =
        is_cons-append di.impure_list t
        ∙ sym (or_of_true (is_cons di.impure_list) _ (refers-eq t p));
    same_value =
        ap (join root _) (combine-append root di.impure_list t) ∙ sym (join_assoc root _ _ _);
    same_count = omega (arith, length-append di.impure_list (t ∷ []));
  }
  place-Adds root t di false s n p = record {
    sorted = record {
      pures = All-append IsChosen di.pure_list _ s.pures ((p, n), tt);
      impures = s.impures;
      recycled = s.recycled;
    };
    same_refs = sym (or_of_false (is_cons di.impure_list) _ (refers-eq t p));
    same_value =
        ap (λ (b : Bool). join root b (combine env atts e buf root di.impure_list))
          (combine-append root di.pure_list t)
        ∙ join_swap root _ _ _;
    same_count = omega (arith, length-append di.pure_list (t ∷ []));
  }

  leaf-Adds :
      (root : Op) (t : Pnode) (di : DivInfo)
      → IsNormal t
      → IsSorted root di
      → (di' : DivInfo) × (di_leaf t di ≡ some di') × Adds env atts e buf root t di di'
  unfolding di_leaf
  leaf-Adds root t di h s =
      let (b, p) = refs-some t h in (di_place t di b, rw p, place-Adds root t di b s h p)

  -- Two subtrees, one after the other, after their parent has been recycled.
  split-Adds :
      (root : Op) (l r : Pnode) (di d₁ d₂ : DivInfo)
      → IsDivisible root
      → IsNormal l
      → IsNormal r
      → Adds env atts e buf root l (recycle root l r di) d₁
      → Adds env atts e buf root r d₁ d₂
      → Adds env atts e buf root (op_node root l r) di d₂
  split-Adds root l r di d₁ d₂ h nl nr a b = record {
    sorted = b.sorted;
    same_value =
        b.same_value
        ∙ ap (λ (x : Bool). join root x (holds env atts e buf r)) a.same_value
        ∙ join_assoc root _ _ _
        ∙ ap (join root _) (sym (holds-join env atts e buf root l r h));
    same_refs =
        or_steps (is_cons di.impure_list) (is_cons d₁.impure_list) (is_cons d₂.impure_list)
          (refers l) (refers r) (refers (op_node root l r)) a.same_refs b.same_refs
          (refers-join root l r h nl);
    same_count =
        omega (
          arith,
          a.same_count,
          b.same_count,
          length-append di.recycle_list (op_node root l r ∷ []),
        );
  }

  -- Classification of a normal tree, from lists that are sorted, does not fail. It keeps them
  -- sorted, adds the value of the tree and its references, and recycles one node less than it adds
  -- to the lists.
  pub di_classify-Adds :
      (root : Op) (t : Pnode) (di : DivInfo)
      → IsDivisible root
      → IsNormal t
      → IsSorted root di
      → (di' : DivInfo) × (di_classify root t di ≡ some di') × Adds env atts e buf root t di di'
  unfolding di_classify
  di_classify-Adds conj (op_node conj l r) di h n s =
      let (d₁, p, a) =
        di_classify-Adds conj l (recycle conj l r di) tt n.0 (recycle-IsSorted conj l r di s) in
      let (d₂, q, b) = di_classify-Adds conj r d₁ tt n.1 a.sorted in
      (d₂, rw p q, split-Adds conj l r di d₁ d₂ tt n.0 n.1 a b)
  di_classify-Adds disj (op_node disj l r) di h n s =
      let (d₁, p, a) =
        di_classify-Adds disj l (recycle disj l r di) tt n.0 (recycle-IsSorted disj l r di s) in
      let (d₂, q, b) = di_classify-Adds disj r d₁ tt n.1 a.sorted in
      (d₂, rw p q, split-Adds disj l r di d₁ d₂ tt n.0 n.1 a b)
  di_classify-Adds conj (op_node op l r) di h n s = leaf-Adds conj (op_node op l r) di n s
  di_classify-Adds disj (op_node op l r) di h n s = leaf-Adds disj (op_node op l r) di n s
  di_classify-Adds root (op_node op l r) di h n s = elim h [ ]
  di_classify-Adds root null di h n s = elim n [ ]
  di_classify-Adds root (name x) di h n s = elim n [ ]
  di_classify-Adds root (attname a x) di h n s = leaf-Adds root (attname a x) di n s
  di_classify-Adds root (nsaname i x) di h n s = leaf-Adds root (nsaname i x) di n s
  di_classify-Adds root (val m w) di h n s = elim n [ ]
  di_classify-Adds root (string x) di h n s = elim n [ ]
  di_classify-Adds root (regex x) di h n s = elim n [ ]
