-- ===== src/Query/Optimize/DivideSound.antt =====
-- user/lib/query/qopt.c: `divideTree`, its assertions and the meaning of what it makes.
use evlog.Prelude.{
  All, suc, ◌+◌, ◌≤◌, Bool, true, ◌||◌, some, Text, List, [], ◌∷◌, length, ◌≡◌, refl, arith, ap,
  ap₂, sym, ◌∙◌,
}
use evlog.Query.Tree.{
  Op, conj, disj, conj_later, disj_later, Pnode, null, name, attname, nsaname, val, string, regex,
  op_node, Entry,
}
use evlog.Query.Attribute.{TmplAtts}
use evlog.Query.Evaluate.{EvalEnv, or_else}
use evlog.Query.Normal.{IsNormal, holds}
use evlog.Query.Optimize.Divide.{
  refs_nonstd_atts, DivInfo, di_rebuild_subtree, di_finish, di_choose, di_divided, all_used,
  no_nodes, divide_root, divide_tree, relink,
}
use evlog.Query.Optimize.Classify.{
  IsDivisible, join, neutral, combine, value, HasRoot, IsChosen, IsSorted, Adds, is_cons, refers,
}
use evlog.Query.Optimize.Classify.Adding.{
  join-neutral, holds-join, di_classify-Adds, neutral-join, refers-join,
}

-- A predicate that the root operator keeps.
abbrev Closed : Op → (Pnode → Type 0) → Type 0
Closed root P = (l r : Pnode) → P l → P r → P (op_node root l r)

module _ (env : EvalEnv) (atts : TmplAtts) (e : Entry) (buf : Text) (root : Op)
    (div : IsDivisible root) (P : Pnode → Type 0) (closed : Closed root P) where
  -- With enough nodes to reuse, the rebuilt subtree has the value of the list, and each node beyond
  -- the first takes one.
  rebuild_lem :
      (x : Pnode) (xs rec : List Pnode)
      → All P (x ∷ xs)
      → All (HasRoot root) rec
      → length xs ≤ length rec
      → (t : Pnode) × (rec' : List Pnode) × (di_rebuild_subtree (x ∷ xs) rec ≡ some (t, rec'))
        × (holds env atts e buf t ≡ combine env atts e buf root (x ∷ xs))
        × P t
        × All (HasRoot root) rec'
        × (length rec' + length xs ≡ length rec)
  unfolding di_rebuild_subtree relink
  rebuild_lem x [] rec ps hs le = (x, rec, refl, sym (join-neutral root _), ps.0, hs, omega arith)
  rebuild_lem x (y ∷ ys) [] ps hs le = absurd (omega arith)
  rebuild_lem x (y ∷ ys) (op_node o l r ∷ rec) ps hs le =
      let (t, rec', eq, val_eq, pt, hs', len) = rebuild_lem y ys rec ps.1 hs.1 (omega arith) in
      (
        op_node root x t,
        rec',
        rw (eq, hs.0),
        holds-join env atts e buf root x t div ∙ ap (join root _) val_eq,
        closed x t ps.0 pt,
        hs',
        omega (arith, len),
      )
  rebuild_lem x (y ∷ ys) (null ∷ rec) ps hs le = elim hs.0 [ ]
  rebuild_lem x (y ∷ ys) (name n ∷ rec) ps hs le = elim hs.0 [ ]
  rebuild_lem x (y ∷ ys) (attname a n ∷ rec) ps hs le = elim hs.0 [ ]
  rebuild_lem x (y ∷ ys) (nsaname i n ∷ rec) ps hs le = elim hs.0 [ ]
  rebuild_lem x (y ∷ ys) (val m w ∷ rec) ps hs le = elim hs.0 [ ]
  rebuild_lem x (y ∷ ys) (string s ∷ rec) ps hs le = elim hs.0 [ ]
  rebuild_lem x (y ∷ ys) (regex s ∷ rec) ps hs le = elim hs.0 [ ]

abbrev pub later_of : Op → Op
later_of conj = conj_later
later_of _ = disj_later

-- What `divideTree` may make of a tree: nothing, or a division of the same meaning into a left part
-- with no reference to non-standard attributes and a right part, both of them normal.
pub data Divided (env : EvalEnv) (atts : TmplAtts) (e : Entry) (buf : Text) (t : Pnode)
    : Pnode → Type 0 where
  whole : IsNormal t → Divided env atts e buf t t
  parted :
      (root : Op) (l r : Pnode)
      → IsDivisible root
      → IsChosen l
      → IsNormal r
      → holds env atts e buf (op_node (later_of root) l r) ≡ holds env atts e buf t
      → Divided env atts e buf t (op_node (later_of root) l r)

module _ (env : EvalEnv) (atts : TmplAtts) (e : Entry) (buf : Text) where
  pub holds-later :
      (root : Op) (l r : Pnode)
      → IsDivisible root
      → holds env atts e buf (op_node (later_of root) l r)
        ≡ join root (holds env atts e buf l) (holds env atts e buf r)
  unfolding holds
  holds-later conj l r h = refl
  holds-later disj l r h = refl
  holds-later _ l r h = elim h [ ]

  IsChosen-Closed : (root : Op) → IsDivisible root → Closed root IsChosen
  unfolding refs_nonstd_atts or_else
  IsChosen-Closed conj h l r cl cr = (rw (cl.0, cr.0), (cl.1, cr.1))
  IsChosen-Closed disj h l r cl cr = (rw (cl.0, cr.0), (cl.1, cr.1))
  IsChosen-Closed _ h l r cl cr = elim h [ ]

  IsNormal-Closed : (root : Op) → IsDivisible root → Closed root IsNormal
  IsNormal-Closed conj h l r nl nr = (nl, nr)
  IsNormal-Closed disj h l r nl nr = (nl, nr)
  IsNormal-Closed _ h l r nl nr = elim h [ ]

  all_used_lem : (t : Pnode) (ns : List Pnode) → length ns ≡ 0 → all_used t ns ≡ some t
  unfolding all_used
  all_used_lem t [] h = refl
  all_used_lem t (n ∷ ns) h = absurd (omega arith)

  -- Classified nodes whose number fits that of the recycled ones.
  divided_lem :
      (root : Op) (t : Pnode) (ps ns rec : List Pnode)
      → IsDivisible root
      → IsNormal t
      → IsSorted root (record { pure_list = ps; impure_list = ns; recycle_list = rec })
      → length ps + length ns ≡ suc (suc (length rec))
      → is_cons ns ≡ true
      → join root (combine env atts e buf root ps) (combine env atts e buf root ns)
        ≡ holds env atts e buf t
      → (t' : Pnode) × (di_divided
            (later_of root)
            t
            (record { pure_list = ps; impure_list = ns; recycle_list = rec })
          ≡ some t')
        × Divided env atts e buf t t'
  unfolding di_divided di_choose di_finish
  divided_lem root t ps [] rec h n s c some_impure v = cc
  divided_lem root t [] (y ∷ ys) rec h n s c some_impure v = (t, refl, whole n)
  divided_lem root t (x ∷ xs) (y ∷ ys) rec h n s c some_impure v =
      let (l, rec₁, eq₁, v₁, cl, hs₁, len₁) =
        rebuild_lem env atts e buf root h IsChosen (IsChosen-Closed root h) x xs rec s.pures
          s.recycled (omega arith) in
      let (r, rec₂, eq₂, v₂, nr, hs₂, len₂) =
        rebuild_lem env atts e buf root h IsNormal (IsNormal-Closed root h) y ys rec₁ s.impures hs₁
          (omega (arith, len₁)) in
      (
        op_node (later_of root) l r,
        rw (eq₁, eq₂) (all_used_lem (op_node (later_of root) l r) rec₂ (omega (arith, len₁, len₂))),
        parted root l r h cl nr (holds-later root l r h ∙ ap₂ (join root) v₁ v₂ ∙ v),
      )

  -- Both subtrees of the root, classified into empty lists.
  both_value :
      (root : Op) (l r : Pnode) {d₁ d₂ : DivInfo}
      → IsDivisible root
      → Adds env atts e buf root l no_nodes d₁
      → Adds env atts e buf root r d₁ d₂
      → value env atts e buf root d₂ ≡ holds env atts e buf (op_node root l r)
  both_value root l r h a b =
      b.same_value
      ∙ ap (λ (x : Bool). join root x (holds env atts e buf r))
          (a.same_value
            ∙ ap (λ (x : Bool). join root x (holds env atts e buf l))
                (neutral-join root (neutral root))
            ∙ neutral-join root (holds env atts e buf l))
      ∙ sym (holds-join env atts e buf root l r h)

  both_refs :
      (root : Op) (l r : Pnode) {d₁ d₂ : DivInfo}
      → IsDivisible root
      → IsNormal l
      → refers (op_node root l r) ≡ true
      → Adds env atts e buf root l no_nodes d₁
      → Adds env atts e buf root r d₁ d₂
      → is_cons d₂.impure_list ≡ true
  both_refs root l r h nl refs a b =
      b.same_refs
      ∙ ap (λ (x : Bool). x || refers r) a.same_refs
      ∙ sym (refers-join root l r h nl)
      ∙ refs

  divide_root_lem :
      (root : Op) (l r : Pnode)
      → IsDivisible root
      → IsNormal l
      → IsNormal r
      → IsNormal (op_node root l r)
      → refers (op_node root l r) ≡ true
      → (t' : Pnode) × (divide_root root (later_of root) l r ≡ some t')
        × Divided env atts e buf (op_node root l r) t'
  unfolding divide_root
  divide_root_lem root l r h nl nr n refs =
      let start : IsSorted root no_nodes = record { pures = tt; impures = tt; recycled = tt } in
      let (d₁, p, a) = di_classify-Adds env atts e buf root l no_nodes h nl start in
      let (d₂, q, b) = di_classify-Adds env atts e buf root r d₁ h nr a.sorted in
      let (t', eq, d) =
        divided_lem root (op_node root l r) d₂.pure_list d₂.impure_list d₂.recycle_list h n b.sorted
          (omega (arith, a.same_count, b.same_count)) (both_refs root l r h nl refs a b)
          (both_value root l r h a b) in
      (t', rw (p, q) eq, d)

  -- `divideTree` on a normal tree that refers to a non-standard attribute: no assertion fails, and
  -- the result is the tree itself or a division of the same meaning.
  pub divide_tree-Divided :
      (t : Pnode)
      → IsNormal t
      → refers t ≡ true
      → (t' : Pnode) × (divide_tree t ≡ some t') × Divided env atts e buf t t'
  unfolding divide_tree
  divide_tree-Divided (op_node conj l r) n refs = divide_root_lem conj l r tt n.0 n.1 n refs
  divide_tree-Divided (op_node disj l r) n refs = divide_root_lem disj l r tt n.0 n.1 n refs
  divide_tree-Divided (op_node op l r) n refs = (op_node op l r, refl, whole n)
  divide_tree-Divided null n refs = elim n [ ]
  divide_tree-Divided (name x) n refs = elim n [ ]
  divide_tree-Divided (attname a x) n refs = (attname a x, refl, whole n)
  divide_tree-Divided (nsaname i x) n refs = (nsaname i x, refl, whole n)
  divide_tree-Divided (val m w) n refs = elim n [ ]
  divide_tree-Divided (string x) n refs = elim n [ ]
  divide_tree-Divided (regex x) n refs = elim n [ ]
