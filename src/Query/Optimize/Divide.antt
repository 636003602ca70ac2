-- ===== src/Query/Optimize/Divide.antt =====
-- user/lib/query/qopt.c, the first optimisation: `divideTree` and its helpers.
use evlog.Prelude.{Bool, true, false, if◌then◌else◌, Option, none, some, List, [], ◌∷◌, ◌++◌}
use evlog.Query.Tree.{
  Op, op_eq, negation, conj, disj, conj_later, disj_later, Pnode, null, attname, nsaname, op_node,
}
use evlog.Query.Evaluate.{or_else}

infixl 5 ◌>>=◌
abbrev pub ◌>>=◌ {ℓ κ} : {A : Type ℓ} {B : Type κ} → Option A → (A → Option B) → Option B
none >>= f = none
some a >>= f = f a

unfoldable pub is_nsaname : Pnode → Bool
is_nsaname (nsaname i n) = true
is_nsaname _ = false

-- `refsNonStdAtts`
unfoldable pub refs_nonstd_atts : Pnode → Option Bool
unfolding is_nsaname or_else
refs_nonstd_atts null = some false
refs_nonstd_atts (nsaname i n) = some true
refs_nonstd_atts (attname a n) = some false
refs_nonstd_atts (op_node negation l r) = refs_nonstd_atts l
refs_nonstd_atts (op_node conj l r) = or_else (refs_nonstd_atts l) (refs_nonstd_atts r)
refs_nonstd_atts (op_node disj l r) = or_else (refs_nonstd_atts l) (refs_nonstd_atts r)
refs_nonstd_atts (op_node op l r) = some (is_nsaname l)
refs_nonstd_atts _ = none

-- `div_info_t`; `diRootOp` is an argument of the functions.
pub record DivInfo : Type 0 where
  pub pure_list : List Pnode
  pub impure_list : List Pnode
  pub recycle_list : List Pnode

-- The branch of `diClassify` for a node that is not to be split.
unfoldable pub di_place : Pnode → DivInfo → Bool → DivInfo
di_place node di true = record di { impure_list = di.impure_list ++ node ∷ [] }
di_place node di false = record di { pure_list = di.pure_list ++ node ∷ [] }

unfoldable pub di_leaf : Pnode → DivInfo → Option DivInfo
unfolding di_place
di_leaf node di = do impure ← refs_nonstd_atts node; some (di_place node di impure)

-- `diClassify`
unfoldable pub di_classify : Op → Pnode → DivInfo → Option DivInfo
unfolding di_leaf op_eq
di_classify root (op_node op l r) di =
    let recycled = record di { recycle_list = di.recycle_list ++ op_node op l r ∷ [] } in
    let split = di_classify root l recycled >>= di_classify root r in
    if op_eq op root then split else di_leaf (op_node op l r) di
di_classify root node di = di_leaf node di

-- The two assignments to `pnLeft(parent)` and `pnRight(parent)`.
unfoldable pub relink : Pnode → Pnode → Pnode → Option Pnode
relink (op_node op l r) left right = some (op_node op left right)
relink _ left right = none

-- `diRebuildSubtree`, with `behead` as the patterns on the two lists: the subtree and what is left
-- of the recycled nodes. The list itself is used up.
unfoldable pub di_rebuild_subtree : List Pnode → List Pnode → Option (Pnode × List Pnode)
unfolding relink
di_rebuild_subtree [] recycle = none
di_rebuild_subtree (node ∷ []) recycle = some (node, recycle)
di_rebuild_subtree (node ∷ next ∷ nodes) [] = none
di_rebuild_subtree (node ∷ next ∷ nodes) (parent ∷ recycle) = do
  (rest, left_over) ← di_rebuild_subtree (next ∷ nodes) recycle
  tree ← relink parent node rest
  some (tree, left_over)

unfoldable pub all_used : Pnode → List Pnode → Option Pnode
all_used tree [] = some tree
all_used tree (n ∷ ns) = none

-- The end of `divideTree`: both subtrees, and the last assertion.
unfoldable pub di_finish : Op → DivInfo → Option Pnode
unfolding di_rebuild_subtree all_used
di_finish later di = do
  (left, recycle) ← di_rebuild_subtree di.pure_list di.recycle_list
  (right, left_over) ← di_rebuild_subtree di.impure_list recycle
  all_used (op_node later left right) left_over

-- Nothing impure fails the assertion, and nothing pure leaves the tree as it is.
unfoldable pub di_choose : Op → Pnode → DivInfo → List Pnode → List Pnode → Option Pnode
unfolding di_finish
di_choose later root di ps [] = none
di_choose later root di [] (n ∷ ns) = some root
di_choose later root di (p ∷ ps) (n ∷ ns) = di_finish later di

unfoldable pub di_divided : Op → Pnode → DivInfo → Option Pnode
unfolding di_choose
di_divided later root di = di_choose later root di di.pure_list di.impure_list

abbrev pub no_nodes : DivInfo
no_nodes = record { pure_list = []; impure_list = []; recycle_list = [] }

unfoldable pub divide_root : Op → Op → Pnode → Pnode → Option Pnode
unfolding di_classify di_divided
divide_root op later l r = do
  left ← di_classify op l no_nodes
  both ← di_classify op r left
  di_divided later (op_node op l r) both

-- `divideTree`
unfoldable pub divide_tree : Pnode → Option Pnode
unfolding divide_root
divide_tree (op_node conj l r) = divide_root conj conj_later l r
divide_tree (op_node disj l r) = divide_root disj disj_later l r
divide_tree node = some node
