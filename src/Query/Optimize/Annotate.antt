-- ===== src/Query/Optimize/Annotate.antt =====
-- user/lib/query/qopt.c: `_evlQReorderTree` and `_evlQOptimizeTree`.
use evlog.Prelude.{Option, none, some, List, [], ◌∷◌}
use evlog.Query.Tree.{Pnode, NonStdAtt, NonStdAtts}
use evlog.Query.Optimize.Divide.{divide_tree, ◌>>=◌}
use evlog.Query.Optimize.Missing.{simulate_missing_nsa}

-- `_evlQReorderTree`
unfoldable pub reorder_tree : Pnode → Option NonStdAtts → Option Pnode
unfolding divide_tree
reorder_tree root none = some root
reorder_tree root (some ns) = divide_tree root

-- The loop over the attributes.
unfoldable pub annotate_atts : Pnode → List NonStdAtt → Option (List NonStdAtt)
unfolding simulate_missing_nsa
annotate_atts root [] = some []
annotate_atts root (nsa ∷ nsas) = do
  fb ← simulate_missing_nsa (some nsa.nsa_att) root
  rest ← annotate_atts root nsas
  some (record nsa { result_if_missing = fb } ∷ rest)

unfoldable pub annotate : Pnode → NonStdAtts → Option NonStdAtts
unfolding annotate_atts simulate_missing_nsa
annotate root ns = do
  atts ← annotate_atts root ns.ns_atts
  fb ← simulate_missing_nsa none root
  some (record { ns_atts = atts; result_if_all_missing = fb })

-- `_evlQOptimizeTree`
unfoldable pub optimize_tree : Pnode → Option NonStdAtts → Option (Pnode × Option NonStdAtts)
unfolding reorder_tree annotate
optimize_tree root none = some (root, none)
optimize_tree root (some ns) = do
  tree ← reorder_tree root (some ns)
  ns' ← annotate tree ns
  some (tree, some ns')
