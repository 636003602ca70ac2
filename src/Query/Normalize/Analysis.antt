-- ===== src/Query/Normalize/Analysis.antt =====
-- user/lib/query/normalize.c: attribute names and whole trees, with the list of non-standard
-- attributes that the analysis builds up.
use evlog.Prelude.{
  ℕ, zero, suc, Bool, true, false, if◌then◌else◌, Option, none, some, List, [], ◌∷◌, ◌++◌, Text,
  codes, text_eq, strchr, length,
}
use evlog.Query.Tree.{
  Op, negation, conj, disj, Attr, body, age, host, Pnode, null, name, attname, nsaname, val, string,
  op_node, Fuzzy, fuzzy_maybe, NonStdAtt, NonStdAtts,
}
use evlog.Query.Normalize.Result.{
  Result, ok, err, ◌>>=◌, NormEnv, unknown_attribute, restricted_data, already_normalized,
  unsupported_operand_type, no_message,
}
use evlog.Query.Normalize.Names.{evl_attributes, get_value_by_name}
use evlog.Query.Normalize.Operand.{standard_int_ops, verified_integer, normalize_string_or_regex}
use evlog.Query.Normalize.Member.{normalize_member}

-- `_evlQFlags`, the two bits that matter, and `_evlQNonStdAtts`.
pub record State : Type 0 where
  pub template_flag : Bool
  pub restricted_flag : Bool
  pub nonstd : Option NonStdAtts

-- `_evlFindNamedItemInList`: the index of the object that is found.
unfoldable pub find_named : List NonStdAtt → Text → Option ℕ
find_named [] s = none
find_named (nsa ∷ nsas) s = if text_eq nsa.nsa_name s then some nsa.nsa_att else find_named nsas s

unfoldable pub has_dot : Option Text → Bool
has_dot none = false
has_dot (some s) = true

-- The new object. `malloc` leaves `nsaResultIfMissing` unset, and `_evlQOptimizeTree` sets it
-- before it is read.
unfoldable pub new_att : Text → ℕ → NonStdAtt
unfolding has_dot
new_att s i = record {
  nsa_name = s;
  result_if_missing = fuzzy_maybe;
  is_numeric = false;
  is_strref = has_dot (strchr s b'.');
  nsa_att = i;
}

unfoldable pub register_in : List NonStdAtt → Text → Option ℕ → ℕ × List NonStdAtt
unfolding new_att
register_in nsas s (some i) = (i, nsas)
register_in nsas s none = (length nsas, nsas ++ new_att s (length nsas) ∷ [])

abbrev pub atts_of : Option NonStdAtts → List NonStdAtt
atts_of none = []
atts_of (some ns) = ns.ns_atts

abbrev pub all_missing_of : Option NonStdAtts → Fuzzy
all_missing_of none = fuzzy_maybe
all_missing_of (some ns) = ns.result_if_all_missing

-- `registerNonStdAtt`: the index of the attribute's object, new or not.
unfoldable pub register_nonstd_att : Text → State → ℕ × State
unfolding register_in find_named
register_nonstd_att s st =
    let (i, nsas) = register_in (atts_of st.nonstd) s (find_named (atts_of st.nonstd) s) in
    (
      i,
      record st {
        nonstd = some (record { ns_atts = nsas; result_if_all_missing = all_missing_of st.nonstd });
      },
    )

-- The names that are in no table.
unfoldable pub other_attname : Text → State → Result (Pnode × State)
unfolding register_nonstd_att
other_attname s st =
    if text_eq s (codes "data")
    then if st.restricted_flag then err restricted_data else ok (attname body s, st)
    else if text_eq s (codes "age")
    then ok (attname age s, st)
    else if text_eq s (codes "host")
    then ok (attname host s, st)
    else if st.template_flag
    then (let (i, st') = register_nonstd_att s st in ok (nsaname i s, st'))
    else err (unknown_attribute s)

unfoldable pub make_attname_of : Text → State → Option Attr → Result (Pnode × State)
unfolding other_attname
make_attname_of s st none = other_attname s st
make_attname_of s st (some a) = ok (attname a s, st)

-- `makeAttnameNode`
unfoldable pub make_attname_node : Text → State → Result (Pnode × State)
unfolding make_attname_of get_value_by_name
make_attname_node s st = make_attname_of s st (get_value_by_name evl_attributes s)

-- `nsaFlags |= EVLNSA_NUMERIC` on the object at an index.
unfoldable pub mark_numeric : ℕ → List NonStdAtt → List NonStdAtt
mark_numeric i [] = []
mark_numeric zero (nsa ∷ nsas) = record nsa { is_numeric = true } ∷ nsas
mark_numeric (suc i) (nsa ∷ nsas) = nsa ∷ mark_numeric i nsas

unfoldable pub mark_nonstd : ℕ → Option NonStdAtts → Option NonStdAtts
unfolding mark_numeric
mark_nonstd i none = none
mark_nonstd i (some ns) = some (record ns { ns_atts = mark_numeric i ns.ns_atts })

-- `normalizeComparisonWithNonStdAtt`: the right child and the state.
unfoldable pub normalize_nonstd : NormEnv → Op → ℕ → Text → Pnode → State → Result (Pnode × State)
unfolding mark_nonstd verified_integer normalize_string_or_regex
normalize_nonstd env op i att (val minus w) st = do
  v ← verified_integer false 8 op standard_int_ops att (val minus w)
  ok (v, record st { nonstd = mark_nonstd i st.nonstd })
normalize_nonstd env op i att (string s) st = do
  v ← normalize_string_or_regex env op att s
  ok (v, st)
normalize_nonstd env op i att _ st = err (unsupported_operand_type att)

-- `normalizeComparison` behind the attribute's node.
unfoldable pub normalize_right : NormEnv → Op → Pnode → Pnode → State → Result (Pnode × State)
unfolding normalize_nonstd normalize_member
normalize_right env op (nsaname i n) right st = do
  (v, st') ← normalize_nonstd env op i n right st
  ok (op_node op (nsaname i n) v, st')
normalize_right env op (attname a n) right st = do
  v ← normalize_member env a op n right
  ok (op_node op (attname a n) v, st)
normalize_right env op _ right st = err no_message

-- `normalizeComparison`: the grammar puts a name on the left.
unfoldable pub normalize_comparison : NormEnv → Op → Pnode → Pnode → State → Result (Pnode × State)
unfolding make_attname_node normalize_right
normalize_comparison env op (name s) right st = do
  (left, st') ← make_attname_node s st
  normalize_right env op left right st'
normalize_comparison env op _ right st = err no_message

-- `_evlQNormalizeTree`
module _ (env : NormEnv) where
  unfoldable pub normalize_tree : Pnode → State → Result (Pnode × State)
  unfolding make_attname_node normalize_comparison
  normalize_tree null st = ok (null, st)
  normalize_tree (name s) st = make_attname_node s st
  normalize_tree (attname a n) st = err (already_normalized n)
  normalize_tree (nsaname i n) st = err (already_normalized n)
  normalize_tree (op_node negation l r) st = do
    (l', st') ← normalize_tree l st
    ok (op_node negation l' r, st')
  normalize_tree (op_node conj l r) st = do
    (l', st₁) ← normalize_tree l st
    (r', st₂) ← normalize_tree r st₁
    ok (op_node conj l' r', st₂)
  normalize_tree (op_node disj l r) st = do
    (l', st₁) ← normalize_tree l st
    (r', st₂) ← normalize_tree r st₁
    ok (op_node disj l' r', st₂)
  normalize_tree (op_node op l r) st = normalize_comparison env op l r st
  normalize_tree node st = ok (node, st)
