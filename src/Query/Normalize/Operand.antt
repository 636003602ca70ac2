-- ===== src/Query/Normalize/Operand.antt =====
-- user/lib/query/normalize.c: the checks that the members share. A function that normalises the
-- right child of a comparison takes the operator, the attribute's name and the child, and returns
-- the child that replaces it.
use evlog.Prelude.{
  ℕ, ◌+◌, ◌-◌, ◌%◌, ◌^◌, Bool, true, false, not, ◌&&◌, ◌||◌, ◌==◌, ltb, if◌then◌else◌, Option, none,
  some, List, [], ◌∷◌, Text, signed_ltb, sign_extend, u32_mod, u64_mod,
}
use evlog.Query.Tree.{
  Op, eq, ne, lt, le, gt, ge, contains, re_match, re_no_match, op_eq, Pnode, val, string, regex,
}
use evlog.Query.Normalize.Result.{
  Result, ok, err, ◌>>=◌, ◌>>◌, NormEnv, unsupported_operation, invalid_regex, requires_integer,
  requires_unsigned, out_of_range, unrecognized_value,
}
use evlog.Query.Normalize.Names.{NvPairs, get_value_by_ci_name}

abbrev pub standard_int_ops : List Op
standard_int_ops = eq ∷ ne ∷ lt ∷ le ∷ gt ∷ ge ∷ []

abbrev pub standard_string_ops : List Op
standard_string_ops = eq ∷ ne ∷ contains ∷ []

abbrev pub uid_gid_ops : List Op
uid_gid_ops = eq ∷ ne ∷ []

unfoldable pub op_in : Op → List Op → Bool
unfolding op_eq
op_in op [] = false
op_in op (o ∷ ops) = op_eq op o || op_in op ops

-- `verifyOp`
unfoldable pub verify_op : Op → List Op → Text → Result (Unit {0})
unfolding op_in
verify_op op table att = if op_in op table then ok tt else err (unsupported_operation att)

-- A child that is accepted under the operators of a table.
unfoldable pub verified : Op → List Op → Text → Pnode → Result Pnode
unfolding verify_op
verified op table att node = do verify_op op table att; ok node

unfoldable pub is_regex_op : Op → Bool
unfolding op_eq
is_regex_op op = op_eq op re_match || op_eq op re_no_match

-- `normalizeRegex`; the option is `none` for 0, an operation on plain strings.
unfoldable pub normalize_regex : NormEnv → Op → Text → Text → Result (Option Pnode)
unfolding is_regex_op
normalize_regex env op att s =
    if is_regex_op op
    then if env.regcomp s then ok (some (regex s)) else err (invalid_regex att)
    else ok none

unfoldable pub string_or_regex : Op → Text → Text → Option Pnode → Result Pnode
unfolding verified
string_or_regex op att s none = verified op standard_string_ops att (string s)
string_or_regex op att s (some node) = ok node

-- `normalizeStringOrRegex`
unfoldable pub normalize_string_or_regex : NormEnv → Op → Text → Text → Result Pnode
unfolding normalize_regex string_or_regex
normalize_string_or_regex env op att s = do
  node ← normalize_regex env op att s
  string_or_regex op att s node

-- `sval < -half || sval > half - 1`, for a size with 2 * half values.
unfoldable pub outside_signed : ℕ → ℕ → Bool
outside_signed half w = signed_ltb w (u64_mod - half) || signed_ltb (half - 1) w

-- The range check of `normalizeInteger`: whether the operand is out of range for its size.
unfoldable pub integer_error : Bool → ℕ → ℕ → Bool
unfolding outside_signed
integer_error true size w =
    if size == 1
    then outside_signed (2 ^ 7) w
    else if size == 2
    then outside_signed (2 ^ 15) w
    else if size == 4
    then outside_signed (2 ^ 31) w
    else false
integer_error false size w =
    if size == 1
    then ltb 255 w
    else if size == 2
    then ltb 65535 w
    else if size == 4
    then ltb (u32_mod - 1) w
    else false

-- `force_sign_extend`
unfoldable pub force_sign_extend : Bool → ℕ → ℕ → Bool
force_sign_extend true size w = false
force_sign_extend false size w =
    if size == 1
    then ltb 127 w
    else if size == 2
    then ltb 32767 w
    else if size == 4
    then ltb (2 ^ 31 - 1) w
    else false

-- The cast to the signed type of a size, back to a `long`.
unfoldable pub sign_extend_from : ℕ → ℕ → ℕ
sign_extend_from size w =
    if size == 4
    then sign_extend (w % u32_mod)
    else if size == 2
    then (if ltb (w % 2 ^ 16) (2 ^ 15) then w % 2 ^ 16 else w % 2 ^ 16 + (u64_mod - 2 ^ 16))
    else if size == 1
    then (if ltb (w % 2 ^ 8) (2 ^ 7) then w % 2 ^ 8 else w % 2 ^ 8 + (u64_mod - 2 ^ 8))
    else w

-- `normalizeInteger` on an integer operand; `unsigned` is `sign == 1`.
unfoldable pub normalize_value : Bool → ℕ → Text → Bool → ℕ → Result Pnode
unfolding integer_error force_sign_extend sign_extend_from
normalize_value unsigned size att minus w =
    if unsigned && minus && not (w == 0)
    then err (requires_unsigned att)
    else if integer_error minus size w
    then err (out_of_range att)
    else if not unsigned && force_sign_extend minus size w && ltb size 8
    then ok (val true (sign_extend_from size w))
    else ok (val minus w)

-- `normalizeInteger`
unfoldable pub normalize_integer : Bool → ℕ → Text → Pnode → Result Pnode
unfolding normalize_value
normalize_integer unsigned size att (val minus w) = normalize_value unsigned size att minus w
normalize_integer unsigned size att _ = err (requires_integer att)

-- `normalizeInteger`, and `verifyOp` with a table.
unfoldable pub verified_integer : Bool → ℕ → Op → List Op → Text → Pnode → Result Pnode
unfolding normalize_integer verified
verified_integer unsigned size op table att node = do
  v ← normalize_integer unsigned size att node
  verified op table att v

unfoldable pub named_value : Text → Text → Option ℕ → Result Pnode
named_value att s none = err (unrecognized_value att s)
named_value att s (some code) = ok (val true code)

-- `changeNameNodeToInt`
unfoldable pub change_name_node_to_int : Text → Text → NvPairs ℕ → Result Pnode
unfolding named_value get_value_by_ci_name
change_name_node_to_int att s table = named_value att s (get_value_by_ci_name table s)
