-- ===== src/Query/Normalize/Host.antt =====
-- user/lib/query/normalize.c: `normalizeAttHost`.
use evlog.Prelude.{
  ℕ, ◌+◌, ◌*◌, ◌%◌, ◌^◌, Bool, true, false, ◌&&◌, ◌||◌, ◌==◌, ltb, if◌then◌else◌, Option, none,
  some, [], ◌∷◌, Text, strchr, strtoul, u32_mod, sign_extend,
}
use evlog.Query.Tree.{Op, contains, op_eq, Pnode, name, val, string}
use evlog.Query.Normalize.Result.{
  Result, ok, err, ◌>>=◌, NormEnv, host_out_of_range, invalid_node_id, unrecognized_host,
  no_message,
}
use evlog.Query.Normalize.Operand.{
  standard_int_ops, is_regex_op, verified, normalize_integer, normalize_regex,
}

-- `n > 255` for the `int` that an `unsigned long` is cast to.
unfoldable pub above_byte : ℕ → Bool
above_byte v = ltb (v % u32_mod) (2 ^ 31) && ltb 255 (v % u32_mod)

-- `(upperbyte << 8) + lowerbyte` as an `int`, assigned to a `long`.
unfoldable pub node_id : ℕ → ℕ → ℕ
node_id upper lower = sign_extend ((upper * 2 ^ 8 + lower) % u32_mod)

-- The host name, looked up.
unfoldable pub host_by_name : Option ℕ → Result Pnode
host_by_name none = err unrecognized_host
host_by_name (some id) = ok (val false id)

unfoldable pub host_by_id : Op → Text → ℕ → ℕ → Result Pnode
unfolding above_byte node_id verified
host_by_id op att upper lower =
    if above_byte upper || above_byte lower
    then err invalid_node_id
    else verified op standard_int_ops att (val false (node_id upper lower))

unfoldable pub starts_with_dot : Text → Bool
starts_with_dot [] = false
starts_with_dot (c ∷ s) = c == b'.'

unfoldable pub is_empty : Text → Bool
is_empty [] = true
is_empty (c ∷ s) = false

-- The two numbers of "upper.lower": of the whole text, and of what follows its first dot. Anything
-- else is a host name.
unfoldable pub host_numbers :
    NormEnv → Op → Text → Text → ℕ × Text × Bool → ℕ × Text × Bool → Result Pnode
unfolding host_by_name host_by_id starts_with_dot is_empty
host_numbers env op att s (upper, end₁, c₁) (lower, end₂, c₂) =
    if starts_with_dot end₁ && is_empty end₂
    then host_by_id op att upper lower
    else host_by_name (env.get_node_id s)

unfoldable pub host_operand : NormEnv → Op → Text → Text → Option Text → Result Pnode
unfolding host_numbers
host_operand env op att s none = host_by_name (env.get_node_id s)
host_operand env op att s (some after_dot) =
    host_numbers env op att s (strtoul s) (strtoul after_dot)

unfoldable pub host_regex : Option Pnode → Result Pnode
host_regex none = err no_message
host_regex (some node) = ok node

-- A string or a name, which the code treats alike; `node` is the child as it stands.
unfoldable pub host_text : NormEnv → Op → Text → Text → Pnode → Result Pnode
unfolding host_operand host_regex
host_text env op att s node =
    if is_regex_op op
    then (do r ← normalize_regex env op att s; host_regex r)
    else if op_eq op contains
    then ok node
    else host_operand env op att s (strchr s b'.')

unfoldable pub host_in_range : Pnode → Bool
host_in_range (val minus w) = ltb w (2 ^ 16)
host_in_range _ = false

-- `normalizeAttHost`. An operand that is negative as a `long` is above 0xffff as a pattern.
unfoldable pub normalize_att_host : NormEnv → Op → Text → Pnode → Result Pnode
unfolding normalize_integer host_in_range verified host_text
normalize_att_host env op att (val minus w) = do
  v ← normalize_integer true 8 att (val minus w)
  if host_in_range v then verified op standard_int_ops att v else err host_out_of_range
normalize_att_host env op att (string s) = host_text env op att s (string s)
normalize_att_host env op att (name s) = host_text env op att s (name s)
normalize_att_host env op att _ = err no_message
