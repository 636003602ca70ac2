-- ===== src/Query/Normalize/Age.antt =====
-- user/lib/query/normalize.c: `parseAge` and `normalizeAttAge`.
use evlog.Prelude.{
  ℕ, ◌*◌, ◌%◌, ◌^◌, Bool, true, false, ◌==◌, ltb, if◌then◌else◌, Option, none, some, [], ◌∷◌, Text,
  strtoul, u32_mod, mul64,
}
use evlog.Query.Tree.{Op, Pnode, val, string}
use evlog.Query.Normalize.Result.{Result, err, ◌>>=◌, unsupported_operand_type, unrecognized_age}
use evlog.Query.Normalize.Operand.{standard_int_ops, verified, normalize_integer}

-- The seconds in a unit, for the four letters of the switch.
unfoldable pub unit_seconds : ℕ → Option ℕ
unit_seconds c =
    if c == b's'
    then some 1
    else if c == b'm'
    then some 60
    else if c == b'h'
    then some (60 * 60)
    else if c == b'd'
    then some (60 * 60 * 24)
    else none

-- The product is an `unsigned int`, returned as an `int`: a negative one is an error.
unfoldable pub age_product : ℕ → Option ℕ → Option ℕ
age_product nsec none = none
age_product nsec (some k) =
    let age = nsec * k % u32_mod in if ltb age (2 ^ 31) then some age else none

unfoldable pub age_in_unit : ℕ → Text → Option ℕ
unfolding unit_seconds age_product
age_in_unit nsec (c ∷ []) = age_product nsec (unit_seconds c)
age_in_unit nsec _ = none

unfoldable pub age_of_number : ℕ × Text × Bool → Option ℕ
unfolding age_in_unit
age_of_number (v, unit, converted) = if converted then age_in_unit (v % u32_mod) unit else none

-- `parseAge`; `none` is a negative result.
unfoldable pub parse_age : Text → Option ℕ
unfolding age_of_number
parse_age s = age_of_number (strtoul s)

unfoldable pub age_operand : Op → Text → Text → Option ℕ → Result Pnode
unfolding verified
age_operand op att s none = err (unrecognized_age s)
age_operand op att s (some nsec) = verified op standard_int_ops att (val false nsec)

-- An integer is a number of days.
unfoldable pub days_to_seconds : Pnode → Pnode
days_to_seconds (val minus w) = val minus (mul64 w (24 * 60 * 60))
days_to_seconds node = node

-- `normalizeAttAge`
unfoldable pub normalize_att_age : Op → Text → Pnode → Result Pnode
unfolding normalize_integer age_operand parse_age days_to_seconds
normalize_att_age op att (val minus w) = do
  v ← normalize_integer true 8 att (val minus w)
  verified op standard_int_ops att (days_to_seconds v)
normalize_att_age op att (string s) = age_operand op att s (parse_age s)
normalize_att_age op att _ = err (unsupported_operand_type att)
