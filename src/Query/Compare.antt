-- ===== src/Query/Compare.antt =====
-- user/lib/query/evaluate.c: the comparisons of integers, floating-point numbers and strings.
use evlog.Prelude.{
  ℕ, Bool, true, false, not, ◌||◌, ◌==◌, ltb, if◌then◌else◌, bit_and, signed_ltb, Text, text_eq,
  strstr,
}
use evlog.Query.Tree.{Op, eq, ne, lt, le, gt, ge, contains, bit_test}

-- How two numbers compare; `unordered` is the case of a NaN.
pub data Order : Type 0 where
  less equal greater unordered : Order

unfoldable pub signed_order : ℕ → ℕ → Order
signed_order a b = if a == b then equal else if signed_ltb a b then less else greater

unfoldable pub unsigned_order : ℕ → ℕ → Order
unsigned_order a b = if a == b then equal else if ltb a b then less else greater

unfoldable pub is_less : Order → Bool
is_less less = true
is_less _ = false

unfoldable pub is_equal : Order → Bool
is_equal equal = true
is_equal _ = false

unfoldable pub is_greater : Order → Bool
is_greater greater = true
is_greater _ = false

-- NUMERIC_COMPARISONS, on the order of its two operands.
unfoldable pub numeric_comparisons : Op → Order → Bool
unfolding is_less is_equal is_greater
numeric_comparisons eq o = is_equal o
numeric_comparisons ne o = not (is_equal o)
numeric_comparisons lt o = is_less o
numeric_comparisons le o = is_less o || is_equal o
numeric_comparisons gt o = is_greater o
numeric_comparisons ge o = is_greater o || is_equal o
numeric_comparisons _ o = false

-- `(left & right) != 0`
unfoldable pub shares_bit : ℕ → ℕ → Bool
shares_bit left right = not (bit_and left right == 0)

-- `long long` is as wide as `long`, so `compareLonglongs` is this function too.
unfoldable pub compare_signed_ints : Op → ℕ → ℕ → Bool
unfolding numeric_comparisons signed_order shares_bit
compare_signed_ints bit_test left right = shares_bit left right
compare_signed_ints op left right = numeric_comparisons op (signed_order left right)

-- `compareUlonglongs` too.
unfoldable pub compare_unsigned_ints : Op → ℕ → ℕ → Bool
unfolding numeric_comparisons unsigned_order shares_bit
compare_unsigned_ints bit_test left right = shares_bit left right
compare_unsigned_ints op left right = numeric_comparisons op (unsigned_order left right)

-- `compareDoubles` and `compareLongdoubles`, on the order of the operands.
unfoldable pub compare_doubles : Op → Order → Bool
unfolding numeric_comparisons
compare_doubles op o = numeric_comparisons op o

unfoldable pub compare_strings : Op → Text → Text → Bool
compare_strings eq left right = text_eq left right
compare_strings ne left right = not (text_eq left right)
compare_strings contains left right = strstr left right
compare_strings _ left right = false
