-- ===== src/Query/Members.antt =====
-- user/lib/query/evaluate.c: the comparisons of numbers, of a record's severity, its age and its
-- node. user/lib/posix1.c: `posix_log_severity_compare`.
use evlog.Prelude.{
  shift_right16, ◌/◌, false, ltb, Bool-cases, inl, inr, ◌==◌, u32_mod, ℕ, ◌-◌, ◌^◌, ◌<◌, ◌≤◌, not,
  ◌≡◌, ◌≢◌, refl, arith, ◌∙◌, ap, sub64, sign_extend,
}
use evlog.Query.Tree.{host, Op, eq, ne, lt, le, gt, ge, bit_test, severity, age, Entry}
use evlog.Query.Compare.{
  Order, less, equal, greater, unordered, signed_order, unsigned_order, is_less, is_equal,
  is_greater, numeric_comparisons, compare_signed_ints, compare_unsigned_ints,
}
use evlog.Query.Evaluate.{EvalEnv, severity_compare, compare_member}

-- A comparison and the one that says the opposite.
pub data Opposite : Op → Op → Type 0 where
  eq_ne : Opposite eq ne
  lt_ge : Opposite lt ge
  le_gt : Opposite le gt

Opposite-orders :
    (o : Order) {op op' : Op}
    → Opposite op op'
    → o ≢ unordered
    → numeric_comparisons op' o ≡ not (numeric_comparisons op o)
unfolding numeric_comparisons is_less is_equal is_greater
Opposite-orders less eq_ne h = refl
Opposite-orders less lt_ge h = refl
Opposite-orders less le_gt h = refl
Opposite-orders equal eq_ne h = refl
Opposite-orders equal lt_ge h = refl
Opposite-orders equal le_gt h = refl
Opposite-orders greater eq_ne h = refl
Opposite-orders greater lt_ge h = refl
Opposite-orders greater le_gt h = refl
Opposite-orders unordered p h = elim (h refl) [ ]

signed-ordered : (a b : ℕ) → signed_order a b ≢ unordered
unfolding signed_order
signed-ordered a b h = ground arith

unsigned-ordered : (a b : ℕ) → unsigned_order a b ≢ unordered
unfolding unsigned_order
unsigned-ordered a b h = ground arith

-- On signed and on unsigned integers, != is the negation of =, >= that of <, and > that of <=.
pub compare_ints-Opposite :
    {op op' : Op} (opposite : Opposite op op') (a b : ℕ)
    → (compare_signed_ints op' a b ≡ not (compare_signed_ints op a b))
      × (compare_unsigned_ints op' a b ≡ not (compare_unsigned_ints op a b))
unfolding compare_signed_ints compare_unsigned_ints
compare_ints-Opposite eq_ne a b =
    (Opposite-orders _ eq_ne (signed-ordered a b), Opposite-orders _ eq_ne (unsigned-ordered a b))
compare_ints-Opposite lt_ge a b =
    (Opposite-orders _ lt_ge (signed-ordered a b), Opposite-orders _ lt_ge (unsigned-ordered a b))
compare_ints-Opposite le_gt a b =
    (Opposite-orders _ le_gt (signed-ordered a b), Opposite-orders _ le_gt (unsigned-ordered a b))

-- The operators of orderings.
abbrev pub IsOrdering : Op → Type 0
IsOrdering eq = Unit
IsOrdering ne = Unit
IsOrdering lt = Unit
IsOrdering le = Unit
IsOrdering gt = Unit
IsOrdering ge = Unit
IsOrdering _ = ⊥

signed-numeric :
    (op : Op) (a b : ℕ)
    → IsOrdering op
    → compare_signed_ints op a b ≡ numeric_comparisons op (signed_order a b)
unfolding compare_signed_ints
signed-numeric bit_test a b h = elim h [ ]
signed-numeric _ a b h = refl

severity-order :
    (s w : ℕ)
    → s < 8
    → w < 8
    → signed_order (sign_extend (severity_compare s w)) 0 ≡ unsigned_order w s
unfolding signed_order unsigned_order severity_compare
severity-order s w hs hw = ground arith

-- For an operator of orderings and the codes 0 to 7, the severity of a record is compared by
-- importance: a smaller code is the greater severity.
pub compare_member-severity :
    (env : EvalEnv) (op : Op) (e : Entry) (w : ℕ)
    → IsOrdering op
    → e.log_severity < 8
    → w < 8
    → compare_member env op severity e w ≡ numeric_comparisons op (unsigned_order w e.log_severity)
unfolding compare_member
compare_member-severity env op e w h hs hw =
    signed-numeric op (sign_extend (severity_compare e.log_severity w)) 0 h
    ∙ ap (numeric_comparisons op) (severity-order e.log_severity w hs hw)

age-order :
    (now w t : ℕ)
    → t ≤ now
    → now < 2 ^ 62
    → w < 2 ^ 62
    → signed_order (sub64 now w) t ≡ unsigned_order (now - t) w
unfolding signed_order unsigned_order
age-order now w t ht hn hw = ground arith

-- For an operator of orderings, a record that is not from the future, a clock before 2 ^ 62 and an
-- operand below it, the age of the record is compared as the time that has passed since it was
-- logged.
pub compare_member-age :
    (env : EvalEnv) (op : Op) (e : Entry) (w : ℕ)
    → IsOrdering op
    → e.log_time ≤ env.now
    → env.now < 2 ^ 62
    → w < 2 ^ 62
    → compare_member env op age e w
      ≡ numeric_comparisons op (unsigned_order (env.now - e.log_time) w)
unfolding compare_member
compare_member-age env op e w h ht hn hw =
    signed-numeric op (sub64 env.now w) e.log_time h
    ∙ ap (numeric_comparisons op) (age-order env.now w e.log_time ht hn hw)

host-order :
    (p w : ℕ)
    → p < 2 ^ 31
    → w < 2 ^ 16
    → unsigned_order (shift_right16 p) w ≡ unsigned_order (p / 2 ^ 16) w
unfolding unsigned_order
host-order p w hp hw = ground arith

host-differs : (p w : ℕ) → 2 ^ 31 ≤ p → p < u32_mod → w < 2 ^ 16 → (shift_right16 p == w) ≡ false
host-differs p w hp hq hw = ground arith

unsigned-numeric :
    (op : Op) (a b : ℕ)
    → IsOrdering op
    → compare_unsigned_ints op a b ≡ numeric_comparisons op (unsigned_order a b)
unfolding compare_unsigned_ints
unsigned-numeric bit_test a b h = elim h [ ]
unsigned-numeric _ a b h = refl

-- The node of a record is compared as a number, for an operator of orderings, when its upper byte is
-- below 128.
pub compare_member-host :
    (env : EvalEnv) (op : Op) (e : Entry) (w : ℕ)
    → IsOrdering op
    → e.log_processor < 2 ^ 31
    → w < 2 ^ 16
    → compare_member env op host e w
      ≡ numeric_comparisons op (unsigned_order (e.log_processor / 2 ^ 16) w)
unfolding compare_member
compare_member-host env op e w h hp hw =
    unsigned-numeric op (shift_right16 e.log_processor) w h
    ∙ ap (numeric_comparisons op) (host-order e.log_processor w hp hw)

-- A record of a node whose upper byte is 128 or more is equal to no node number below 2 ^ 16, its
-- own included.
pub compare_member-no_host :
    (env : EvalEnv) (e : Entry) (w : ℕ)
    → 2 ^ 31 ≤ e.log_processor
    → e.log_processor < u32_mod
    → w < 2 ^ 16
    → compare_member env eq host e w ≡ false
unfolding compare_member compare_unsigned_ints numeric_comparisons unsigned_order is_equal
compare_member-no_host env e w hp hq hw =
    rw (host-differs e.log_processor w hp hq hw)
      (elim (Bool-cases (ltb (shift_right16 e.log_processor) w)) [
        | inl p ↦ rw p refl
        | inr p ↦ rw p refl
      ])
