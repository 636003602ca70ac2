-- ===== src/Query/Normalize/Ranges.antt =====
-- user/lib/query/normalize.c: the range of an integer operand (`normalizeInteger`).
use evlog.Prelude.{
  ℕ, ◌-◌, ◌*◌, ◌%◌, ◌^◌, ◌≤◌, ◌<◌, Bool, true, false, ◌||◌, ltb, Text, ◌≡◌, refl, arith, ◌⊎◌, inl,
  inr, Bool-cases, u32_mod, u64_mod, signed_ltb,
}
use evlog.Query.Tree.{Pnode, val}
use evlog.Query.Normalize.Result.{Result, ok, err, out_of_range}
use evlog.Query.Normalize.Operand.{
  outside_signed, integer_error, force_sign_extend, sign_extend_from, normalize_value,
}

-- The sizes of an attribute that is narrower than a `long`, with half the number of its values.
pub data Width : ℕ → ℕ → Type 0 where
  byte_width : Width 1 (2 ^ 7)
  short_width : Width 2 (2 ^ 15)
  int_width : Width 4 (2 ^ 31)

-- The patterns of the `long`s from -half to half - 1.
abbrev pub IsSigned : ℕ → ℕ → Type 0
IsSigned half w = (w < half) ⊎ (u64_mod - half ≤ w)

-- The operands that fit: negative ones in the signed type, others in the unsigned one.
abbrev pub Fitting : Bool → ℕ → ℕ → Type 0
Fitting true half w = IsSigned half w
Fitting false half w = w < 2 * half

-- Accepted with the same low bits, as a number of the signed type.
abbrev pub Accepted : ℕ → ℕ → Result Pnode → Type 0
Accepted half w m =
    (minus : Bool) × (v : ℕ) × (m ≡ ok (val minus v))
    × (v % (2 * half) ≡ w % (2 * half))
    × IsSigned half v

abbrev pub Decided : ℕ → ℕ → Text → Bool → ℕ → Type 0
Decided size half att minus w =
    (Fitting minus half w × Accepted half w (normalize_value false size att minus w))
    ⊎ ((¬ Fitting minus half w) × (normalize_value false size att minus w ≡ err (out_of_range att)))

byte_signed : (att : Text) (w : ℕ) → w < u64_mod → Decided 1 (2 ^ 7) att true w
unfolding normalize_value integer_error outside_signed force_sign_extend
byte_signed att w h =
    elim (Bool-cases (signed_ltb w (u64_mod - 2 ^ 7) || signed_ltb (2 ^ 7 - 1) w)) [
      | inl p ↦ inr (ground arith, rw p refl)
      | inr p ↦ inl (ground arith, (true, w, rw p refl, refl, ground arith))
    ]

byte_unsigned : (att : Text) (w : ℕ) → w < u64_mod → Decided 1 (2 ^ 7) att false w
unfolding normalize_value integer_error force_sign_extend sign_extend_from
byte_unsigned att w h = elim (Bool-cases (ltb 255 w)) [
  | inl p ↦ inr (ground arith, rw p refl)
  | inr p ↦ inl (
    ground arith,
    elim (Bool-cases (ltb 127 w)) [
      | inl q ↦ (true, sign_extend_from 1 w, rw (p, q) refl, ground arith, ground arith)
      | inr q ↦ (false, w, rw (p, q) refl, refl, ground arith)
    ],
  )
]

short_signed : (att : Text) (w : ℕ) → w < u64_mod → Decided 2 (2 ^ 15) att true w
unfolding normalize_value integer_error outside_signed force_sign_extend
short_signed att w h =
    elim (Bool-cases (signed_ltb w (u64_mod - 2 ^ 15) || signed_ltb (2 ^ 15 - 1) w)) [
      | inl p ↦ inr (ground arith, rw p refl)
      | inr p ↦ inl (ground arith, (true, w, rw p refl, refl, ground arith))
    ]

short_unsigned : (att : Text) (w : ℕ) → w < u64_mod → Decided 2 (2 ^ 15) att false w
unfolding normalize_value integer_error force_sign_extend sign_extend_from
short_unsigned att w h = elim (Bool-cases (ltb 65535 w)) [
  | inl p ↦ inr (ground arith, rw p refl)
  | inr p ↦ inl (
    ground arith,
    elim (Bool-cases (ltb 32767 w)) [
      | inl q ↦ (true, sign_extend_from 2 w, rw (p, q) refl, ground arith, ground arith)
      | inr q ↦ (false, w, rw (p, q) refl, refl, ground arith)
    ],
  )
]

int_signed : (att : Text) (w : ℕ) → w < u64_mod → Decided 4 (2 ^ 31) att true w
unfolding normalize_value integer_error outside_signed force_sign_extend
int_signed att w h =
    elim (Bool-cases (signed_ltb w (u64_mod - 2 ^ 31) || signed_ltb (2 ^ 31 - 1) w)) [
      | inl p ↦ inr (ground arith, rw p refl)
      | inr p ↦ inl (ground arith, (true, w, rw p refl, refl, ground arith))
    ]

int_unsigned : (att : Text) (w : ℕ) → w < u64_mod → Decided 4 (2 ^ 31) att false w
unfolding normalize_value integer_error force_sign_extend sign_extend_from
int_unsigned att w h = elim (Bool-cases (ltb (u32_mod - 1) w)) [
  | inl p ↦ inr (ground arith, rw p refl)
  | inr p ↦ inl (
    ground arith,
    elim (Bool-cases (ltb (2 ^ 31 - 1) w)) [
      | inl q ↦ (true, sign_extend_from 4 w, rw (p, q) refl, ground arith, ground arith)
      | inr q ↦ (false, w, rw (p, q) refl, refl, ground arith)
    ],
  )
]

-- An operand, below 2 ^ 64, of a signed attribute of 1, 2 or 4 bytes either fits and is accepted,
-- with the bits that it has in the attribute's size and a value of the signed type, or does not
-- fit, and the error says that it is out of range.
pub normalize_value-Ranges :
    {size half : ℕ} (width : Width size half) (att : Text) (minus : Bool) (w : ℕ)
    → w < u64_mod
    → Decided size half att minus w
normalize_value-Ranges byte_width att true w h = byte_signed att w h
normalize_value-Ranges byte_width att false w h = byte_unsigned att w h
normalize_value-Ranges short_width att true w h = short_signed att w h
normalize_value-Ranges short_width att false w h = short_unsigned att w h
normalize_value-Ranges int_width att true w h = int_signed att w h
normalize_value-Ranges int_width att false w h = int_unsigned att w h
