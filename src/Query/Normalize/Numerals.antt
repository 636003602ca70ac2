-- ===== src/Query/Normalize/Numerals.antt =====
-- user/lib/query/normalize.c: decimal numbers in the operands, an age with its unit (`parseAge`) and
-- a node "upper.lower" (`normalizeAttHost`).
use evlog.Prelude.{
  All, ℕ, zero, suc, ◌+◌, ◌-◌, ◌*◌, ◌%◌, ◌^◌, ◌<◌, ◌≤◌, true, false, ◌==◌, ltb, none, some, [], ◌∷◌,
  ◌++◌, Text, strtoul, starts_with_digit, read_digits, saturate, isdigit, isspace, strchr, ◌≡◌,
  refl, arith, Bool-cases, inl, inr, u32_mod,
}
use evlog.Query.Normalize.Age.{unit_seconds, age_product, age_in_unit, age_of_number, parse_age}

-- The number that digits stand for, behind digits of the number `n`.
abbrev pub decimal : ℕ → Text → ℕ
decimal n [] = n
decimal n (c ∷ ds) = decimal (n * 10 + (c - b'0')) ds

-- One digit at least, and nothing else.
abbrev pub IsNumeral : Text → Type 0
IsNumeral [] = ⊥
IsNumeral (c ∷ ds) = (isdigit c ≡ true) × All (λ d. isdigit d ≡ true) ds

read_digits-decimal :
    (n : ℕ) (ds rest : Text)
    → All (λ d. isdigit d ≡ true) ds
    → starts_with_digit rest ≡ false
    → read_digits n (ds ++ rest) ≡ (decimal n ds, rest)
read_digits-decimal n [] [] h k = refl
read_digits-decimal n [] (c ∷ rest) h k = rw k refl
read_digits-decimal n (c ∷ ds) rest h k =
    rw h.0 (read_digits-decimal (n * 10 + (c - b'0')) ds rest h.1 k)

digit_no_space : (c : ℕ) → isdigit c ≡ true → isspace c ≡ false
digit_no_space c h = ground arith

digit_no : (c d : ℕ) → isdigit c ≡ true → isdigit d ≡ false → (c == d) ≡ false
digit_no c d h k = elim (Bool-cases (c == d)) [ inl p ↦ ground arith | inr p ↦ p ]

pub strtoul-decimal :
    (s rest : Text)
    → IsNumeral s
    → starts_with_digit rest ≡ false
    → strtoul (s ++ rest) ≡ (saturate (decimal 0 s), rest, true)
unfolding strtoul
strtoul-decimal [] rest h k = elim h [ ]
strtoul-decimal (c ∷ ds) rest h k =
    rw
      (
        digit_no_space c h.0,
        digit_no c b'-' h.0 refl,
        digit_no c b'+' h.0 refl,
        h.0,
        read_digits-decimal (0 * 10 + (c - b'0')) ds rest h.1 k,
      )
      refl

pub strchr-numeral :
    (s rest : Text) → All (λ d. isdigit d ≡ true) s → strchr (s ++ b'.' ∷ rest) b'.' ≡ some rest
strchr-numeral [] rest h = refl
strchr-numeral (c ∷ s) rest h = rw (digit_no c b'.' h.0 refl) (strchr-numeral s rest h.1)

-- The units of an age, and how many seconds they have.
pub data AgeUnit : ℕ → ℕ → Type 0 where
  seconds : AgeUnit b's' 1
  minutes : AgeUnit b'm' 60
  hours : AgeUnit b'h' 3600
  days : AgeUnit b'd' 86400

unit_seconds-AgeUnit : (c k : ℕ) → AgeUnit c k → unit_seconds c ≡ some k
unfolding unit_seconds
unit_seconds-AgeUnit c k seconds = refl
unit_seconds-AgeUnit c k minutes = refl
unit_seconds-AgeUnit c k hours = refl
unit_seconds-AgeUnit c k days = refl

unit_no_digit : (c k : ℕ) → unit_seconds c ≡ some k → isdigit c ≡ false
unfolding unit_seconds
unit_no_digit c k h = ground arith

below_product : (n k : ℕ) → 1 ≤ k → n ≤ n * k
below_product n zero h = ground arith
below_product n (suc k) h = grind arith

pub small : (n : ℕ) → n < 2 ^ 31 → saturate n % u32_mod ≡ n
small n h = ground arith

mod_small : (m : ℕ) → m < 2 ^ 31 → m % u32_mod ≡ m
mod_small m h = omega arith

pub ltb-true : (a b : ℕ) → a < b → ltb a b ≡ true
ltb-true a b h = ground arith

small_age : (n k : ℕ) → n * k < 2 ^ 31 → 1 ≤ k → saturate n % u32_mod * k % u32_mod ≡ n * k
small_age n k h p = let q = below_product n k p in rw (small n (omega arith)) (mod_small (n * k) h)

unit_positive : (c k : ℕ) → unit_seconds c ≡ some k → 1 ≤ k
unfolding unit_seconds
unit_positive c k h = ground arith

-- A numeral with the letter s, m, h or d behind it is accepted as that many seconds, minutes, hours or
-- days, of 1, 60, 3600 and 86400 seconds, when the seconds are fewer than 2 ^ 31.
pub parse_age-decimal :
    (s : Text) (c k : ℕ)
    → IsNumeral s
    → AgeUnit c k
    → decimal 0 s * k < 2 ^ 31
    → parse_age (s ++ c ∷ []) ≡ some (decimal 0 s * k)
unfolding parse_age age_of_number age_in_unit age_product
parse_age-decimal s c k h unit small_enough =
    let u = unit_seconds-AgeUnit c k unit in
    rw
      (
        strtoul-decimal s (c ∷ []) h (unit_no_digit c k u),
        u,
        small_age (decimal 0 s) k small_enough (unit_positive c k u),
      )
      (rw (ltb-true (decimal 0 s * k) (2 ^ 31) small_enough) refl)

-- A numeral that is followed by one character that is no digit and none of those letters is refused.
pub parse_age-refuses :
    (s : Text) (c : ℕ)
    → IsNumeral s
    → isdigit c ≡ false
    → unit_seconds c ≡ none
    → parse_age (s ++ c ∷ []) ≡ none
unfolding parse_age age_of_number age_in_unit age_product
parse_age-refuses s c h d u = rw (strtoul-decimal s (c ∷ []) h d, u) refl
