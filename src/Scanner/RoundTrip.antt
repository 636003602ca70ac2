-- ===== src/Scanner/RoundTrip.antt =====
-- user/lib/util/scanner.c: literals for strings, read back by `lxGetString`.
use evlog.Prelude.{
  All, ℕ, zero, suc, ◌+◌, ◌%◌, ◌≤◌, ◌<◌, Bool, true, false, ◌||◌, ◌==◌, ltb, if◌then◌else◌, Option,
  some, [], ◌∷◌, ◌++◌, Text, length, length-append, ◌≡◌, refl, arith, Bool-cases, inl, inr, sym, ap,
  ◌∙◌, c_text, eq_of_==,
}
use mathlib.Core.Path.{subst}
use evlog.Scanner.{
  escape, is_octal_digit, lx_get_char_escape, maxstrlen, end_of_string, with_char, store,
  get_string_from, lx_get_string, copied,
}

-- The characters of a C string.
abbrev pub IsByte : ℕ → Type 0
IsByte c = (1 ≤ c) × (c ≤ 255)

abbrev special : ℕ → Bool
special c = c == b'"' || c == b'\\'

-- A literal for a string, up to its closing quotation mark: a backslash in front of each quotation
-- mark and each backslash.
abbrev pub quote : Text → Text
quote [] = []
quote (c ∷ s) = if special c then b'\\' ∷ c ∷ quote s else c ∷ quote s

small : (c : ℕ) → c ≤ 255 → c % 256 ≡ c
small c h = omega arith

store_lem :
    (nc c : ℕ) (s rest : Text) (line : ℕ)
    → nc + 1 ≤ maxstrlen
    → c ≤ 255
    → store nc c (some (some (record { chars = s; rest = rest; line = line })))
      ≡ some (some (record { chars = c ∷ s; rest = rest; line = line }))
unfolding store with_char
store_lem nc c s rest line h k = elim (Bool-cases (ltb maxstrlen (nc + 1))) [
  | inl p ↦ absurd (ground arith)
  | inr p ↦ rw (p, small c k) refl
]

special-escape : (c : ℕ) (s : Text) → special c ≡ true → escape c s ≡ (some c, s)
unfolding escape lx_get_char_escape is_octal_digit
special-escape c s h = elim (Bool-cases (c == b'"')) [
  | inl p ↦ subst (λ d. escape d s ≡ (some d, s)) (sym (eq_of_== c b'"' p)) refl
  | inr p ↦ subst (λ d. escape d s ≡ (some d, s)) (sym (eq_of_== c b'\\' (ground arith))) refl
]

no_null : (c : ℕ) → IsByte c → (c == 0) ≡ false
no_null c h = ground arith

or_false_left : (a b : Bool) → a || b ≡ false → a ≡ false
or_false_left a b h = ground arith

or_false_right : (a b : Bool) → a || b ≡ false → b ≡ false
or_false_right a b h = ground arith

-- One round of the loop for a character that stands for itself, and for one behind a backslash.
plain_round :
    (fuel nc line c : ℕ) (s : Text)
    → special c ≡ false
    → (c == 0) ≡ false
    → get_string_from (suc fuel) true nc line (c ∷ s)
      ≡ store nc c (get_string_from fuel true (nc + 1) line s)
unfolding get_string_from end_of_string
plain_round fuel nc line c s p q =
    rw (or_false_left (c == b'"') _ p, q, or_false_right (c == b'"') _ p) refl

escaped_round :
    (fuel nc line c : ℕ) (s : Text)
    → special c ≡ true
    → (c == 0) ≡ false
    → get_string_from (suc fuel) true nc line (b'\\' ∷ c ∷ s)
      ≡ store nc c (get_string_from fuel true (nc + 1) line s)
unfolding get_string_from end_of_string
escaped_round fuel nc line c s p q =
    let e = special-escape c s p in
    rw (q, ap (λ (r : Option ℕ × Text). r.0) e, ap (λ (r : Option ℕ × Text). r.1) e) refl

closing_round :
    (fuel nc line : ℕ) (rest : Text)
    → get_string_from (suc fuel) true nc line (b'"' ∷ rest)
      ≡ some (some (record { chars = []; rest = rest; line = line }))
unfolding get_string_from end_of_string
closing_round fuel nc line rest = refl

get_string_from-quote :
    (fuel nc line : ℕ) (s rest : Text)
    → All IsByte s
    → length (quote s) < fuel
    → nc + length s ≤ maxstrlen
    → get_string_from fuel true nc line (quote s ++ b'"' ∷ rest)
      ≡ some (some (record { chars = s; rest = rest; line = line }))
get_string_from-quote zero nc line s rest h f k = absurd (omega arith)
get_string_from-quote (suc fuel) nc line [] rest h f k = closing_round fuel nc line rest
get_string_from-quote (suc fuel) nc line (c ∷ s) rest h f k = elim (Bool-cases (special c)) [
  | inl p ↦
      let g = rw p at f in
      rw
        (
          p,
          escaped_round fuel nc line c (quote s ++ b'"' ∷ rest) p (no_null c h.0),
          get_string_from-quote fuel (nc + 1) line s rest h.1 (omega (arith, g)) (omega arith),
        )
        (store_lem nc c s rest line (omega arith) h.0.1)
  | inr p ↦
      let g = rw p at f in
      rw
        (
          p,
          plain_round fuel nc line c (quote s ++ b'"' ∷ rest) p (no_null c h.0),
          get_string_from-quote fuel (nc + 1) line s rest h.1 (omega (arith, g)) (omega arith),
        )
        (store_lem nc c s rest line (omega arith) h.0.1)
]

c_text-IsByte : (s : Text) → All IsByte s → c_text s ≡ s
c_text-IsByte [] h = refl
c_text-IsByte (c ∷ s) h = rw (no_null c h.0, c_text-IsByte s h.1)

-- A string of at most MAXSTRLEN bytes, none of them the terminator, is read back from its literal,
-- and reading stops behind the closing quotation mark, on the same line.
pub lx_get_string-quote :
    (s rest : Text) (line : ℕ)
    → All IsByte s
    → length s ≤ maxstrlen
    → lx_get_string true (quote s ++ b'"' ∷ rest) line
      ≡ some (some (record { chars = s; rest = rest; line = line }))
unfolding lx_get_string copied
lx_get_string-quote s rest line h k =
    ap copied (
      get_string_from-quote _ 0 line s rest h (omega (arith, length-append (quote s) (b'"' ∷ rest)))
        (omega arith))
    ∙ ap (λ t. some (some (record { chars = t; rest = rest; line = line }))) (c_text-IsByte s h)
