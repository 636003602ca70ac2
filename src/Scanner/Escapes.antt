-- ===== src/Scanner/Escapes.antt =====
-- user/lib/util/scanner.c: octal escape sequences (`collectOctalDigits`, `lxGetOctalEscape`).
use evlog.Prelude.{
  ℕ, ◌+◌, ◌*◌, ◌-◌, Bool, true, false, some, [], ◌∷◌, Text, length, ◌≡◌, refl, ap, arith,
}
use evlog.Scanner.{
  is_octal_digit, collect, collect_octal_digits, lx_get_octal_from, lx_get_octal_escape,
  octal_escape, escape,
}

-- The number of three octal digits.
abbrev pub octal_value : ℕ → ℕ → ℕ → ℕ
octal_value a b c = ((a - b'0') * 8 + (b - b'0')) * 8 + (c - b'0')

-- Whether the text goes on with an octal digit.
abbrev pub goes_on : Text → Bool
goes_on [] = false
goes_on (c ∷ s) = is_octal_digit c

value_lem : (a b c : ℕ) → ((0 + (a - b'0')) * 8 + (b - b'0')) * 8 + (c - b'0') ≡ octal_value a b c
value_lem a b c = omega arith

-- An escape sequence of three octal digits, with no octal digit behind it, stands for their number,
-- and the text behind it is kept.
pub escape-octal :
    (a b c : ℕ) (s : Text)
    → is_octal_digit a ≡ true
    → is_octal_digit b ≡ true
    → is_octal_digit c ≡ true
    → goes_on s ≡ false
    → escape a (b ∷ c ∷ s) ≡ (some (octal_value a b c), s)
unfolding escape octal_escape collect_octal_digits collect lx_get_octal_escape lx_get_octal_from
escape-octal a b c [] ha hb hc h =
    rw (ha, hb, hc, hb, hc) (ap (λ n. (some n, [])) (value_lem a b c))
escape-octal a b c (d ∷ s) ha hb hc h =
    rw (ha, hb, hc, h, hb, hc) (ap (λ n. (some n, d ∷ s)) (value_lem a b c))

-- A fourth octal digit behind such a sequence is consumed and lost, and the array `digits` of 3 + 1
-- characters is given four digits and a terminator.
pub escape-loses :
    (a b c d : ℕ) (s : Text)
    → is_octal_digit a ≡ true
    → is_octal_digit b ≡ true
    → is_octal_digit c ≡ true
    → is_octal_digit d ≡ true
    → (escape a (b ∷ c ∷ d ∷ s) ≡ (some (octal_value a b c), s))
      × (length (collect_octal_digits a (b ∷ c ∷ d ∷ s)).0 ≡ 4)
unfolding escape octal_escape collect_octal_digits collect lx_get_octal_escape lx_get_octal_from
escape-loses a b c d s ha hb hc hd =
    (rw (ha, hb, hc, hd, hb, hc) (ap (λ n. (some n, s)) (value_lem a b c)), rw (hb, hc, hd) refl)
