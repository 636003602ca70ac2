-- ===== src/Scanner/Fuel.antt =====
-- user/lib/util/scanner.c: the end of the loop of `lxGetString`, and the length of what it
-- returns.
use evlog.Prelude.{
  ℕ, zero, suc, ◌+◌, ◌≤◌, ◌<◌, Bool, true, false, ◌==◌, ltb, if◌then◌else◌, Option, none, some, [],
  ◌∷◌, Text, length, ◌≡◌, refl, ap, ◌∙◌, c_text, arith, Bool-cases, Option-cases, inl, inr,
}
use evlog.Scanner.{
  collect, collect_octal_digits, collect_hex_digits, octal_escape, hex_escape, escape,
  is_octal_digit, isxdigit, Literal, maxstrlen, end_of_string, with_char, store, get_string_from,
  lx_get_string, copied,
}

collect-length : (p : ℕ → Bool) (n : ℕ) (s : Text) → length (collect p n s).1 ≤ length s
unfolding collect
collect-length p zero s = omega arith
collect-length p (suc n) [] = omega arith
collect-length p (suc n) (c ∷ s) = ground (arith, collect-length p n s)

hex_escape-length : (p : Text × Text) → length (hex_escape p).1 ≤ length p.1
unfolding hex_escape
hex_escape-length ([], rest) = omega arith
hex_escape-length (d ∷ ds, rest) = omega arith

escape-length : (c : ℕ) (s : Text) → length (escape c s).1 ≤ length s
unfolding escape octal_escape collect_octal_digits collect_hex_digits
escape-length c s = elim (Bool-cases (is_octal_digit c)) [
  | inl p ↦ rw p (collect-length is_octal_digit 3 s)
  | inr p ↦ rw p (elim (Bool-cases (c == b'x')) [
    | inl q ↦
        rw q (omega (arith, hex_escape-length (collect isxdigit 9 s), collect-length isxdigit 9 s))
    | inr q ↦ rw q (omega arith)
  ])
]

-- A result, within the length that is left of the buffer.
abbrev pub Fits : ℕ → Option Literal → Type 0
Fits nc none = Unit
Fits nc (some l) = nc + length l.chars ≤ maxstrlen + 1

-- Not longer than the buffer.
pub record IsShort (o : Option Literal) : Type 0 where
  pub short : Fits 0 o

abbrev Returns : ℕ → Option (Option Literal) → Type 0
Returns nc r = (o : Option Literal) × (r ≡ some o) × Fits nc o

Returns-if :
    (nc : ℕ) (b : Bool) {m n : Option (Option Literal)}
    → Returns nc m
    → Returns nc n
    → Returns nc (if b then m else n)
Returns-if nc true h k = h
Returns-if nc false h k = k

stored : (nc c : ℕ) (o : Option Literal) → Fits (nc + 1) o → Returns nc (with_char c (some o))
unfolding with_char
stored nc c none h = (none, refl, tt)
stored nc c (some l) h = (_, refl, omega (arith, h))

store-Returns :
    (nc c : ℕ) {next : Option (Option Literal)}
    → (nc + 1 ≤ maxstrlen → Returns (nc + 1) next)
    → Returns nc (store nc c next)
unfolding store
store-Returns nc c next = elim (Bool-cases (ltb maxstrlen (nc + 1))) [
  | inl p ↦ rw p (none, refl, tt)
  | inr p ↦ let (o, q, f) = next (ground arith) in rw (p, q) (stored nc c o f)
]

ended :
    (nc line : ℕ) (rest : Text) (cs : Text)
    → nc ≤ maxstrlen
    → length cs ≤ 1
    → Returns nc (some (some (record { chars = cs; rest = rest; line = line })))
ended nc line rest cs h k = (_, refl, omega arith)

module _ (quoted : Bool) where
  ends :
      (nc line : ℕ) (rest : Text)
      → nc ≤ maxstrlen
      → Returns nc (
          if quoted
          then some none
          else some (some (record { chars = b'\\' ∷ []; rest = rest; line = line })))
  ends nc line rest h =
      Returns-if nc quoted (none, refl, tt) (ended nc line rest (b'\\' ∷ []) h (omega arith))

  get_string_from-Returns :
      (fuel nc line : ℕ) (s : Text)
      → length s < fuel
      → nc ≤ maxstrlen
      → Returns nc (get_string_from fuel quoted nc line s)
  unfolding get_string_from
  get_string_from-Returns zero nc line s h k = absurd (omega arith)
  get_string_from-Returns (suc fuel) nc line [] h k =
      Returns-if nc quoted (none, refl, tt) (ended nc line [] [] k (omega arith))
  get_string_from-Returns (suc fuel) nc line (c ∷ []) h k =
      Returns-if nc (c == end_of_string quoted) (ended nc line [] [] k (omega arith)) (
        Returns-if nc (c == 0) (none, refl, tt)
          (Returns-if nc (c == b'\\') (ends nc line [] k) (
            store-Returns nc c
              (λ m. get_string_from-Returns fuel (nc + 1) line [] (omega arith) m))))
  get_string_from-Returns (suc fuel) nc line (c ∷ d ∷ t) h k =
      Returns-if nc (c == end_of_string quoted) (ended nc line (d ∷ t) [] k (omega arith)) (
        Returns-if nc (c == 0) (none, refl, tt)
          (Returns-if nc (c == b'\\')
            (Returns-if nc (d == 0) (ends nc line t k) (elim (Option-cases (escape d t).0) [
              | inl p ↦ rw p (
                  get_string_from-Returns fuel nc (line + 1) (escape d t).1
                    (omega (arith, escape-length d t)) k)
              | inr (e, p) ↦ rw p (
                  store-Returns nc e (λ m.
                    get_string_from-Returns fuel (nc + 1) line (escape d t).1
                      (omega (arith, escape-length d t)) m))
            ]))
            (store-Returns nc c
              (λ m. get_string_from-Returns fuel (nc + 1) line (d ∷ t) (omega arith) m))))

c_text-length : (s : Text) → length (c_text s) ≤ length s
c_text-length [] = omega arith
c_text-length (c ∷ s) = ground (arith, c_text-length s)

-- The copy is not longer than the buffer.
copied-IsShort :
    (o : Option Literal)
    → Fits 0 o
    → (o' : Option Literal) × (copied (some o) ≡ some o') × IsShort o'
unfolding copied
copied-IsShort none f = (none, refl, record { short = tt })
copied-IsShort (some l) f = (_, refl, record { short = omega (arith, f, c_text-length l.chars) })

-- On every input `lxGetString` returns, a null pointer or a string of at most MAXSTRLEN + 1
-- characters.
pub lx_get_string-Returns :
    (quoted : Bool) (s : Text) (line : ℕ)
    → (o : Option Literal) × (lx_get_string quoted s line ≡ some o) × IsShort o
unfolding lx_get_string
lx_get_string-Returns quoted s line =
    let (o, p, f) =
      get_string_from-Returns quoted (length s + 1) 0 line s (omega arith) (omega arith) in
    let (o', q, short) = copied-IsShort o f in (o', ap copied p ∙ q, short)
