-- ===== src/Prelude/CStrings.antt =====
-- C strings as lists of the bytes before the terminator, and the functions of the C library that
-- the program calls on them.
use Prim.Native.Nat.{ℕ, ◌+◌, ◌-◌, ◌*◌, ◌%◌}
use Prim.Native.Char.{code}
use Prim.Native.String.{String}
use mathlib.Core.Path.{◌≡◌, refl, ap₂}
use mathlib.Core.Bool.{Bool, true, false, ◌&&◌, ◌||◌}
use mathlib.Core.Option.{Option, none, some}
use mathlib.Core.List.{List, [], ◌∷◌}
use native.Mathlib.Omega.{arith}
use evlog.Prelude.Tests.{ltb, leb, ◌==◌, if◌then◌else◌, ==_refl}
use evlog.Prelude.Words.{u64_mod}

abbrev pub Text : Type 0
Text = List ℕ

abbrev pub codes : String → Text
codes String.[] = []
codes (String.◌∷◌ c s) = code c ∷ codes s

-- `strcmp(s, t) == 0`
abbrev pub text_eq : Text → Text → Bool
text_eq [] [] = true
text_eq (c ∷ s) (d ∷ t) = c == d && text_eq s t
text_eq _ _ = false

pub text_eq_refl : (s : Text) → text_eq s s ≡ true
text_eq_refl [] = refl
text_eq_refl (c ∷ s) = ground (arith, ==_refl c, text_eq_refl s)

pub eq_of_text_eq : (s t : Text) → text_eq s t ≡ true → s ≡ t
eq_of_text_eq [] [] h = refl
eq_of_text_eq [] (d ∷ t) h = cc
eq_of_text_eq (c ∷ s) [] h = cc
eq_of_text_eq (c ∷ s) (d ∷ t) h = ap₂ ◌∷◌ (ground arith) (eq_of_text_eq s t (ground arith))

abbrev pub starts_with : Text → Text → Bool
starts_with s [] = true
starts_with [] (d ∷ t) = false
starts_with (c ∷ s) (d ∷ t) = c == d && starts_with s t

-- `strstr(s, t) != NULL`
abbrev pub strstr : Text → Text → Bool
strstr [] t = starts_with [] t
strstr (c ∷ s) t = starts_with (c ∷ s) t || strstr s t

-- `strchr(s, c)`: what follows the first `c`.
abbrev pub strchr : Text → ℕ → Option Text
strchr [] c = none
strchr (d ∷ s) c = if d == c then some s else strchr s c

abbrev pub toupper : ℕ → ℕ
toupper c = if leb b'a' c && leb c b'z' then c - 32 else c

abbrev pub isspace : ℕ → Bool
isspace c = c == 32 || (leb 9 c && leb c 13)

abbrev pub isdigit : ℕ → Bool
isdigit c = leb b'0' c && leb c b'9'

abbrev pub skip_spaces : Text → Text
skip_spaces [] = []
skip_spaces (c ∷ s) = if isspace c then skip_spaces s else c ∷ s

-- The digits at the head of a text, as a number on top of `n`, and what follows them.
abbrev pub read_digits : ℕ → Text → ℕ × Text
read_digits n [] = (n, [])
read_digits n (c ∷ s) =
    let rest = read_digits (n * 10 + (c - b'0')) s in if isdigit c then rest else (n, c ∷ s)

abbrev pub starts_with_digit : Text → Bool
starts_with_digit [] = false
starts_with_digit (c ∷ s) = isdigit c

-- The result saturates at ULONG_MAX.
abbrev pub saturate : ℕ → ℕ
saturate n = if ltb n u64_mod then n else u64_mod - 1

-- `strtoul(s, &end, 10)`: the value, the text at `end`, and whether there was a conversion.
-- Without one, the value is 0 and `end` is `s` itself.
abbrev pub strtoul_unsigned : Text → Text → (ℕ → ℕ) → ℕ × Text × Bool
strtoul_unsigned s t sign =
    let (n, rest) = read_digits 0 t in
    if starts_with_digit t then (sign (saturate n), rest, true) else (0, s, false)

abbrev pub negate : ℕ → ℕ
negate n = (u64_mod - n) % u64_mod

abbrev pub strtoul_signed : Text → Text → ℕ × Text × Bool
strtoul_signed s [] = (0, s, false)
strtoul_signed s (c ∷ t) =
    if c == b'-'
    then strtoul_unsigned s t negate
    else if c == b'+'
    then strtoul_unsigned s t (λ n. n)
    else strtoul_unsigned s (c ∷ t) (λ n. n)

unfoldable pub strtoul : Text → ℕ × Text × Bool
strtoul s = strtoul_signed s (skip_spaces s)

-- The text in a buffer of bytes: what stands before the terminator.
abbrev pub c_text : List ℕ → Text
c_text [] = []
c_text (c ∷ buf) = if c == 0 then [] else c ∷ c_text buf
