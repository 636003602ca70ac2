-- ===== src/Scanner.antt =====
-- user/lib/util/scanner.c: the string literals of the template language, read character by
-- character through the callbacks `input` and `unput` of a scanner.
pub mod Fuel
pub mod RoundTrip
pub mod Escapes
mod Tests
use evlog.Prelude.{
  ℕ, zero, suc, ◌+◌, ◌*◌, ◌-◌, ◌%◌, Bool, true, false, ◌&&◌, ◌||◌, ◌==◌, ltb, leb, if◌then◌else◌,
  Option, none, some, List, [], ◌∷◌, Text, isdigit, length, c_text,
}

-- The text is what `input` will still return: at its end that is 0, and `unput` of this 0 leaves
-- the text at its end.

unfoldable pub is_octal_digit : ℕ → Bool
is_octal_digit c = leb b'0' c && leb c b'7'

unfoldable pub isxdigit : ℕ → Bool
isxdigit c = isdigit c || (leb b'a' c && leb c b'f') || (leb b'A' c && leb c b'F')

unfoldable pub tolower : ℕ → ℕ
tolower c = if leb b'A' c && leb c b'Z' then c + 32 else c

abbrev pub max_char : ℕ
max_char = 255

-- `lxGetOctalEscape`, behind `nDigits` digits of the value `n`.
unfoldable pub lx_get_octal_from : Bool → ℕ → ℕ → Text → ℕ
unfolding is_octal_digit
lx_get_octal_from is_char_const n n_digits [] = n
lx_get_octal_from is_char_const n n_digits (c ∷ s) =
    let v = n * 8 + (c - b'0') in
    let rest = lx_get_octal_from is_char_const v (n_digits + 1) s in
    if is_octal_digit c
    then if n_digits + 1 == 3 && (if is_char_const then false else true)
      then v
      else if ltb 3 (n_digits + 1) && is_char_const
      then max_char + 1
      else rest
    else n

unfoldable pub lx_get_octal_escape : Text → Bool → ℕ
unfolding lx_get_octal_from
lx_get_octal_escape digits is_char_const = lx_get_octal_from is_char_const 0 0 digits

unfoldable pub hex_digit : ℕ → ℕ
unfolding tolower
hex_digit c = if isdigit c then c - b'0' else (10 + tolower c) - b'a'

-- `lxGetHexEscape`, behind digits of the value `n`. The result is stored in a `char`, which keeps
-- its low eight bits, so the wrap-around of the `int` is not seen.
unfoldable pub lx_get_hex_from : ℕ → Text → ℕ
unfolding isxdigit hex_digit
lx_get_hex_from n [] = n
lx_get_hex_from n (c ∷ s) =
    let rest = lx_get_hex_from (n * 16 + hex_digit c) s in if isxdigit c then rest else n

unfoldable pub lx_get_hex_escape : Text → ℕ
unfolding lx_get_hex_from
lx_get_hex_escape digits = lx_get_hex_from 0 digits

-- `lxGetCharEscape`; `none` is -1, an escaped newline.
unfoldable pub lx_get_char_escape : ℕ → Option ℕ
lx_get_char_escape c =
    if c == b'a'
    then some 7
    else if c == b'b'
    then some 8
    else if c == b'f'
    then some 12
    else if c == b'n'
    then some 10
    else if c == b'r'
    then some 13
    else if c == b't'
    then some 9
    else if c == b'v'
    then some 11
    else if c == 10
    then none
    else some c

-- The loops of `collectOctalDigits` and `collectHexDigits`, with so many rounds left: the digits
-- and the text behind them.
unfoldable pub collect : (ℕ → Bool) → ℕ → Text → Text × Text
collect is_digit zero s = ([], s)
collect is_digit (suc n) [] = ([], [])
collect is_digit (suc n) (c ∷ s) =
    let (ds, rest) = collect is_digit n s in if is_digit c then (c ∷ ds, rest) else ([], c ∷ s)

-- `while (nDigits <= 3)`, from 1.
unfoldable pub collect_octal_digits : ℕ → Text → Text × Text
unfolding collect is_octal_digit
collect_octal_digits first_digit s =
    let (ds, rest) = collect is_octal_digit 3 s in (first_digit ∷ ds, rest)

-- `while (nDigits <= maxDigits)`, from 0.
unfoldable pub collect_hex_digits : ℕ → Text → Text × Text
unfolding collect isxdigit
collect_hex_digits max_digits s = collect isxdigit (max_digits + 1) s

unfoldable pub hex_escape : Text × Text → Option ℕ × Text
unfolding lx_get_hex_escape
hex_escape ([], rest) = (some b'x', rest)
hex_escape (d ∷ ds, rest) = (some (lx_get_hex_escape (d ∷ ds)), rest)

unfoldable pub octal_escape : Text × Text → Option ℕ × Text
unfolding lx_get_octal_escape
octal_escape (ds, rest) = (some (lx_get_octal_escape ds false), rest)

-- An escape sequence behind its backslash, from its first character on: the character that it
-- stands for, and what follows it.
unfoldable pub escape : ℕ → Text → Option ℕ × Text
unfolding is_octal_digit octal_escape collect_octal_digits hex_escape collect_hex_digits
    lx_get_char_escape
escape c s =
    if is_octal_digit c
    then octal_escape (collect_octal_digits c s)
    else if c == b'x'
    then hex_escape (collect_hex_digits 8 s)
    else (lx_get_char_escape c, s)

-- The string, what follows it, and the number of the line. Of a null pointer nothing else is kept.
pub record Literal : Type 0 where
  pub chars : Text
  pub rest : Text
  pub line : ℕ

abbrev pub maxstrlen : ℕ
maxstrlen = 10 * 1024

unfoldable pub end_of_string : Bool → ℕ
end_of_string quoted = if quoted then b'"' else 0

unfoldable pub with_char : ℕ → Option (Option Literal) → Option (Option Literal)
with_char c (some (some l)) = some (some (record l { chars = (c % 256) ∷ l.chars }))
with_char c r = r

-- `strbuf[nc++] = c`, the test of the length, and the rest of the loop.
unfoldable pub store : ℕ → ℕ → Option (Option Literal) → Option (Option Literal)
unfolding with_char
store nc c next = if ltb maxstrlen (nc + 1) then some none else with_char c next

-- The loop of `lxGetString`, `nc` characters into the buffer. The outer option is `none` when the
-- fuel runs out, the inner one is the null pointer.
unfoldable pub get_string_from : ℕ → Bool → ℕ → ℕ → Text → Option (Option Literal)
unfolding end_of_string store escape
get_string_from zero quoted nc line s = none
get_string_from (suc fuel) quoted nc line [] =
    if quoted then some none else some (some (record { chars = []; rest = []; line = line }))
get_string_from (suc fuel) quoted nc line (c ∷ s) =
    let plain = get_string_from fuel quoted (nc + 1) line s in
    let escaped = get_string_from fuel quoted (nc + 1) line in
    let elided = get_string_from fuel quoted nc (line + 1) in
    if c == end_of_string quoted
    then some (some (record { chars = []; rest = s; line = line }))
    else if c == 0
    then some none
    else if c == b'\\'
    then elim s [
      | [] ↦
          if quoted
          then some none
          else some (some (record { chars = b'\\' ∷ []; rest = []; line = line }))
      | d ∷ t ↦
          if d == 0
          then (if quoted
              then some none
              else some (some (record { chars = b'\\' ∷ []; rest = t; line = line })))
          else elim (escape d t).0 [
            | none ↦ elided (escape d t).1
            | some e ↦ store nc e (escaped (escape d t).1)
          ]
    ]
    else store nc c plain

-- `strdup(strbuf)`: the characters up to a terminator, which an escape sequence can make.
unfoldable pub copied : Option (Option Literal) → Option (Option Literal)
copied (some (some l)) = some (some (record l { chars = c_text l.chars }))
copied r = r

-- `lxGetString`
unfoldable pub lx_get_string : Bool → Text → ℕ → Option (Option Literal)
unfolding get_string_from copied
lx_get_string quoted s line = copied (get_string_from (length s + 1) quoted 0 line s)
