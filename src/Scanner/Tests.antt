-- ===== src/Scanner/Tests.antt =====
-- Runs of the scanner of literals (user/lib/util/scanner.c).
use evlog.Prelude.{true, Option, some, [], ◌∷◌, ◌++◌, codes, length, ◌≡◌, refl, arith}
use evlog.Scanner.{
  is_octal_digit, collect_octal_digits, escape, Literal, copied, lx_get_string, lx_get_char_escape,
}
use evlog.Scanner.Fuel.{IsShort, lx_get_string-Returns}
use evlog.Scanner.RoundTrip.{quote, lx_get_string-quote}
use evlog.Scanner.Escapes.{escape-loses}

-- `\n`, an escaped newline, `\x41` and a quotation mark.
reads_escapes :
    lx_get_string true
      (b'\\' ∷ b'n' ∷ b'\\' ∷ 10 ∷ b'\\' ∷ b'x' ∷ b'4' ∷ b'1' ∷ b'"' ∷ codes "rest")
      1
    ≡ some (some (record { chars = 10 ∷ 65 ∷ []; rest = codes "rest"; line = 2 }))
unfolding lx_get_string copied lx_get_char_escape
reads_escapes = refl

lx_get_string-Returns_example :
    (o : Option Literal) × (lx_get_string true (codes "abc") 1 ≡ some o) × IsShort o
lx_get_string-Returns_example = lx_get_string-Returns true (codes "abc") 1

lx_get_string-quote_example :
    lx_get_string true (quote (b'a' ∷ b'"' ∷ b'\\' ∷ []) ++ b'"' ∷ codes "rest") 1
    ≡ some (some (record { chars = b'a' ∷ b'"' ∷ b'\\' ∷ []; rest = codes "rest"; line = 1 }))
lx_get_string-quote_example =
    lx_get_string-quote (b'a' ∷ b'"' ∷ b'\\' ∷ []) (codes "rest") 1 (ground arith) (ground arith)

escape-loses_example :
    (escape b'1' (b'0' ∷ b'1' ∷ b'7' ∷ codes "x") ≡ (some 65, codes "x"))
    × (length (collect_octal_digits b'1' (b'0' ∷ b'1' ∷ b'7' ∷ codes "x")).0 ≡ 4)
unfolding is_octal_digit
escape-loses_example = escape-loses b'1' b'0' b'1' b'7' (codes "x") refl refl refl refl
