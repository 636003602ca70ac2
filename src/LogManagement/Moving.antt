-- ===== src/LogManagement/Moving.antt =====
-- user/cmd/evlogmgr/evl_logmgmt.c: what `moveRecordUp` makes of the file.
use evlog.Prelude.{
  ◌+◌, ◌-◌, ◌≡◌, refl, sym, ap, ◌∙◌, ◌++◌, length, take, drop, take-append, drop-append, drop-drop,
  length-drop, drop-append_within, length-append, arith,
}
use mathlib.Core.List.{append_assoc, append-nil}
use evlog.Log.File.{Bytes, File, write_bytes}

-- A write at the end of a first part overwrites the second.
pub write_bytes-contents :
    (bs first second : Bytes) (f : File)
    → f.contents ≡ first ++ second
    → f.pos ≡ length first
    → (write_bytes bs f).contents ≡ first ++ (bs ++ drop (length bs) second)
unfolding write_bytes
write_bytes-contents bs first second f whole place =
    let gap : f.pos - length f.contents ≡ 0 =
      omega (arith, ap length whole, place, length-append first second) in
    let front : take f.pos f.contents ≡ first = rw (whole, place) (take-append first second) in
    let behind : drop (f.pos + length bs) f.contents ≡ drop (length bs) second = rw (
      whole,
      place,
      ← drop-drop (length bs) (length first) (first ++ second),
      drop-append first second,
    ) in
    rw (gap, front, behind, append-nil first)

pub write_bytes-pos : (bs : Bytes) (f : File) → (write_bytes bs f).pos ≡ f.pos + length bs
unfolding write_bytes
write_bytes-pos bs f = refl

-- Two writes, one behind the other.
pub write_twice :
    (xs bs first second : Bytes) (f : File)
    → f.contents ≡ first ++ second
    → f.pos ≡ length first
    → (write_bytes bs (write_bytes xs f)).contents
      ≡ first ++ ((xs ++ bs) ++ drop (length (xs ++ bs)) second)
write_twice xs bs first second f whole place =
    write_bytes-contents bs (first ++ xs) (drop (length xs) second) (write_bytes xs f)
      (write_bytes-contents xs first second f whole place
        ∙ sym (append_assoc first xs (drop (length xs) second)))
      (omega (arith, write_bytes-pos xs f, place, length-append first xs))
    ∙ append_assoc first xs (bs ++ drop (length bs) (drop (length xs) second))
    ∙ ap (λ t. first ++ t)
        (sym (append_assoc xs bs (drop (length bs) (drop (length xs) second)))
          ∙ ap (λ t. (xs ++ bs) ++ t)
              (drop-drop (length bs) (length xs) second
                ∙ ap (λ n. drop n second) (sym (length-append xs bs))))

-- What is behind the hole when a record has been moved to its beginning.
pub hole_after : Bytes → Bytes → Bytes
hole_after hole rec = drop (length rec) (hole ++ rec)

pub length-hole_after : (hole rec : Bytes) → length (hole_after hole rec) ≡ length hole
unfolding hole_after
length-hole_after hole rec =
    omega (arith, length-drop (length rec) (hole ++ rec), length-append hole rec)

-- A record behind a hole, moved by two writes to its beginning: the hole is behind it, as long as
-- before.
pub write_twice-hole :
    (xs bs first hole rest : Bytes) (f : File)
    → f.contents ≡ first ++ (hole ++ ((xs ++ bs) ++ rest))
    → f.pos ≡ length first
    → (write_bytes bs (write_bytes xs f)).contents
      ≡ (first ++ (xs ++ bs)) ++ (hole_after hole (xs ++ bs) ++ rest)
unfolding hole_after
write_twice-hole xs bs first hole rest f whole place =
    write_twice xs bs first (hole ++ ((xs ++ bs) ++ rest)) f whole place
    ∙ ap (λ t. first ++ ((xs ++ bs) ++ t))
        (ap (λ t. drop (length (xs ++ bs)) t) (sym (append_assoc hole (xs ++ bs) rest))
          ∙ drop-append_within (length (xs ++ bs)) (hole ++ (xs ++ bs)) rest
              (omega (arith, length-append hole (xs ++ bs))))
    ∙ sym (append_assoc first (xs ++ bs) (drop (length (xs ++ bs)) (hole ++ (xs ++ bs)) ++ rest))
