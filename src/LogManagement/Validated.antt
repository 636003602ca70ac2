-- ===== src/LogManagement/Validated.antt =====
-- user/cmd/evlogmgr/evl_logmgmt.c: `validateRec` on a record.
use evlog.Prelude.{
  ℕ, ◌+◌, ◌<◌, ◌%◌, ◌^◌, ◌≡◌, refl, ap, ◌∙◌, ==_refl, some, ◌++◌, length, sign_extend, arith,
}
use mathlib.Core.List.{append_assoc}
use evlog.Log.File.{Bytes, File, read_bytes, off_mod}
use evlog.Log.Layout.{Rec, rec_bytes, whole_size, le_bytes, le_word, le_word-le_bytes, log_size}
use evlog.Log.Reading.{Holds, read_bytes-Holds, Holds-next, lseek-within}
use evlog.Log.Cursor.{room}
use evlog.LogManagement.Records.{validate_rec, validate_head, validate_size, validated}
use evlog.LogManagement.Rounds.{IsLogged, read-head, after-head, var-Holds}

pub length-le_bytes : (n : ℕ) → length (le_bytes 4 n) ≡ 4
unfolding le_bytes
length-le_bytes n = refl

module _ {before after : Bytes} {f : File} (r : Rec) (v : IsLogged r)
    (h : Holds before (rec_bytes r) after f) where
  pub size-Holds :
      Holds
        ((before ++ r.head) ++ r.body)
        (le_bytes 4 (whole_size r))
        after
        (record f { pos = f.pos + 88 + length r.body })
  size-Holds =
      let whole =
        (var-Holds r v h).whole
        ∙ ap (λ t. (before ++ r.head) ++ t)
            (append_assoc r.body (le_bytes 4 (whole_size r)) after) in
      Holds-next {before = before ++ r.head} {xs = r.body}
        (record { whole = whole; place = (var-Holds r v h).place }) (length r.body) refl
        (le_bytes 4 (whole_size r)) after refl

  pub read-size :
      read_bytes 4 (record f { pos = f.pos + 88 + length r.body }) ≡ le_bytes 4 (whole_size r)
  read-size = read_bytes-Holds size-Holds 4 (unfold le_bytes in refl)

  validated-record :
      (offset : ℕ)
      → offset + room r < off_mod
      → validated offset r.head (le_bytes 4 (whole_size r)) ≡ some (offset + room r)
  unfolding validated whole_size
  validated-record offset small =
      let value : le_word (le_bytes 4 (88 + length r.body)) ≡ 88 + length r.body =
        le_word-le_bytes (88 + length r.body) (omega (arith, v.is_rec.fits)) in
      let positive : sign_extend (88 + length r.body) ≡ 88 + length r.body =
        ground (arith, v.is_rec.fits) in
      let sum : (length r.body + 88) % 2 ^ 64 ≡ 88 + length r.body = omega (arith, v.is_rec.fits) in
      rw (v.magic, v.is_rec.sized, value, positive, sum, ==_refl (88 + length r.body))
        (ap some (omega (arith, v.is_rec.fits, small)))

  validate_size-record :
      (offset : ℕ)
      → offset + room r < off_mod
      → validate_size offset r.head (some (record f { pos = f.pos + 88 + length r.body }))
        ≡ some (offset + room r)
  unfolding validate_size
  validate_size-record offset small =
      rw (read-size, length-le_bytes (whole_size r)) (validated-record offset small)

-- `validateRec` accepts a record, and gives the offset of the next one.
pub validate_rec-record :
    {before after : Bytes} (f : File) (offset : ℕ) (r : Rec)
    → IsLogged r
    → Holds before (rec_bytes r) after (record f { pos = offset })
    → offset + room r < off_mod
    → validate_rec offset f ≡ some (offset + room r)
unfolding validate_rec validate_head
validate_rec-record f offset r v h small =
    let end : (offset + log_size r.head + 88) % 2 ^ 64 ≡ offset + 88 + length r.body =
      omega (arith, v.is_rec.sized, small) in
    rw
      (
        lseek-within offset f (omega (arith, small)),
        read-head r v h,
        v.is_rec.head_size,
        after-head r v h,
        end,
        lseek-within (offset + 88 + length r.body) (record f { pos = offset + 88 })
            (omega (arith, small)),
      )
      (validate_size-record r v h offset small)
