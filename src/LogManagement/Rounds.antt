-- ===== src/LogManagement/Rounds.antt =====
-- user/cmd/evlogmgr/evl_logmgmt.c: one round of the loop of `compactLog` on a record.
use evlog.Prelude.{
  ℕ, ◌+◌, ◌%◌, ◌^◌, ◌≡◌, refl, sym, ap, ◌∙◌, Bool, true, false, ◌==◌, ltb, some, ◌++◌, length, take,
  take_enough, ==_refl, length-append, Text, arith,
}
use mathlib.Core.List.{append_assoc}
use evlog.Log.File.{Bytes, File, read_bytes, after_read, write_bytes}
use evlog.Log.Layout.{Rec, IsRec, rec_bytes, whole_size, le_bytes, log_size, log_magic}
use evlog.Log.Reading.{Holds, read_bytes-Holds, Holds-next}
use evlog.Log.Cursor.{room}
use evlog.LogManagement.Records.{
  minus_one, has_record_magic, get_rec_len, move_record_up, move_to, remainder_bytes,
}
use evlog.LogManagement.Compact.{Compaction, Run, compact_round, compact_data, compact_record}

-- The data of a record, with the size behind it.
abbrev pub var_bytes : Rec → Bytes
var_bytes r = r.body ++ le_bytes 4 (whole_size r)

-- A record with the magic number of records.
pub record IsLogged (r : Rec) : Type 0 where
  pub is_rec : IsRec r
  pub magic : has_record_magic (log_magic r.head) ≡ true

module _ (r : Rec) (v : IsLogged r) where
  pub length-var_bytes : length (var_bytes r) ≡ length r.body + 4
  unfolding le_bytes
  length-var_bytes = omega (arith, length-append r.body (le_bytes 4 (whole_size r)))

  pub get_rec_len-room : get_rec_len r.head ≡ room r
  unfolding get_rec_len
  get_rec_len-room =
      let small : (length r.body + 92) % 2 ^ 32 ≡ length r.body + 92 =
        omega (arith, v.is_rec.fits) in
      rw (v.magic, v.is_rec.sized, small) (ground (arith, v.is_rec.fits))

  rest_size : (log_size r.head + 4) % 2 ^ 64 ≡ length r.body + 4
  rest_size = omega (arith, v.is_rec.sized, v.is_rec.fits)

  module _ {before after : Bytes} {f : File} (h : Holds before (rec_bytes r) after f) where
    head-Holds : Holds before r.head (var_bytes r ++ after) f
    unfolding rec_bytes
    head-Holds = record {
      whole = h.whole ∙ ap (λ t. before ++ t) (append_assoc r.head (var_bytes r) after);
      place = h.place;
    }

    pub var-Holds : Holds (before ++ r.head) (var_bytes r) after (record f { pos = f.pos + 88 })
    var-Holds = Holds-next head-Holds 88 (sym v.is_rec.head_size) (var_bytes r) after refl

    pub read-head : read_bytes 88 f ≡ r.head
    read-head = read_bytes-Holds head-Holds 88 (sym v.is_rec.head_size)

    pub after-head : after_read 88 f ≡ record f { pos = f.pos + 88 }
    unfolding after_read
    after-head = rw (read-head, v.is_rec.head_size)

    pub read-var : read_bytes (length r.body + 4) (record f { pos = f.pos + 88 }) ≡ var_bytes r
    read-var = read_bytes-Holds var-Holds (length r.body + 4) (sym length-var_bytes)

    after-var :
        after_read (length r.body + 4) (record f { pos = f.pos + 88 })
        ≡ record f { pos = f.pos + room r }
    unfolding after_read
    after-var = rw (read-var, length-var_bytes) (ap (λ p. record f { pos = p }) (omega arith))

  -- A round reads the whole record, and goes on with it.
  pub compact_round-record :
      (evaluate : Bytes → Bytes → Bool) (msg : Text) (next : Compaction → Run) (c : Compaction)
      {before after : Bytes}
      → Holds before (rec_bytes r) after (record c.file { pos = c.offset })
      → compact_round evaluate msg next c
        ≡ compact_record evaluate msg next
            (room r)
            r.head
            (var_bytes r)
            (record c { file = record c.file { pos = c.offset + room r } })
  unfolding compact_round compact_data
  compact_round-record evaluate msg next c h =
      let fits : ltb 8196 (length (var_bytes r)) ≡ false =
        ground (arith, length-var_bytes, v.is_rec.fits) in
      let good : (room r == minus_one) ≡ false = ground (arith, v.is_rec.fits) in
      let whole : (length (var_bytes r) == length r.body + 4) ≡ true =
        rw length-var_bytes (==_refl (length r.body + 4)) in
      rw (
        read-head h,
        after-head h,
        v.is_rec.head_size,
        get_rec_len-room,
        good,
        rest_size,
        read-var h,
        after-var h,
        fits,
        whole,
      )

  -- `moveRecordUp` writes the record, in two parts.
  pub move_record_up-record :
      (beginhole : ℕ) (f : File)
      → move_record_up beginhole r.head (some (var_bytes r)) f
        ≡ some (
          beginhole + room r,
          write_bytes (var_bytes r) (write_bytes r.head (record f { pos = beginhole })),
        )
  unfolding move_record_up move_to remainder_bytes
  move_record_up-record beginhole f =
      let short : ltb 8192 (length r.body) ≡ false = ground (arith, v.is_rec.fits) in
      let all : take (length r.body + 4) (var_bytes r) ≡ var_bytes r =
        take_enough (length r.body + 4) (var_bytes r) (omega (arith, length-var_bytes)) in
      rw (v.is_rec.sized, short, all, length-var_bytes)
