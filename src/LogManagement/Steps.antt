-- ===== src/LogManagement/Steps.antt =====
-- user/cmd/evlogmgr/evl_logmgmt.c: the file in the course of the loop of `compactLog`, and each of its rounds.
use evlog.Prelude.{
  ℕ, suc, ◌+◌, ◌-◌, ◌<◌, ◌≡◌, refl, sym, ap, ◌∙◌, Bool, true, false, ◌==◌, ltb, List, [], ◌∷◌, ◌++◌,
  length, take, take-append, length-append, All, Text, arith,
}
use mathlib.Core.List.{append_assoc, append-nil}
use evlog.Log.File.{Bytes, File, ftruncate, write_bytes}
use evlog.Log.Layout.{Rec, rec_bytes, log_bytes}
use evlog.Log.Reading.{Holds}
use evlog.Log.Cursor.{room, length-rec_bytes-IsRec}
use evlog.LogManagement.Compact.{
  Compaction, compact_loop, compact_record, truncate_hole, advance, delete_record, moved_up,
}
use evlog.LogManagement.Moving.{write_twice-hole, hole_after, length-hole_after}
use evlog.LogManagement.Rounds.{IsLogged, var_bytes, compact_round-record, move_record_up-record}
use evlog.LogManagement.Kept.{deletes, Compacts}

-- A record is in memory, and the read pointer behind it.
abbrev pub read_record : Rec → Compaction → Compaction
read_record r c = record c { file = record c.file { pos = c.offset + room r } }

module _ (evaluate : Bytes → Bytes → Bool) (msg : Text) where
  -- The file in the course of the loop: what is kept, the hole, and the records to come.
  pub record During (first hole : Bytes) (rest : List Rec) (c : Compaction) : Type 0 where
    pub whole : c.file.contents ≡ first ++ (hole ++ log_bytes rest)
    pub place : c.offset ≡ length first + length hole
    pub remaining : c.bytes_to_process ≡ length (log_bytes rest)
    pub logged : All IsLogged rest
    pub started : 0 < length first

  module _ {first hole : Bytes} {rest : List Rec} {c : Compaction} (r : Rec) where
    pub During-Holds :
        During first hole (r ∷ rest) c
        → Holds (first ++ hole) (rec_bytes r) (log_bytes rest) (record c.file { pos = c.offset })
    unfolding log_bytes
    During-Holds d = record {
      whole = d.whole ∙ sym (append_assoc first hole (rec_bytes r ++ log_bytes rest));
      place = d.place ∙ sym (length-append first hole);
    }

    pub During-goes_on : During first hole (r ∷ rest) c → ltb 0 c.bytes_to_process ≡ true
    unfolding log_bytes
    During-goes_on d = ground (
      arith,
      d.remaining,
      length-append (rec_bytes r) (log_bytes rest),
      length-rec_bytes-IsRec r d.logged.0.is_rec,
    )

    pub loop-step :
        (fuel : ℕ)
        → During first hole (r ∷ rest) c
        → compact_loop evaluate msg (suc fuel) c
          ≡ compact_record evaluate msg
              (compact_loop evaluate msg fuel)
              (room r)
              r.head
              (var_bytes r)
              (read_record r c)
    unfolding compact_loop
    loop-step fuel d = rw (
      During-goes_on d,
      compact_round-record r d.logged.0 evaluate msg (compact_loop evaluate msg fuel) c
          (During-Holds d),
    )

  -- A deleted record makes the hole longer.
  pub During-delete :
      {first hole : Bytes} {rest : List Rec} {c : Compaction} (r : Rec)
      → During first hole (r ∷ rest) c
      → During first
          (hole ++ rec_bytes r)
          rest
          (advance (room r) (delete_record r.head (read_record r c)))
  unfolding log_bytes advance delete_record
  During-delete {first} {hole} {rest} r d =
      let size = length-rec_bytes-IsRec r d.logged.0.is_rec in
      record {
        whole =
            d.whole ∙ ap (λ t. first ++ t) (sym (append_assoc hole (rec_bytes r) (log_bytes rest)));
        place = omega (arith, d.place, size, length-append hole (rec_bytes r));
        remaining = omega (arith, d.remaining, size, length-append (rec_bytes r) (log_bytes rest));
        logged = d.logged.1;
        started = d.started;
      }

  pub During-skip :
      {first : Bytes} {rest : List Rec} {c : Compaction} (r : Rec)
      → During first [] (r ∷ rest) c
      → During (first ++ rec_bytes r) [] rest (advance (room r) (read_record r c))
  unfolding log_bytes advance
  During-skip {first} {rest} r d =
      let size = length-rec_bytes-IsRec r d.logged.0.is_rec in
      record {
        whole = d.whole ∙ sym (append_assoc first (rec_bytes r) (log_bytes rest));
        place = omega (arith, d.place, size, length-append first (rec_bytes r));
        remaining = omega (arith, d.remaining, size, length-append (rec_bytes r) (log_bytes rest));
        logged = d.logged.1;
        started = omega (arith, d.started, length-append first (rec_bytes r));
      }

  -- A record that is kept moves the hole on.
  pub moved_file : Bytes → Rec → Compaction → File
  moved_file first r c =
      write_bytes (var_bytes r) (write_bytes r.head (record c.file { pos = length first }))

  pub During-move :
      {first hole : Bytes} {rest : List Rec} {c : Compaction} (r : Rec)
      → During first hole (r ∷ rest) c
      → During (first ++ rec_bytes r) (hole_after hole (rec_bytes r)) rest (
          advance
            (room r)
            (record c { file = moved_file first r c; beginhole = length first + room r }))
  unfolding log_bytes rec_bytes advance moved_file
  During-move {first} {hole} {rest} {c} r d =
      let size = length-rec_bytes-IsRec r d.logged.0.is_rec in
      record {
        whole =
            write_twice-hole r.head (var_bytes r) first hole (log_bytes rest)
              (record c.file { pos = length first }) d.whole refl;
        place = omega (
          arith,
          d.place,
          size,
          length-append first (rec_bytes r),
          length-hole_after hole (rec_bytes r),
        );
        remaining = omega (arith, d.remaining, size, length-append (rec_bytes r) (log_bytes rest));
        logged = d.logged.1;
        started = omega (arith, d.started, length-append first (rec_bytes r));
      }

  pub truncate_hole-cut :
      (first rest : Bytes) (c : Compaction)
      → c.file.contents ≡ first ++ rest
      → c.beginhole ≡ length first
      → 0 < length first
      → Compacts evaluate msg first c.num_delrec (truncate_hole c)
  unfolding truncate_hole ftruncate
  truncate_hole-cut first rest c whole hole some_bytes =
      let gap : c.beginhole - length c.file.contents ≡ 0 =
        omega (arith, hole, ap length whole, length-append first rest) in
      let front : take c.beginhole c.file.contents ≡ first =
        rw (whole, hole) (take-append first rest) in
      let cut : ltb 0 c.beginhole ≡ true = ground (arith, hole, some_bytes) in
      record {
        final = record c { file = ftruncate c.beginhole c.file };
        outcome = rw cut;
        contents_lem = rw (gap, front) (append-nil first);
        counted = refl;
      }

  pub loop-end :
      {first hole : Bytes} {c : Compaction} (fuel : ℕ)
      → During first hole [] c
      → compact_loop evaluate msg (suc fuel) c ≡ truncate_hole c
  unfolding compact_loop log_bytes
  loop-end {c = c} fuel d =
      let over : ltb 0 c.bytes_to_process ≡ false = ground (arith, d.remaining) in rw over

  module _ {first hole : Bytes} {rest : List Rec} {c : Compaction} (fuel : ℕ) (r : Rec) where
    pub delete-step :
        During first hole (r ∷ rest) c
        → deletes evaluate msg r ≡ true
        → compact_loop evaluate msg (suc fuel) c
          ≡ compact_loop evaluate msg fuel
              (advance (room r) (delete_record r.head (read_record r c)))
    unfolding compact_record
    delete-step d e = rw (loop-step r fuel d, e)

    pub move-step :
        During first hole (r ∷ rest) c
        → deletes evaluate msg r ≡ false
        → c.beginhole ≡ length first
        → compact_loop evaluate msg (suc fuel) c
          ≡ compact_loop evaluate msg fuel (
              advance
                (room r)
                (record c { file = moved_file first r c; beginhole = length first + room r }))
    unfolding compact_record moved_up moved_file
    move-step d e at_hole =
        let inside : (length first == 0) ≡ false = ground (arith, d.started) in
        rw (
          loop-step r fuel d,
          e,
          at_hole,
          inside,
          move_record_up-record r d.logged.0 (length first) (read_record r c).file,
        )

    pub skip-step :
        During first hole (r ∷ rest) c
        → deletes evaluate msg r ≡ false
        → c.beginhole ≡ 0
        → compact_loop evaluate msg (suc fuel) c
          ≡ compact_loop evaluate msg fuel (advance (room r) (read_record r c))
    unfolding compact_record
    skip-step d e no_hole = rw (loop-step r fuel d, e, no_hole)
