-- ===== src/LogManagement/Compacted.antt =====
-- user/cmd/evlogmgr/evl_logmgmt.c: what `compactLog` makes of a log of whole records.
use evlog.Prelude.{
  ℕ, zero, suc, ◌+◌, ◌-◌, ◌<◌, ◌≡◌, refl, sym, ap, ◌∙◌, Bool, false, ◌==◌, List, [], ◌∷◌, ◌++◌,
  length, length-append, All, Text, Bool-cases, inl, inr, arith,
}
use mathlib.Core.List.{append-nil}
use evlog.Log.File.{Bytes, success}
use evlog.Log.Layout.{Rec, rec_bytes, log_bytes}
use evlog.Log.Cursor.{room, length-rec_bytes-IsRec, length-le-log_bytes}
use evlog.LogManagement.Compact.{
  Compaction, returns, compact_log, compact_loop, truncate_hole, advance, delete_record,
}
use evlog.LogManagement.Moving.{hole_after}
use evlog.LogManagement.Rounds.{IsLogged}
use evlog.LogManagement.Kept.{
  Compacts-eq, kept-deletes, deleted-deletes, deleted-keeps, keep-bytes, Compacts, kept, deleted,
  deletes, IsLogged-IsRec,
}
use evlog.LogManagement.Steps.{
  read_record, During, During-delete, During-skip, moved_file, During-move, truncate_hole-cut,
  loop-end, delete-step, move-step, skip-step,
}

module _ (evaluate : Bytes → Bytes → Bool) (msg : Text) where
  -- The loop with a hole in the file.
  hole_loop :
      (fuel : ℕ) (rest : List Rec) (first hole : Bytes) (c : Compaction)
      → length rest < fuel
      → During evaluate msg first hole rest c
      → c.beginhole ≡ length first
      → Compacts evaluate msg
          (first ++ log_bytes (kept evaluate msg rest))
          (c.num_delrec + deleted evaluate msg rest)
          (compact_loop evaluate msg fuel c)
  hole_loop zero rest first hole c enough d at_hole = absurd (omega arith)
  hole_loop (suc fuel) [] first hole c enough d at_hole =
      Compacts-eq evaluate msg
        (truncate_hole-cut evaluate msg first (hole ++ log_bytes []) c d.whole at_hole d.started)
        (unfold log_bytes in sym (append-nil first)) (omega arith) (loop-end evaluate msg fuel d)
  hole_loop (suc fuel) (r ∷ rest) first hole c enough d at_hole =
      let inside : (c.beginhole == 0) ≡ false = ground (arith, at_hole, d.started) in
      elim (Bool-cases (deletes evaluate msg r)) [
        | inl e ↦
            let next =
              hole_loop fuel rest first (hole ++ rec_bytes r)
                (advance (room r) (delete_record r.head (read_record r c))) (omega arith)
                (During-delete evaluate msg r d)
                (unfold advance delete_record in rw inside at_hole) in
            Compacts-eq evaluate msg next
              (ap (λ t. first ++ log_bytes t) (sym (kept-deletes evaluate msg r rest e)))
              (unfold advance delete_record in omega (arith, deleted-deletes evaluate msg r rest e))
              (delete-step evaluate msg fuel r d e)
        | inr e ↦
            let next =
              hole_loop fuel rest (first ++ rec_bytes r) (hole_after hole (rec_bytes r))
                (advance (room r) (record c {
                  file = moved_file evaluate msg first r c;
                  beginhole = length first + room r;
                }))
                (omega arith) (During-move evaluate msg r d)
                (unfold advance in
                  omega (
                    arith,
                    length-append first (rec_bytes r),
                    length-rec_bytes-IsRec r d.logged.0.is_rec,
                  )) in
            Compacts-eq evaluate msg next (keep-bytes evaluate msg first r rest e)
              (unfold advance in omega (arith, deleted-keeps evaluate msg r rest e))
              (move-step evaluate msg fuel r d e at_hole)
      ]

  truncate_hole-none : (c : Compaction) → c.beginhole ≡ 0 → truncate_hole c ≡ returns success c
  unfolding truncate_hole
  truncate_hole-none c e = rw e

  -- The loop as long as nothing has been deleted.
  whole_loop :
      (fuel : ℕ) (rest : List Rec) (first : Bytes) (c : Compaction)
      → length rest < fuel
      → During evaluate msg first [] rest c
      → c.beginhole ≡ 0
      → Compacts evaluate msg
          (first ++ log_bytes (kept evaluate msg rest))
          (c.num_delrec + deleted evaluate msg rest)
          (compact_loop evaluate msg fuel c)
  whole_loop zero rest first c enough d no_hole = absurd (omega arith)
  whole_loop (suc fuel) [] first c enough d no_hole = record {
    final = c;
    outcome = loop-end evaluate msg fuel d ∙ truncate_hole-none c no_hole;
    contents_lem = d.whole;
    counted = omega arith;
  }
  whole_loop (suc fuel) (r ∷ rest) first c enough d no_hole =
      elim (Bool-cases (deletes evaluate msg r)) [
        | inl e ↦
            Compacts-eq evaluate msg
              (hole_loop fuel rest first (rec_bytes r)
                (advance (room r) (delete_record r.head (read_record r c))) (omega arith)
                (During-delete evaluate msg r d)
                (unfold advance delete_record in rw no_hole (omega (arith, d.place))))
              (ap (λ t. first ++ log_bytes t) (sym (kept-deletes evaluate msg r rest e)))
              (unfold advance delete_record in omega (arith, deleted-deletes evaluate msg r rest e))
              (delete-step evaluate msg fuel r d e)
        | inr e ↦
            Compacts-eq evaluate msg
              (whole_loop fuel rest (first ++ rec_bytes r) (advance (room r) (read_record r c))
                (omega arith) (During-skip evaluate msg r d) (unfold advance in no_hole))
              (keep-bytes evaluate msg first r rest e)
              (unfold advance in omega (arith, deleted-keeps evaluate msg r rest e))
              (skip-step evaluate msg fuel r d e no_hole)
      ]

  -- `compactLog` on a log of whole records: every record that matches the query is gone, but for
  -- the message of this compaction, the other records are kept as they were and in their order,
  -- behind the same header, and the deleted ones have been counted.
  pub compact_log-Compacts :
      (header : Bytes) (rs : List Rec) (c : Compaction)
      → c.file.contents ≡ header ++ log_bytes rs
      → length header ≡ 40
      → All IsLogged rs
      → Compacts evaluate msg
          (header ++ log_bytes (kept evaluate msg rs))
          (deleted evaluate msg rs)
          (compact_log evaluate msg c)
  unfolding compact_log
  compact_log-Compacts header rs c whole size logged =
      let all : length c.file.contents ≡ 40 + length (log_bytes rs) =
        omega (arith, ap length whole, size, length-append header (log_bytes rs)) in
      let some_bytes : (length c.file.contents == 0) ≡ false = ground (arith, all) in
      rw some_bytes (
        Compacts-eq evaluate msg
          (whole_loop (suc (length c.file.contents)) rs header
            (record c {
              offset = 40;
              beginhole = 0;
              bytes_to_process = length c.file.contents - 40;
              num_delrec = 0;
            })
            (omega (arith, all, length-le-log_bytes rs (IsLogged-IsRec rs logged)))
            (record {
              whole = whole;
              place = omega (arith, size);
              remaining = omega (arith, all);
              logged = logged;
              started = omega (arith, size);
            })
            refl)
          refl (omega arith) refl)
