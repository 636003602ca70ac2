-- ===== src/LogManagement/Compact.antt =====
-- user/cmd/evlogmgr/evl_logmgmt.c: `compactLog`.
use evlog.Prelude.{
  ℕ, zero, suc, ◌+◌, ◌-◌, ◌%◌, Bool, not, ◌==◌, ltb, if◌then◌else◌, Option, none, some, length,
  Text, u64_mod,
}
use evlog.Log.File.{Bytes, File, Status, success, eio, read_bytes, after_read, ftruncate}
use evlog.Log.Layout.{rec_hdr_size, log_header_size, sizesize, entry_maxlen, log_size}
use evlog.LogManagement.Records.{get_rec_len, minus_one, matches_for_del, move_record_up}

-- The variables of `compactLog`, with the globals `g_num_delrec` and `reducedBytes`. The bytes to
-- process are a signed number that the loop compares with 0: where it is negative, it is 0 here.
pub record Compaction : Type 0 where
  pub file : File
  pub offset : ℕ
  pub beginhole : ℕ
  pub bytes_to_process : ℕ
  pub num_delrec : ℕ
  pub reduced_bytes : ℕ

-- How a run of the loop ends: with a status, with more bytes read than `varbuf` has room for, or
-- not within the fuel.
pub data Run : Type 0 where
  returns : Status → Compaction → Run
  overruns unfinished : Run

-- The next record.
unfoldable pub advance : ℕ → Compaction → Compaction
advance reclen c = record c {
  offset = c.offset + reclen;
  bytes_to_process = c.bytes_to_process - reclen;
}

-- A record that is deleted: the hole begins at the first one.
unfoldable pub delete_record : Bytes → Compaction → Compaction
delete_record head c = record c {
  beginhole = if c.beginhole == 0 then c.offset else c.beginhole;
  num_delrec = c.num_delrec + 1;
  reduced_bytes = (c.reduced_bytes + (rec_hdr_size + log_size head + sizesize)) % u64_mod;
}

unfoldable pub moved_up : (Compaction → Run) → ℕ → Compaction → Option (ℕ × File) → Run
unfolding advance
moved_up next reclen c none = returns eio c
moved_up next reclen c (some (hole, f)) =
    next (advance reclen (record c { file = f; beginhole = hole }))

-- Behind the loop.
unfoldable pub truncate_hole : Compaction → Run
truncate_hole c =
    returns success
      (if ltb 0 c.beginhole then record c { file = ftruncate c.beginhole c.file } else c)

module _ (evaluate : Bytes → Bytes → Bool) (msg : Text) where
  -- What happens to a record that has been read, and the next round.
  unfoldable pub compact_record : (Compaction → Run) → ℕ → Bytes → Bytes → Compaction → Run
  unfolding advance delete_record
  compact_record next reclen head varbuf c =
      if matches_for_del evaluate msg head varbuf
      then next (advance reclen (delete_record head c))
      else if c.beginhole == 0
      then next (advance reclen c)
      else moved_up next reclen c (move_record_up c.beginhole head (some varbuf) c.file)

  -- The variable data and the size are read into `varbuf`.
  unfoldable pub compact_data : (Compaction → Run) → ℕ → Bytes → Compaction → Run
  compact_data next n head c =
      let varbuf = read_bytes n c.file in
      if ltb (entry_maxlen + sizesize) (length varbuf)
      then overruns
      else if not (length varbuf == n)
      then returns eio (record c { file = after_read n c.file })
      else compact_record next (get_rec_len head) head varbuf
          (record c { file = after_read n c.file })

  unfoldable pub compact_round : (Compaction → Run) → Compaction → Run
  compact_round next c =
      let f = record c.file { pos = c.offset } in
      let head = read_bytes rec_hdr_size f in
      let c' = record c { file = after_read rec_hdr_size f } in
      if not (length head == rec_hdr_size)
      then returns eio c'
      else if get_rec_len head == minus_one
      then returns eio c'
      else compact_data next ((log_size head + sizesize) % u64_mod) head c'

  unfoldable pub compact_loop : ℕ → Compaction → Run
  compact_loop zero c = unfinished
  compact_loop (suc fuel) c =
      let round = compact_round (compact_loop fuel) c in
      if ltb 0 c.bytes_to_process then round else truncate_hole c

  -- `compactLog`. A round that goes on consumes bytes of the file.
  unfoldable pub compact_log : Compaction → Run
  compact_log c =
      let size = length c.file.contents in
      if size == 0
      then returns eio c
      else compact_loop (suc size) (record c {
        offset = log_header_size;
        beginhole = 0;
        bytes_to_process = size - log_header_size;
        num_delrec = 0;
      })
