-- ===== src/LogManagement/Repair.antt =====
-- user/cmd/evlogmgr/evl_logmgmt.c: `searchForNextGoodRecord` and `repairLog`.
use evlog.Prelude.{
  ℕ, zero, suc, ◌+◌, ◌-◌, ◌%◌, Bool, true, false, ◌==◌, ltb, if◌then◌else◌, Option, none, some,
  length, u64_mod, sign_extend,
}
use evlog.Log.File.{Bytes, File, Status, success, eio, read_bytes, after_read, ftruncate, off_mod}
use evlog.Log.Layout.{rec_hdr_size, log_header_size, sizesize, le_word}
use evlog.LogManagement.Records.{
  has_record_magic, get_rec_len, minus_one, validate_rec, move_record_up,
}

-- How the search ends: with -1, with an offset, or not within its fuel.
pub data Searched : Type 0 where
  nowhere : Searched
  good_record : ℕ → Searched
  searching : Searched

-- A record header begins at `offset`: its size must be that behind the data. A seek that fails
-- leaves the read pointer behind `log_size`.
unfoldable pub search_sized : ℕ → Bytes → Bytes → Searched → Searched
search_sized offset log_size_bytes recsize next =
    if (le_word log_size_bytes + rec_hdr_size) % u64_mod == sign_extend (le_word recsize)
    then good_record offset
    else next

unfoldable pub search_at : ℕ → File → Searched → Searched
search_at offset f next =
    let log_size_bytes = read_bytes 8 (record f { pos = offset + 8 }) in
    let behind = (offset + le_word log_size_bytes + rec_hdr_size) % u64_mod in
    let recsize =
      read_bytes sizesize (record f { pos = if ltb behind off_mod then behind else offset + 16 }) in
    if length log_size_bytes == 8
    then (if length recsize == sizesize
        then search_sized offset log_size_bytes recsize next
        else nowhere)
    else nowhere

-- `searchForNextGoodRecord`: one byte further in each round.
unfoldable pub search_from : ℕ → ℕ → File → Searched
search_from zero offset f = searching
search_from (suc fuel) offset f =
    let magic = read_bytes 4 (record f { pos = offset }) in
    let next = search_from fuel (offset + 1) f in
    if length magic == 4
    then (if has_record_magic (le_word magic) then search_at offset f next else next)
    else nowhere

unfoldable pub search_for_next_good_record : ℕ → File → Searched
search_for_next_good_record offset f = search_from (suc (length f.contents)) offset f

-- The variables of `repairLog`; `*status` is 1 once a corrupted record has been seen.
pub record Repair : Type 0 where
  pub file : File
  pub offset : ℕ
  pub beginhole : ℕ
  pub bytes_to_process : ℕ
  pub found_corrupted : Bool

-- How a run of `repairLog` ends: with a status, or not within the fuel.
pub data Repaired : Type 0 where
  returns : Status → Repair → Repaired
  unfinished : Repaired

-- At `repair_again`, with the size of the file that `fstat` gave at the start.
unfoldable pub again : ℕ → Repair → Repair
again st_size r = record r {
  beginhole = 0;
  offset = log_header_size;
  bytes_to_process = st_size - log_header_size;
}

-- Behind the loops.
unfoldable pub cut_hole : Repair → Repaired
cut_hole r =
    returns success
      (if ltb 0 r.beginhole then record r { file = ftruncate r.beginhole r.file } else r)

unfoldable pub moved :
    (Repair → Repaired) → (Repair → Repaired) → ℕ → Repair → Option (ℕ × File) → Repaired
moved go_on restart reclen r none = restart r
moved go_on restart reclen r (some (hole, f)) = go_on (record r {
  file = f;
  beginhole = hole;
  offset = r.offset + reclen;
  bytes_to_process = r.bytes_to_process - reclen;
})

-- One round of the inner loop, which moves the records behind a good one into the hole.
unfoldable pub move_round : (Repair → Repaired) → (Repair → Repaired) → Repair → Repaired
move_round go_on restart r =
    let f = record r.file { pos = r.offset } in
    let head = read_bytes rec_hdr_size f in
    let r' = record r { file = after_read rec_hdr_size f } in
    if length head == rec_hdr_size
    then (if get_rec_len head == minus_one
        then restart r'
        else moved go_on restart (get_rec_len head) r'
            (move_record_up r.beginhole head none r'.file))
    else returns eio r'

-- The search for a good record behind a corrupted one.
unfoldable pub resume : (Repair → Repaired) → Repair → Searched → Repaired
resume move r nowhere = cut_hole r
resume move r searching = unfinished
resume move r (good_record n) =
    move (record r { offset = n; bytes_to_process = r.bytes_to_process + r.offset - n })

-- One round of the outer loop.
unfoldable pub checked : (Repair → Repaired) → (Repair → Repaired) → Repair → Option ℕ → Repaired
checked go_on move r none =
    resume move (record r { beginhole = r.offset; found_corrupted = true })
      (search_for_next_good_record r.offset r.file)
checked go_on move r (some n) =
    go_on (record r { offset = n; bytes_to_process = r.bytes_to_process + r.offset - n })

-- The two loops, and the jump to `repair_again`, share their fuel; a round of the inner loop is
-- `moving`. When nothing is left to process, both loops end.
unfoldable pub repair_loop : ℕ → ℕ → Bool → Repair → Repaired
repair_loop zero st_size moving r = unfinished
repair_loop (suc fuel) st_size moving r =
    let restart = λ (r' : Repair). repair_loop fuel st_size false (again st_size r') in
    let move = move_round (repair_loop fuel st_size true) restart r in
    let check =
      checked (repair_loop fuel st_size false) (repair_loop fuel st_size true) r
        (validate_rec r.offset r.file) in
    if ltb 0 r.bytes_to_process then (if moving then move else check) else cut_hole r

-- `repairLog`
unfoldable pub repair_log : ℕ → File → Repaired
repair_log fuel f =
    let start : Repair = record {
      file = f;
      offset = 0;
      beginhole = 0;
      bytes_to_process = 0;
      found_corrupted = false;
    } in
    if length f.contents == 0
    then returns eio start
    else repair_loop fuel (length f.contents) false (again (length f.contents) start)
