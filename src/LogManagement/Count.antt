-- ===== src/LogManagement/Count.antt =====
-- user/cmd/evlogmgr/evl_logmgmt.c: `countRecsForDeletion` and `evlGetNumDelRec`.
use evlog.Prelude.{
  ℕ, zero, suc, ◌+◌, ◌-◌, ◌%◌, Bool, true, false, not, ◌&&◌, ◌||◌, ◌==◌, ltb, leb, if◌then◌else◌,
  Option, none, some, [], ◌∷◌, ◌++◌, length, drop, Text, u64_mod, sign_extend,
}
use evlog.Query.Create.{Query, Errno, Created}
use evlog.Log.File.{Bytes, File, Status, success, eio, einval, ebadf, read_bytes, lseek}
use evlog.Log.Layout.{rec_hdr_size, log_header_size, sizesize, entry_maxlen, le_word, log_size}
use evlog.LogManagement.Records.{is_mgmt_message}

-- The variables of `countRecsForDeletion`. The offset and the bytes to process are of type `size_t`.
pub record Counting : Type 0 where
  pub varbuf : Bytes
  pub offset : ℕ
  pub bytes_to_process : ℕ
  pub delcnt : ℕ
  pub nbytes : ℕ

-- How a run ends: with a status, or not within the fuel.
pub data Counted : Type 0 where
  returns : Status → Counting → Counted
  unfinished : Counted

-- The next record, of `size` bytes without those of the size behind it.
unfoldable pub count_next : ℕ → Counting → Counting
count_next size c =
    let reclen = (size + sizesize) % u64_mod in
    record c {
      offset = (c.offset + reclen) % u64_mod;
      bytes_to_process = (c.bytes_to_process + (u64_mod - reclen)) % u64_mod;
    }

-- A record that matches is counted, with its bytes.
unfoldable pub count_record : Bool → Bytes → Counting → Counting
count_record false head c = c
count_record true head c = record c {
  delcnt = c.delcnt + 1;
  nbytes = (c.nbytes + (rec_hdr_size + log_size head + sizesize)) % u64_mod;
}

-- `strlen(logmgmt_msg) == 0`
unfoldable pub no_message : Text → Bool
no_message [] = true
no_message (c ∷ msg) = false

module _ (evaluate : Bytes → Bytes → Bool) (msg : Text) (f : File) where
  unfoldable pub is_counted : Bytes → Bytes → Bool
  unfolding no_message
  is_counted head varbuf =
      evaluate head varbuf && (no_message msg || not (is_mgmt_message msg varbuf))

  -- Behind the size at the end of the record.
  unfoldable pub count_sized : (Counting → Counted) → Bytes → ℕ → Counting → Counted
  unfolding count_next count_record is_counted
  count_sized next head size c =
      if size == (rec_hdr_size + log_size head) % u64_mod
      then next (count_next size (count_record (is_counted head c.varbuf) head c))
      else returns eio c

  -- The size is read at the read pointer `p`.
  unfoldable pub count_size : (Counting → Counted) → Bytes → ℕ → Counting → Counted
  count_size next head p c =
      let recsize = read_bytes sizesize (record f { pos = p }) in
      if length recsize == sizesize
      then count_sized next head (sign_extend (le_word recsize)) c
      else returns eio c

  -- The variable data, unless there is none or too much.
  unfoldable pub count_data : (Counting → Counted) → Bytes → ℕ → Counting → Counted
  count_data next head p c =
      let n = log_size head in
      let data_bytes = read_bytes n (record f { pos = p }) in
      if ltb 0 n && leb n entry_maxlen
      then (if length data_bytes == n
          then count_size next head (p + n) (record c { varbuf = data_bytes ++ drop n c.varbuf })
          else returns eio c)
      else count_size next head p c

  unfoldable pub count_round : (Counting → Counted) → Counting → Option File → Counted
  count_round next c none = returns eio c
  count_round next c (some f') =
      let head = read_bytes rec_hdr_size f' in
      if length head == rec_hdr_size
      then count_data next head (f'.pos + rec_hdr_size) c
      else returns eio c

  unfoldable pub count_loop : ℕ → Counting → Counted
  count_loop zero c = unfinished
  count_loop (suc fuel) c =
      let round = count_round (count_loop fuel) c (lseek c.offset f) in
      if ltb 0 c.bytes_to_process then round else returns success c

  -- `countRecsForDeletion`, on the bytes that `varbuf` has at its start.
  unfoldable pub count_recs_for_deletion : ℕ → Bytes → Counted
  count_recs_for_deletion fuel varbuf =
      let size = length f.contents in
      let start : Counting = record {
        varbuf = varbuf;
        offset = log_header_size;
        bytes_to_process = (size + (u64_mod - log_header_size)) % u64_mod;
        delcnt = 0;
        nbytes = 0;
      } in
      if size == 0 then returns ebadf start else count_loop fuel start

-- What `evlGetNumDelRec` returns, and what it stores: nothing, or -1 (`none`) or a number of records,
-- and a number of bytes.
pub record NumDelRec : Type 0 where
  pub status : Status
  pub stored : Option (Option ℕ × ℕ)

unfoldable pub num_del_rec : Counted → Option NumDelRec
num_del_rec unfinished = none
num_del_rec (returns success c) =
    some (record { status = success; stored = some (some c.delcnt, c.nbytes) })
num_del_rec (returns s c) = some (record { status = s; stored = some (none, 0) })

unfoldable pub count_opened :
    (Bytes → Bytes → Bool) → Text → ℕ → Bytes → Option File → Option NumDelRec
unfolding num_del_rec
count_opened evaluate msg fuel varbuf none = some (record { status = ebadf; stored = none })
count_opened evaluate msg fuel varbuf (some f) =
    num_del_rec (count_recs_for_deletion evaluate msg f fuel varbuf)

unfoldable pub count_with :
    (Query → Bytes → Bytes → Bool)
    → Text
    → ℕ
    → Bytes
    → Option File
    → Option Query
    → Option Errno
    → Option NumDelRec
count_with evaluate msg fuel varbuf opened (some query) none =
    count_opened (evaluate query) msg fuel varbuf opened
count_with evaluate msg fuel varbuf opened query e =
    some (record { status = einval; stored = none })

-- `evlGetNumDelRec`, on what `posix_log_query_create` leaves for the filter, and the file that `open`
-- gives.
unfoldable pub evl_get_num_del_rec :
    (Query → Bytes → Bytes → Bool)
    → Text
    → ℕ
    → Bytes
    → Option Created
    → Option File
    → Option NumDelRec
unfolding count_with
evl_get_num_del_rec evaluate msg fuel varbuf none opened = none
evl_get_num_del_rec evaluate msg fuel varbuf (some created) opened =
    count_with evaluate msg fuel varbuf opened created.query created.status
