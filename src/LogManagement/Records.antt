-- ===== src/LogManagement/Records.antt =====
-- user/cmd/evlogmgr/evl_logmgmt.c: `getRecLen`, `validateRec`, `doesRecMatchForDel`, `moveRecordUp`
-- and `setGenerationNumber`. The log file is open for reading and writing, and writes succeed.
use evlog.Prelude.{
  ℕ, ◌+◌, ◌-◌, ◌/◌, ◌%◌, ◌^◌, Bool, not, ◌&&◌, ◌==◌, ltb, if◌then◌else◌, Option, none, some, [],
  ◌∷◌, ◌++◌, length, take, drop, Text, starts_with, u32_mod, u64_mod, sign_extend,
}
use evlog.Log.File.{Bytes, File, Status, success, ebadf, read_bytes, after_read, write_bytes, lseek}
use evlog.Log.Layout.{
  rec_hdr_size, log_header_size, sizesize, entry_maxlen, logfile_magic, logrec_magic_hiword,
  log_magic, log_size, header_magic, log_generation, le_word, le_bytes,
}

-- `(log_magic & 0xffff0000) == LOGREC_MAGIC_HIWORD`
unfoldable pub has_record_magic : ℕ → Bool
has_record_magic magic = magic / 2 ^ 16 == logrec_magic_hiword

-- `(size_t) -1`
abbrev pub minus_one : ℕ
minus_one = u64_mod - 1

-- `getRecLen`: an `int`, as the caller's `size_t` takes it.
unfoldable pub get_rec_len : Bytes → ℕ
unfolding has_record_magic
get_rec_len head =
    if has_record_magic (log_magic head)
    then sign_extend ((log_size head + (rec_hdr_size + sizesize)) % u32_mod)
    else minus_one

-- The comparison of `validateRec`, and the offset of the next record.
unfoldable pub validated : ℕ → Bytes → Bytes → Option ℕ
unfolding has_record_magic le_word
validated offset head size =
    let recsize = sign_extend (le_word size) in
    if has_record_magic (log_magic head) && (log_size head + rec_hdr_size) % u64_mod == recsize
    then some ((offset + (recsize + sizesize) % u64_mod) % u64_mod)
    else none

unfoldable pub validate_size : ℕ → Bytes → Option File → Option ℕ
unfolding validated
validate_size offset head none = none
validate_size offset head (some f) =
    if length (read_bytes sizesize f) == sizesize
    then validated offset head (read_bytes sizesize f)
    else none

unfoldable pub validate_head : ℕ → Option File → Option ℕ
unfolding validate_size
validate_head offset none = none
validate_head offset (some f) =
    let head = read_bytes rec_hdr_size f in
    if length head == rec_hdr_size
    then validate_size offset head
        (lseek ((offset + log_size head + rec_hdr_size) % u64_mod) (after_read rec_hdr_size f))
    else none

-- `validateRec`: the offset of the next record, or none for -1.
unfoldable pub validate_rec : ℕ → File → Option ℕ
unfolding validate_head
validate_rec offset f = validate_head offset (lseek offset f)

-- `strcmp(logmgmt_msg, varbuf) == 0`; the size behind the data holds a terminator.
unfoldable pub is_mgmt_message : Text → Bytes → Bool
is_mgmt_message msg varbuf = starts_with varbuf (msg ++ 0 ∷ [])

-- The test of `doesRecMatchForDel`.
unfoldable pub matches_for_del : (Bytes → Bytes → Bool) → Text → Bytes → Bytes → Bool
unfolding is_mgmt_message
matches_for_del evaluate msg head varbuf = evaluate head varbuf && not (is_mgmt_message msg varbuf)

-- The bytes behind the header that `moveRecordUp` writes: the caller's or those that it reads.
unfoldable pub remainder_bytes : Option Bytes → ℕ → File → Option Bytes
remainder_bytes (some varbuf) n f = some (take n varbuf)
remainder_bytes none n f = if length (read_bytes n f) == n then some (read_bytes n f) else none

unfoldable pub move_to : ℕ → Bytes → File → Option Bytes → Option (ℕ × File)
move_to beginhole head f none = none
move_to beginhole head f (some rest) = some (
  beginhole + (rec_hdr_size + length rest),
  write_bytes rest (write_bytes head (record f { pos = beginhole })),
)

-- `moveRecordUp`: the end of the hole's new beginning and the file, or none for -1.
unfoldable pub move_record_up : ℕ → Bytes → Option Bytes → File → Option (ℕ × File)
move_record_up beginhole head buf f =
    if ltb entry_maxlen (log_size head)
    then none
    else move_to beginhole head f (remainder_bytes buf (log_size head + sizesize) f)

-- `set_gen_t`
pub data SetGen : Type 0 where
  gen_reset gen_incr gen_even gen_odd : SetGen

unfoldable pub new_generation : SetGen → ℕ → ℕ
new_generation gen_incr g = (g + 1) % u32_mod
new_generation gen_reset g = 0
new_generation gen_even g = if g % 2 == 1 then (g + 1) % u32_mod else g
new_generation gen_odd g = if g % 2 == 0 then (g + 1) % u32_mod else g

-- A log header with another generation: the member is at its offset 32.
unfoldable pub with_generation : ℕ → Bytes → Bytes
unfolding le_bytes
with_generation g header = take 32 header ++ (le_bytes 4 g ++ drop 36 header)

-- `setGenerationNumber`
unfoldable pub set_generation_number : SetGen → File → Status × File
set_generation_number type f =
    let start = record f { pos = 0 } in
    let header = read_bytes log_header_size start in
    if not (length header == log_header_size)
    then (ebadf, after_read log_header_size start)
    else if not (header_magic header == logfile_magic)
    then (ebadf, after_read log_header_size start)
    else (
      success,
      write_bytes (with_generation (new_generation type (log_generation header)) header) start,
    )
