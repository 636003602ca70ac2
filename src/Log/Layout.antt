-- ===== src/Log/Layout.antt =====
-- The layout of a record (`struct posix_log_entry`, user/include/linux/evl_log.h) and of a log
-- file (user/include/evlog.h) for a little-endian LP64 target: a log header, and records of a
-- record header, the variable data and the size of both.
use evlog.Prelude.{
  ℕ, zero, suc, ◌+◌, ◌*◌, ◌/◌, ◌%◌, ◌^◌, ◌<◌, ◌≤◌, ◌≡◌, List, [], ◌∷◌, ◌++◌, length, slice,
  length-append, arith,
}
use evlog.Query.Tree.{Entry}
use evlog.Log.File.{Bytes}

-- The number that a word's bytes stand for, and the `k` bytes of a number.
unfoldable pub le_word : Bytes → ℕ
le_word [] = 0
le_word (b ∷ bs) = b + 256 * le_word bs

unfoldable pub le_bytes : ℕ → ℕ → Bytes
le_bytes zero n = []
le_bytes (suc k) n = (n % 256) ∷ le_bytes k (n / 256)

-- `sizeof(struct posix_log_entry)`, `sizeof(log_header_t)`, SIZESIZE, POSIX_LOG_ENTRY_MAXLEN
abbrev pub rec_hdr_size : ℕ
rec_hdr_size = 88

abbrev pub log_header_size : ℕ
log_header_size = 40

abbrev pub sizesize : ℕ
sizesize = 4

abbrev pub entry_maxlen : ℕ
entry_maxlen = 8192

abbrev pub logfile_magic : ℕ
logfile_magic = 0xbeefface

-- LOGREC_MAGIC_HIWORD, shifted right by 16.
abbrev pub logrec_magic_hiword : ℕ
logrec_magic_hiword = 0xfeef

-- A member of a header, by its offset and its size.
unfoldable pub member : ℕ → ℕ → Bytes → ℕ
unfolding le_word
member offset size header = le_word (slice offset size header)

unfoldable pub log_magic : Bytes → ℕ
unfolding member
log_magic h = member 0 4 h

unfoldable pub log_size : Bytes → ℕ
unfolding member
log_size h = member 8 8 h

-- The members that the query engine reads.
unfoldable pub entry_of : Bytes → Entry
unfolding member
entry_of h = record {
  log_recid = member 4 4 h;
  log_size = member 8 8 h;
  log_format = member 16 4 h;
  log_event_type = member 20 4 h;
  log_facility = member 24 4 h;
  log_severity = member 28 4 h;
  log_uid = member 32 4 h;
  log_gid = member 36 4 h;
  log_pid = member 40 4 h;
  log_pgrp = member 44 4 h;
  log_time = member 48 8 h;
  log_flags = member 64 4 h;
  log_thread = member 72 8 h;
  log_processor = member 80 4 h;
}

-- Of the log header: its magic number and the generation.
unfoldable pub header_magic : Bytes → ℕ
unfolding member
header_magic h = member 0 4 h

unfoldable pub log_generation : Bytes → ℕ
unfolding member
log_generation h = member 32 4 h

-- A record as the file holds it: the header and the variable data.
pub record Rec : Type 0 where
  pub head : Bytes
  pub body : Bytes

pub record IsRec (r : Rec) : Type 0 where
  pub head_size : length r.head ≡ 88
  pub sized : log_size r.head ≡ length r.body
  pub fits : length r.body ≤ 8192

unfoldable pub whole_size : Rec → ℕ
whole_size r = rec_hdr_size + length r.body

unfoldable pub rec_bytes : Rec → Bytes
unfolding whole_size le_bytes
rec_bytes r = r.head ++ (r.body ++ le_bytes sizesize (whole_size r))

unfoldable pub log_bytes : List Rec → Bytes
unfolding rec_bytes
log_bytes [] = []
log_bytes (r ∷ rs) = rec_bytes r ++ log_bytes rs

-- The records in front of the read pointer, the nearest first.
unfoldable pub past_bytes : List Rec → Bytes
unfolding rec_bytes
past_bytes [] = []
past_bytes (r ∷ rs) = past_bytes rs ++ rec_bytes r

pub le_word-le_bytes : (n : ℕ) → n < 2 ^ 32 → le_word (le_bytes 4 n) ≡ n
unfolding le_word le_bytes
le_word-le_bytes n h = omega arith

pub length-rec_bytes : (r : Rec) → length (rec_bytes r) ≡ length r.head + (length r.body + 4)
unfolding rec_bytes le_bytes
length-rec_bytes r = omega (
  arith,
  length-append r.head (r.body ++ le_bytes 4 (whole_size r)),
  length-append r.body (le_bytes 4 (whole_size r)),
)
