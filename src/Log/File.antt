-- ===== src/Log/File.antt =====
-- Regular files as the C library's `lseek`, `read`, `write` and `ftruncate` see them, and `readBuf`
-- of user/lib/posix2.c.
use evlog.Prelude.{
  ℕ, zero, suc, ◌+◌, ◌-◌, ◌^◌, Bool, true, false, ◌==◌, ltb, if◌then◌else◌, Option, none, some,
  List, [], ◌∷◌, ◌++◌, length, take, drop, slice,
}

abbrev pub Bytes : Type 0
Bytes = List ℕ

-- What an open file holds, and where its read pointer stands.
pub record File : Type 0 where
  pub contents : Bytes
  pub pos : ℕ

-- The errors that the functions on logs return; `success` is 0.
pub data Status : Type 0 where
  success eagain eio enoent einval ebadf ebusy emfile : Status

unfoldable pub is_success : Status → Bool
is_success success = true
is_success _ = false

unfoldable pub is_eagain : Status → Bool
is_eagain eagain = true
is_eagain _ = false

-- The limit of an `off_t`.
abbrev pub off_mod : ℕ
off_mod = 2 ^ 63

-- `lseek(fd, n, SEEK_SET)`, with `none` for a failure.
unfoldable pub lseek : ℕ → File → Option File
lseek n f = if ltb n off_mod then some (record f { pos = n }) else none

-- `lseek(fd, -n, SEEK_CUR)`
unfoldable pub lseek_back : ℕ → File → Option File
lseek_back n f = if ltb f.pos n then none else some (record f { pos = f.pos - n })

-- `read(fd, buf, n)`: the bytes that it reads.
unfoldable pub read_bytes : ℕ → File → Bytes
read_bytes n f = slice f.pos n f.contents

-- The file behind them.
unfoldable pub after_read : ℕ → File → File
unfolding read_bytes
after_read n f = record f { pos = f.pos + length (read_bytes n f) }

-- A buffer when `bs` have been written to its start: the bytes behind them are those from before.
abbrev pub overlay : Bytes → Bytes → Bytes
overlay bs buffer = bs ++ drop (length bs) buffer

abbrev pub zeros : ℕ → Bytes
zeros zero = []
zeros (suc n) = 0 ∷ zeros n

-- `write(fd, bs, length bs)`: a gap behind the end of the file is filled with zeros.
unfoldable pub write_bytes : Bytes → File → File
write_bytes bs f = record f {
  contents =
      (take f.pos f.contents ++ zeros (f.pos - length f.contents))
      ++ (bs ++ drop (f.pos + length bs) f.contents);
  pos = f.pos + length bs;
}

-- `ftruncate(fd, n)`
unfoldable pub ftruncate : ℕ → File → File
ftruncate n f = record f { contents = take n f.contents ++ zeros (n - length f.contents) }

-- `readBuf`: its result, the bytes that it puts into the buffer, and the file.
pub record ReadBuf : Type 0 where
  pub status : Status
  pub got : Bytes
  pub file : File

unfoldable pub buf_status : ℕ → ℕ → Status
buf_status n_bytes len = if n_bytes == 0 then eagain else if n_bytes == len then success else eio

unfoldable pub read_buf : ℕ → File → ReadBuf
unfolding buf_status read_bytes after_read
read_buf len f = record {
  status = buf_status (length (read_bytes len f)) len;
  got = read_bytes len f;
  file = after_read len f;
}
