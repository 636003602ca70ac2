-- ===== src/Log/Read.antt =====
-- user/lib/posix2.c: `_evlRead`, `_evlRewind`, `_evlSeekEnd`, `_evlFdWrite` and `_evlWriteLogHeader`.
-- `flock` is advisory and changes nothing here.
use evlog.Prelude.{
  ℕ, zero, suc, ◌+◌, ltb, ◌==◌, if◌then◌else◌, Option, none, some, [], ◌++◌, length, take,
}
use evlog.Log.File.{
  Bytes, File, Status, success, eio, is_success, lseek, ReadBuf, read_buf, write_bytes, zeros,
}
use evlog.Log.Layout.{
  rec_hdr_size, log_header_size, sizesize, entry_maxlen, logfile_magic, log_size, le_bytes,
}

-- What `_evlRead` leaves: its result, the bytes that it puts into `*entry` and into `buf`, and the
-- file.
pub record Got : Type 0 where
  pub status : Status
  pub entry : Bytes
  pub var_data : Bytes
  pub file : File

unfoldable pub got : Status → Bytes → Bytes → File → Got
got s h d f = record { status = s; entry = h; var_data = d; file = f }

-- A position after a seek, or EIO.
unfoldable pub at_new_position : Bytes → Bytes → File → Option File → Got
unfolding got
at_new_position h d f none = got eio h d f
at_new_position h d f (some f') = got success h d f'

-- `lseek(fd, SIZESIZE, SEEK_CUR)` behind the variable data.
unfoldable pub skip_size : Bytes → Bytes → File → Got
skip_size h d f = at_new_position h d f (lseek (f.pos + sizesize) f)

-- The variable data is skipped.
unfoldable pub skipped : Bytes → File → Option File → Got
unfolding got
skipped h f none = got eio h [] f
skipped h f (some f') = skip_size h [] f'

-- The variable data is read, into the caller's buffer or, when that is too short, by way of
-- `bigBuf`.
unfoldable pub keep_data : ℕ → Bytes → ReadBuf → Got
unfolding got is_success
keep_data buflen h r =
    if is_success r.status then skip_size h (take buflen r.got) r.file else got eio h [] r.file

-- A buffer is NULL (`none`) or has a length.
unfoldable pub read_data : Option ℕ → Bytes → ℕ → File → Got
read_data none h data_len f = skipped h f (lseek (f.pos + data_len) f)
read_data (some zero) h data_len f = skipped h f (lseek (f.pos + data_len) f)
read_data (some (suc n)) h data_len f = keep_data (suc n) h (read_buf data_len f)

unfoldable pub read_rest : Option ℕ → Bytes → File → Got
unfolding got
read_rest buf h f =
    if ltb entry_maxlen (log_size h)
    then got eio h [] f
    else if log_size h == 0
    then skip_size h [] f
    else read_data buf h (log_size h) f

unfoldable pub read_entry : Option ℕ → ReadBuf → Got
unfolding got is_success
read_entry buf r =
    if is_success r.status then read_rest buf r.got r.file else got r.status r.got [] r.file

-- `_evlRead`
unfoldable pub evl_read : Option ℕ → File → Got
evl_read buf f = read_entry buf (read_buf rec_hdr_size f)

-- `_evlRewind`, and `_evlSeekEnd`
unfoldable pub seek_status : File → Option File → Status × File
seek_status f none = (eio, f)
seek_status f (some f') = (success, f')

unfoldable pub evl_rewind : File → Status × File
evl_rewind f = seek_status f (lseek log_header_size f)

unfoldable pub evl_seek_end : File → Status × File
evl_seek_end f = seek_status f (lseek (length f.contents) f)

-- `_evlWriteLogHeader`: a magic number, and zeros for the other members.
unfoldable pub evl_write_log_header : File → File
unfolding write_bytes le_bytes
evl_write_log_header f = write_bytes (le_bytes 4 logfile_magic ++ zeros 36) f

-- `_evlFdWrite`: the record `entry` with `log_size` bytes of `buf`, and its size as an `int`.
unfoldable pub evl_fd_write : Bytes → Bytes → File → File
unfolding write_bytes le_bytes
evl_fd_write entry buf f =
    write_bytes
      (entry ++ (take (log_size entry) buf ++ le_bytes sizesize (rec_hdr_size + log_size entry))) f
