-- ===== src/Log/Seek.antt =====
-- user/lib/posix2.c: `_evlSeekFwd` and `_evlSeekBkwd`.
use evlog.Prelude.{
  ℕ, zero, suc, ◌+◌, Bool, true, ltb, if◌then◌else◌, Option, none, some, length, take, drop,
  sign_extend,
}
use evlog.Log.File.{
  Bytes, File, Status, success, eio, enoent, einval, is_success, is_eagain, lseek, lseek_back,
  ReadBuf, read_buf, overlay,
}
use evlog.Log.Layout.{rec_hdr_size, sizesize, entry_maxlen, le_word}
use evlog.Log.Read.{Got, evl_read}

-- A query, as what `_evlEvaluateQuery` says of a record header and the memory from the data on;
-- `none` is NULL.
abbrev pub Selection : Type 0
Selection = Option (Bytes → Bytes → Bool)

-- `!query || _evlEvaluateQuery(query, entry, buf)`, with the memory from `buf` on: a text in it ends
-- at its terminator, which may lie behind the data of the record.
unfoldable pub selects : Selection → Bytes → Bytes → Bool
selects none h buf = true
selects (some evaluate) h buf = evaluate h buf

-- `lseek(fd, n, SEEK_SET)` before a return.
unfoldable pub return_at : Status → File → Option File → Status × File
return_at s f none = (eio, f)
return_at s f (some f') = (s, f')

-- One round of the loop of `_evlSeekFwd` on what `_evlRead` leaves, with the buffer behind it; `next`
-- is the next round.
unfoldable pub fwd_round :
    Selection → ℕ → ℕ → Got → Bytes → Option (Status × File) → Option (Status × File)
unfolding is_eagain is_success
fwd_round sel start current g buf next =
    if is_eagain g.status
    then some (return_at enoent g.file (lseek start g.file))
    else if is_success g.status
    then (if selects sel g.entry buf
        then some (return_at success g.file (lseek current g.file))
        else next)
    else some (eio, g.file)

-- `none`: the fuel ran out. The buffer is not cleared between two rounds.
unfoldable pub fwd_loop : ℕ → Selection → ℕ → Bytes → File → Option (Status × File)
fwd_loop zero sel start buf f = none
fwd_loop (suc fuel) sel start buf f =
    let g = evl_read (some entry_maxlen) f in
    let buf' = overlay g.var_data buf in
    let next = fwd_loop fuel sel start buf' g.file in fwd_round sel start f.pos g buf' next

-- `_evlSeekFwd`, with what its memory holds from `buf` on. Each round but the last consumes bytes of
-- the file.
unfoldable pub seek_fwd : Selection → Bytes → File → Option (Status × File)
seek_fwd sel memory f = fwd_loop (suc (length f.contents)) sel f.pos memory f

-- The next round of the loop of `_evlSeekBkwd`, for the bytes of `wholeRec` and the file at
-- `curPosition`.
abbrev Rounds : Type 0
Rounds = Bytes → File → Option (Status × File)

-- The record is at `current`, and is tested. `wholeRec` is not cleared: what was read lies over the
-- bytes from before.
unfoldable pub bkwd_test :
    Selection → Rounds → Bytes → ReadBuf → Option File → Option (Status × File)
bkwd_test sel next whole_rec r none = some (eio, r.file)
bkwd_test sel next whole_rec r (some f) =
    let whole_rec' = overlay r.got whole_rec in
    let rest = next whole_rec' f in
    if selects sel (take rec_hdr_size whole_rec') (drop rec_hdr_size whole_rec')
    then some (success, f)
    else rest

unfoldable pub bkwd_record : Selection → Rounds → Bytes → ℕ → ReadBuf → Option (Status × File)
unfolding is_success
bkwd_record sel next whole_rec current r =
    if is_success r.status
    then bkwd_test sel next whole_rec r (lseek current r.file)
    else some (eio, r.file)

-- Behind the seek to the start of the previous record of `size` bytes.
unfoldable pub bkwd_back :
    Selection → Rounds → Bytes → ℕ → File → Option File → Option (Status × File)
bkwd_back sel next whole_rec size f none = some (eio, f)
bkwd_back sel next whole_rec size f (some f') =
    bkwd_record sel next whole_rec f'.pos (read_buf size f')

-- The size is an `int`, and is compared as a `size_t`.
unfoldable pub bkwd_size : Selection → Rounds → Bytes → ReadBuf → Option (Status × File)
unfolding is_success
bkwd_size sel next whole_rec r =
    let size = sign_extend (le_word r.got) in
    if is_success r.status
    then (if ltb (rec_hdr_size + entry_maxlen) size
        then some (einval, r.file)
        else bkwd_back sel next whole_rec size r.file (lseek_back (size + sizesize) r.file))
    else some (eio, r.file)

unfoldable pub bkwd_round : Selection → Rounds → Bytes → File → Option File → Option (Status × File)
bkwd_round sel next whole_rec f none = some (eio, f)
bkwd_round sel next whole_rec f (some f') = bkwd_size sel next whole_rec (read_buf sizesize f')

-- The loop, with `curPosition` the read pointer at the start of a round.
unfoldable pub bkwd_loop : ℕ → Selection → ℕ → Bytes → File → Option (Status × File)
bkwd_loop zero sel start whole_rec f = none
bkwd_loop (suc fuel) sel start whole_rec f =
    let round = bkwd_round sel (bkwd_loop fuel sel start) whole_rec f (lseek_back sizesize f) in
    if ltb rec_hdr_size f.pos then round else some (return_at enoent f (lseek start f))

-- `_evlSeekBkwd`, with what its memory holds from `wholeRec` on. Each round moves the read pointer
-- back.
unfoldable pub seek_bkwd : Selection → Bytes → File → Option (Status × File)
seek_bkwd sel memory f = bkwd_loop (suc f.pos) sel f.pos memory f
