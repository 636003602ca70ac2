-- ===== src/Log/Forward.antt =====
-- user/lib/posix2.c: what `_evlSeekFwd` finds.
use evlog.Prelude.{
  ℕ, zero, suc, ◌+◌, ◌<◌, ◌≡◌, ap, ◌∙◌, true, false, some, List, [], ◌∷◌, ◌++◌, length, drop,
  take_enough, length-append, All, arith,
}
use evlog.Log.File.{Bytes, File, success, enoent, off_mod, overlay}
use evlog.Log.Layout.{Rec, entry_maxlen}
use evlog.Log.Read.{got, evl_read}
use evlog.Log.Seek.{Selection, selects, fwd_loop, fwd_round, seek_fwd, return_at}
use evlog.Log.Reading.{evl_read-record, evl_read-end, lseek-within}
use evlog.Log.Cursor.{At, pass, room, At-head, At-forward, At-limit, At-end, length-le-log_bytes}

-- The query selects a record, or does not, whatever bytes lie behind its data in the buffer.
abbrev pub Selects : Selection → Rec → Type 0
Selects sel r = (rest : Bytes) → selects sel r.head (r.body ++ rest) ≡ true

abbrev pub Rejects : Selection → Rec → Type 0
Rejects sel r = (rest : Bytes) → selects sel r.head (r.body ++ rest) ≡ false

-- The buffer of the seek functions holds the data of every record.
read_whole :
    {header : Bytes} {past future : List Rec} {f : File} (r : Rec)
    → At header past (r ∷ future) f
    → evl_read (some entry_maxlen) f ≡ got success r.head r.body (record f { pos = f.pos + room r })
read_whole {f = f} r a =
    evl_read-record r a.future_recs.0 (At-head r a) a.small (some 8192)
    ∙ ap (λ d. got success r.head d (record f { pos = f.pos + room r }))
        (take_enough 8192 r.body a.future_recs.0.fits)

module _ (sel : Selection) {header : Bytes} where
  fwd_loop-skips :
      (fuel start : ℕ) (buf : Bytes) {past future : List Rec} {f : File} (r : Rec)
      → At header past (r ∷ future) f
      → Rejects sel r
      → fwd_loop (suc fuel) sel start buf f
        ≡ fwd_loop fuel sel start (overlay r.body buf) (record f { pos = f.pos + room r })
  unfolding fwd_loop fwd_round got
  fwd_loop-skips fuel start buf r a no_match =
      rw (read_whole r a, no_match (drop (length r.body) buf))

  fwd_loop-stops :
      (fuel start : ℕ) (buf : Bytes) {past future : List Rec} {f : File} (r : Rec)
      → At header past (r ∷ future) f
      → Selects sel r
      → fwd_loop (suc fuel) sel start buf f ≡ some (success, f)
  unfolding fwd_loop fwd_round got return_at
  fwd_loop-stops fuel start buf {f = f} r a match = rw (
    read_whole r a,
    match (drop (length r.body) buf),
    lseek-within f.pos (record f { pos = f.pos + room r }) (omega (arith, At-limit a, a.small)),
  )

  fwd_loop-finds :
      (fuel start : ℕ) (buf : Bytes) (skipped : List Rec) {past future : List Rec} {f : File}
      (r : Rec)
      → length skipped < fuel
      → At header past (skipped ++ r ∷ future) f
      → All (Rejects sel) skipped
      → Selects sel r
      → (f' : File) × (fwd_loop fuel sel start buf f ≡ some (success, f'))
        × At header (pass skipped past) (r ∷ future) f'
  fwd_loop-finds zero start buf skipped r enough a rejected match = absurd (omega arith)
  fwd_loop-finds (suc fuel) start buf [] r enough a rejected match =
      (_, fwd_loop-stops fuel start buf r a match, a)
  fwd_loop-finds (suc fuel) start buf (q ∷ skipped) r enough a rejected match =
      let (f', finds, there) =
        fwd_loop-finds fuel start (overlay q.body buf) skipped r (omega arith) (At-forward q a)
          rejected.1 match in
      (f', fwd_loop-skips fuel start buf q a rejected.0 ∙ finds, there)

  fwd_loop-exhausts :
      (fuel start : ℕ) (buf : Bytes) (future : List Rec) {past : List Rec} {f : File}
      → length future < fuel
      → start < off_mod
      → At header past future f
      → All (Rejects sel) future
      → fwd_loop fuel sel start buf f ≡ some (enoent, record f { pos = start })
  unfolding fwd_loop fwd_round got return_at
  fwd_loop-exhausts zero start buf future enough small a rejected = absurd (omega arith)
  fwd_loop-exhausts (suc fuel) start buf [] {f = f} enough small a rejected =
      rw (evl_read-end (some 8192) f (At-end a), lseek-within start f small)
  fwd_loop-exhausts (suc fuel) start buf (q ∷ future) enough small a rejected =
      fwd_loop-skips fuel start buf q a rejected.0
      ∙ fwd_loop-exhausts fuel start (overlay q.body buf) future (omega arith) small
          (At-forward q a) rejected.1

  -- `_evlSeekFwd` finds the first record from the read pointer on that the query selects, and
  -- leaves the read pointer in front of it.
  pub seek_fwd-finds :
      (memory : Bytes) (skipped : List Rec) {past future : List Rec} {f : File} (r : Rec)
      → At header past (skipped ++ r ∷ future) f
      → All (Rejects sel) skipped
      → Selects sel r
      → (f' : File) × (seek_fwd sel memory f ≡ some (success, f'))
        × At header (pass skipped past) (r ∷ future) f'
  unfolding seek_fwd
  seek_fwd-finds memory skipped {past} {future} r a rejected match =
      fwd_loop-finds _ _ memory skipped r
        (omega (
          arith,
          At-limit a,
          length-le-log_bytes (skipped ++ r ∷ future) a.future_recs,
          length-append skipped (r ∷ future),
        ))
        a rejected match

  -- When it selects none of them, `_evlSeekFwd` says ENOENT and leaves the read pointer.
  pub seek_fwd-exhausts :
      (memory : Bytes) {past future : List Rec} {f : File}
      → At header past future f
      → All (Rejects sel) future
      → seek_fwd sel memory f ≡ some (enoent, f)
  unfolding seek_fwd
  seek_fwd-exhausts memory {past} {future} {f} a rejected =
      fwd_loop-exhausts _ f.pos memory future
        (omega (arith, At-limit a, length-le-log_bytes future a.future_recs))
        (omega (arith, At-limit a, a.small)) a rejected
