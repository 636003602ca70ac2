-- ===== src/Log/Backward.antt =====
-- user/lib/posix2.c: what `_evlSeekBkwd` finds.
use evlog.Prelude.{
  ℕ, zero, suc, ◌+◌, ◌-◌, ◌<◌, ◌≡◌, refl, sym, ap, ◌∙◌, true, false, Option, some, List, [], ◌∷◌,
  ◌++◌, ltb, length, take, drop, take-append, drop-append, length-append, All, arith, if◌then◌else◌,
  sign_extend,
}
use mathlib.Core.List.{append_assoc}
use evlog.Log.File.{Bytes, File, Status, success, enoent, off_mod, lseek_back, read_buf, overlay}
use evlog.Log.Layout.{
  Rec, rec_bytes, whole_size, le_bytes, le_word, le_word-le_bytes, log_bytes, past_bytes,
}
use evlog.Log.Seek.{
  Selection, selects, seek_bkwd, bkwd_loop, bkwd_round, bkwd_size, bkwd_back, bkwd_record,
  bkwd_test, return_at,
}
use evlog.Log.Reading.{Holds, read_buf-Holds, lseek-within}
use evlog.Log.Cursor.{At, pass, room, At-back, At-pos, At-start, At-limit}
use evlog.Log.Forward.{Selects, Rejects}

module _ {header : Bytes} {past future : List Rec} {f : File} (r : Rec)
    (a : At header (r ∷ past) future f) where
  start_bytes : Bytes
  start_bytes = header ++ past_bytes past

  size_bytes : Bytes
  size_bytes = le_bytes 4 (whole_size r)

  -- The file, split at the end of the record's data.
  split : f.contents ≡ start_bytes ++ ((r.head ++ r.body) ++ (size_bytes ++ log_bytes future))
  unfolding start_bytes size_bytes past_bytes rec_bytes
  split =
      a.whole
      ∙ ap (λ t. t ++ log_bytes future) (sym (append_assoc header (past_bytes past) (rec_bytes r)))
      ∙ append_assoc (header ++ past_bytes past) (rec_bytes r) (log_bytes future)
      ∙ ap (λ t. (header ++ past_bytes past) ++ t)
          (append_assoc r.head (r.body ++ le_bytes 4 (whole_size r)) (log_bytes future)
            ∙ ap (λ t. r.head ++ t)
                (append_assoc r.body (le_bytes 4 (whole_size r)) (log_bytes future))
            ∙ sym (append_assoc r.head r.body (le_bytes 4 (whole_size r) ++ log_bytes future)))

  start_place : f.pos ≡ length start_bytes + room r
  unfolding start_bytes
  start_place = omega (arith, (At-back r a).place, At-pos r a)

  data_length : length (r.head ++ r.body) ≡ whole_size r
  unfolding whole_size
  data_length = omega (arith, length-append r.head r.body, a.past_recs.0.head_size)

  size_Holds :
      Holds
        (start_bytes ++ (r.head ++ r.body))
        size_bytes
        (log_bytes future)
        (record f { pos = f.pos - 4 })
  unfolding whole_size
  size_Holds = record {
    whole =
        split ∙ sym (append_assoc start_bytes (r.head ++ r.body) (size_bytes ++ log_bytes future));
    place = omega (arith, start_place, data_length, length-append start_bytes (r.head ++ r.body));
  }

  data_Holds :
      Holds start_bytes
        (r.head ++ r.body)
        (size_bytes ++ log_bytes future)
        (record f { pos = f.pos - room r })
  data_Holds = record { whole = split; place = omega (arith, start_place) }

  -- The size behind the record is read, and leaves the read pointer where it was.
  size_read :
      read_buf 4 (record f { pos = f.pos - 4 })
      ≡ record { status = success; got = size_bytes; file = f }
  unfolding size_bytes le_bytes
  size_read =
      read_buf-Holds size_Holds 4 refl (omega arith)
      ∙ ap
          (λ p. record {
            status = success;
            got = le_bytes 4 (whole_size r);
            file = record f { pos = p };
          })
          (omega (arith, At-pos r a))

  size_value : sign_extend (le_word size_bytes) ≡ whole_size r
  unfolding size_bytes whole_size
  size_value =
      rw (le_word-le_bytes (88 + length r.body) (omega (arith, a.past_recs.0.fits)))
        (ground (arith, a.past_recs.0.fits))

  -- The whole record is read.
  data_read : read_buf (whole_size r) (record f { pos = f.pos - room r }) ≡ record {
    status = success;
    got = r.head ++ r.body;
    file = record f { pos = f.pos - room r + whole_size r };
  }
  unfolding whole_size
  data_read = read_buf-Holds data_Holds (whole_size r) (sym data_length) (omega arith)

  back : lseek_back (whole_size r + 4) f ≡ some (record f { pos = f.pos - room r })
  unfolding whole_size lseek_back
  back = ground (arith, At-pos r a)

  size_back : lseek_back 4 f ≡ some (record f { pos = f.pos - 4 })
  unfolding lseek_back
  size_back = ground (arith, At-pos r a)

  size_fits : ltb 8280 (whole_size r) ≡ false
  unfolding whole_size
  size_fits = ground (arith, a.past_recs.0.fits)

  -- The buffer, with the bytes from before behind the record.
  behind : Bytes → Bytes
  behind whole_rec = drop (length (r.head ++ r.body)) whole_rec

  head_part : (w : Bytes) → take 88 (overlay (r.head ++ r.body) w) ≡ r.head
  unfolding behind
  head_part w =
      rw (append_assoc r.head r.body (behind w), ← a.past_recs.0.head_size)
        (take-append r.head (r.body ++ behind w))

  body_part : (w : Bytes) → drop 88 (overlay (r.head ++ r.body) w) ≡ r.body ++ behind w
  unfolding behind
  body_part w =
      rw (append_assoc r.head r.body (behind w), ← a.past_recs.0.head_size)
        (drop-append r.head (r.body ++ behind w))

  -- One round of the loop tests the record before the read pointer, which then stands at its start.
  bkwd_round-tests :
      (sel : Selection) (next : Bytes → File → Option (Status × File)) (w : Bytes)
      → bkwd_round sel next w f (lseek_back 4 f) ≡ (
          if selects sel r.head (r.body ++ behind w)
          then some (success, record f { pos = f.pos - room r })
          else next (overlay (r.head ++ r.body) w) (record f { pos = f.pos - room r }))
  unfolding bkwd_round bkwd_size bkwd_back bkwd_record bkwd_test
  bkwd_round-tests sel next w =
      let small : ltb 8280 (whole_size r) ≡ false = size_fits in
      let pos_fits : f.pos - room r < off_mod = omega (arith, At-limit a, a.small) in
      rw (
        size_back,
        size_read,
        size_value,
        small,
        back,
        data_read,
        lseek-within (f.pos - room r) (record f { pos = f.pos - room r + whole_size r }) pos_fits,
        head_part w,
        body_part w,
      )

module _ (sel : Selection) {header : Bytes} where
  bkwd_loop-finds :
      (fuel start : ℕ) (w : Bytes) (skipped : List Rec) {past future : List Rec} {f : File}
      (r : Rec)
      → f.pos < fuel
      → At header (skipped ++ r ∷ past) future f
      → All (Rejects sel) skipped
      → Selects sel r
      → (f' : File) × (bkwd_loop fuel sel start w f ≡ some (success, f'))
        × At header past (r ∷ pass skipped future) f'
  unfolding bkwd_loop
  bkwd_loop-finds zero start w skipped r enough a rejected match = absurd (omega arith)
  bkwd_loop-finds (suc fuel) start w [] {f = f} r enough a rejected match =
      let inside : ltb 88 f.pos ≡ true = ground (arith, At-pos r a) in
      (
        record f { pos = f.pos - room r },
        rw (inside, bkwd_round-tests r a sel (bkwd_loop fuel sel start) w, match (behind r a w)),
        At-back r a,
      )
  bkwd_loop-finds (suc fuel) start w (q ∷ skipped) {f = f} r enough a rejected match =
      let inside : ltb 88 f.pos ≡ true = ground (arith, At-pos q a) in
      let (f', finds, there) =
        bkwd_loop-finds fuel start (overlay (q.head ++ q.body) w) skipped r
          (omega (arith, At-pos q a)) (At-back q a) rejected.1 match in
      (
        f',
        rw
            (
              inside,
              bkwd_round-tests q a sel (bkwd_loop fuel sel start) w,
              rejected.0 (behind q a w),
            )
            finds,
        there,
      )

  bkwd_loop-exhausts :
      (fuel start : ℕ) (w : Bytes) (past : List Rec) {future : List Rec} {f : File}
      → f.pos < fuel
      → start < off_mod
      → At header past future f
      → All (Rejects sel) past
      → bkwd_loop fuel sel start w f ≡ some (enoent, record f { pos = start })
  unfolding bkwd_loop return_at
  bkwd_loop-exhausts zero start w past enough small a rejected = absurd (omega arith)
  bkwd_loop-exhausts (suc fuel) start w [] {f = f} enough small a rejected =
      let outside : ltb 88 f.pos ≡ false = ground (arith, At-start a) in
      rw (outside, lseek-within start f small)
  bkwd_loop-exhausts (suc fuel) start w (q ∷ past) {f = f} enough small a rejected =
      let inside : ltb 88 f.pos ≡ true = ground (arith, At-pos q a) in
      rw (inside, bkwd_round-tests q a sel (bkwd_loop fuel sel start) w, rejected.0 (behind q a w))
        (bkwd_loop-exhausts fuel start (overlay (q.head ++ q.body) w) past
          (omega (arith, At-pos q a)) small (At-back q a) rejected.1)

  -- `_evlSeekBkwd` finds the last record in front of the read pointer that the query selects, and
  -- leaves the read pointer in front of it.
  pub seek_bkwd-finds :
      (memory : Bytes) (skipped : List Rec) {past future : List Rec} {f : File} (r : Rec)
      → At header (skipped ++ r ∷ past) future f
      → All (Rejects sel) skipped
      → Selects sel r
      → (f' : File) × (seek_bkwd sel memory f ≡ some (success, f'))
        × At header past (r ∷ pass skipped future) f'
  unfolding seek_bkwd
  seek_bkwd-finds memory skipped r a rejected match =
      bkwd_loop-finds _ _ memory skipped r (omega arith) a rejected match

  -- When it selects none of them, `_evlSeekBkwd` says ENOENT and leaves the read pointer.
  pub seek_bkwd-exhausts :
      (memory : Bytes) {past future : List Rec} {f : File}
      → At header past future f
      → All (Rejects sel) past
      → seek_bkwd sel memory f ≡ some (enoent, f)
  unfolding seek_bkwd
  seek_bkwd-exhausts memory {past} {f = f} a rejected =
      bkwd_loop-exhausts _ f.pos memory past (omega arith) (omega (arith, At-limit a, a.small)) a
        rejected
