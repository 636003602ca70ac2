-- ===== src/Log/Robust.antt =====
-- user/lib/posix2.c: the loops of `_evlSeekFwd` and `_evlSeekBkwd` on every file, also on one that
-- holds no whole records.
use evlog.Prelude.{
  ℕ, zero, suc, ◌+◌, ◌-◌, ◌<◌, ◌≤◌, ◌≡◌, refl, ap, ◌∙◌, true, false, ltb, Option, some, ◌^◌, ◌≢◌,
  length, take, drop, Bool-cases, inl, inr, sign_extend, arith,
}
use evlog.Log.File.{
  Bytes, overlay, File, Status, success, eio, enoent, einval, is_success, is_eagain, lseek,
  lseek_back, read_buf,
}
use evlog.Log.Layout.{le_word}
use evlog.Log.Read.{Got, evl_read}
use evlog.Log.Seek.{
  Selection, selects, seek_fwd, fwd_loop, fwd_round, return_at, seek_bkwd, bkwd_loop, bkwd_round,
  bkwd_size, bkwd_back, bkwd_record, bkwd_test,
}
use evlog.Log.Progress.{read_buf-Later, read_buf-bound, evl_read-Later, evl_read-consumes}

-- A search ends, with the same bytes in the file, and with the read pointer at `start` when it
-- finds nothing.
pub record Ends (f : File) (start : ℕ) (o : Option (Status × File)) : Type 0 where
  pub status : Status
  pub file : File
  pub outcome : o ≡ some (status, file)
  pub kept : file.contents ≡ f.contents
  pub restored : status ≡ enoent → file.pos ≡ start

-- A seek before a return.
return_at-Ends :
    (start n : ℕ) (s : Status) (f g : File)
    → g.contents ≡ f.contents
    → (s ≡ enoent → n ≡ start)
    → Ends f start (some (return_at s g (lseek n g)))
unfolding return_at lseek
return_at-Ends start n s f g same back = elim (Bool-cases (ltb n (2 ^ 63))) [
  | inl e ↦ record {
    status = s;
    file = record g { pos = n };
    outcome = rw e;
    kept = same;
    restored = back;
  }
  | inr e ↦ record {
    status = eio;
    file = g;
    outcome = rw e;
    kept = same;
    restored = λ h. absurd (cc h);
  }
]

-- A return of another error.
fails-Ends :
    (start : ℕ) (s : Status) (f g : File)
    → g.contents ≡ f.contents
    → s ≢ enoent
    → Ends f start (some (s, g))
fails-Ends start s f g same other = record {
  status = s;
  file = g;
  outcome = refl;
  kept = same;
  restored = λ h. absurd (other h);
}

Ends-onward :
    {f g : File} {start : ℕ} {o : Option (Status × File)}
    → g.contents ≡ f.contents
    → Ends g start o
    → Ends f start o
Ends-onward same e = record {
  status = e.status;
  file = e.file;
  outcome = e.outcome;
  kept = e.kept ∙ same;
  restored = e.restored;
}

fwd_round-Ends :
    (sel : Selection) (start : ℕ) (f : File) (g : Got) (buf : Bytes) (next : Option (Status × File))
    → g.file.contents ≡ f.contents
    → (is_success g.status ≡ true → Ends f start next)
    → Ends f start (fwd_round sel start f.pos g buf next)
unfolding fwd_round
fwd_round-Ends sel start f g buf next same go = elim (Bool-cases (is_eagain g.status)) [
  | inl e ↦ rw e (return_at-Ends start start enoent f g.file same (λ _. refl))
  | inr e ↦ elim (Bool-cases (is_success g.status)) [
    | inl e' ↦ elim (Bool-cases (selects sel g.entry buf)) [
      | inl m ↦
          rw (e, e', m) (return_at-Ends start f.pos success f g.file same (λ h. absurd (cc h)))
      | inr m ↦ rw (e, e', m) (go e')
    ]
    | inr e' ↦ rw (e, e') (fails-Ends start eio f g.file same (λ h. cc h))
  ]
]

fwd_loop-Ends :
    (sel : Selection) (fuel start : ℕ) (buf : Bytes) (f : File)
    → length f.contents - f.pos < fuel
    → Ends f start (fwd_loop fuel sel start buf f)
unfolding fwd_loop
fwd_loop-Ends sel zero start buf f enough = absurd (omega arith)
fwd_loop-Ends sel (suc fuel) start buf f enough =
    let g = evl_read (some 8192) f in
    let buf' = overlay g.var_data buf in
    let l = evl_read-Later (some 8192) f in
    fwd_round-Ends sel start f g buf' (fwd_loop fuel sel start buf' g.file) l.kept (λ e.
      let c = evl_read-consumes (some 8192) f e in
      Ends-onward l.kept
        (fwd_loop-Ends sel fuel start buf' g.file (omega (arith, c.0, c.1, ap length l.kept))))

seek_fwd-Ends : (sel : Selection) (memory : Bytes) (f : File) → Ends f f.pos (seek_fwd sel memory f)
unfolding seek_fwd
seek_fwd-Ends sel memory f =
    fwd_loop-Ends sel (suc (length f.contents)) f.pos memory f (omega arith)

module _ (sel : Selection) (start : ℕ) (f : File) (next : Bytes → File → Option (Status × File))
    (go : (w : Bytes) (g : File)
      → g.contents ≡ f.contents
      → g.pos < f.pos
      → Ends f start (next w g))
    (w : Bytes) where
  bkwd_record-Ends :
      (current n : ℕ) (g : File)
      → g.contents ≡ f.contents
      → current < f.pos
      → Ends f start (bkwd_record sel next w current (read_buf n g))
  unfolding bkwd_record bkwd_test lseek
  bkwd_record-Ends current n g same before =
      let r = read_buf n g in
      let l = read_buf-Later n g in
      let kept : r.file.contents ≡ f.contents = l.kept ∙ same in
      elim (Bool-cases (is_success r.status)) [
        | inl e ↦ elim (Bool-cases (ltb current (2 ^ 63))) [
          | inl e' ↦
              elim (Bool-cases
                (selects sel (take 88 (overlay r.got w)) (drop 88 (overlay r.got w)))) [
                  | inl m ↦
                      rw (e, e', m)
                        (fails-Ends start success f (record r.file { pos = current }) kept
                          (λ h. cc h))
                  | inr m ↦
                      rw (e, e', m)
                        (go (overlay r.got w) (record r.file { pos = current }) kept before)
                ]
          | inr e' ↦ rw (e, e') (fails-Ends start eio f r.file kept (λ h. cc h))
        ]
        | inr e ↦ rw e (fails-Ends start eio f r.file kept (λ h. cc h))
      ]

  bkwd_back-Ends :
      (n : ℕ) (g : File)
      → g.contents ≡ f.contents
      → g.pos ≤ f.pos
      → Ends f start (bkwd_back sel next w n g (lseek_back (n + 4) g))
  unfolding bkwd_back lseek_back
  bkwd_back-Ends n g same before = elim (Bool-cases (ltb g.pos (n + 4))) [
    | inl e ↦ rw e (fails-Ends start eio f g same (λ h. cc h))
    | inr e ↦ rw e (
        bkwd_record-Ends (g.pos - (n + 4)) n (record g { pos = g.pos - (n + 4) }) same
          (ground arith))
  ]

  bkwd_round-Ends : 88 < f.pos → Ends f start (bkwd_round sel next w f (lseek_back 4 f))
  unfolding bkwd_round bkwd_size lseek_back
  bkwd_round-Ends inside =
      let g : File = record f { pos = f.pos - 4 } in
      let r = read_buf 4 g in
      let size = sign_extend (le_word r.got) in
      let inner : ltb f.pos 4 ≡ false = ground arith in
      elim (Bool-cases (is_success r.status)) [
        | inl e ↦ elim (Bool-cases (ltb 8280 size)) [
          | inl e' ↦
              rw (inner, e, e')
                (fails-Ends start einval f r.file (read_buf-Later 4 g).kept (λ h. cc h))
          | inr e' ↦
              rw (inner, e, e')
                (bkwd_back-Ends size r.file (read_buf-Later 4 g).kept
                  (omega (arith, read_buf-bound 4 g)))
        ]
        | inr e ↦
            rw (inner, e) (fails-Ends start eio f r.file (read_buf-Later 4 g).kept (λ h. cc h))
      ]

bkwd_loop-Ends :
    (sel : Selection) (fuel start : ℕ) (w : Bytes) (f : File)
    → f.pos < fuel
    → Ends f start (bkwd_loop fuel sel start w f)
unfolding bkwd_loop
bkwd_loop-Ends sel zero start w f enough = absurd (omega arith)
bkwd_loop-Ends sel (suc fuel) start w f enough = elim (Bool-cases (ltb 88 f.pos)) [
  | inl e ↦ rw e (
      bkwd_round-Ends sel start f (bkwd_loop fuel sel start)
        (λ w' g same before.
          Ends-onward same (bkwd_loop-Ends sel fuel start w' g (omega (arith, before, enough))))
        w (ground arith))
  | inr e ↦ rw e (return_at-Ends start start enoent f f refl (λ _. refl))
]

seek_bkwd-Ends :
    (sel : Selection) (memory : Bytes) (f : File) → Ends f f.pos (seek_bkwd sel memory f)
unfolding seek_bkwd
seek_bkwd-Ends sel memory f = bkwd_loop-Ends sel (suc f.pos) f.pos memory f (omega arith)

-- On every file, also a corrupted one, and whatever their memory holds, `_evlSeekFwd` and `_evlSeekBkwd` end. They keep the bytes of
-- the file, and when they say ENOENT the read pointer is where it was.
pub seek-Ends :
    (sel : Selection) (memory : Bytes) (f : File)
    → Ends f f.pos (seek_fwd sel memory f) × Ends f f.pos (seek_bkwd sel memory f)
seek-Ends sel memory f = (seek_fwd-Ends sel memory f, seek_bkwd-Ends sel memory f)
