-- ===== src/Log/Reading.antt =====
-- user/lib/posix2.c: `readBuf` and `_evlRead` on a file that holds a record where the read pointer
-- stands, or holds nothing behind it.
use evlog.Prelude.{
  ℕ, zero, suc, ◌+◌, ◌<◌, ◌≤◌, ◌≡◌, refl, sym, ap, ◌∙◌, false, ◌==◌, ltb, Option, none, some, List,
  [], ◌∷◌, ◌++◌, length, length-append, take, slice_part, drop_end, Bool-cases, inl, inr, eq_of_==,
  arith,
}
use mathlib.Core.List.{append_assoc}
use evlog.Log.File.{
  Bytes, File, success, eagain, read_buf, read_bytes, after_read, buf_status, lseek, off_mod,
  is_success,
}
use evlog.Log.Layout.{Rec, IsRec, rec_bytes, whole_size, le_bytes, sizesize}
use evlog.Log.Read.{
  got, evl_read, read_entry, read_rest, read_data, keep_data, skip_size, skipped, at_new_position,
}

-- The file holds the bytes `xs` at its read pointer, behind `before`.
pub record Holds (before xs after : Bytes) (f : File) : Type 0 where
  pub whole : f.contents ≡ before ++ (xs ++ after)
  pub place : f.pos ≡ length before

module _ {before xs after : Bytes} {f : File} (h : Holds before xs after f) where
  pub read_bytes-Holds : (n : ℕ) → n ≡ length xs → read_bytes n f ≡ xs
  unfolding read_bytes
  read_bytes-Holds n e = slice_part before xs after f.contents f.pos n h.whole h.place e

  pub read_buf-Holds :
      (n : ℕ)
      → n ≡ length xs
      → 0 < n
      → read_buf n f ≡ record { status = success; got = xs; file = record f { pos = f.pos + n } }
  unfolding read_buf after_read buf_status
  read_buf-Holds n e pos = let r = read_bytes-Holds n e in rw r (ground arith)

  pub Holds-next :
      (n : ℕ)
      → n ≡ length xs
      → (ys rest : Bytes) → after ≡ ys ++ rest
      → Holds (before ++ xs) ys rest (record f { pos = f.pos + n })
  Holds-next n e ys rest split = record {
    whole = h.whole ∙ sym (append_assoc before xs after) ∙ ap (λ t. (before ++ xs) ++ t) split;
    place = omega (arith, h.place, length-append before xs);
  }

take_short {ℓ} : {A : Type ℓ} (n : ℕ) (xs : List A) → length xs ≡ 0 → take n xs ≡ []
take_short zero xs e = refl
take_short (suc n) [] e = refl
take_short (suc n) (x ∷ xs) e = absurd (omega arith)

-- As much of the variable data as the caller's buffer takes.
abbrev pub wanted : Option ℕ → ℕ
wanted none = 0
wanted (some n) = n

-- `lseek` succeeds within a file.
pub lseek-within : (n : ℕ) (f : File) → n < off_mod → lseek n f ≡ some (record f { pos = n })
unfolding lseek
lseek-within n f h = ground arith

module _ {before after : Bytes} {f : File} (r : Rec) (v : IsRec r)
    (h : Holds before (rec_bytes r) after f) (small : length f.contents < off_mod) where
  size_bytes : Bytes
  size_bytes = le_bytes sizesize (whole_size r)

  head-Holds : Holds before r.head (r.body ++ (size_bytes ++ after)) f
  unfolding rec_bytes size_bytes
  head-Holds = record {
    whole =
        h.whole
        ∙ ap (λ t. before ++ t)
            (append_assoc r.head (r.body ++ size_bytes) after
              ∙ ap (λ t. r.head ++ t) (append_assoc r.body size_bytes after));
    place = h.place;
  }

  abbrev at_body : File
  at_body = record f { pos = f.pos + 88 }

  body-Holds : Holds (before ++ r.head) r.body (size_bytes ++ after) at_body
  body-Holds = Holds-next head-Holds 88 (sym v.head_size) r.body (size_bytes ++ after) refl

  -- The end of the record lies in the file.
  pub end_within : f.pos + (88 + (length r.body + 4)) ≤ length f.contents
  unfolding rec_bytes le_bytes
  end_within = omega (
    arith,
    ap length h.whole,
    h.place,
    v.head_size,
    length-append before (rec_bytes r ++ after),
    length-append (rec_bytes r) after,
    length-append r.head (r.body ++ le_bytes 4 (whole_size r)),
    length-append r.body (le_bytes 4 (whole_size r)),
  )

  -- Behind the data, the size is skipped.
  skip_size-end :
      (d : Bytes) (g : File)
      → g.contents ≡ f.contents
      → g.pos ≡ f.pos + (88 + length r.body)
      → skip_size r.head d g
        ≡ got success r.head d (record f { pos = f.pos + (88 + (length r.body + 4)) })
  unfolding skip_size at_new_position lseek
  skip_size-end d g same there = ground (arith, end_within)

  skip-end :
      skipped r.head at_body (lseek (at_body.pos + length r.body) at_body)
      ≡ got success r.head [] (record f { pos = f.pos + (88 + (length r.body + 4)) })
  unfolding skipped
  skip-end =
      rw (lseek-within (f.pos + 88 + length r.body) at_body (omega (arith, end_within)))
        (skip_size-end [] (record f { pos = f.pos + 88 + length r.body }) refl (omega arith))

  read_data-end :
      (buf : Option ℕ)
      → 0 < length r.body
      → read_data buf r.head (length r.body) at_body
        ≡ got success r.head
            (take (wanted buf) r.body)
            (record f { pos = f.pos + (88 + (length r.body + 4)) })
  unfolding read_data keep_data
  read_data-end none pos = skip-end
  read_data-end (some zero) pos = skip-end
  read_data-end (some (suc n)) pos = rw (read_buf-Holds body-Holds (length r.body) refl pos) (
      skip_size-end (take (suc n) r.body) (record f { pos = f.pos + 88 + length r.body }) refl
        (omega arith))

  no_data : (n : ℕ) → length r.body ≡ 0 → take n r.body ≡ []
  no_data n e = take_short n r.body e

  read_rest-end :
      (buf : Option ℕ)
      → read_rest buf r.head at_body
        ≡ got success r.head
            (take (wanted buf) r.body)
            (record f { pos = f.pos + (88 + (length r.body + 4)) })
  unfolding read_rest
  read_rest-end buf =
      let short : ltb 8192 (length r.body) ≡ false = ground (arith, v.fits) in
      elim (Bool-cases (length r.body == 0)) [
        | inl e ↦
            rw (v.sized, short, e, no_data (wanted buf) (eq_of_== _ _ e))
              (skip_size-end [] at_body refl (ground arith))
        | inr e ↦ rw (v.sized, short, e) (read_data-end buf (ground arith))
      ]

  -- `_evlRead` on a record: its header, as much of the data as the buffer takes, and the read
  -- pointer behind the record.
  pub evl_read-record :
      (buf : Option ℕ)
      → evl_read buf f
        ≡ got success r.head
            (take (wanted buf) r.body)
            (record f { pos = f.pos + (88 + (length r.body + 4)) })
  unfolding evl_read read_entry is_success
  evl_read-record buf =
      rw (read_buf-Holds head-Holds 88 (sym v.head_size) (omega arith)) (read_rest-end buf)

-- Where the file holds nothing more, `_evlRead` says EAGAIN and moves nothing.
pub evl_read-end :
    (buf : Option ℕ) (f : File) → length f.contents ≤ f.pos → evl_read buf f ≡ got eagain [] [] f
unfolding evl_read read_entry is_success read_buf read_bytes after_read buf_status
evl_read-end buf f h =
    rw (drop_end f.pos f.contents h)
      (ap (λ p. got eagain [] [] (record f { pos = p })) (omega arith))
