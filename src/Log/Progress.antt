-- ===== src/Log/Progress.antt =====
-- user/lib/posix2.c: `readBuf` and `_evlRead` on every file: the bytes stay, and the read pointer moves on.
use evlog.Prelude.{
  ℕ, zero, suc, ◌+◌, ◌<◌, ◌≤◌, ◌≡◌, refl, ◌∙◌, true, ◌==◌, ltb, Option, none, some, [], length,
  take, drop, length-take-le-length, length-take-le, length-drop, Bool-cases, inl, inr, arith,
}
use evlog.Log.File.{Bytes, File, is_success, lseek, read_buf, read_bytes, after_read, buf_status}
use evlog.Log.Layout.{log_size}
use evlog.Log.Read.{
  got, evl_read, read_entry, read_rest, read_data, keep_data, skip_size, skipped, at_new_position,
}

-- The same bytes, with the read pointer no further to the front.
pub record Later (f g : File) : Type 0 where
  pub kept : g.contents ≡ f.contents
  pub onward : f.pos ≤ g.pos

pub read_buf-Later : (n : ℕ) (f : File) → Later f (read_buf n f).file
unfolding read_buf after_read
read_buf-Later n f = record { kept = refl; onward = omega arith }

pub read_buf-bound : (n : ℕ) (f : File) → (read_buf n f).file.pos ≤ f.pos + n
unfolding read_buf after_read read_bytes
read_buf-bound n f = omega (arith, length-take-le n (drop f.pos f.contents))

-- A read that succeeds consumes bytes, so there were some.
read_buf-consumes :
    (n : ℕ) (f : File)
    → is_success (read_buf n f).status ≡ true
    → (f.pos < (read_buf n f).file.pos) × (f.pos < length f.contents)
unfolding read_buf after_read buf_status read_bytes is_success
read_buf-consumes n f h =
    ground (arith, length-take-le-length n (drop f.pos f.contents), length-drop f.pos f.contents)

skip_size-Later : (h d : Bytes) (f : File) → Later f (skip_size h d f).file
unfolding skip_size at_new_position lseek got
skip_size-Later h d f = ground arith

skipped-Later : (h : Bytes) (n : ℕ) (f : File) → Later f (skipped h f (lseek (f.pos + n) f)).file
unfolding skipped lseek got
skipped-Later h n f = ground (arith, skip_size-Later h [] (record f { pos = f.pos + n }))

keep_data-Later :
    (n : ℕ) (h : Bytes) (k : ℕ) (f : File) → Later f (keep_data n h (read_buf k f)).file
unfolding keep_data got
keep_data-Later n h k f =
    let r = read_buf-Later k f in
    let s = skip_size-Later h (take n (read_buf k f).got) (read_buf k f).file in
    elim (Bool-cases (is_success (read_buf k f).status)) [
      | inl e ↦ rw e (record { kept = s.kept ∙ r.kept; onward = omega arith })
      | inr e ↦ rw e r
    ]

read_data-Later :
    (buf : Option ℕ) (h : Bytes) (k : ℕ) (f : File) → Later f (read_data buf h k f).file
unfolding read_data
read_data-Later none h k f = skipped-Later h k f
read_data-Later (some zero) h k f = skipped-Later h k f
read_data-Later (some (suc n)) h k f = keep_data-Later (suc n) h k f

read_rest-Later : (buf : Option ℕ) (h : Bytes) (f : File) → Later f (read_rest buf h f).file
unfolding read_rest got
read_rest-Later buf h f = elim (Bool-cases (ltb 8192 (log_size h))) [
  | inl e ↦ rw e (record { kept = refl; onward = omega arith })
  | inr e ↦ elim (Bool-cases (log_size h == 0)) [
    | inl z ↦ rw (e, z) (skip_size-Later h [] f)
    | inr z ↦ rw (e, z) (read_data-Later buf h (log_size h) f)
  ]
]

pub evl_read-Later : (buf : Option ℕ) (f : File) → Later f (evl_read buf f).file
unfolding evl_read read_entry got
evl_read-Later buf f =
    let r = read_buf-Later 88 f in
    let s = read_rest-Later buf (read_buf 88 f).got (read_buf 88 f).file in
    elim (Bool-cases (is_success (read_buf 88 f).status)) [
      | inl e ↦ rw e (record { kept = s.kept ∙ r.kept; onward = omega arith })
      | inr e ↦ rw e r
    ]

-- `_evlRead` succeeds only where there is something to read, and consumes some of it.
pub evl_read-consumes :
    (buf : Option ℕ) (f : File)
    → is_success (evl_read buf f).status ≡ true
    → (f.pos < (evl_read buf f).file.pos) × (f.pos < length f.contents)
unfolding evl_read read_entry got
evl_read-consumes buf f h = elim (Bool-cases (is_success (read_buf 88 f).status)) [
  | inl e ↦
      let c = read_buf-consumes 88 f e in
      let s = read_rest-Later buf (read_buf 88 f).got (read_buf 88 f).file in
      (rw e (omega arith), c.1)
  | inr e ↦ let k = rw e at h in cc
]
