-- ===== src/Log/Cursor.antt =====
-- A log file with whole records, and its read pointer between two of them.
use evlog.Prelude.{
  ℕ, ◌+◌, ◌-◌, ◌<◌, ◌≤◌, ◌≡◌, sym, ap, ◌∙◌, List, [], ◌∷◌, ◌++◌, length, length-append, All, arith,
}
use mathlib.Core.List.{append_assoc}
use evlog.Log.File.{Bytes, File, off_mod}
use evlog.Log.Layout.{Rec, IsRec, rec_bytes, log_bytes, past_bytes, length-rec_bytes}
use evlog.Log.Reading.{Holds}

-- The file holds the header, the records of `past`, the nearest first, and those of `future`, and
-- the read pointer stands between the two.
pub record At (header : Bytes) (past future : List Rec) (f : File) : Type 0 where
  pub whole : f.contents ≡ (header ++ past_bytes past) ++ log_bytes future
  pub place : f.pos ≡ length (header ++ past_bytes past)
  pub header_size : length header ≡ 40
  pub past_recs : All IsRec past
  pub future_recs : All IsRec future
  pub small : length f.contents < off_mod

-- The records that lie behind the read pointer once `skipped` has been passed.
abbrev pub pass : List Rec → List Rec → List Rec
pass [] past = past
pass (r ∷ rs) past = pass rs (r ∷ past)

-- The size of a record in the file.
abbrev pub room : Rec → ℕ
room r = 88 + (length r.body + 4)

pub length-rec_bytes-IsRec : (r : Rec) → IsRec r → length (rec_bytes r) ≡ room r
length-rec_bytes-IsRec r v = omega (arith, length-rec_bytes r, v.head_size)

pub length-le-log_bytes : (rs : List Rec) → All IsRec rs → length rs ≤ length (log_bytes rs)
unfolding log_bytes
length-le-log_bytes [] h = omega arith
length-le-log_bytes (r ∷ rs) h = omega (
  arith,
  length-append (rec_bytes r) (log_bytes rs),
  length-rec_bytes-IsRec r h.0,
  length-le-log_bytes rs h.1,
)

module _ {header : Bytes} {past future : List Rec} {f : File} where
  pub At-limit : At header past future f → f.pos + length (log_bytes future) ≡ length f.contents
  At-limit a = omega (
    arith,
    ap length a.whole,
    a.place,
    length-append (header ++ past_bytes past) (log_bytes future),
  )

  -- The record behind the read pointer.
  pub At-head :
      (r : Rec)
      → At header past (r ∷ future) f
      → Holds (header ++ past_bytes past) (rec_bytes r) (log_bytes future) f
  unfolding log_bytes
  At-head r a = record { whole = a.whole; place = a.place }

  -- Past the record behind the read pointer.
  pub At-forward :
      (r : Rec)
      → At header past (r ∷ future) f
      → At header (r ∷ past) future (record f { pos = f.pos + room r })
  unfolding log_bytes past_bytes
  At-forward r a = record {
    whole =
        a.whole
        ∙ sym (append_assoc (header ++ past_bytes past) (rec_bytes r) (log_bytes future))
        ∙ ap (λ t. t ++ log_bytes future) (append_assoc header (past_bytes past) (rec_bytes r));
    place = omega (
      arith,
      a.place,
      length-append header (past_bytes past),
      length-append header (past_bytes past ++ rec_bytes r),
      length-append (past_bytes past) (rec_bytes r),
      length-rec_bytes-IsRec r a.future_recs.0,
    );
    header_size = a.header_size;
    past_recs = (a.future_recs.0, a.past_recs);
    future_recs = a.future_recs.1;
    small = a.small;
  }

  -- Back to the start of the record before the read pointer.
  pub At-back :
      (r : Rec)
      → At header (r ∷ past) future f
      → At header past (r ∷ future) (record f { pos = f.pos - room r })
  unfolding log_bytes past_bytes
  At-back r a = record {
    whole =
        a.whole
        ∙ ap (λ t. t ++ log_bytes future)
            (sym (append_assoc header (past_bytes past) (rec_bytes r)))
        ∙ append_assoc (header ++ past_bytes past) (rec_bytes r) (log_bytes future);
    place = omega (
      arith,
      a.place,
      length-append header (past_bytes past),
      length-append header (past_bytes past ++ rec_bytes r),
      length-append (past_bytes past) (rec_bytes r),
      length-rec_bytes-IsRec r a.past_recs.0,
    );
    header_size = a.header_size;
    past_recs = a.past_recs.1;
    future_recs = (a.past_recs.0, a.future_recs);
    small = a.small;
  }

  -- The read pointer is behind the record before it.
  pub At-pos : (r : Rec) → At header (r ∷ past) future f → 40 + room r ≤ f.pos
  unfolding past_bytes
  At-pos r a = omega (
    arith,
    a.place,
    a.header_size,
    length-append header (past_bytes past ++ rec_bytes r),
    length-append (past_bytes past) (rec_bytes r),
    length-rec_bytes-IsRec r a.past_recs.0,
  )

pub At-end :
    {header : Bytes} {past : List Rec} {f : File} → At header past [] f → length f.contents ≤ f.pos
unfolding log_bytes
At-end a = omega (arith, At-limit a)

pub At-start : {header : Bytes} {future : List Rec} {f : File} → At header [] future f → f.pos ≡ 40
unfolding past_bytes
At-start {header} a = omega (arith, a.place, a.header_size, length-append header [])

pub At-limit-end :
    {header : Bytes} {past : List Rec} {f : File} → At header past [] f → f.pos ≡ length f.contents
unfolding log_bytes
At-limit-end a = omega (arith, At-limit a)
