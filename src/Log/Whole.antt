-- ===== src/Log/Whole.antt =====
-- The read pointer at the two ends of a log file.
use evlog.Prelude.{◌≡◌, refl, sym, ap, ◌∙◌, List, [], ◌∷◌, ◌++◌, length, All, arith}
use mathlib.Core.List.{append_assoc, append-nil}
use evlog.Log.File.{Bytes, File, success}
use evlog.Log.Layout.{Rec, IsRec, log_bytes, past_bytes, rec_bytes}
use evlog.Log.Read.{evl_rewind, evl_seek_end, seek_status}
use evlog.Log.Reading.{lseek-within}
use evlog.Log.Cursor.{At, pass}

log_bytes-pass :
    (past future : List Rec) → log_bytes (pass past future) ≡ past_bytes past ++ log_bytes future
unfolding log_bytes past_bytes
log_bytes-pass [] future = refl
log_bytes-pass (r ∷ past) future =
    log_bytes-pass past (r ∷ future)
    ∙ sym (append_assoc (past_bytes past) (rec_bytes r) (log_bytes future))

past_bytes-pass :
    (future past : List Rec) → past_bytes (pass future past) ≡ past_bytes past ++ log_bytes future
unfolding log_bytes past_bytes
past_bytes-pass [] past = sym (append-nil (past_bytes past))
past_bytes-pass (r ∷ future) past =
    past_bytes-pass future (r ∷ past)
    ∙ append_assoc (past_bytes past) (rec_bytes r) (log_bytes future)

All-pass :
    (past future : List Rec) → All IsRec past → All IsRec future → All IsRec (pass past future)
All-pass [] future h k = k
All-pass (r ∷ past) future h k = All-pass past (r ∷ future) h.1 (h.0, k)

-- A record that is passed there and back is where it was.
pub pass-pass : (xs past future : List Rec) → pass (pass xs past) future ≡ pass past (xs ++ future)
pass-pass [] past future = refl
pass-pass (x ∷ xs) past future = pass-pass xs (x ∷ past) future

pub pass-append : (xs ys future : List Rec) → pass (xs ++ ys) future ≡ pass ys (pass xs future)
pass-append [] ys future = refl
pass-append (x ∷ xs) ys future = pass-append xs ys (x ∷ future)

module _ {header : Bytes} {past future : List Rec} {f : File} (a : At header past future f) where
  pub At-first : At header [] (pass past future) (record f { pos = 40 })
  unfolding past_bytes
  At-first = record {
    whole =
        a.whole
        ∙ append_assoc header (past_bytes past) (log_bytes future)
        ∙ ap (λ t. header ++ t) (sym (log_bytes-pass past future))
        ∙ ap (λ t. t ++ log_bytes (pass past future)) (sym (append-nil header));
    place = sym (ap length (append-nil header) ∙ a.header_size);
    header_size = a.header_size;
    past_recs = tt;
    future_recs = All-pass past future a.past_recs a.future_recs;
    small = a.small;
  }

  pub At-last : At header (pass future past) [] (record f { pos = length f.contents })
  unfolding log_bytes
  At-last = record {
    whole =
        a.whole
        ∙ append_assoc header (past_bytes past) (log_bytes future)
        ∙ ap (λ t. header ++ t) (sym (past_bytes-pass future past))
        ∙ sym (append-nil (header ++ past_bytes (pass future past)));
    place = ap length (
        a.whole
        ∙ append_assoc header (past_bytes past) (log_bytes future)
        ∙ ap (λ t. header ++ t) (sym (past_bytes-pass future past)));
    header_size = a.header_size;
    past_recs = All-pass future past a.future_recs a.past_recs;
    future_recs = tt;
    small = a.small;
  }

  pub evl_rewind-At : evl_rewind f ≡ (success, record f { pos = 40 })
  unfolding evl_rewind seek_status
  evl_rewind-At = rw (lseek-within 40 f (omega arith))

  pub evl_seek_end-At : evl_seek_end f ≡ (success, record f { pos = length f.contents })
  unfolding evl_seek_end seek_status
  evl_seek_end-At = rw (lseek-within (length f.contents) f a.small)
