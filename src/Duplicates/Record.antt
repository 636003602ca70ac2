-- ===== src/Duplicates/Record.antt =====
-- user/cmd/evlogd/evlogd.c: `compareEventRecords` and `compute_score`.
use evlog.Prelude.{
  ℕ, ◌+◌, ◌*◌, ◌%◌, Bool, false, not, ◌&&◌, ◌==◌, ltb, if◌then◌else◌, Option, none, some, text_eq,
  take, drop, u32_mod, sign_extend,
}
use evlog.Log.File.{Bytes}
use evlog.Log.Layout.{rec_hdr_size, member, log_size}

-- The members of two headers, each by its offset and its size, that are compared: the event type,
-- the facility, the severity, the ids, the format, the flags, the thread and the processor.
unfoldable pub same_member : ℕ → ℕ → Bytes → Bytes → Bool
same_member offset size prec crec = member offset size prec == member offset size crec

unfoldable pub same_header : Bytes → Bytes → Bool
unfolding same_member
same_header prec crec =
    (log_size prec == log_size crec)
    && same_member 20 4 prec crec
    && same_member 24 4 prec crec
    && same_member 28 4 prec crec
    && same_member 40 4 prec crec
    && same_member 32 4 prec crec
    && same_member 36 4 prec crec
    && same_member 44 4 prec crec
    && same_member 16 4 prec crec
    && same_member 64 4 prec crec
    && same_member 72 8 prec crec
    && same_member 80 4 prec crec

-- `memcmp(cdata, pdata, log_size) == 0`, on the data behind the headers.
unfoldable pub same_data : Bytes → Bytes → Bool
same_data prec crec =
    text_eq (take (log_size crec) (drop rec_hdr_size crec))
      (take (log_size crec) (drop rec_hdr_size prec))

-- `compareEventRecords`, with a NULL record for `none`.
unfoldable pub compare_event_records : Bytes → Option Bytes → Bool
unfolding same_header same_data
compare_event_records crec none = false
compare_event_records crec (some prec) = same_header prec crec && same_data prec crec

-- `dup_buffer_t`
pub record DupBuffer : Type 0 where
  pub buf_index : ℕ
  pub dup_count : ℕ
  pub time_start : ℕ
  pub rec : Option Bytes

-- The settings: `dis_dup_recs`, `dup_count`, `dup_interval`, `dup_timeout` and `dup_array_size`.
-- Times and counts are far from the limits of their types.
pub record Settings : Type 0 where
  pub dis_dup_recs : Bool
  pub max_count : ℕ
  pub dup_interval : ℕ
  pub dup_timeout : ℕ
  pub array_size : ℕ

-- `compute_score`, before its result is cut to an `int`.
unfoldable pub score_sum : Settings → ℕ → DupBuffer → ℕ
score_sum s now b =
    if not (b.time_start == 0) && ltb (b.time_start + s.dup_interval) now
    then b.time_start + b.dup_count
    else if not (b.time_start == 0)
    then b.time_start + s.dup_interval + b.dup_count + s.max_count
    else 2 * s.max_count + now + s.dup_interval

unfoldable pub score_of : Settings → ℕ → DupBuffer → Option Bytes → ℕ
unfolding score_sum
score_of s now b none = 0
score_of s now b (some r) = sign_extend (score_sum s now b % u32_mod)

unfoldable pub compute_score : Settings → ℕ → DupBuffer → ℕ
unfolding score_of
compute_score s now b = score_of s now b b.rec
