-- ===== src/Duplicates/Buffer.antt =====
-- user/cmd/evlogd/evlogd.c: `dropDupRecord`, `checkDupEventTimeoutForLog` and
-- `dumpDuplicatesBuffer`, on the duplicates of one log.
use evlog.Prelude.{
  ℕ, zero, suc, ◌+◌, ◌-◌, Bool, true, false, ◌&&◌, ◌||◌, ◌==◌, ltb, leb, if◌then◌else◌, Option,
  none, some, List, [], ◌∷◌, ◌++◌, set, get_elem?, signed_ltb,
}
use evlog.Log.File.{Bytes}
use evlog.Duplicates.Record.{DupBuffer, Settings, compute_score, compare_event_records}

-- An event about discarded duplicates (`writeDiscardEvent`): a record of their kind, and how many.
pub record Discard : Type 0 where
  pub about : Option Bytes
  pub count : ℕ

-- `linfo->dup_recs_array`, `linfo->dup_count`, the flags `in_use` of the lookback buffer, one more
-- than the static `equality_index`, and the events about duplicates that have been written.
pub record Dups : Type 0 where
  pub dup_recs_array : Option (List DupBuffer)
  pub pending : ℕ
  pub in_use : List Bool
  pub equality_next : ℕ
  pub discards : List Discard

-- `calloc`
abbrev pub blank : DupBuffer
blank = record { buf_index = 0; dup_count = 0; time_start = 0; rec = none }

abbrev pub blanks : ℕ → List DupBuffer
blanks zero = []
blanks (suc n) = blank ∷ blanks n

unfoldable pub array_of : Settings → Option (List DupBuffer) → List DupBuffer
array_of s none = blanks s.array_size
array_of s (some bs) = bs

-- What the loop of `dropDupRecord` knows: the element to replace, its score, and whether all the
-- scores so far are equal.
pub record Choice : Type 0 where
  pub replace : ℕ
  pub score : ℕ
  pub equality : Bool

-- How the loop ends: at a duplicate, or with an element to replace.
pub data Scan : Type 0 where
  duplicate : ℕ → DupBuffer → Scan
  replaces : Choice → Scan

unfoldable pub choose : ℕ → ℕ → Choice → Choice
choose i score c =
    if i == 0 || score == c.score
    then c
    else if signed_ltb score c.score
    then record { replace = i; score = score; equality = false }
    else record c { equality = false }

module _ (s : Settings) (now : ℕ) (rhdr : Bytes) where
  unfoldable pub is_duplicate : DupBuffer → Bool
  is_duplicate b = ltb now (b.time_start + s.dup_timeout) && compare_event_records rhdr b.rec

  unfoldable pub scan : ℕ → Choice → List DupBuffer → Scan
  unfolding choose
  scan i c [] = replaces c
  scan i c (b ∷ bs) =
      let rest = scan (i + 1) (choose i (compute_score s now b) c) bs in
      if is_duplicate b then duplicate i b else rest

  -- A duplicate is counted, and reported when there are many or they are old.
  unfoldable pub count_duplicate : ℕ → DupBuffer → List DupBuffer → Dups → Dups
  count_duplicate i b bs d =
      if (b.dup_count + 1 == s.max_count) || leb (b.time_start + s.dup_interval) now
      then record d {
        dup_recs_array = some (set bs i (record b { dup_count = 0; time_start = 0; rec = none }));
        pending = d.pending + 1 - (b.dup_count + 1);
        in_use = set d.in_use b.buf_index false;
        discards = d.discards ++ record { about = some rhdr; count = b.dup_count + 1 } ∷ [];
      }
      else record d {
        dup_recs_array = some (set bs i (record b { dup_count = b.dup_count + 1 }));
        pending = d.pending + 1;
      }

  -- The report about an element, if it has duplicates.
  unfoldable pub report : DupBuffer → Dups → Dups
  report b d =
      if ltb 0 b.dup_count
      then record d {
        pending = d.pending - b.dup_count;
        discards = d.discards ++ record { about = b.rec; count = b.dup_count } ∷ [];
      }
      else d

  unfoldable pub release : Option Bytes → ℕ → List Bool → List Bool
  release none i flags = flags
  release (some r) i flags = set flags i false

  unfoldable pub replace_with : ℕ → ℕ → List DupBuffer → Dups → Option DupBuffer → Dups
  replace_with buf_index i bs d none = record d { dup_recs_array = some bs }
  replace_with buf_index i bs d (some b) =
      let d' = report b d in
      record d' {
        dup_recs_array = some (
            set bs i
              (record { buf_index = buf_index; dup_count = 0; time_start = now; rec = some rhdr }));
        in_use = set (release b.rec b.buf_index d.in_use) buf_index true;
      }

  -- When all the scores are equal, the elements take turns.
  unfoldable pub next_turn : Dups → ℕ
  next_turn d = if leb s.array_size d.equality_next then 0 else d.equality_next

  unfoldable pub replace_chosen : ℕ → List DupBuffer → Dups → Choice → Dups
  replace_chosen buf_index bs d c =
      if c.equality
      then (let i = next_turn d in
          replace_with buf_index i bs (record d { equality_next = i + 1 }) (get_elem? bs i))
      else replace_with buf_index c.replace bs d (get_elem? bs c.replace)

  unfoldable pub scanned : ℕ → List DupBuffer → Dups → Scan → Bool × Dups
  scanned buf_index bs d (duplicate i b) = (true, count_duplicate i b bs d)
  scanned buf_index bs d (replaces c) = (false, replace_chosen buf_index bs d c)

  -- The score of the first element, which the loop starts with.
  unfoldable pub first_choice : List DupBuffer → Choice
  first_choice [] = record { replace = 0; score = 0; equality = true }
  first_choice (b ∷ bs) = record { replace = 0; score = compute_score s now b; equality = true }

  -- `dropDupRecord`: whether the record is dropped, and the duplicates.
  unfoldable pub drop_dup_record : ℕ → Dups → Bool × Dups
  drop_dup_record buf_index d =
      let bs = array_of s d.dup_recs_array in
      if s.dis_dup_recs then scanned buf_index bs d (scan 0 (first_choice bs) bs) else (false, d)
