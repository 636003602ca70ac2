-- ===== src/LogManagement/Livelock.antt =====
-- user/cmd/evlogmgr/evl_logmgmt.c: a log that `repairLog` never finishes.
use evlog.Prelude.{
  ℕ, zero, suc, ◌+◌, ◌-◌, ◌<◌, ◌≤◌, ◌≡◌, ◌≢◌, refl, ◌∙◌, true, false, ◌==◌, ==_ne, lt→ltb, ltb,
  none, length, arith,
}
use evlog.Log.File.{Bytes, File, read_bytes, after_read, lseek}
use evlog.Log.Layout.{log_size}
use evlog.LogManagement.Records.{validate_rec, get_rec_len, minus_one, move_record_up}
use evlog.LogManagement.Repair.{
  Repair, unfinished, good_record, search_for_next_good_record, search_from, search_at, again,
  move_round, resume, checked, moved, repair_loop, repair_log,
}

-- The first record of the file is corrupted, and the next one that looks good says that its data
-- is longer than POSIX_LOG_ENTRY_MAXLEN.
pub record HasOversized (f : File) (n : ℕ) (head : Bytes) : Type 0 where
  pub corrupted : validate_rec 40 f ≡ none
  pub resync : search_for_next_good_record 40 f ≡ good_record n
  pub behind : 40 ≤ n
  pub within : n < length f.contents
  pub header_read : read_bytes 88 (record f { pos = n }) ≡ head
  pub whole_header : length head ≡ 88
  pub length_known : get_rec_len head ≢ minus_one
  pub oversized : 8192 < log_size head

-- The search does not depend on the read pointer.
search_from-pos :
    (fuel offset : ℕ) (f : File) (p : ℕ)
    → search_from fuel offset (record f { pos = p }) ≡ search_from fuel offset f
unfolding search_from search_at
search_from-pos zero offset f p = refl
search_from-pos (suc fuel) offset f p = rw (search_from-pos fuel (offset + 1) f p)

validate_rec-pos :
    (offset : ℕ) (f : File) (p : ℕ)
    → validate_rec offset (record f { pos = p }) ≡ validate_rec offset f
unfolding validate_rec lseek
validate_rec-pos offset f p = refl

module _ {f : File} {n : ℕ} {head : Bytes} (h : HasOversized f n head) where
  -- The state at the jump, and in front of the oversized record.
  abbrev at_again : ℕ → Repair → Repair
  at_again p r = again (length f.contents) (record r { file = record f { pos = p } })

  abbrev at_oversized : ℕ → Repair
  at_oversized p = record {
    file = record f { pos = p };
    offset = n;
    beginhole = 40;
    bytes_to_process = length f.contents - 40 + 40 - n;
    found_corrupted = true;
  }

  -- Two rounds lead back to the jump.
  check_round :
      (fuel p : ℕ) (r : Repair)
      → repair_loop (suc fuel) (length f.contents) false (at_again p r)
        ≡ repair_loop fuel (length f.contents) true (at_oversized p)
  unfolding repair_loop checked resume again search_for_next_good_record
  check_round fuel p r =
      let left : ltb 0 (length f.contents - 40) ≡ true =
        lt→ltb _ _ (omega (arith, h.behind, h.within)) in
      rw (
        left,
        validate_rec-pos 40 f p,
        h.corrupted,
        search_from-pos (suc (length f.contents)) 40 f p,
        h.resync,
      )

  oversized_round :
      (fuel p : ℕ)
      → repair_loop (suc fuel) (length f.contents) true (at_oversized p)
        ≡ repair_loop fuel (length f.contents) false (at_again (n + 88) (at_oversized p))
  unfolding repair_loop move_round moved move_record_up after_read again
  oversized_round fuel p =
      let left : ltb 0 (length f.contents - 40 + 40 - n) ≡ true =
        lt→ltb _ _ (omega (arith, h.behind, h.within)) in
      let unknown : (get_rec_len head == minus_one) ≡ false = ==_ne _ _ h.length_known in
      let big : ltb 8192 (log_size head) ≡ true = lt→ltb _ _ h.oversized in
      rw (left, h.header_read, h.whole_header, unknown, big)

  again-unfinished :
      (fuel p : ℕ) (r : Repair)
      → repair_loop fuel (length f.contents) false (at_again p r) ≡ unfinished
  again-unfinished zero p r = unfold repair_loop in refl
  again-unfinished (suc zero) p r = check_round 0 p r ∙ (unfold repair_loop in refl)
  again-unfinished (suc (suc fuel)) p r =
      check_round (suc fuel) p r
      ∙ oversized_round fuel p
      ∙ again-unfinished fuel (n + 88) (at_oversized p)

  -- `repairLog` never ends on such a file: no number of rounds is enough. `moveRecordUp` refuses the
  -- oversized record, and the jump to `repair_again` comes back to it with an unchanged file.
  pub repair_log-unfinished : (fuel : ℕ) → repair_log fuel f ≡ unfinished
  unfolding repair_log
  repair_log-unfinished fuel =
      let some_bytes : (length f.contents == 0) ≡ false =
        ==_ne _ _ (λ e. omega (arith, h.within, e)) in
      rw some_bytes (
        again-unfinished fuel f.pos (record {
          file = f;
          offset = 0;
          beginhole = 0;
          bytes_to_process = 0;
          found_corrupted = false;
        }))
