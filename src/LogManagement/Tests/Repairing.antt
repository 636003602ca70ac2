-- ===== src/LogManagement/Tests/Repairing.antt =====
-- Repairs of corrupted logs: user/cmd/evlogmgr/evl_logmgmt.c.
use evlog.Prelude.{◌%◌, ◌∷◌, some, ◌+◌, ◌-◌, ◌^◌, [], ◌++◌, ◌≡◌, refl, length, arith}
use evlog.Log.File.{success, Bytes, File, zeros, lseek, read_bytes, after_read}
use evlog.Log.Layout.{log_generation, le_bytes, log_bytes, log_size, log_magic}
use evlog.Log.Append.{log_header}
use evlog.Log.Tests.Samples.{rec_a, rec_b, rec_a-IsLogged, rec_b-IsLogged, sample_head}
use evlog.LogManagement.Records.{with_generation, validate_rec, get_rec_len}
use evlog.LogManagement.Repair.{
  search_from, search_at, search_sized, search_for_next_good_record, unfinished, repair_log,
}
use evlog.LogManagement.Repaired.{Corrupted}
use evlog.LogManagement.RepairRun.{next_even, evl_repair_log, evl_repair_log-Succeeds}
use evlog.LogManagement.Tests.Compacting.{log_header-IsHeader}
use evlog.LogManagement.Livelock.{HasOversized, repair_log-unfinished}

-- Three bytes between two records.
abbrev block : Bytes
block = 1 ∷ 2 ∷ 3 ∷ []

abbrev corrupted_log : File
corrupted_log = record {
  contents = log_header ++ (log_bytes (rec_a ∷ []) ++ (block ++ log_bytes (rec_b ∷ [])));
  pos = 0;
}

contents_length : length corrupted_log.contents ≡ 229
unfolding log_bytes le_bytes sample_head
contents_length = refl

block-Corrupted : Corrupted (40 + length (log_bytes (rec_a ∷ []))) (length block) corrupted_log
unfolding validate_rec search_for_next_good_record log_bytes le_bytes sample_head lseek read_bytes
    log_size after_read log_magic search_from search_at search_sized
block-Corrupted = record { refused = refl; resync = refl }

evl_repair_log-Succeeds_example :
    (g : File) × (evl_repair_log 4 success success (some corrupted_log) ≡ some (success, some g))
    × (g.contents
        ≡ with_generation (next_even (log_generation log_header)) log_header
          ++ (log_bytes (rec_a ∷ []) ++ log_bytes (rec_b ∷ [])))
    × (log_generation g.contents ≡ next_even (log_generation log_header))
    × (log_generation g.contents % 2 ≡ 0)
evl_repair_log-Succeeds_example =
    evl_repair_log-Succeeds 4 success log_header block (rec_a ∷ []) (rec_b ∷ []) corrupted_log
      (omega arith) refl log_header-IsHeader (rec_a-IsLogged, tt) (rec_b-IsLogged, tt) (omega arith)
      (omega (arith, contents_length)) block-Corrupted

-- A record header whose size, added to that of a header, wraps around to 16, the number that
-- stands where the search then looks for it.
abbrev oversized_head : Bytes
oversized_head =
    le_bytes 4 0xfeefface
    ++ (le_bytes 4 2 ++ (le_bytes 8 (2 ^ 64 - 72) ++ (le_bytes 4 16 ++ zeros 68)))

abbrev endless_log : File
endless_log = record { contents = log_header ++ (1 ∷ oversized_head); pos = 0 }

endless_log-HasOversized : HasOversized endless_log 41 oversized_head
unfolding validate_rec search_for_next_good_record le_bytes log_size get_rec_len lseek read_bytes
    after_read log_magic search_from search_at search_sized
endless_log-HasOversized = record {
  corrupted = refl;
  resync = refl;
  behind = omega arith;
  within = omega arith;
  header_read = refl;
  whole_header = refl;
  length_known = λ e. omega (arith, e);
  oversized = omega arith;
}

repair_log-unfinished_example : repair_log 1000 endless_log ≡ unfinished
repair_log-unfinished_example = repair_log-unfinished endless_log-HasOversized 1000
