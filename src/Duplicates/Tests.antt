-- ===== src/Duplicates/Tests.antt =====
-- Runs of the suppression of duplicates: user/cmd/evlogd/evlogd.c.
use evlog.Prelude.{◌+◌, true, false, [], ◌∷◌, ◌≡◌}
use evlog.Log.File.{zeros}
use evlog.Log.Layout.{log_size}
use evlog.Duplicates.Record.{Settings, compute_score, compare_event_records}
use evlog.Duplicates.Buffer.{
  Dups, drop_dup_record, scanned, scan, array_of, is_duplicate, replace_chosen, first_choice,
  replace_with, next_turn,
}
use evlog.Duplicates.Conservation.{reported, total, elements}
use evlog.Duplicates.Runs.{Runs, start, record_in, no_dups, Runs-accounted}

abbrev settings : Settings
settings = record {
  dis_dup_recs = true;
  max_count = 20;
  dup_interval = 10;
  dup_timeout = 60;
  array_size = 2;
}

-- The same record at two times: the second one is dropped.
abbrev once : Dups
once = (drop_dup_record settings 100 (zeros 88) 0 (no_dups (false ∷ false ∷ []))).1

abbrev twice : Dups
twice = (drop_dup_record settings 103 (zeros 88) 1 once).1

twice_run : Runs (false ∷ false ∷ []) 1 twice
unfolding drop_dup_record scanned scan array_of is_duplicate replace_chosen first_choice
    replace_with next_turn compute_score compare_event_records log_size
twice_run = record_in settings 103 (zeros 88) 1 (record_in settings 100 (zeros 88) 0 start)

Runs-accounted_example :
    (reported twice.discards + twice.pending ≡ 1)
    × (twice.pending ≡ total (elements twice.dup_recs_array))
Runs-accounted_example = Runs-accounted (false ∷ false ∷ []) 1 twice twice_run
