-- ===== src/LogManagement/Maintenance.antt =====
-- user/cmd/evlogmgr/evl_logmgmt.c: `evl_compact_log`, from the query to the generation number.
use evlog.Prelude.{ℕ, Bool, ◌||◌, if◌then◌else◌, Option, none, some, Text}
use evlog.Query.Create.{Query, Errno, Created}
use evlog.Log.File.{Bytes, File, Status, einval, ebadf, is_success}
use evlog.LogManagement.Records.{gen_even, gen_odd, set_generation_number}
use evlog.LogManagement.Compact.{Compaction, Run, returns, overruns, unfinished, compact_log}

-- What a compaction is asked and finds: the result of `posix_log_printf` for the message at its
-- start and the `errno` behind it, the file that `open` gives, whether `createBackUp` succeeds, and EVL_FORCE_COMPACT.
pub record Request : Type 0 where
  pub message : Text
  pub announced : Status
  pub errno : Status
  pub opened : Option File
  pub backed_up : Bool
  pub force_compact : Bool

-- What `evl_compact_log` returns, the log file behind it, and `g_num_delrec`.
pub record Maintained : Type 0 where
  pub status : Status
  pub file : Option File
  pub num_delrec : ℕ

unfoldable pub refuses : Status → Request → Option Maintained
refuses s q = some (record { status = s; file = q.opened; num_delrec = 0 })

-- The end, at `err_exit`.
unfoldable pub even_end : Status → ℕ → Status × File → Option Maintained
even_end s n (s', f) =
    some (record { status = if is_success s' then s else ebadf; file = some f; num_delrec = n })

-- Behind `compactLog`; `none` is an overrun of its buffer.
unfoldable pub compacted : Run → Option Maintained
compacted (returns s c) = even_end s c.num_delrec (set_generation_number gen_even c.file)
compacted overruns = none
compacted unfinished = none

-- The globals at the start of `compactLog`.
unfoldable pub start_at : File → Compaction
start_at f = record {
  file = f;
  offset = 0;
  beginhole = 0;
  bytes_to_process = 0;
  num_delrec = 0;
  reduced_bytes = 0;
}

module _ (evaluate : Query → Bytes → Bytes → Bool) where
  unfoldable pub compact_odd : Query → Request → Status × File → Option Maintained
  compact_odd query q (s, f) =
      if is_success s
      then compacted (compact_log (evaluate query) q.message (start_at f))
      else even_end ebadf 0 (set_generation_number gen_even f)

  unfoldable pub compact_opened : Query → Request → Option File → Option Maintained
  compact_opened query q none = refuses ebadf q
  compact_opened query q (some f) =
      if q.backed_up || q.force_compact
      then compact_odd query q (set_generation_number gen_odd f)
      else even_end ebadf 0 (set_generation_number gen_even f)

  unfoldable pub compact_announced : Query → Request → Option Maintained
  compact_announced query q =
      if is_success q.announced then compact_opened query q q.opened else refuses q.errno q

  unfoldable pub compact_with : Option Query → Option Errno → Request → Option Maintained
  compact_with query (some e) q = refuses einval q
  compact_with none none q = refuses einval q
  compact_with (some query) none q = compact_announced query q

  -- `evl_compact_log`, on what `posix_log_query_create` leaves for the filter.
  unfoldable pub evl_compact_log : Option Created → Request → Option Maintained
  evl_compact_log none q = none
  evl_compact_log (some created) q = compact_with created.query created.status q
