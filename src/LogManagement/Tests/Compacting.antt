-- ===== src/LogManagement/Tests/Compacting.antt =====
-- A compaction of a log of two records: user/cmd/evlogmgr/evl_logmgmt.c.
use evlog.Prelude.{
  ◌∷◌, some, true, false, none, [], ◌++◌, ◌≡◌, refl, codes, All, arith, ◌+◌, length, ℕ,
}
use evlog.Query.Create.{Created}
use evlog.Log.File.{File, success, ebadf}
use evlog.Log.Layout.{
  whole_size, header_magic, log_generation, member, le_bytes, le_word, log_bytes,
}
use evlog.Log.Descriptor.{LogDesc, logd_magic, log_read}
use evlog.Log.Api.{seek_first, log_seek}
use evlog.Log.Append.{log_header}
use evlog.Log.Tests.Samples.{
  recs, rec_a-IsLogged, rec_b-IsLogged, sample_query, of_size, sample_head,
}
use evlog.LogManagement.Records.{is_mgmt_message}
use evlog.LogManagement.Kept.{kept, deleted}
use evlog.LogManagement.CountRounds.{IsPlain}
use evlog.LogManagement.Count.{evl_get_num_del_rec}
use evlog.LogManagement.Counted.{evl_get_num_del_rec-Succeeds}
use evlog.LogManagement.Rounds.{IsLogged}
use evlog.LogManagement.Generation.{IsHeader}
use evlog.LogManagement.Maintenance.{Request, evl_compact_log}
use evlog.LogManagement.Maintained.{Succeeds, evl_compact_log-Succeeds, stale-refused}

pub log_header-IsHeader : IsHeader log_header
unfolding header_magic log_generation member le_bytes le_word
log_header-IsHeader = record { size = refl; magic = refl; word = omega arith }

abbrev log_file : File
log_file = record { contents = log_header ++ log_bytes recs; pos = 0 }

abbrev created : Created
created = record { status = none; query = some sample_query; errbuf = []; locked = false }

abbrev request : Request
request = record {
  message = codes "compaction";
  announced = success;
  errno = success;
  opened = some log_file;
  backed_up = true;
  force_compact = false;
}

recs-IsLogged : All IsLogged recs
recs-IsLogged = (rec_a-IsLogged, (rec_b-IsLogged, tt))

-- The records with data of two bytes go.
evl_compact_log-Succeeds_example :
    Succeeds
      (of_size 2)
      log_header
      recs
      sample_query
      (codes "compaction")
      (evl_compact_log (of_size 2) (some created) request)
evl_compact_log-Succeeds_example =
    evl_compact_log-Succeeds (of_size 2) log_header recs created sample_query request log_file refl
      refl refl refl refl refl log_header-IsHeader recs-IsLogged

compaction :
    Succeeds
      (of_size 2)
      log_header
      recs
      sample_query
      (codes "compaction")
      (evl_compact_log (of_size 2) (some created) request)
compaction =
    evl_compact_log-Succeeds (of_size 2) log_header recs created sample_query request log_file refl
      refl refl refl refl refl log_header-IsHeader recs-IsLogged

-- A descriptor from before.
abbrev stale : LogDesc
stale = record {
  ld_magic = logd_magic;
  ld_file = record { contents = compaction.file.contents; pos = 40 };
  ld_generation = log_generation log_header;
}

stale-refused_example :
    (log_read (some stale) true none
      ≡ record { status = ebadf; entry = []; var_data = []; desc = some stale })
    × (log_seek (of_size 2) [] (some stale) none seek_first ≡ some (ebadf, some stale))
stale-refused_example =
    stale-refused (of_size 2) log_header recs created sample_query request compaction stale true
      none [] none seek_first log_header-IsHeader refl refl

recs-IsPlain : All (IsPlain (of_size 2 sample_query) (codes "compaction")) recs
unfolding is_mgmt_message sample_head le_bytes whole_size
recs-IsPlain = (
  record { reads_data = λ rest. refl; other = refl },
  (record { reads_data = λ rest. refl; other = refl }, tt),
)

log_file-length : length log_file.contents ≡ 226
unfolding log_bytes le_bytes sample_head
log_file-length = refl

evl_get_num_del_rec-Succeeds_example :
    (bytes : ℕ) × (evl_get_num_del_rec (of_size 2) [] 3 (1 ∷ []) (some created) (some log_file)
      ≡ some (record {
        status = success;
        stored = some (some (deleted (of_size 2 sample_query) (codes "compaction") recs), bytes);
      }))
    × (bytes + length (log_bytes (kept (of_size 2 sample_query) (codes "compaction") recs))
        ≡ length (log_bytes recs))
evl_get_num_del_rec-Succeeds_example =
    evl_get_num_del_rec-Succeeds (of_size 2) (codes "compaction") 3 (1 ∷ []) log_header recs created
      sample_query log_file refl refl refl log_header-IsHeader.size (omega (arith, log_file-length))
      recs-IsLogged recs-IsPlain (omega arith)
