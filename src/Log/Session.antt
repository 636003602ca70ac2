-- ===== src/Log/Session.antt =====
-- user/lib/posix1.c: `posix_log_seek` with a query and `posix_log_read`, on an open descriptor.
use evlog.Prelude.{
  ℕ, ◌+◌, ◌≡◌, sym, ap, ◌∙◌, Bool, true, Option, some, List, ◌∷◌, ◌++◌, take, take_enough, ==_refl,
  All,
}
use evlog.Query.Create.{Query, validate_query}
use evlog.Log.File.{Bytes, File, success, enoent}
use evlog.Log.Layout.{Rec, log_generation}
use evlog.Log.Read.{got, evl_read}
use evlog.Log.Descriptor.{LogDesc, logd_magic, validate_logdes, log_got, log_read, read_valid}
use evlog.Log.Api.{Direction, log_seek, seek_valid, seek_file, moved, query_is_valid}
use evlog.Log.Reading.{evl_read-record, wanted}
use evlog.Log.Cursor.{At, pass, room, At-head, At-forward}
use evlog.Log.Forward.{Selects, Rejects}
use evlog.Log.Seeking.{
  IsOpen, Search, met, left_at, by_query, seek_file-Found, seek_file-exhausts, At-contents,
}

module _ (evaluate : Query → Bytes → Bytes → Bool) (q : Query) (memory : Bytes) {header : Bytes}
    {direction : Direction} (s : Search direction) (past future : List Rec) (d : LogDesc)
    (valid : validate_query (some q) ≡ true) (o : IsOpen header past future d) where
  desc_valid : validate_logdes (some d) true ≡ true
  unfolding validate_logdes
  desc_valid = rw (o.magic, o.generation, ==_refl (log_generation d.ld_file.contents))

  query_valid : query_is_valid (some q) ≡ true
  unfolding query_is_valid
  query_valid = valid

  -- `posix_log_seek` searches the file.
  log_seek-file :
      log_seek evaluate memory (some d) (some q) direction
      ≡ moved d (seek_file evaluate memory (some q) direction d.ld_file)
  unfolding log_seek seek_valid
  log_seek-file = rw (desc_valid, query_valid)

  IsOpen-moved :
      {before after : List Rec} {f : File}
      → At header before after f
      → pass before after ≡ pass past future
      → IsOpen header before after (record d { ld_file = f })
  IsOpen-moved a same = record {
    magic = o.magic;
    generation = o.generation ∙ ap log_generation (sym (At-contents o.cursor a same));
    cursor = a;
  }

  -- `posix_log_seek` with a valid query, in each of the directions first, last, forward and backward,
  -- on an open log of whole records: when the query rejects the records that the search meets in front of
  -- `r`, and selects `r`, whatever bytes lie behind their data in the buffer of the search, the read
  -- pointer ends in front of `r`, in the same log.
  pub log_seek-finds :
      (skipped rest : List Rec) (r : Rec)
      → met s past future ≡ skipped ++ r ∷ rest
      → All (Rejects (by_query evaluate q)) skipped
      → Selects (by_query evaluate q) r
      → (d' : LogDesc) × (before : List Rec) × (after : List Rec) × (log_seek evaluate memory
            (some d)
            (some q)
            direction
          ≡ some (success, some d'))
        × IsOpen header before (r ∷ after) d'
        × (pass before (r ∷ after) ≡ pass past future)
  unfolding moved
  log_seek-finds skipped rest r meets rejected match =
      let found =
        seek_file-Found evaluate q memory s skipped rest past future r d.ld_file o.cursor meets
          rejected match in
      (
        record d { ld_file = found.file },
        found.before,
        found.after,
        log_seek-file ∙ ap (moved d) found.outcome,
        IsOpen-moved found.cursor found.same,
        found.same,
      )

  -- When a valid query rejects every record that the search meets, whatever bytes lie behind its data in
  -- the buffer of the search, `posix_log_seek` says ENOENT, on an open log of whole records. Forward
  -- and backward leave the read pointer where it was; first and last leave it at the first record
  -- and at the end of the file.
  pub log_seek-exhausts :
      All (Rejects (by_query evaluate q)) (met s past future)
      → log_seek evaluate memory (some d) (some q) direction
        ≡ some
            (enoent, some (record d { ld_file = record d.ld_file { pos = left_at s d.ld_file } }))
  unfolding moved
  log_seek-exhausts rejected =
      log_seek-file
      ∙ ap (moved d)
          (seek_file-exhausts evaluate q memory s past future d.ld_file o.cursor rejected)

log_read-evl_read :
    (d : LogDesc) (buf : Option ℕ)
    → d.ld_magic ≡ logd_magic
    → d.ld_generation ≡ log_generation d.ld_file.contents
    → log_read (some d) true buf ≡ log_got d (evl_read buf d.ld_file)
unfolding log_read read_valid validate_logdes
log_read-evl_read d buf m g = rw (m, g, ==_refl (log_generation d.ld_file.contents))

-- `posix_log_read` gives the record behind the read pointer, with as much of its data as the
-- buffer takes, and moves the read pointer past it.
pub log_read-IsOpen :
    {header : Bytes} {past future : List Rec} (d : LogDesc) (r : Rec) (buf : Option ℕ)
    → IsOpen header past (r ∷ future) d
    → (d' : LogDesc) × (log_read (some d) true buf ≡ record {
      status = success;
      entry = r.head;
      var_data = take (wanted buf) r.body;
      desc = some d';
    })
      × IsOpen header (r ∷ past) future d'
unfolding log_got got
log_read-IsOpen d r buf o = (
  record d { ld_file = record d.ld_file { pos = d.ld_file.pos + room r } },
  log_read-evl_read d buf o.magic o.generation
      ∙ ap (log_got d)
          (evl_read-record r o.cursor.future_recs.0 (At-head r o.cursor) o.cursor.small buf),
  record { magic = o.magic; generation = o.generation; cursor = At-forward r o.cursor },
)

-- With a buffer of POSIX_LOG_ENTRY_MAXLEN bytes, all of the data.
pub log_read-whole :
    {header : Bytes} {past future : List Rec} (d : LogDesc) (r : Rec)
    → IsOpen header past (r ∷ future) d
    → (d' : LogDesc) × (log_read (some d) true (some 8192)
        ≡ record { status = success; entry = r.head; var_data = r.body; desc = some d' })
      × IsOpen header (r ∷ past) future d'
log_read-whole d r o =
    let (d', read, o') = log_read-IsOpen d r (some 8192) o in
    (
      d',
      read
          ∙ ap (λ t. record { status = success; entry = r.head; var_data = t; desc = some d' })
              (take_enough 8192 r.body o.cursor.future_recs.0.fits),
      o',
    )
