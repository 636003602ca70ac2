-- ===== src/Log/Tests/Reading.antt =====
-- Runs of the functions that search and read a log.
use evlog.Prelude.{
  codes, All, ◌+◌, ◌<◌, none, some, inr, List, [], ◌∷◌, ◌≡◌, refl, ap, ◌∙◌, length, arith,
}
use evlog.Log.File.{File, success, enoent, eagain, off_mod}
use evlog.Log.Layout.{past_bytes, Rec, IsRec, log_bytes, log_size, le_bytes}
use evlog.Log.Read.{got, evl_read, evl_fd_write}
use evlog.Log.Seek.{selects, seek_fwd, seek_bkwd}
use evlog.Log.Descriptor.{LogDesc, log_open}
use evlog.Log.Api.{seek_last, seek_first, log_seek}
use evlog.Log.Cursor.{At, pass, room}
use evlog.Log.Seeking.{IsOpen, last, first}
use evlog.Log.Session.{log_seek-finds, log_seek-exhausts}
use evlog.Log.Append.{log_header, write_log, log_open-write_log, evl_read-evl_fd_write}
use evlog.Log.Whole.{At-last}
use evlog.Log.Robust.{Ends, seek-Ends}
use evlog.Log.Tests.Samples.{
  rec_a, rec_b, rec_a-IsLogged, rec_b-IsLogged, recs, recs-size, sample_query, sample_query-valid,
  of_size, sample_head,
}

recs-IsRec : All IsRec recs
recs-IsRec = (rec_a-IsLogged.is_rec, (rec_b-IsLogged.is_rec, tt))

recs-fit : 40 + length (log_bytes recs) < off_mod
recs-fit = omega (arith, recs-size)

log_open-write_log_example :
    (d : LogDesc) × (log_open 3 (inr (write_log recs).contents) ≡ some ((success, some d), 4))
    × IsOpen log_header [] recs d
log_open-write_log_example = log_open-write_log 3 recs (omega arith) recs-IsRec recs-fit

pub desc : LogDesc
desc = (log_open-write_log 3 recs (omega arith) recs-IsRec recs-fit).0

pub desc-IsOpen : IsOpen log_header [] recs desc
unfolding desc
desc-IsOpen = (log_open-write_log 3 recs (omega arith) recs-IsRec recs-fit).2

-- The last record with data is the first of the two.
log_seek-finds_example :
    (d : LogDesc) × (before : List Rec) × (after : List Rec) × (log_seek
        (of_size 2)
        (codes "old")
        (some desc)
        (some sample_query)
        seek_last
      ≡ some (success, some d))
    × IsOpen log_header before (rec_a ∷ after) d
    × (pass before (rec_a ∷ after) ≡ recs)
unfolding selects log_size sample_head
log_seek-finds_example =
    log_seek-finds (of_size 2) sample_query (codes "old") last [] recs desc sample_query-valid
      desc-IsOpen (rec_b ∷ []) [] rec_a refl (λ rest. refl, tt) (λ rest. refl)

-- No record has data of seven bytes.
log_seek-exhausts_example :
    log_seek (of_size 7) (codes "old") (some desc) (some sample_query) seek_first
    ≡ some (enoent, some (record desc { ld_file = record desc.ld_file { pos = 40 } }))
unfolding selects log_size sample_head
log_seek-exhausts_example =
    log_seek-exhausts (of_size 7) sample_query (codes "old") first [] recs desc sample_query-valid
      desc-IsOpen (λ rest. refl, (λ rest. refl, tt))

-- A reader that has come to the end.
at_end : File
at_end = record { contents = desc.ld_file.contents; pos = length desc.ld_file.contents }

at_end-At : At log_header (rec_b ∷ rec_a ∷ []) [] at_end
unfolding at_end
at_end-At = At-last desc-IsOpen.cursor

desc-length : length desc.ld_file.contents ≡ 226
unfolding past_bytes log_bytes le_bytes sample_head
desc-length = ap length desc-IsOpen.cursor.whole ∙ refl

at_end-size : length at_end.contents + room rec_b < off_mod
unfolding at_end
at_end-size = omega (arith, desc-length)

evl_read-evl_fd_write_example :
    (evl_read none at_end ≡ got eagain [] [] at_end)
    × (evl_read none (record (evl_fd_write rec_b.head rec_b.body at_end) { pos = at_end.pos })
        ≡ got success rec_b.head []
            (record (evl_fd_write rec_b.head rec_b.body at_end) { pos = at_end.pos + room rec_b }))
evl_read-evl_fd_write_example =
    evl_read-evl_fd_write rec_b none at_end-At rec_b-IsLogged.is_rec at_end-size

-- A file that is not a log.
junk : File
junk = record { contents = 1 ∷ 2 ∷ 3 ∷ []; pos = 1 }

seek-Ends_example :
    Ends junk junk.pos (seek_fwd none [] junk) × Ends junk junk.pos (seek_bkwd none [] junk)
seek-Ends_example = seek-Ends none [] junk
