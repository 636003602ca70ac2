-- ===== src/Log/Append.antt =====
-- user/lib/posix2.c and user/lib/posix1.c: log files that `_evlWriteLogHeader` and `_evlFdWrite`
-- write, opened and read.
use evlog.Prelude.{
  ℕ, ◌+◌, ◌-◌, ◌<◌, ◌≡◌, refl, sym, ap, ◌∙◌, false, leb, Option, some, List, [], ◌∷◌, ◌++◌, inr,
  length, take, drop, take_all, drop_end, length-append, All, arith,
}
use mathlib.Core.List.{append_assoc, append-nil}
use evlog.Log.File.{Bytes, File, success, eagain, off_mod, lseek, write_bytes, zeros, is_success}
use evlog.Log.Layout.{
  Rec, IsRec, rec_bytes, whole_size, log_bytes, past_bytes, le_bytes, le_word, log_generation,
  header_magic, logfile_magic, member,
}
use evlog.Log.Read.{got, evl_read, evl_fd_write, evl_write_log_header}
use evlog.Log.Reading.{Holds, evl_read-record, evl_read-end, wanted}
use evlog.Log.Cursor.{At, room, length-rec_bytes-IsRec, At-end, At-limit-end}
use evlog.Log.Descriptor.{
  LogDesc, logd_magic, log_open, count_open, evl_open, open_mapped, open_at, is_busy_log,
}
use evlog.Log.Seeking.{IsOpen}

-- A write at the end of the file.
write_bytes-end :
    (bs : Bytes) (f : File)
    → f.pos ≡ length f.contents
    → write_bytes bs f ≡ record { contents = f.contents ++ bs; pos = f.pos + length bs }
unfolding write_bytes
write_bytes-end bs f there =
    let gap : f.pos - length f.contents ≡ 0 = omega (arith, there) in
    let front : take f.pos f.contents ≡ f.contents = rw there (take_all f.contents) in
    let behind : drop (f.pos + length bs) f.contents ≡ [] =
      drop_end (f.pos + length bs) f.contents (omega (arith, there)) in
    rw (gap, front, behind, append-nil f.contents, append-nil bs)

-- `_evlFdWrite` at the end of the file appends the record.
pub evl_fd_write-end :
    (r : Rec) (f : File)
    → IsRec r
    → f.pos ≡ length f.contents
    → evl_fd_write r.head r.body f
      ≡ record { contents = f.contents ++ rec_bytes r; pos = f.pos + length (rec_bytes r) }
unfolding evl_fd_write rec_bytes whole_size
evl_fd_write-end r f v there =
    rw (v.sized, take_all r.body)
      (write_bytes-end (r.head ++ (r.body ++ le_bytes 4 (88 + length r.body))) f there)

-- A reader at the end of a log: until a record is written, `_evlRead` says EAGAIN and leaves the
-- read pointer; once `_evlFdWrite` has written one, it gives that record.
pub evl_read-evl_fd_write :
    {header : Bytes} {past : List Rec} {f : File} (r : Rec) (buf : Option ℕ)
    → At header past [] f
    → IsRec r
    → length f.contents + room r < off_mod
    → (evl_read buf f ≡ got eagain [] [] f)
      × (evl_read buf (record (evl_fd_write r.head r.body f) { pos = f.pos })
          ≡ got success r.head
              (take (wanted buf) r.body)
              (record (evl_fd_write r.head r.body f) { pos = f.pos + room r }))
evl_read-evl_fd_write {f = f} r buf a v small =
    let end : f.pos ≡ length f.contents = At-limit-end a in
    let written = evl_fd_write-end r f v end in
    let whole : (evl_fd_write r.head r.body f).contents ≡ f.contents ++ (rec_bytes r ++ []) =
      ap (λ (g : File). g.contents) written
      ∙ ap (λ t. f.contents ++ t) (sym (append-nil (rec_bytes r))) in
    let holds : Holds f.contents (rec_bytes r) []
        (record (evl_fd_write r.head r.body f) { pos = f.pos }) =
      record { whole = whole; place = end } in
    (
      evl_read-end buf f (At-end a),
      evl_read-record r v holds
          (omega (
            arith,
            small,
            ap length (ap (λ (g : File). g.contents) written),
            length-append f.contents (rec_bytes r),
            length-rec_bytes-IsRec r v,
          ))
          buf,
    )

-- `evlview -out`: a header and the records.
unfoldable pub write_records : List Rec → File → File
write_records [] f = f
write_records (r ∷ rs) f = write_records rs (evl_fd_write r.head r.body f)

unfoldable pub write_log : List Rec → File
write_log rs = write_records rs (evl_write_log_header (record { contents = []; pos = 0 }))

write_records-contents :
    (rs : List Rec) (f : File)
    → All IsRec rs
    → f.pos ≡ length f.contents
    → (write_records rs f).contents ≡ f.contents ++ log_bytes rs
unfolding log_bytes write_records
write_records-contents [] f v end = sym (append-nil f.contents)
write_records-contents (r ∷ rs) f v end =
    let w = evl_fd_write-end r f v.0 end in
    write_records-contents rs (evl_fd_write r.head r.body f) v.1 (
      ap (λ (g : File). g.pos) w
      ∙ omega (arith, end, length-append f.contents (rec_bytes r))
      ∙ sym (ap (λ (g : File). length g.contents) w))
    ∙ ap (λ (g : File). g.contents ++ log_bytes rs) w
    ∙ append_assoc f.contents (rec_bytes r) (log_bytes rs)

abbrev pub log_header : Bytes
log_header = le_bytes 4 logfile_magic ++ zeros 36

log_header-written :
    evl_write_log_header (record { contents = []; pos = 0 })
    ≡ record { contents = log_header; pos = 40 }
unfolding evl_write_log_header write_bytes le_bytes
log_header-written = refl

write_log-contents :
    (rs : List Rec) → All IsRec rs → (write_log rs).contents ≡ log_header ++ log_bytes rs
unfolding le_bytes write_log
write_log-contents rs v =
    rw log_header-written
      (write_records-contents rs (record { contents = log_header; pos = 40 }) v refl)

no_past : (rest : Bytes) → log_header ++ rest ≡ (log_header ++ past_bytes []) ++ rest
unfolding past_bytes le_bytes
no_past rest = refl

log_open-log_header :
    (n_opens : ℕ) (rest : Bytes)
    → n_opens < 100
    → log_open n_opens (inr (log_header ++ rest))
      ≡ some (
        (
          success,
          some (record {
            ld_magic = logd_magic;
            ld_file = record { contents = log_header ++ rest; pos = 40 };
            ld_generation = log_generation (log_header ++ rest);
          }),
        ),
        n_opens + 1,
      )
unfolding log_open count_open evl_open open_mapped open_at is_success is_busy_log lseek header_magic
    log_generation member le_word le_bytes
log_open-log_header n_opens rest h = let free : leb 100 n_opens ≡ false = ground arith in rw free

-- A log that `_evlWriteLogHeader` and `_evlFdWrite` write, of a size within the limit of files, is
-- opened by `posix_log_open`, unless POSIX_LOG_OPEN_MAX logs are open: the read pointer stands in
-- front of all its records, and the open log is counted.
pub log_open-write_log :
    (n_opens : ℕ) (rs : List Rec)
    → n_opens < 100
    → All IsRec rs
    → 40 + length (log_bytes rs) < off_mod
    → (d : LogDesc) × (log_open n_opens (inr (write_log rs).contents)
        ≡ some ((success, some d), n_opens + 1))
      × IsOpen log_header [] rs d
log_open-write_log n_opens rs room_left v small =
    let whole = write_log-contents rs v in
    (
      record {
        ld_magic = logd_magic;
        ld_file = record { contents = (write_log rs).contents; pos = 40 };
        ld_generation = log_generation (write_log rs).contents;
      },
      rw whole (log_open-log_header n_opens (log_bytes rs) room_left),
      record {
        magic = refl;
        generation = refl;
        cursor = record {
          whole = whole ∙ no_past (log_bytes rs);
          place = unfold past_bytes le_bytes in refl;
          header_size = unfold le_bytes in refl;
          past_recs = tt;
          future_recs = v;
          small =
              unfold le_bytes in
              omega (arith, small, ap length whole, length-append log_header (log_bytes rs));
        };
      },
    )
