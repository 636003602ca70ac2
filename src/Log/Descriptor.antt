-- ===== src/Log/Descriptor.antt =====
-- Log descriptors: `_evlOpen`, `_evlClose` and `_evlValidateLogdes` (user/lib/posix2.c), with
-- `posix_log_open`, `posix_log_read` and `posix_log_close` (user/lib/posix1.c).
use evlog.Prelude.{
  ℕ, ◌+◌, ◌-◌, ◌%◌, Bool, true, false, not, ◌&&◌, ◌||◌, ◌==◌, leb, if◌then◌else◌, Option, none,
  some, [], ◌∷◌, ◌⊎◌, inl, inr,
}
use evlog.Log.File.{Bytes, File, Status, success, einval, ebadf, ebusy, emfile, is_success, lseek}
use evlog.Log.Layout.{logfile_magic, log_header_size, header_magic, log_generation}
use evlog.Log.Read.{Got, evl_read}

abbrev pub logd_magic : ℕ
logd_magic = 0xf00dface

-- POSIX_LOG_OPEN_MAX
abbrev pub open_max : ℕ
open_max = 100

-- `log_desc_t`. The mapped header is the beginning of the file, and shows what is written there.
pub record LogDesc : Type 0 where
  pub ld_magic : ℕ
  pub ld_file : File
  pub ld_generation : ℕ

-- `isBusyLog`
unfoldable pub is_busy_log : Bytes → Bool
is_busy_log header = log_generation header % 2 == 1

-- What a call of `_evlOpen` returns and stores.
abbrev pub Opened : Type 0
Opened = Status × Option LogDesc

-- The seek past the header.
unfoldable pub open_at : ℕ → Option File → Opened
open_at generation none = (einval, none)
open_at generation (some f) =
    (success, some (record { ld_magic = logd_magic; ld_file = f; ld_generation = generation }))

-- A file with `contents` is open and mapped.
unfoldable pub open_mapped : Bytes → Opened
unfolding is_busy_log open_at
open_mapped contents =
    if not (header_magic contents == logfile_magic)
    then (einval, none)
    else if is_busy_log contents
    then (ebusy, none)
    else open_at (log_generation contents)
        (lseek log_header_size (record { contents = contents; pos = 0 }))

-- `_evlOpen`, on the errno of `open` or the contents of the file. The access to the header of a
-- mapped file with no bytes is a fault (SIGBUS), `none`.
unfoldable pub evl_open : Status ⊎ Bytes → Option Opened
unfolding open_mapped
evl_open (inl e) = some (e, none)
evl_open (inr []) = none
evl_open (inr (c ∷ contents)) = some (open_mapped (c ∷ contents))

-- `_evlValidateLogdes(logd, checkGeneration) == 0`
unfoldable pub validate_logdes : Option LogDesc → Bool → Bool
validate_logdes none check = false
validate_logdes (some d) check =
    d.ld_magic == logd_magic && (not check || d.ld_generation == log_generation d.ld_file.contents)

-- `nOpens` behind a call of `_evlOpen` that it has counted.
unfoldable pub count_open : ℕ → Option Opened → Option (Opened × ℕ)
unfolding is_success
count_open n_opens none = none
count_open n_opens (some (s, d)) = some ((s, d), if is_success s then n_opens + 1 else n_opens)

-- `posix_log_open`, with `nOpens` before and after.
unfoldable pub log_open : ℕ → Status ⊎ Bytes → Option (Opened × ℕ)
unfolding count_open evl_open
log_open n_opens file =
    if leb open_max n_opens
    then some ((emfile, none), n_opens)
    else count_open n_opens (evl_open file)

-- `posix_log_close`: its result and `nOpens`.
unfoldable pub log_close : ℕ → Option LogDesc → Status × ℕ
unfolding validate_logdes
log_close n_opens d = if validate_logdes d false then (success, n_opens - 1) else (ebadf, n_opens)

-- What `posix_log_read` leaves: its result, the entry and the data, and the descriptor.
pub record LogGot : Type 0 where
  pub status : Status
  pub entry : Bytes
  pub var_data : Bytes
  pub desc : Option LogDesc

unfoldable pub log_got : LogDesc → Got → LogGot
log_got d g = record {
  status = g.status;
  entry = g.entry;
  var_data = g.var_data;
  desc = some (record d { ld_file = g.file });
}

unfoldable pub refused : Status → Option LogDesc → LogGot
refused s d = record { status = s; entry = []; var_data = []; desc = d }

unfoldable pub read_valid : Option LogDesc → Bool → Option ℕ → LogGot
unfolding refused log_got
read_valid none wants_entry buf = refused ebadf none
read_valid (some d) wants_entry buf =
    if wants_entry then log_got d (evl_read buf d.ld_file) else refused einval (some d)

-- `posix_log_read`; `wants_entry` says that `entry` is no null pointer.
unfoldable pub log_read : Option LogDesc → Bool → Option ℕ → LogGot
log_read d wants_entry buf =
    if validate_logdes d true then read_valid d wants_entry buf else refused ebadf d
