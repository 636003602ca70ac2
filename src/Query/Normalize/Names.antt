-- ===== src/Query/Normalize/Names.antt =====
-- user/lib/posix_evlsup.c: the tables of names, and the functions that look a name up.
use evlog.Prelude.{
  ℕ, Bool, true, false, ◌&&◌, ◌==◌, if◌then◌else◌, Option, none, some, List, [], ◌∷◌, Text, codes,
  text_eq, toupper,
}
use evlog.Query.Tree.{
  Attr, recid, size, format, event_type, facility, severity, uid, gid, pid, pgrp, time, flags,
  thread, processor,
}

-- An array of `struct _evlNvPair`, its values of any type, without the closing entry.
abbrev pub NvPairs : Type 0 → Type 0
NvPairs V = List (Text × V)

abbrev pub evl_attributes : NvPairs Attr
evl_attributes =
    (codes "recid", recid)
    ∷ (codes "size", size)
    ∷ (codes "format", format)
    ∷ (codes "event_type", event_type)
    ∷ (codes "facility", facility)
    ∷ (codes "severity", severity)
    ∷ (codes "uid", uid)
    ∷ (codes "gid", gid)
    ∷ (codes "pid", pid)
    ∷ (codes "pgrp", pgrp)
    ∷ (codes "time", time)
    ∷ (codes "flags", flags)
    ∷ (codes "thread", thread)
    ∷ (codes "processor", processor)
    ∷ []

abbrev pub evl_severities : NvPairs ℕ
evl_severities =
    (codes "EMERG", 0)
    ∷ (codes "ALERT", 1)
    ∷ (codes "CRIT", 2)
    ∷ (codes "ERR", 3)
    ∷ (codes "WARNING", 4)
    ∷ (codes "NOTICE", 5)
    ∷ (codes "INFO", 6)
    ∷ (codes "DEBUG", 7)
    ∷ []

abbrev pub evl_formats : NvPairs ℕ
evl_formats =
    (codes "NODATA", 0) ∷ (codes "BINARY", 1) ∷ (codes "STRING", 2) ∷ (codes "PRINTF", 3) ∷ []

abbrev pub evl_mgmt_event_types : NvPairs ℕ
evl_mgmt_event_types =
    (codes "MGMT_TIMEMARK", 1)
    ∷ (codes "MGMT_STARTMAINT", 2)
    ∷ (codes "MGMT_ENDMAINT", 3)
    ∷ (codes "MGMT_STOPLOGGING", 4)
    ∷ (codes "MGMT_STARTLOGGING", 5)
    ∷ []

-- `nvFlags` of normalize.c.
abbrev pub nv_flags : NvPairs ℕ
nv_flags =
    (codes "POSIX_LOG_TRUNCATE", 0x1)
    ∷ (codes "TRUNCATE", 0x1)
    ∷ (codes "KERNEL", 0x2)
    ∷ (codes "PRINTK", 0x20)
    ∷ (codes "INTERRUPT", 0x10)
    ∷ []

-- `_evlGetValueByName`; the default, -1, is `none`.
unfoldable pub get_value_by_name : {V : Type 0} → NvPairs V → Text → Option V
get_value_by_name [] name = none
get_value_by_name ((n, v) ∷ table) name =
    if text_eq n name then some v else get_value_by_name table name

-- `!_evlCIStrcmp(s1, s2)`: the loop stops at a difference or at the end of the first text.
unfoldable pub ci_text_eq : Text → Text → Bool
ci_text_eq [] [] = true
ci_text_eq [] (d ∷ t) = false
ci_text_eq (c ∷ s) [] = false
ci_text_eq (c ∷ s) (d ∷ t) = toupper c == toupper d && ci_text_eq s t

-- `_evlGetValueByCIName`
unfoldable pub get_value_by_ci_name : {V : Type 0} → NvPairs V → Text → Option V
unfolding ci_text_eq
get_value_by_ci_name [] name = none
get_value_by_ci_name ((n, v) ∷ table) name =
    if ci_text_eq n name then some v else get_value_by_ci_name table name
