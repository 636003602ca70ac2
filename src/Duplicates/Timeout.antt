-- ===== src/Duplicates/Timeout.antt =====
-- user/cmd/evlogd/evlogd.c: `checkDupEventTimeoutForLog` and `dumpDuplicatesBuffer`.
use evlog.Prelude.{
  ℕ, ◌+◌, ◌-◌, Bool, false, ◌&&◌, ◌||◌, ◌==◌, ltb, leb, if◌then◌else◌, Option, none, some, List, [],
  ◌∷◌, ◌++◌, set,
}
use evlog.Duplicates.Record.{DupBuffer, Settings}
use evlog.Duplicates.Buffer.{Dups}

-- An element whose duplicates are reported is empty again.
unfoldable pub empty_element : DupBuffer → DupBuffer
empty_element b = record b { dup_count = 0; time_start = 0; rec = none }

unfoldable pub report_element : DupBuffer → Dups → Dups
report_element b d = record d {
  pending = d.pending - b.dup_count;
  in_use = set d.in_use b.buf_index false;
  discards = d.discards ++ record { about = b.rec; count = b.dup_count } ∷ [];
}

-- `tv->tv_sec` when an element has `timeout` seconds left.
unfoldable pub sooner : ℕ → ℕ → ℕ
sooner tv timeout = if (tv == 0) || ltb timeout tv then timeout else tv

-- Time to report the duplicates of an element, or not yet.
unfoldable pub is_due : Settings → ℕ → DupBuffer → Bool
is_due s now b = ltb 0 b.dup_count && leb (b.time_start + s.dup_interval) now

unfoldable pub next_timeout : Settings → ℕ → DupBuffer → ℕ → ℕ
unfolding sooner
next_timeout s now b tv =
    if ltb 0 b.dup_count && ltb now (b.time_start + s.dup_interval)
    then sooner tv (b.time_start + s.dup_interval - now)
    else tv

-- The loop of `checkDupEventTimeoutForLog`: the elements, the duplicates and `tv->tv_sec`.
unfoldable pub expire : Settings → ℕ → List DupBuffer → Dups → ℕ → List DupBuffer × Dups × ℕ
expire s now [] d tv = ([], d, tv)
expire s now (b ∷ bs) d tv =
    let (bs', d', tv') =
      expire s now bs (if is_due s now b then report_element b d else d)
        (next_timeout s now b tv) in
    ((if is_due s now b then empty_element b else b) ∷ bs', d', tv')

unfoldable pub expire_array : Settings → ℕ → Option (List DupBuffer) → Dups → ℕ → Dups × ℕ
expire_array s now none d tv = (d, tv)
expire_array s now (some bs) d tv =
    let (bs', d', tv') = expire s now bs d tv in (record d' { dup_recs_array = some bs' }, tv')

-- `checkDupEventTimeoutForLog`
unfoldable pub check_timeout : Settings → ℕ → Dups → ℕ → Dups × ℕ
check_timeout s now d tv =
    if d.pending == 0 then (d, tv) else expire_array s now d.dup_recs_array d tv

-- The loop of `dumpDuplicatesBuffer`.
unfoldable pub dump_element : DupBuffer → Dups → Dups
dump_element b d = if ltb 0 b.dup_count then report_element b d else d

unfoldable pub dump_elements : List DupBuffer → Dups → Dups
dump_elements [] d = d
dump_elements (b ∷ bs) d = dump_elements bs (dump_element b d)

unfoldable pub dump_array : Option (List DupBuffer) → Dups → Dups
dump_array none d = d
dump_array (some bs) d = record (dump_elements bs d) { dup_recs_array = none; pending = 0 }

-- `dumpDuplicatesBuffer`
unfoldable pub dump_duplicates : Dups → Dups
dump_duplicates d = dump_array d.dup_recs_array d
