-- ===== src/LogManagement/RepairRun.antt =====
-- user/cmd/evlogmgr/evl_logmgmt.c: `evl_repair_log`, from the message at its start to the generation
-- number.
use evlog.Prelude.{
  arith, ◌%◌, ◌^◌, ap, ◌∙◌, ℕ, ◌+◌, ◌<◌, ◌≡◌, if◌then◌else◌, Option, none, some, List, ◌++◌, length,
  All,
}
use evlog.Log.File.{Bytes, File, Status, success, ebadf, is_success, off_mod}
use evlog.Log.Layout.{Rec, log_bytes, log_generation}
use evlog.LogManagement.Records.{gen_even, new_generation, with_generation, set_generation_number}
use evlog.LogManagement.Rounds.{IsLogged}
use evlog.LogManagement.Generation.{
  log_generation-with_generation, IsHeader, set_generation_number-Renumbered,
}
use evlog.LogManagement.Repair.{Repaired, returns, unfinished, repair_log}
use evlog.LogManagement.Repaired.{Corrupted, repair_log-Repairs}

-- The generation is made even.
unfoldable pub even_repaired : Status × File → Status × Option File
even_repaired (s, f) = (if is_success s then success else ebadf, some f)

-- Behind `repairLog`; `none` is a run that has not ended.
unfoldable pub repaired : Repaired → Option (Status × Option File)
repaired unfinished = none
repaired (returns success r) = some (even_repaired (set_generation_number gen_even r.file))
repaired (returns s r) = some (s, some r.file)

unfoldable pub repair_opened : ℕ → Option File → Option (Status × Option File)
unfolding repaired
repair_opened fuel none = some (ebadf, none)
repair_opened fuel (some f) = repaired (repair_log fuel f)

-- `evl_repair_log`, on the result of `posix_log_printf` for the message at its start, the `errno`
-- behind it, and the file that `open` gives: its result, and the file behind it.
unfoldable pub evl_repair_log : ℕ → Status → Status → Option File → Option (Status × Option File)
evl_repair_log fuel announced errno opened =
    let run = repair_opened fuel opened in
    if is_success announced then run else some (errno, opened)

-- The even number that is a generation number or follows it; 0 follows 2 ^ 32 - 1.
abbrev pub next_even : ℕ → ℕ
next_even g = (g + g % 2) % 2 ^ 32

new_generation-even : (g : ℕ) → g < 2 ^ 32 → new_generation gen_even g ≡ next_even g
unfolding new_generation
new_generation-even g h = ground arith

-- `evl_repair_log` on a log with a corrupted block, when the message at its start is logged and the
-- file can be opened: a header, whole records, then bytes that `validateRec` refuses, then whole
-- records, the first of which `searchForNextGoodRecord` finds. With at least two rounds more than
-- there are records it succeeds. The block is gone, the records are as they were and in their order,
-- the header differs in its generation number alone, and that number is even afterwards: the old
-- one, or the next one, 0 behind 2 ^ 32 - 1.
pub evl_repair_log-Succeeds :
    (fuel : ℕ) (errno : Status) (header block : Bytes) (good rest : List Rec) (f : File)
    → length good + (length rest + 1) < fuel
    → f.contents ≡ header ++ (log_bytes good ++ (block ++ log_bytes rest))
    → IsHeader header
    → All IsLogged good
    → All IsLogged rest
    → 0 < length block
    → length f.contents < off_mod
    → Corrupted (40 + length (log_bytes good)) (length block) f
    → (g : File) × (evl_repair_log fuel success errno (some f) ≡ some (success, some g))
      × (g.contents
          ≡ with_generation (next_even (log_generation header)) header
            ++ (log_bytes good ++ log_bytes rest))
      × (log_generation g.contents ≡ next_even (log_generation header))
      × (log_generation g.contents % 2 ≡ 0)
unfolding evl_repair_log repair_opened repaired even_repaired is_success
evl_repair_log-Succeeds fuel errno header block good rest f enough whole v good_logged logged
      blocked small c =
    let r =
      repair_log-Repairs fuel header block good rest f enough whole v.size good_logged logged
        blocked small c in
    let renumbered =
      set_generation_number-Renumbered gen_even header (log_bytes good ++ log_bytes rest)
        r.final.file v r.contents_lem in
    let generation = log_generation header in
    let even = new_generation-even generation v.word in
    let whole' =
      renumbered.contents_lem
      ∙ ap (λ n. with_generation n header ++ (log_bytes good ++ log_bytes rest)) even in
    let number : log_generation renumbered.file.contents ≡ next_even generation =
      ap log_generation whole'
      ∙ log_generation-with_generation (next_even generation) header v
          (log_bytes good ++ log_bytes rest) (omega arith) in
    (renumbered.file, rw (r.outcome, renumbered.outcome), whole', number, omega (arith, number))
