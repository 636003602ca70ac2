-- ===== src/Log/Api.antt =====
-- user/lib/posix1.c: `posix_log_seek`, and `_evlEvaluateQuery` on the bytes of a record.
use evlog.Prelude.{Bool, true, false, if◌then◌else◌, Option, none, some, Text, c_text}
use evlog.Query.Tree.{Entry}
use evlog.Query.Evaluate.{EvalEnv}
use evlog.Query.Screen.{Template, evaluate_query}
use evlog.Query.Create.{Query, validate_query}
use evlog.Log.File.{Bytes, File, Status, success, einval, ebadf}
use evlog.Log.Layout.{entry_of}
use evlog.Log.Read.{evl_rewind, evl_seek_end}
use evlog.Log.Seek.{Selection, seek_fwd, seek_bkwd}
use evlog.Log.Descriptor.{LogDesc, validate_logdes}

-- The result of an evaluation. A failed assertion ends the program; the queries that
-- `posix_log_query_create` makes have none.
unfoldable pub truth_value : Option Bool → Bool
truth_value none = false
truth_value (some b) = b

-- `_evlEvaluateQuery`, with the memory from `buf` on and the template, if any, that is found for a
-- record. The query engine reads the data of a record as a C string: it goes on behind the data, to
-- the next terminator in the memory.
unfoldable pub evl_evaluate_query :
    EvalEnv → (Entry → Text → Option Template) → Query → Bytes → Bytes → Bool
unfolding truth_value
evl_evaluate_query env templates q entry buf =
    truth_value
      (evaluate_query env (entry_of entry) (c_text buf) (templates (entry_of entry) buf)
        q.qu_nonstd_atts q.qu_tree).truth

-- POSIX_LOG_SEEK_*, and any other number.
pub data Direction : Type 0 where
  seek_start seek_end seek_first seek_last seek_forward seek_backward other_direction : Direction

unfoldable pub query_is_valid : Option Query → Bool
query_is_valid none = true
query_is_valid (some q) = validate_query (some q)

unfoldable pub moved : LogDesc → Option (Status × File) → Option (Status × Option LogDesc)
moved d none = none
moved d (some (s, f)) = some (s, some (record d { ld_file = f }))

-- `memory` is what the memory holds where a search puts its buffer.
module _ (evaluate : Query → Bytes → Bytes → Bool) (memory : Bytes) where
  unfoldable pub selection : Option Query → Selection
  selection none = none
  selection (some q) = some (evaluate q)

  -- The switch on the direction. `_evlRewind` and `_evlSeekEnd` fail with a positive status, which
  -- the test `< 0` behind their calls lets pass.
  unfoldable pub seek_file : Option Query → Direction → File → Option (Status × File)
  unfolding selection
  seek_file none seek_start f = some (evl_rewind f)
  seek_file (some q) seek_start f = some (einval, f)
  seek_file none seek_end f = some (evl_seek_end f)
  seek_file (some q) seek_end f = some (einval, f)
  seek_file none seek_first f = some (success, (evl_rewind f).1)
  seek_file (some q) seek_first f = seek_fwd (some (evaluate q)) memory (evl_rewind f).1
  seek_file q seek_last f = seek_bkwd (selection q) memory (evl_seek_end f).1
  seek_file q seek_forward f = seek_fwd (selection q) memory f
  seek_file q seek_backward f = seek_bkwd (selection q) memory f
  seek_file q other_direction f = some (einval, f)

  unfoldable pub seek_valid :
      Option LogDesc → Option Query → Direction → Option (Status × Option LogDesc)
  seek_valid none q direction = some (ebadf, none)
  seek_valid (some d) q direction =
      if query_is_valid q then moved d (seek_file q direction d.ld_file) else some (einval, some d)

  -- `posix_log_seek`: its result, and the descriptor.
  unfoldable pub log_seek :
      Option LogDesc → Option Query → Direction → Option (Status × Option LogDesc)
  log_seek d q direction =
      if validate_logdes d true then seek_valid d q direction else some (ebadf, d)
