-- ===== src/Query/Normalize/Member.antt =====
-- user/lib/query/normalize.c: the functions for the other members of a record.
use evlog.Prelude.{ℕ, true, false, Option, none, some, [], ◌∷◌, Text, sign_extend}
use evlog.Query.Tree.{
  Op, bit_test, Attr, body, recid, size, format, event_type, facility, severity, uid, gid, pid,
  pgrp, time, flags, thread, processor, age, host, Pnode, name, val, string,
}
use evlog.Query.Normalize.Result.{
  Result, ok, err, ◌>>=◌, ◌>>◌, NormEnv, SemanticError, unsupported_operand_type, data_operand,
  no_message, unrecognized_facility, unknown_user, unknown_group,
}
use evlog.Query.Normalize.Names.{evl_severities, evl_formats, evl_mgmt_event_types, nv_flags}
use evlog.Query.Normalize.Operand.{
  standard_int_ops, standard_string_ops, uid_gid_ops, verify_op, verified, verified_integer,
  normalize_integer, normalize_regex, normalize_string_or_regex, change_name_node_to_int,
}
use evlog.Query.Normalize.Age.{normalize_att_age}
use evlog.Query.Normalize.Host.{normalize_att_host}

unfoldable pub normalize_att_recid : Op → Text → Pnode → Result Pnode
unfolding verified verified_integer
normalize_att_recid op att (string s) = verified op standard_string_ops att (string s)
normalize_att_recid op att node = verified_integer true 4 op standard_int_ops att node

unfoldable pub normalize_att_data : NormEnv → Op → Text → Pnode → Result Pnode
unfolding normalize_string_or_regex
normalize_att_data env op att (string s) = normalize_string_or_regex env op att s
normalize_att_data env op att _ = err data_operand

unfoldable pub normalize_att_size : Op → Text → Pnode → Result Pnode
unfolding verified_integer
normalize_att_size op att node = verified_integer true 8 op standard_int_ops att node

-- A code that was looked up, under `=` and `!=`.
unfoldable pub coded : Op → Text → SemanticError → Option ℕ → Result Pnode
unfolding verified
coded op att e none = err e
coded op att e (some code) = verified op uid_gid_ops att (val false code)

unfoldable pub facility_string : NormEnv → Op → Text → Text → Option Pnode → Result Pnode
unfolding coded
facility_string env op att s (some node) = ok node
facility_string env op att s none = coded op att (unrecognized_facility s) (env.facility_code s)

unfoldable pub normalize_att_facility : NormEnv → Op → Text → Pnode → Result Pnode
unfolding facility_string coded verified_integer normalize_regex
normalize_att_facility env op att (string s) = do
  r ← normalize_regex env op att s
  facility_string env op att s r
normalize_att_facility env op att (name s) =
    coded op att (unrecognized_facility s) (env.facility_code s)
normalize_att_facility env op att node = verified_integer true 4 op standard_int_ops att node

unfoldable pub normalize_att_severity : Op → Text → Pnode → Result Pnode
unfolding change_name_node_to_int verified
normalize_att_severity op att (name s) = do
  v ← change_name_node_to_int att s evl_severities
  verified op standard_int_ops att v
normalize_att_severity op att (string s) = verified op standard_string_ops att (string s)
normalize_att_severity op att _ = err (unsupported_operand_type att)

unfoldable pub normalize_att_format : Op → Text → Pnode → Result Pnode
unfolding change_name_node_to_int verified verified_integer
normalize_att_format op att (name s) = do
  v ← change_name_node_to_int att s evl_formats
  verified op standard_int_ops att v
normalize_att_format op att (string s) = verified op standard_string_ops att (string s)
normalize_att_format op att (val minus w) =
    verified_integer true 4 op standard_int_ops att (val minus w)
normalize_att_format op att _ = err no_message

-- A string stands for its CRC.
unfoldable pub normalize_att_event_type : NormEnv → Op → Text → Pnode → Result Pnode
unfolding change_name_node_to_int verified verified_integer
normalize_att_event_type env op att (name s) = do
  v ← change_name_node_to_int att s evl_mgmt_event_types
  verified op standard_int_ops att v
normalize_att_event_type env op att (string s) =
    verified op uid_gid_ops att (val true (sign_extend (env.gen_event_type s)))
normalize_att_event_type env op att (val minus w) =
    verified_integer false 4 op standard_int_ops att (val minus w)
normalize_att_event_type env op att _ = err no_message

unfoldable pub normalize_att_pid : Op → Text → Pnode → Result Pnode
unfolding verified_integer
normalize_att_pid op att node = verified_integer false 4 op standard_int_ops att node

unfoldable pub normalize_att_uid : NormEnv → Op → Text → Pnode → Result Pnode
unfolding verified_integer coded
normalize_att_uid env op att (val minus w) =
    verified_integer true 4 op standard_int_ops att (val minus w)
normalize_att_uid env op att (string s) = coded op att (unknown_user s) (env.getpwnam s)
normalize_att_uid env op att (name s) = coded op att (unknown_user s) (env.getpwnam s)
normalize_att_uid env op att _ = err (unsupported_operand_type att)

unfoldable pub normalize_att_gid : NormEnv → Op → Text → Pnode → Result Pnode
unfolding verified_integer coded
normalize_att_gid env op att (val minus w) =
    verified_integer true 4 op standard_int_ops att (val minus w)
normalize_att_gid env op att (string s) = coded op att (unknown_group s) (env.getgrnam s)
normalize_att_gid env op att (name s) = coded op att (unknown_group s) (env.getgrnam s)
normalize_att_gid env op att _ = err (unsupported_operand_type att)

unfoldable pub normalize_att_time : NormEnv → Op → Text → Pnode → Result Pnode
unfolding verified_integer normalize_string_or_regex
normalize_att_time env op att (val minus w) =
    verified_integer false 8 op standard_int_ops att (val minus w)
normalize_att_time env op att (string s) = normalize_string_or_regex env op att s
normalize_att_time env op att _ = err (unsupported_operand_type att)

unfoldable pub flags_operand : Text → Pnode → Result Pnode
unfolding normalize_integer change_name_node_to_int
flags_operand att (val minus w) = normalize_integer true 4 att (val minus w)
flags_operand att (name s) = change_name_node_to_int att s nv_flags
flags_operand att _ = err (unsupported_operand_type att)

unfoldable pub normalize_att_flags : Op → Text → Pnode → Result Pnode
unfolding verify_op flags_operand
normalize_att_flags op att node = do verify_op op (bit_test ∷ []) att; flags_operand att node

unfoldable pub normalize_att_thread : Op → Text → Pnode → Result Pnode
unfolding verified_integer verified
normalize_att_thread op att (val minus w) =
    verified_integer true 8 op standard_int_ops att (val minus w)
normalize_att_thread op att (string s) = verified op standard_string_ops att (string s)
normalize_att_thread op att _ = err (unsupported_operand_type att)

unfoldable pub normalize_att_processor : NormEnv → Op → Text → Pnode → Result Pnode
unfolding verified_integer normalize_string_or_regex
normalize_att_processor env op att (val minus w) =
    verified_integer false 4 op standard_int_ops att (val minus w)
normalize_att_processor env op att (string s) = normalize_string_or_regex env op att s
normalize_att_processor env op att _ = err (unsupported_operand_type att)

-- The switch of `normalizeComparison` on the member.
unfoldable pub normalize_member : NormEnv → Attr → Op → Text → Pnode → Result Pnode
normalize_member env body op att node = normalize_att_data env op att node
normalize_member env recid op att node = normalize_att_recid op att node
normalize_member env size op att node = normalize_att_size op att node
normalize_member env format op att node = normalize_att_format op att node
normalize_member env event_type op att node = normalize_att_event_type env op att node
normalize_member env facility op att node = normalize_att_facility env op att node
normalize_member env severity op att node = normalize_att_severity op att node
normalize_member env uid op att node = normalize_att_uid env op att node
normalize_member env gid op att node = normalize_att_gid env op att node
normalize_member env pid op att node = normalize_att_pid op att node
normalize_member env pgrp op att node = normalize_att_pid op att node
normalize_member env time op att node = normalize_att_time env op att node
normalize_member env flags op att node = normalize_att_flags op att node
normalize_member env thread op att node = normalize_att_thread op att node
normalize_member env processor op att node = normalize_att_processor env op att node
normalize_member env age op att node = normalize_att_age op att node
normalize_member env host op att node = normalize_att_host env op att node
