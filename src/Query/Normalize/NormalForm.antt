-- ===== src/Query/Normalize/NormalForm.antt =====
-- user/lib/query/normalize.c: the right children that the functions for the members return, for
-- each member.
use evlog.Prelude.{
  ℕ, Bool, true, false, Option, none, some, [], ◌∷◌, Text, strchr, strtoul, Bool-cases, inl, inr,
  ◌≡◌,
}
use evlog.Query.Tree.{
  Op, contains, bit_test, op_eq, Attr, body, recid, size, format, event_type, facility, severity,
  uid, gid, pid, pgrp, time, flags, thread, processor, age, host, Pnode, name, val, string,
}
use evlog.Query.Normal.{IsOperand, AttOperand}
use evlog.Query.Normalize.Result.{
  Ensures, NormEnv, Ensures-bind, Ensures-after, SemanticError, unrecognized_facility, unknown_user,
  unknown_group,
}
use evlog.Query.Normalize.Names.{evl_severities, evl_formats, evl_mgmt_event_types, nv_flags}
use evlog.Query.Normalize.Operand.{
  standard_int_ops, standard_string_ops, uid_gid_ops, verify_op, normalize_regex, normalize_integer,
  is_regex_op,
}
use evlog.Query.Normalize.Host.{
  host_by_name, host_by_id, host_numbers, host_operand, host_regex, host_text, normalize_att_host,
}
use evlog.Query.Normalize.Member.{
  normalize_att_recid, normalize_att_data, normalize_att_size, coded, facility_string,
  normalize_att_facility, normalize_att_severity, normalize_att_format, normalize_att_event_type,
  normalize_att_pid, normalize_att_uid, normalize_att_gid, normalize_att_time, flags_operand,
  normalize_att_flags, normalize_att_thread, normalize_att_processor, normalize_member,
}
use evlog.Query.Normalize.Operands.{
  Fits, verified-Fits, integer-Fits, verified_integer-Fits, regex-Fits, FitsOption,
  normalize_string_or_regex-Fits, change_name-Fits, verified_name-Fits, normalize_att_age-Fits,
  normalize_att_age-IsValue, Fits-if,
}

-- A comparison of a host by `contains` with a bare name keeps the name.
abbrev pub KeepsName : Attr → Op → Pnode → Type 0
KeepsName host contains (name s) = Unit
KeepsName _ _ _ = ⊥

not_kept :
    (op : Op) (s : Text)
    → ¬ KeepsName host op (name s)
    → op_eq op contains ≡ true
    → IsOperand (name s)
unfolding op_eq
not_kept contains s k p = k tt
not_kept _ s k p = cc

coded-Fits : (op : Op) (att : Text) (e : SemanticError) (o : Option ℕ) → Fits (coded op att e o)
unfolding coded
coded-Fits op att e none = tt
coded-Fits op att e (some c) = verified-Fits op uid_gid_ops att (val false c) tt

facility_string-Fits :
    (env : NormEnv) (op : Op) (att s : Text) (r : Option Pnode)
    → FitsOption r
    → Fits (facility_string env op att s r)
unfolding facility_string
facility_string-Fits env op att s none h =
    coded-Fits op att (unrecognized_facility s) (env.facility_code s)
facility_string-Fits env op att s (some node) h = h

host_by_name-Fits : (o : Option ℕ) → Fits (host_by_name o)
unfolding host_by_name
host_by_name-Fits none = tt
host_by_name-Fits (some id) = tt

host_by_id-Fits : (op : Op) (att : Text) (u l : ℕ) → Fits (host_by_id op att u l)
unfolding host_by_id
host_by_id-Fits op att u l = search (Fits-if, verified-Fits, tt)

host_numbers-Fits :
    (env : NormEnv) (op : Op) (att s : Text) (x y : ℕ × Text × Bool)
    → Fits (host_numbers env op att s x y)
unfolding host_numbers
host_numbers-Fits env op att s (u, e₁, c₁) (l, e₂, c₂) =
    search (Fits-if, host_by_id-Fits, host_by_name-Fits)

host_operand-Fits :
    (env : NormEnv) (op : Op) (att s : Text) (o : Option Text) → Fits (host_operand env op att s o)
unfolding host_operand
host_operand-Fits env op att s none = host_by_name-Fits (env.get_node_id s)
host_operand-Fits env op att s (some t) = host_numbers-Fits env op att s (strtoul s) (strtoul t)

host_regex-Fits : (o : Option Pnode) → FitsOption o → Fits (host_regex o)
unfolding host_regex
host_regex-Fits none h = tt
host_regex-Fits (some node) h = h

host_text-Fits :
    (env : NormEnv) (op : Op) (att s : Text) (node : Pnode)
    → (op_eq op contains ≡ true → IsOperand node)
    → Fits (host_text env op att s node)
unfolding host_text
host_text-Fits env op att s node h = elim (Bool-cases (is_regex_op op)) [
  | inl p ↦ rw p (
      Ensures-bind FitsOption IsOperand (normalize_regex env op att s) host_regex
        (regex-Fits env op att s) host_regex-Fits)
  | inr p ↦ elim (Bool-cases (op_eq op contains)) [
    | inl q ↦ rw (p, q) (h q)
    | inr q ↦ rw (p, q) (host_operand-Fits env op att s (strchr s b'.'))
  ]
]

-- A host: the one operand that is neither converted nor refused is the name under `contains`.
normalize_att_host-Fits :
    (env : NormEnv) (op : Op) (att : Text) (node : Pnode)
    → ¬ KeepsName host op node
    → Fits (normalize_att_host env op att node)
unfolding normalize_att_host
normalize_att_host-Fits env op att (val minus w) k =
    Ensures-bind IsOperand IsOperand (normalize_integer true 8 att (val minus w)) _
      (integer-Fits true 8 att (val minus w)) (λ v h. search (Fits-if, verified-Fits, tt))
normalize_att_host-Fits env op att (string s) k = host_text-Fits env op att s (string s) (λ p. tt)
normalize_att_host-Fits env op att (name s) k =
    host_text-Fits env op att s (name s) (not_kept op s k)
normalize_att_host-Fits env op att _ k = tt

flags_operand-Fits : (att : Text) (node : Pnode) → Fits (flags_operand att node)
unfolding flags_operand
flags_operand-Fits att (val m w) = integer-Fits true 4 att (val m w)
flags_operand-Fits att (name s) = change_name-Fits att s nv_flags
flags_operand-Fits att _ = tt

flags-Fits : (op : Op) (att : Text) (node : Pnode) → Fits (normalize_att_flags op att node)
unfolding normalize_att_flags
flags-Fits op att node =
    Ensures-after IsOperand (verify_op op (bit_test ∷ []) att) (λ u. flags_operand att node)
      (λ u. flags_operand-Fits att node)

-- The switch on the members.
pub member-Fits :
    (env : NormEnv) (a : Attr) (op : Op) (att : Text) (node : Pnode)
    → ¬ KeepsName a op node
    → Fits (normalize_member env a op att node)
unfolding normalize_member normalize_att_recid normalize_att_data normalize_att_size
    normalize_att_facility normalize_att_severity normalize_att_format normalize_att_event_type
    normalize_att_pid normalize_att_uid normalize_att_gid normalize_att_time normalize_att_thread
    normalize_att_processor
member-Fits env host op att node k = normalize_att_host-Fits env op att node k
member-Fits env age op att node k = normalize_att_age-Fits op att node
member-Fits env body op att (string s) k = normalize_string_or_regex-Fits env op att s
member-Fits env body op att _ k = tt
member-Fits env recid op att (string s) k = verified-Fits op standard_string_ops att (string s) tt
member-Fits env recid op att node k = verified_integer-Fits true 4 op standard_int_ops att node
member-Fits env size op att node k = verified_integer-Fits true 8 op standard_int_ops att node
member-Fits env format op att (name s) k = verified_name-Fits op standard_int_ops att s evl_formats
member-Fits env format op att (string s) k = verified-Fits op standard_string_ops att (string s) tt
member-Fits env format op att (val m w) k =
    verified_integer-Fits true 4 op standard_int_ops att (val m w)
member-Fits env format op att _ k = tt
member-Fits env event_type op att (name s) k =
    verified_name-Fits op standard_int_ops att s evl_mgmt_event_types
member-Fits env event_type op att (string s) k = verified-Fits op uid_gid_ops att (val true _) tt
member-Fits env event_type op att (val m w) k =
    verified_integer-Fits false 4 op standard_int_ops att (val m w)
member-Fits env event_type op att _ k = tt
member-Fits env facility op att (string s) k =
    Ensures-bind FitsOption IsOperand (normalize_regex env op att s) (facility_string env op att s)
      (regex-Fits env op att s) (facility_string-Fits env op att s)
member-Fits env facility op att (name s) k =
    coded-Fits op att (unrecognized_facility s) (env.facility_code s)
member-Fits env facility op att node k = verified_integer-Fits true 4 op standard_int_ops att node
member-Fits env severity op att (name s) k =
    verified_name-Fits op standard_int_ops att s evl_severities
member-Fits env severity op att (string s) k =
    verified-Fits op standard_string_ops att (string s) tt
member-Fits env severity op att _ k = tt
member-Fits env uid op att (val m w) k =
    verified_integer-Fits true 4 op standard_int_ops att (val m w)
member-Fits env uid op att (string s) k = coded-Fits op att (unknown_user s) (env.getpwnam s)
member-Fits env uid op att (name s) k = coded-Fits op att (unknown_user s) (env.getpwnam s)
member-Fits env uid op att _ k = tt
member-Fits env gid op att (val m w) k =
    verified_integer-Fits true 4 op standard_int_ops att (val m w)
member-Fits env gid op att (string s) k = coded-Fits op att (unknown_group s) (env.getgrnam s)
member-Fits env gid op att (name s) k = coded-Fits op att (unknown_group s) (env.getgrnam s)
member-Fits env gid op att _ k = tt
member-Fits env pid op att node k = verified_integer-Fits false 4 op standard_int_ops att node
member-Fits env pgrp op att node k = verified_integer-Fits false 4 op standard_int_ops att node
member-Fits env time op att (val m w) k =
    verified_integer-Fits false 8 op standard_int_ops att (val m w)
member-Fits env time op att (string s) k = normalize_string_or_regex-Fits env op att s
member-Fits env time op att _ k = tt
member-Fits env flags op att node k = flags-Fits op att node
member-Fits env thread op att (val m w) k =
    verified_integer-Fits true 8 op standard_int_ops att (val m w)
member-Fits env thread op att (string s) k = verified-Fits op standard_string_ops att (string s) tt
member-Fits env thread op att _ k = tt
member-Fits env processor op att (val m w) k =
    verified_integer-Fits false 4 op standard_int_ops att (val m w)
member-Fits env processor op att (string s) k = normalize_string_or_regex-Fits env op att s
member-Fits env processor op att _ k = tt

-- The operand is one for its attribute.
pub member-AttOperand :
    (env : NormEnv) (a : Attr) (op : Op) (att : Text) (node : Pnode)
    → ¬ KeepsName a op node
    → Ensures (AttOperand a) (normalize_member env a op att node)
unfolding normalize_member
member-AttOperand env age op att node k = normalize_att_age-IsValue op att node
member-AttOperand env host op att node k = member-Fits env host op att node k
member-AttOperand env body op att node k = member-Fits env body op att node k
member-AttOperand env a op att node k = member-Fits env a op att node k
