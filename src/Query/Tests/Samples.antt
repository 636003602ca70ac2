-- ===== src/Query/Tests/Samples.antt =====
-- A record, a template and the query `pid > 10 && speed = 42`, through the stages of user/lib/query.
use mathlib.Core.Option.{some-injective}
use mathlib.Core.Path.{subst}
use evlog.Prelude.{
  ℕ, zero, suc, true, false, none, some, [], ◌∷◌, Text, text_eq, codes, if◌then◌else◌, inr, ◌≡◌,
  refl,
}
use evlog.Query.Tree.{
  eq, gt, conj, conj_later, Pnode, null, name, attname, nsaname, val, op_node, pid, fuzzy_maybe,
  fuzzy_false, NonStdAtt, NonStdAtts, Entry,
}
use evlog.Query.Compare.{equal}
use evlog.Query.Attribute.{Attribute, TmplAtts, ty_int, present_att, existing}
use evlog.Query.Evaluate.{EvalEnv}
use evlog.Query.Normal.{HasTexts}
use evlog.Query.Screen.{Template}
use evlog.Query.Normalize.Result.{NormEnv}
use evlog.Query.Normalize.Analysis.{State}
use evlog.Query.Create.{Query, ParseEnv}

abbrev pub eval_env : EvalEnv
eval_env = record {
  regexec = text_eq;
  now = 1000;
  double_order = λ a b. equal;
  long_double_order = λ a b. equal;
  host_name = λ n. codes "node";
  memtostr = λ a e. some (codes "text");
}

abbrev pub norm_env : NormEnv
norm_env = record {
  regcomp = λ s. true;
  getpwnam = λ s. none;
  getgrnam = λ s. none;
  get_node_id = λ s. none;
  facility_code = λ s. some 8;
  gen_event_type = λ s. 0;
}

abbrev pub entry : Entry
entry = record {
  log_recid = 1;
  log_size = 4;
  log_format = 1;
  log_event_type = 7;
  log_facility = 8;
  log_severity = 3;
  log_uid = 0;
  log_gid = 0;
  log_pid = 20;
  log_pgrp = 20;
  log_time = 900;
  log_flags = 0;
  log_thread = 0;
  log_processor = 1;
}

abbrev pub speed : Attribute
speed = record {
  base_type = ty_int;
  is_array = false;
  att_exists = true;
  value = 42;
  att_string = some (codes "42");
}

abbrev pub template : Template
template = record {
  clone_att = λ n. if text_eq n (codes "speed") then some speed else none;
  master_att = λ n. none;
  populated_att = λ n. if text_eq n (codes "speed") then some speed else none;
}

-- The template of another event.
abbrev pub other_template : Template
other_template = record { clone_att = λ n. none; master_att = λ n. none; populated_att = λ n. none }

abbrev pub parsed : Pnode
parsed =
    op_node conj (op_node eq (name (codes "speed")) (val false 42))
      (op_node gt (name (codes "pid")) (val false 10))

abbrev pub on_speed : Pnode
on_speed = op_node eq (nsaname 0 (codes "speed")) (val false 42)

abbrev pub on_pid : Pnode
on_pid = op_node gt (attname pid (codes "pid")) (val false 10)

abbrev pub normalized : Pnode
normalized = op_node conj on_speed on_pid

abbrev pub divided : Pnode
divided = op_node conj_later on_pid on_speed

abbrev pub speed_att : NonStdAtt
speed_att = record {
  nsa_name = codes "speed";
  result_if_missing = fuzzy_maybe;
  is_numeric = true;
  is_strref = false;
  nsa_att = 0;
}

abbrev pub speed_atts : NonStdAtts
speed_atts = record { ns_atts = speed_att ∷ []; result_if_all_missing = fuzzy_maybe }

-- The list once it is annotated.
abbrev pub annotated : NonStdAtts
annotated = record {
  ns_atts = record speed_att { result_if_missing = fuzzy_false } ∷ [];
  result_if_all_missing = fuzzy_false;
}

abbrev pub start : State
start = record { template_flag = true; restricted_flag = false; nonstd = none }

abbrev pub analysed : State
analysed = record { template_flag = true; restricted_flag = false; nonstd = some speed_atts }

abbrev pub sample_atts : TmplAtts
sample_atts = some (some speed ∷ [])

speed_text :
    (i : ℕ) (att : Attribute)
    → present_att sample_atts i ≡ some att
    → (s : Text) × (att.att_string ≡ some s)
unfolding present_att existing
speed_text zero att p = (
  codes "42",
  subst (λ (b : Attribute). b.att_string ≡ some (codes "42")) (some-injective speed att p) refl,
)
speed_text (suc i) att p = cc

pub sample_texts : HasTexts eval_env sample_atts entry
sample_texts = record { member_text = λ a h. (codes "text", refl); att_text = speed_text }

abbrev pub parser : ParseEnv
parser = record { qqparse = λ s. inr parsed; error_text = λ e. codes "error" }

abbrev pub query_text : Text
query_text = codes "speed = 42 && pid > 10"

abbrev pub blank_query : Query
blank_query = record { qu_tree = null; qu_nonstd_atts = none; qu_expr = none; qu_purpose = 0 }
