-- ===== src/Query/Attribute.antt =====
-- What the query engine reads of a template's attributes (user/include/evl_template.h), and
-- `isNumericAtt` of user/lib/query/evaluate.c.
use evlog.Prelude.{ℕ, Bool, true, false, if◌then◌else◌, Option, none, some, List, Text, get_elem?}

-- `tmpl_base_type_t` of evl_template.h.
pub data BaseType : Type 0 where
  ty_none ty_char ty_uchar ty_short ty_ushort ty_int ty_uint ty_long ty_ulong : BaseType
  ty_longlong ty_ulonglong ty_float ty_double ty_ldouble ty_string ty_wchar ty_wstring : BaseType
  ty_address ty_struct ty_prefix3 ty_list ty_structname ty_typedef ty_special : BaseType

-- What the query engine reads of an `evlattribute_t`: its type, `isArray`, `attExists`, the
-- pattern of its value widened to 64 bits, and the text that `evlatt_getstring` writes (`none` if
-- that returns an error).
pub record Attribute : Type 0 where
  pub base_type : BaseType
  pub is_array : Bool
  pub att_exists : Bool
  pub value : ℕ
  pub att_string : Option Text

-- `tmplAtts`: NULL, or an array with a pointer, perhaps NULL, for each non-standard attribute.
abbrev pub TmplAtts : Type 0
TmplAtts = Option (List (Option Attribute))

-- Whether attributes of a type can be compared with numbers.
unfoldable pub is_numeric_type : BaseType → Bool
is_numeric_type ty_char = true
is_numeric_type ty_short = true
is_numeric_type ty_int = true
is_numeric_type ty_long = true
is_numeric_type ty_uchar = true
is_numeric_type ty_ushort = true
is_numeric_type ty_uint = true
is_numeric_type ty_ulong = true
is_numeric_type ty_longlong = true
is_numeric_type ty_ulonglong = true
is_numeric_type ty_float = true
is_numeric_type ty_double = true
is_numeric_type ty_ldouble = true
is_numeric_type ty_wchar = true
is_numeric_type _ = false

unfoldable pub is_numeric_att : Attribute → Bool
unfolding is_numeric_type
is_numeric_att att = if att.is_array then false else is_numeric_type att.base_type

-- `attExists` behind the test for NULL.
unfoldable pub existing : Option (Option Attribute) → Option Attribute
existing none = none
existing (some none) = none
existing (some (some att)) = if att.att_exists then some att else none

-- The attribute that an index of `tmplAtts` leads to, if it has a value.
unfoldable pub present_att : TmplAtts → ℕ → Option Attribute
unfolding existing
present_att none i = none
present_att (some atts) i = existing (get_elem? atts i)
