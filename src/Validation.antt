-- ===== src/Validation.antt =====
-- pkg/validation/validation.go: the rules of a field's tag. A value is a `V` and a float64 an `F`; what
-- reflection, fmt, strconv, regexp, net/mail and net/url say of them are the functions of `Tools`.
pub mod Rules
pub mod Parts
pub mod Verdict
use breezeorm.Prelude.{
  ℕ, Bool, true, false, not, ◌||◌, ◌&&◌, ◌==◌, List, [], ◌∷◌, length, Option, none, some,
  if◌then◌else◌, is_empty,
}
use breezeorm.Prelude.Int.{ℤ, pos, ltb_ℤ}
use breezeorm.Text.{Bytes, lit, bytes_eq, split, trim_space}

-- What `reflect.ValueOf` finds: nothing in a nil interface, a number by its kind, or anything else.
pub data Reading (F : Type 0) : Type 0 where
  invalid other : Reading F
  int_value uint_value : ℤ → Reading F
  float_value : F → Reading F

pub record Tools (V F Regex E : Type 0) : Type 0 where
  pub print : V → Bytes
  pub reading : V → Reading F
  pub is_zero_value : V → Bool
  pub of_int : ℤ → F
  pub parse_float : Bytes → Option F
  pub less : F → F → Bool
  pub to_int : F → ℤ
  pub compile_regex : Bytes → Option Regex
  pub matches : Regex → Bytes → Bool
  pub is_address : Bytes → Bool
  pub url_scheme : Bytes → Option Bytes
  pub is_uuid : Bytes → Bool
  pub custom : Bytes → Option (V → Option E)

pub data RuleError (E : Type 0) : Type 0 where
  is_required bad_email bad_url bad_uuid : RuleError E
  too_small too_short too_large too_long no_match bad_regex unknown_custom : Bytes → RuleError E
  custom_failed : E → RuleError E

-- A field of a struct, with its value and its `validate` tag.
pub record CheckedField (V : Type 0) : Type 0 where
  pub name : Bytes
  pub pkg_path : Bytes
  pub rules : Bytes
  pub content : V

-- `strings.Cut(rule, "=")`, the key and the argument
unfoldable pub cut : Bytes → Bytes × Bytes
cut [] = ([], [])
cut (b ∷ bs) = let (key, arg) = cut bs in if b == b'=' then ([], bs) else (b ∷ key, arg)

module _ {V F Regex E : Type 0} (tools : Tools V F Regex E) where
  abbrev pub zero_reading : V → Reading F → Bool
  zero_reading v invalid = true
  zero_reading v other = tools.is_zero_value v
  zero_reading v (int_value n) = tools.is_zero_value v
  zero_reading v (uint_value n) = tools.is_zero_value v
  zero_reading v (float_value x) = tools.is_zero_value v

  abbrev pub is_zero : V → Bool
  is_zero v = zero_reading v (tools.reading v)

  abbrev pub float_reading : Reading F → Option F
  float_reading invalid = none
  float_reading other = none
  float_reading (int_value n) = some (tools.of_int n)
  float_reading (uint_value n) = some (tools.of_int n)
  float_reading (float_value x) = some x

  abbrev pub as_float : V → Option F
  as_float v = float_reading (tools.reading v)

  abbrev pub fail_if : Bool → RuleError E → Option (RuleError E)
  fail_if true e = some e
  fail_if false e = none

  -- `min` and `max`: by the number, or else by the length of the text
  abbrev pub check_min : V → Bytes → Option F → Option F → Option (RuleError E)
  check_min v arg none fv = none
  check_min v arg (some n) (some fv) = fail_if (tools.less fv n) (too_small arg)
  check_min v arg (some n) none =
      fail_if (ltb_ℤ (pos (length (tools.print v))) (tools.to_int n)) (too_short arg)

  abbrev pub check_max : V → Bytes → Option F → Option F → Option (RuleError E)
  check_max v arg none fv = none
  check_max v arg (some n) (some fv) = fail_if (tools.less n fv) (too_large arg)
  check_max v arg (some n) none =
      fail_if (ltb_ℤ (tools.to_int n) (pos (length (tools.print v)))) (too_long arg)

  abbrev pub check_regex : V → Bytes → Option Regex → Option (RuleError E)
  check_regex v arg none = some (bad_regex arg)
  check_regex v arg (some re) = fail_if (not (tools.matches re (tools.print v))) (no_match arg)

  abbrev pub check_url : Option Bytes → Option (RuleError E)
  check_url none = some bad_url
  check_url (some scheme) = fail_if (is_empty scheme) bad_url

  abbrev pub custom_answer : Option E → Option (RuleError E)
  custom_answer none = none
  custom_answer (some e) = some (custom_failed e)

  abbrev pub check_custom : V → Bytes → Option (V → Option E) → Option (RuleError E)
  check_custom v arg none = some (unknown_custom arg)
  check_custom v arg (some fn) = custom_answer (fn v)

  unfoldable pub apply_rule : V → Bytes → Bytes → Option (RuleError E)
  unfolding lit bytes_eq
  apply_rule v rule arg =
      if bytes_eq rule (lit "required")
      then fail_if (is_zero v) is_required
      else if bytes_eq rule (lit "min")
      then check_min v arg (tools.parse_float arg) (as_float v)
      else if bytes_eq rule (lit "max")
      then check_max v arg (tools.parse_float arg) (as_float v)
      else if bytes_eq rule (lit "regex")
      then check_regex v arg (tools.compile_regex arg)
      else if bytes_eq rule (lit "email")
      then fail_if (not (tools.is_address (tools.print v))) bad_email
      else if bytes_eq rule (lit "url")
      then check_url (tools.url_scheme (tools.print v))
      else if bytes_eq rule (lit "uuid")
      then fail_if (not (tools.is_uuid (tools.print v))) bad_uuid
      else if bytes_eq rule (lit "custom")
      then check_custom v arg (tools.custom arg)
      else none

  -- one part of a tag; a blank one is no rule
  unfoldable pub check_part : V → Bytes → Option (RuleError E)
  unfolding trim_space cut apply_rule
  check_part v part =
      let rule = trim_space part in
      let (key, arg) = cut rule in if is_empty rule then none else apply_rule v key arg

  abbrev pub or_else : Option (RuleError E) → Option (RuleError E) → Option (RuleError E)
  or_else (some e) later = some e
  or_else none later = later

  -- the loop of `validateField`
  unfoldable pub check_parts : V → List Bytes → Option (RuleError E)
  unfolding check_part
  check_parts v [] = none
  check_parts v (part ∷ rest) = or_else (check_part v part) (check_parts v rest)

  unfoldable pub validate_field : CheckedField V → Option (RuleError E)
  unfolding check_parts split
  validate_field f = check_parts f.content (split b',' f.rules)

  -- unexported, or without a tag
  abbrev pub is_unchecked : CheckedField V → Bool
  is_unchecked f = not (is_empty f.pkg_path) || is_empty f.rules

  abbrev pub add_error :
      Bytes → Option (RuleError E) → List (Bytes × RuleError E) → List (Bytes × RuleError E)
  add_error name none rest = rest
  add_error name (some e) rest = (name, e) ∷ rest

  -- The errors of `Validate` by field; the names of a struct's fields differ.
  unfoldable pub field_errors : List (CheckedField V) → List (Bytes × RuleError E)
  unfolding validate_field
  field_errors [] = []
  field_errors (f ∷ fs) =
      let rest = field_errors fs in
      if is_unchecked f then rest else add_error f.name (validate_field f) rest

  abbrev pub unless_empty : List (Bytes × RuleError E) → Option (List (Bytes × RuleError E))
  unless_empty [] = none
  unless_empty (e ∷ es) = some (e ∷ es)

  -- `Validate` of a struct
  unfoldable pub validate : List (CheckedField V) → Option (List (Bytes × RuleError E))
  unfolding field_errors
  validate fs = unless_empty (field_errors fs)
