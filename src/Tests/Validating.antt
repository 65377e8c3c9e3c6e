-- ===== src/Tests/Validating.antt =====
-- Two fields with rules.
use breezeorm.Prelude.{ℕ, ◌≡◌, true, false, List, [], ◌∷◌, none, some, All, ltb, length, ◌==◌, ◌⊎◌}
use breezeorm.Prelude.Int.{pos, pos_part}
use breezeorm.Text.{Bytes, lit, itoa}
use breezeorm.Validation.{Tools, RuleError, int_value, CheckedField, validate}
use breezeorm.Validation.Verdict.{Passes, IsReport, validate-Passes}

abbrev tools : Tools ℕ ℕ ℕ ℕ
tools = record {
  print = itoa;
  reading = λ v. int_value (pos v);
  is_zero_value = λ v. v == 0;
  of_int = pos_part;
  parse_float = λ s. some (length s);
  less = ltb;
  to_int = pos;
  compile_regex = λ s. none;
  matches = λ re s. true;
  is_address = λ s. false;
  url_scheme = λ s. none;
  is_uuid = λ s. false;
  custom = λ s. none;
}

abbrev checked : List (CheckedField ℕ)
checked =
    record { name = lit "Age"; pkg_path = []; rules = lit "required, min=xx"; content = 1 }
    ∷ record { name = lit "Mail"; pkg_path = []; rules = lit "email"; content = 0 }
    ∷ []

validate-Passes_example :
    ((validate tools checked ≡ none) × All (Passes tools) checked)
    ⊎ ((es : List (Bytes × RuleError ℕ)) × (validate tools checked ≡ some es)
        × IsReport tools checked es
        × ¬ All (Passes tools) checked)
validate-Passes_example = validate-Passes tools checked
