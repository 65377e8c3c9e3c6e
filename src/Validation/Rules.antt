-- ===== src/Validation/Rules.antt =====
-- What it means that a value breaks one rule of a tag, and that the code finds it.
use breezeorm.Prelude.{
  ◌≡◌, refl, sym, ap, ◌∙◌, Bool, true, false, [], ◌∷◌, Option, none, some, length, not, ◌⊎◌, inl,
  inr, arith,
}
use breezeorm.Prelude.Int.{ℤ, pos, ltb_ℤ}
use breezeorm.Text.{Bytes, lit}
use breezeorm.Validation.{
  Reading, invalid, other, int_value, uint_value, float_value, Tools, RuleError, is_required,
  bad_email, bad_url, bad_uuid, too_small, too_short, too_large, too_long, no_match, bad_regex,
  unknown_custom, custom_failed, zero_reading, float_reading, as_float, fail_if, check_min,
  check_max, check_regex, check_url, custom_answer, check_custom,
}

module _ {V F Regex E : Type 0} (tools : Tools V F Regex E) where
  -- A value that is nothing or the zero of its type.
  abbrev pub IsZero : V → Type 0
  IsZero v = (tools.reading v ≡ invalid) ⊎ (tools.is_zero_value v ≡ true)

  -- A value of a numeric kind, as a float64, and one of another kind.
  abbrev pub IsNumber : V → F → Type 0
  IsNumber v x =
      ((n : ℤ) × ((tools.reading v ≡ int_value n) ⊎ (tools.reading v ≡ uint_value n))
        × (tools.of_int n ≡ x))
      ⊎ (tools.reading v ≡ float_value x)

  abbrev pub IsText : V → Type 0
  IsText v = (tools.reading v ≡ invalid) ⊎ (tools.reading v ≡ other)

  -- A value breaks the rule of a key and its argument, with an error.
  pub data Breaks (v : V) (key arg : Bytes) (e : RuleError E) : Type 0 where
    missing : key ≡ lit "required" → IsZero v → e ≡ is_required → Breaks v key arg e
    small :
        (n x : F)
        → key ≡ lit "min"
        → tools.parse_float arg ≡ some n
        → IsNumber v x
        → tools.less x n ≡ true
        → e ≡ too_small arg
        → Breaks v key arg e
    short :
        (n : F)
        → key ≡ lit "min"
        → tools.parse_float arg ≡ some n
        → IsText v
        → ltb_ℤ (pos (length (tools.print v))) (tools.to_int n) ≡ true
        → e ≡ too_short arg
        → Breaks v key arg e
    large :
        (n x : F)
        → key ≡ lit "max"
        → tools.parse_float arg ≡ some n
        → IsNumber v x
        → tools.less n x ≡ true
        → e ≡ too_large arg
        → Breaks v key arg e
    long :
        (n : F)
        → key ≡ lit "max"
        → tools.parse_float arg ≡ some n
        → IsText v
        → ltb_ℤ (tools.to_int n) (pos (length (tools.print v))) ≡ true
        → e ≡ too_long arg
        → Breaks v key arg e
    no_pattern :
        key ≡ lit "regex" → tools.compile_regex arg ≡ none → e ≡ bad_regex arg → Breaks v key arg e
    unmatched :
        (re : Regex)
        → key ≡ lit "regex"
        → tools.compile_regex arg ≡ some re
        → tools.matches re (tools.print v) ≡ false
        → e ≡ no_match arg
        → Breaks v key arg e
    no_email :
        key ≡ lit "email"
        → tools.is_address (tools.print v) ≡ false
        → e ≡ bad_email
        → Breaks v key arg e
    no_url :
        key ≡ lit "url"
        → (tools.url_scheme (tools.print v) ≡ none) ⊎ (tools.url_scheme (tools.print v) ≡ some [])
        → e ≡ bad_url
        → Breaks v key arg e
    no_uuid :
        key ≡ lit "uuid" → tools.is_uuid (tools.print v) ≡ false → e ≡ bad_uuid → Breaks v key arg e
    unknown :
        key ≡ lit "custom" → tools.custom arg ≡ none → e ≡ unknown_custom arg → Breaks v key arg e
    refused :
        (fn : V → Option E) (x : E)
        → key ≡ lit "custom"
        → tools.custom arg ≡ some fn
        → fn v ≡ some x
        → e ≡ custom_failed x
        → Breaks v key arg e

  pub fail_if_lem :
      (b : Bool) (x e : RuleError E) → fail_if tools b x ≡ some e → (b ≡ true) × (e ≡ x)
  fail_if_lem true x e h = (refl, ground arith)
  fail_if_lem false x e h = absurd (cc)

  pub not_lem : (b : Bool) → not b ≡ true → b ≡ false
  not_lem true h = absurd (cc)
  not_lem false h = refl

  pub zero_lem :
      (v : V) (r : Reading F) → tools.reading v ≡ r → zero_reading tools v r ≡ true → IsZero v
  zero_lem v invalid e h = inl e
  zero_lem v other e h = inr h
  zero_lem v (int_value n) e h = inr h
  zero_lem v (uint_value n) e h = inr h
  zero_lem v (float_value x) e h = inr h

  -- A value is a number or a text, as `asFloat` tells.
  kind_of :
      (v : V) (r : Reading F)
      → tools.reading v ≡ r
      → ((as_float tools v ≡ none) × IsText v)
        ⊎ ((x : F) × (as_float tools v ≡ some x) × IsNumber v x)
  kind_of v invalid e = inl (ap (float_reading tools) e, inl e)
  kind_of v other e = inl (ap (float_reading tools) e, inr e)
  kind_of v (int_value n) e = inr (tools.of_int n, ap (float_reading tools) e, inl (n, inl e, refl))
  kind_of v (uint_value n) e =
      inr (tools.of_int n, ap (float_reading tools) e, inl (n, inr e, refl))
  kind_of v (float_value x) e = inr (x, ap (float_reading tools) e, inr e)

  pub IsNumber-as_float : (v : V) (x : F) → IsNumber v x → as_float tools v ≡ some x
  IsNumber-as_float v x (inl (n, inl e, s)) = ap (float_reading tools) e ∙ ap some s
  IsNumber-as_float v x (inl (n, inr e, s)) = ap (float_reading tools) e ∙ ap some s
  IsNumber-as_float v x (inr e) = ap (float_reading tools) e

  pub IsText-as_float : (v : V) → IsText v → as_float tools v ≡ none
  IsText-as_float v (inl e) = ap (float_reading tools) e
  IsText-as_float v (inr e) = ap (float_reading tools) e

  module _ (v : V) (key arg : Bytes) (e : RuleError E) where
    pub check_min-Breaks :
        key ≡ lit "min"
        → check_min tools v arg (tools.parse_float arg) (as_float tools v) ≡ some e
        → Breaks v key arg e
    check_min-Breaks k h = parsed (tools.parse_float arg) refl h
      where
        parsed :
            (o : Option F)
            → tools.parse_float arg ≡ o
            → check_min tools v arg o (as_float tools v) ≡ some e
            → Breaks v key arg e
        parsed none p h = absurd (cc)
        parsed (some n) p h = elim (kind_of v (tools.reading v) refl) [
          | inl (text, t) ↦
              let (b, s) =
                fail_if_lem _ (too_short arg) e
                  (ap (check_min tools v arg (some n)) (sym text) ∙ h) in
              short n k p t b s
          | inr (x, number, t) ↦
              let (b, s) =
                fail_if_lem _ (too_small arg) e
                  (ap (check_min tools v arg (some n)) (sym number) ∙ h) in
              small n x k p t b s
        ]

    pub check_max-Breaks :
        key ≡ lit "max"
        → check_max tools v arg (tools.parse_float arg) (as_float tools v) ≡ some e
        → Breaks v key arg e
    check_max-Breaks k h = parsed (tools.parse_float arg) refl h
      where
        parsed :
            (o : Option F)
            → tools.parse_float arg ≡ o
            → check_max tools v arg o (as_float tools v) ≡ some e
            → Breaks v key arg e
        parsed none p h = absurd (cc)
        parsed (some n) p h = elim (kind_of v (tools.reading v) refl) [
          | inl (text, t) ↦
              let (b, s) =
                fail_if_lem _ (too_long arg) e
                  (ap (check_max tools v arg (some n)) (sym text) ∙ h) in
              long n k p t b s
          | inr (x, number, t) ↦
              let (b, s) =
                fail_if_lem _ (too_large arg) e
                  (ap (check_max tools v arg (some n)) (sym number) ∙ h) in
              large n x k p t b s
        ]

    pub check_regex-Breaks :
        (o : Option Regex)
        → key ≡ lit "regex"
        → tools.compile_regex arg ≡ o
        → check_regex tools v arg o ≡ some e
        → Breaks v key arg e
    check_regex-Breaks none k c h = no_pattern k c (ground arith)
    check_regex-Breaks (some re) k c h =
        let (b, s) = fail_if_lem _ (no_match arg) e h in unmatched re k c (not_lem _ b) s

    pub check_url-Breaks :
        (o : Option Bytes)
        → key ≡ lit "url"
        → tools.url_scheme (tools.print v) ≡ o
        → check_url tools o ≡ some e
        → Breaks v key arg e
    check_url-Breaks none k c h = no_url k (inl c) (ground arith)
    check_url-Breaks (some []) k c h = no_url k (inr c) (ground arith)
    check_url-Breaks (some (x ∷ xs)) k c h = absurd (cc)

    custom_answer-Breaks :
        (fn : V → Option E) (o : Option E)
        → key ≡ lit "custom"
        → tools.custom arg ≡ some fn
        → fn v ≡ o
        → custom_answer tools o ≡ some e
        → Breaks v key arg e
    custom_answer-Breaks fn none k c f h = absurd (cc)
    custom_answer-Breaks fn (some x) k c f h = refused fn x k c f (ground arith)

    pub check_custom-Breaks :
        (o : Option (V → Option E))
        → key ≡ lit "custom"
        → tools.custom arg ≡ o
        → check_custom tools v arg o ≡ some e
        → Breaks v key arg e
    check_custom-Breaks none k c h = unknown k c (ground arith)
    check_custom-Breaks (some fn) k c h = custom_answer-Breaks fn (fn v) k c refl h
