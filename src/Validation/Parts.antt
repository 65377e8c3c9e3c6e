-- ===== src/Validation/Parts.antt =====
-- One part of a tag: the code answers with an error exactly if the value breaks the part's rule with it.
use breezeorm.Prelude.{
  ◌≡◌, ◌≢◌, refl, sym, ap, ◌∙◌, true, [], ◌∷◌, Option, none, some, Bool-cases, if◌then◌else◌,
  is_empty, not, ◌⊎◌, inl, inr, arith,
}
use breezeorm.Text.{Bytes, lit, bytes_eq, bytes_eq_lem, trim_space}
use breezeorm.Validation.{
  Reading, Tools, RuleError, is_required, bad_email, bad_uuid, cut, zero_reading, is_zero, as_float,
  fail_if, check_min, check_max, check_regex, check_url, custom_answer, check_custom, apply_rule,
  check_part,
}
use breezeorm.Validation.Rules.{
  IsZero, Breaks, missing, small, short, large, long, no_pattern, unmatched, no_email, no_url,
  no_uuid, unknown, refused, fail_if_lem, not_lem, zero_lem, IsNumber-as_float, IsText-as_float,
  check_min-Breaks, check_max-Breaks, check_regex-Breaks, check_url-Breaks, check_custom-Breaks,
}

module _ {V F Regex E : Type 0} (tools : Tools V F Regex E) where
  IsZero-zero_reading :
      (v : V) (r : Reading F) → tools.reading v ≡ r → IsZero tools v → zero_reading tools v r ≡ true
  IsZero-zero_reading v r e (inl nil) = ap (zero_reading tools v) (sym e ∙ nil)
  IsZero-zero_reading v Reading.invalid e (inr z) = refl
  IsZero-zero_reading v Reading.other e (inr z) = z
  IsZero-zero_reading v (Reading.int_value n) e (inr z) = z
  IsZero-zero_reading v (Reading.uint_value n) e (inr z) = z
  IsZero-zero_reading v (Reading.float_value x) e (inr z) = z

  module _ (v : V) (arg : Bytes) where
    -- What `applyRule` does under each key.
    opened_rules :
        (apply_rule tools v (lit "required") arg ≡ fail_if tools (is_zero tools v) is_required)
        × (apply_rule tools v (lit "min") arg
            ≡ check_min tools v arg (tools.parse_float arg) (as_float tools v))
        × (apply_rule tools v (lit "max") arg
            ≡ check_max tools v arg (tools.parse_float arg) (as_float tools v))
        × (apply_rule tools v (lit "regex") arg ≡ check_regex tools v arg (tools.compile_regex arg))
        × (apply_rule tools v (lit "email") arg
            ≡ fail_if tools (not (tools.is_address (tools.print v))) bad_email)
        × (apply_rule tools v (lit "url") arg ≡ check_url tools (tools.url_scheme (tools.print v)))
        × (apply_rule tools v (lit "uuid") arg
            ≡ fail_if tools (not (tools.is_uuid (tools.print v))) bad_uuid)
        × (apply_rule tools v (lit "custom") arg ≡ check_custom tools v arg (tools.custom arg))
    unfolding apply_rule lit bytes_eq
    opened_rules = (refl, refl, refl, refl, refl, refl, refl, refl)

    -- A key is one of the eight words, or no rule.
    keys :
        (key : Bytes) (e : RuleError E)
        → apply_rule tools v key arg ≡ some e
        → (key ≡ lit "required")
          ⊎ (key ≡ lit "min")
          ⊎ (key ≡ lit "max")
          ⊎ (key ≡ lit "regex")
          ⊎ (key ≡ lit "email")
          ⊎ (key ≡ lit "url")
          ⊎ (key ≡ lit "uuid")
          ⊎ (key ≡ lit "custom")
    unfolding apply_rule
    keys key e h = elim (Bool-cases (bytes_eq key (lit "required"))) [
      | inl k0 ↦ let same = bytes_eq_lem key (lit "required") k0 in inl same
      | inr k0 ↦ elim (Bool-cases (bytes_eq key (lit "min"))) [
        | inl k1 ↦ let same = bytes_eq_lem key (lit "min") k1 in inr (inl same)
        | inr k1 ↦ elim (Bool-cases (bytes_eq key (lit "max"))) [
          | inl k2 ↦ let same = bytes_eq_lem key (lit "max") k2 in inr (inr (inl same))
          | inr k2 ↦ elim (Bool-cases (bytes_eq key (lit "regex"))) [
            | inl k3 ↦ let same = bytes_eq_lem key (lit "regex") k3 in inr (inr (inr (inl same)))
            | inr k3 ↦ elim (Bool-cases (bytes_eq key (lit "email"))) [
              | inl k4 ↦
                  let same = bytes_eq_lem key (lit "email") k4 in inr (inr (inr (inr (inl same))))
              | inr k4 ↦ elim (Bool-cases (bytes_eq key (lit "url"))) [
                | inl k5 ↦
                    let same = bytes_eq_lem key (lit "url") k5 in
                    inr (inr (inr (inr (inr (inl same)))))
                | inr k5 ↦ elim (Bool-cases (bytes_eq key (lit "uuid"))) [
                  | inl k6 ↦
                      let same = bytes_eq_lem key (lit "uuid") k6 in
                      inr (inr (inr (inr (inr (inr (inl same))))))
                  | inr k6 ↦ elim (Bool-cases (bytes_eq key (lit "custom"))) [
                    | inl k7 ↦
                        let same = bytes_eq_lem key (lit "custom") k7 in
                        inr (inr (inr (inr (inr (inr (inr (same)))))))
                    | inr k7 ↦ absurd (ground arith)
                  ]
                ]
              ]
            ]
          ]
        ]
      ]
    ]

    -- What the function answers is what it answers under the word of the key.
    worded :
        (key word : Bytes) (e : RuleError E) (o : Option (RuleError E))
        → key ≡ word
        → apply_rule tools v word arg ≡ o
        → apply_rule tools v key arg ≡ some e
        → o ≡ some e
    worded key word e o k a h = sym a ∙ ap (λ q. apply_rule tools v q arg) (sym k) ∙ h

    apply_rule-Breaks :
        (key : Bytes) (e : RuleError E)
        → apply_rule tools v key arg ≡ some e
        → Breaks tools v key arg e
    apply_rule-Breaks key e h =
        let (required_, min_, max_, regex_, email_, url_, uuid_, custom_) = opened_rules in
        elim (keys key e h) [
          | inl k ↦
              let (z, s) = fail_if_lem tools _ is_required e (worded key _ e _ k required_ h) in
              missing k (zero_lem tools v (tools.reading v) refl z) s
          | inr (inl k) ↦ check_min-Breaks tools v key arg e k (worded key _ e _ k min_ h)
          | inr (inr (inl k)) ↦ check_max-Breaks tools v key arg e k (worded key _ e _ k max_ h)
          | inr (inr (inr (inl k))) ↦
              check_regex-Breaks tools v key arg e (tools.compile_regex arg) k refl
                (worded key _ e _ k regex_ h)
          | inr (inr (inr (inr (inl k)))) ↦
              let (b, s) = fail_if_lem tools _ bad_email e (worded key _ e _ k email_ h) in
              no_email k (not_lem tools _ b) s
          | inr (inr (inr (inr (inr (inl k))))) ↦
              check_url-Breaks tools v key arg e (tools.url_scheme (tools.print v)) k refl
                (worded key _ e _ k url_ h)
          | inr (inr (inr (inr (inr (inr (inl k)))))) ↦
              let (b, s) = fail_if_lem tools _ bad_uuid e (worded key _ e _ k uuid_ h) in
              no_uuid k (not_lem tools _ b) s
          | inr (inr (inr (inr (inr (inr (inr k)))))) ↦
              check_custom-Breaks tools v key arg e (tools.custom arg) k refl
                (worded key _ e _ k custom_ h)
        ]

    -- An error of the function under a key is the rule's.
    keyed :
        (key word : Bytes) (e x : RuleError E) (o : Option (RuleError E))
        → key ≡ word
        → apply_rule tools v word arg ≡ o
        → o ≡ some x
        → e ≡ x
        → apply_rule tools v key arg ≡ some e
    keyed key word e x o k a h s = ap (λ q. apply_rule tools v q arg) k ∙ a ∙ h ∙ ap some (sym s)

    Breaks-apply_rule :
        (key : Bytes) (e : RuleError E)
        → Breaks tools v key arg e
        → apply_rule tools v key arg ≡ some e
    Breaks-apply_rule key e b =
        let (required_, min_, max_, regex_, email_, url_, uuid_, custom_) = opened_rules in
        elim b [
          | missing k z s ↦
              keyed key _ e _ _ k required_
                (ap (λ t. fail_if tools t is_required)
                  (IsZero-zero_reading v (tools.reading v) refl z))
                s
          | small n x k p number less s ↦
              keyed key _ e _ _ k min_ (rw (p, IsNumber-as_float tools v x number, less) refl) s
          | short n k p text less s ↦
              keyed key _ e _ _ k min_ (rw (p, IsText-as_float tools v text, less) refl) s
          | large n x k p number less s ↦
              keyed key _ e _ _ k max_ (rw (p, IsNumber-as_float tools v x number, less) refl) s
          | long n k p text less s ↦
              keyed key _ e _ _ k max_ (rw (p, IsText-as_float tools v text, less) refl) s
          | no_pattern k c s ↦ keyed key _ e _ _ k regex_ (ap (check_regex tools v arg) c) s
          | unmatched re k c m s ↦ keyed key _ e _ _ k regex_ (rw (c, m) refl) s
          | no_email k a s ↦ keyed key _ e _ _ k email_ (rw a refl) s
          | no_url k (inl c) s ↦ keyed key _ e _ _ k url_ (ap (check_url tools) c) s
          | no_url k (inr c) s ↦ keyed key _ e _ _ k url_ (ap (check_url tools) c) s
          | no_uuid k a s ↦ keyed key _ e _ _ k uuid_ (rw a refl) s
          | unknown k c s ↦ keyed key _ e _ _ k custom_ (ap (check_custom tools v arg) c) s
          | refused fn x k c f s ↦
              keyed key _ e _ _ k custom_
                (ap (check_custom tools v arg) c ∙ ap (custom_answer tools) f) s
        ]

  -- A part of a tag that is not blank, with a rule that the value breaks.
  abbrev pub IsBroken : V → Bytes → RuleError E → Type 0
  IsBroken v part e =
      (trim_space part ≢ []) × Breaks tools v (cut (trim_space part)).0 (cut (trim_space part)).1 e

  unless_blank :
      (rule : Bytes) (o : Option (RuleError E)) (e : RuleError E)
      → (if is_empty rule then none else o) ≡ some e
      → (rule ≢ []) × (o ≡ some e)
  unless_blank [] o e h = absurd (cc)
  unless_blank (b ∷ bs) o e h = ((λ same. absurd (ground arith)), h)

  not_blank :
      (rule : Bytes) (o : Option (RuleError E)) (e : RuleError E)
      → rule ≢ []
      → o ≡ some e
      → (if is_empty rule then none else o) ≡ some e
  not_blank [] o e n h = absurd (n refl)
  not_blank (b ∷ bs) o e n h = h

  check_part-IsBroken :
      (v : V) (part : Bytes) (e : RuleError E)
      → check_part tools v part ≡ some e
      → IsBroken v part e
  unfolding check_part
  check_part-IsBroken v part e h =
      let rule = trim_space part in
      let (n, r) = unless_blank rule (apply_rule tools v (cut rule).0 (cut rule).1) e h in
      (n, apply_rule-Breaks v (cut rule).1 (cut rule).0 e r)

  IsBroken-check_part :
      (v : V) (part : Bytes) (e : RuleError E)
      → IsBroken v part e
      → check_part tools v part ≡ some e
  unfolding check_part
  IsBroken-check_part v part e (n, b) =
      let rule = trim_space part in
      not_blank rule (apply_rule tools v (cut rule).0 (cut rule).1) e n
        (Breaks-apply_rule v (cut rule).1 (cut rule).0 e b)

  -- The value breaks no rule of a part.
  abbrev pub IsKept : V → Bytes → Type 0
  IsKept v part = (e : RuleError E) → ¬ IsBroken v part e

  -- What `check_part` says of a part.
  pub check_part_lem :
      (v : V) (part : Bytes)
      → ((check_part tools v part ≡ none) × IsKept v part)
        ⊎ ((e : RuleError E) × (check_part tools v part ≡ some e) × IsBroken v part e)
  check_part_lem v part = said (check_part tools v part) refl
    where
      said :
          (o : Option (RuleError E))
          → check_part tools v part ≡ o
          → ((check_part tools v part ≡ none) × IsKept v part)
            ⊎ ((e : RuleError E) × (check_part tools v part ≡ some e) × IsBroken v part e)
      said none h = inl (
        h,
        λ e b. let lost : none ≡ some e = sym h ∙ IsBroken-check_part v part e b in absurd (cc),
      )
      said (some e) h = inr (e, h, check_part-IsBroken v part e h)
