-- ===== src/Validation/Verdict.antt =====
-- When a struct is valid, and what is said of it otherwise.
use breezeorm.Prelude.{
  ◌≡◌, ◌≢◌, refl, sym, ap, ◌∙◌, subst, true, false, List, [], ◌∷◌, Option, none, some,
  if◌then◌else◌, is_empty, not, ◌||◌, All, arith, ◌⊎◌, inl, inr,
}
use breezeorm.Text.{Bytes, split}
use breezeorm.Validation.{
  Tools, RuleError, CheckedField, or_else, check_parts, validate_field, is_unchecked, add_error,
  field_errors, unless_empty, validate,
}
use breezeorm.Validation.Parts.{IsBroken, IsKept, check_part_lem}

module _ {V F Regex E : Type 0} (tools : Tools V F Regex E) where
  -- The error is that of the first part of a tag that is broken.
  abbrev pub IsFirst : V → List Bytes → RuleError E → Type 0
  IsFirst v [] e = ⊥
  IsFirst v (part ∷ rest) e = IsBroken tools v part e ⊎ (IsKept tools v part × IsFirst v rest e)

  -- A field is unexported, has no tag or breaks no part of its tag.
  abbrev pub Passes : CheckedField V → Type 0
  Passes f =
      (f.pkg_path ≢ []) ⊎ ((f.rules ≡ []) ⊎ All (IsKept tools f.content) (split b',' f.rules))

  -- An exported field with a tag breaks it first with an error.
  abbrev pub Fails : CheckedField V → RuleError E → Type 0
  Fails f e = (f.pkg_path ≡ []) × (f.rules ≢ []) × IsFirst f.content (split b',' f.rules) e

  -- The errors of the fields that fail, and no other, in the order of the fields.
  abbrev pub IsReport : List (CheckedField V) → List (Bytes × RuleError E) → Type 0
  IsReport [] es = es ≡ []
  IsReport (f ∷ fs) es =
      (Passes f × IsReport fs es)
      ⊎ ((e : RuleError E) × (rest : List (Bytes × RuleError E)) × (es ≡ (f.name, e) ∷ rest)
          × Fails f e
          × IsReport fs rest)

  check_parts_lem :
      (v : V) (parts : List Bytes)
      → ((check_parts tools v parts ≡ none) × All (IsKept tools v) parts)
        ⊎ ((e : RuleError E) × (check_parts tools v parts ≡ some e) × IsFirst v parts e)
  unfolding check_parts
  check_parts_lem v [] = inl (refl, tt)
  check_parts_lem v (part ∷ rest) = elim (check_part_lem tools v part) [
    | inr (e, now, broken) ↦
        inr (e, ap (λ o. or_else tools o (check_parts tools v rest)) now, inl broken)
    | inl (now, kept) ↦ elim (check_parts_lem v rest) [
      | inl (later, all) ↦
          inl (ap (λ o. or_else tools o (check_parts tools v rest)) now ∙ later, (kept, all))
      | inr (e, later, first) ↦
          inr
            (e, ap (λ o. or_else tools o (check_parts tools v rest)) now ∙ later, inr (kept, first))
    ]
  ]

  -- What a field does to the errors of the later ones.
  abbrev with_field : CheckedField V → List (Bytes × RuleError E) → List (Bytes × RuleError E)
  with_field f rest =
      if is_unchecked tools f then rest else add_error tools f.name (validate_field tools f) rest

  abbrev Verdict : CheckedField V → Type 0
  Verdict f =
      (Passes f × ((rest : List (Bytes × RuleError E)) → with_field f rest ≡ rest))
      ⊎ ((e : RuleError E) × Fails f e
          × ((rest : List (Bytes × RuleError E)) → with_field f rest ≡ (f.name, e) ∷ rest))

  empty_lem : (s : Bytes) → ((is_empty s ≡ true) × (s ≡ [])) ⊎ ((is_empty s ≡ false) × (s ≢ []))
  empty_lem [] = inl (refl, refl)
  empty_lem (b ∷ bs) = inr (refl, λ same. absurd (ground arith))

  unchecked :
      (f : CheckedField V) (rest : List (Bytes × RuleError E))
      → is_unchecked tools f ≡ true
      → with_field f rest ≡ rest
  unchecked f rest u =
      ap (λ b. if b then rest else add_error tools f.name (validate_field tools f) rest) u

  checked :
      (f : CheckedField V) (rest : List (Bytes × RuleError E)) (o : Option (RuleError E))
      → is_unchecked tools f ≡ false
      → check_parts tools f.content (split b',' f.rules) ≡ o
      → with_field f rest ≡ add_error tools f.name o rest
  unfolding validate_field
  checked f rest o u h =
      ap (λ b. if b then rest else add_error tools f.name (validate_field tools f) rest) u
      ∙ ap (λ a. add_error tools f.name a rest) h

  field_Verdict : (f : CheckedField V) → Verdict f
  field_Verdict f = elim (empty_lem f.pkg_path) [
    | inr (p, foreign) ↦
        let u : is_unchecked tools f ≡ true = ap (λ b. not b || is_empty f.rules) p in
        inl (inl foreign, λ rest. unchecked f rest u)
    | inl (p, exported) ↦ elim (empty_lem f.rules) [
      | inl (r, untagged) ↦
          let u : is_unchecked tools f ≡ true = ap (λ b. not b || is_empty f.rules) p ∙ r in
          inl (inr (inl untagged), λ rest. unchecked f rest u)
      | inr (r, tagged) ↦
          let u : is_unchecked tools f ≡ false = ap (λ b. not b || is_empty f.rules) p ∙ r in
          elim (check_parts_lem f.content (split b',' f.rules)) [
            | inl (h, kept) ↦ inl (inr (inr kept), λ rest. checked f rest none u h)
            | inr (e, h, first) ↦
                inr (e, (exported, tagged, first), λ rest. checked f rest (some e) u h)
          ]
    ]
  ]

  field_errors-IsReport : (fs : List (CheckedField V)) → IsReport fs (field_errors tools fs)
  unfolding field_errors
  field_errors-IsReport [] = refl
  field_errors-IsReport (f ∷ fs) =
      let later = field_errors-IsReport fs in
      elim (field_Verdict f) [
        | inl (passes, same) ↦
            inl (passes, subst (IsReport fs) (sym (same (field_errors tools fs))) later)
        | inr (e, fails, more) ↦
            inr (e, field_errors tools fs, more (field_errors tools fs), fails, later)
      ]

  IsFirst-IsKept :
      (v : V) (parts : List Bytes) (e : RuleError E)
      → IsFirst v parts e
      → ¬ All (IsKept tools v) parts
  IsFirst-IsKept v [] e h all = h
  IsFirst-IsKept v (part ∷ rest) e (inl broken) (kept, all) = kept e broken
  IsFirst-IsKept v (part ∷ rest) e (inr (k, first)) (kept, all) = IsFirst-IsKept v rest e first all

  Fails-Passes : (f : CheckedField V) (e : RuleError E) → Fails f e → ¬ Passes f
  Fails-Passes f e (exported, tagged, first) (inl foreign) = foreign exported
  Fails-Passes f e (exported, tagged, first) (inr (inl untagged)) = tagged untagged
  Fails-Passes f e (exported, tagged, first) (inr (inr kept)) =
      IsFirst-IsKept f.content (split b',' f.rules) e first kept

  -- A report is empty exactly if every field passes.
  IsReport-Passes :
      (fs : List (CheckedField V)) (es : List (Bytes × RuleError E))
      → IsReport fs es
      → ((es ≡ []) × All Passes fs) ⊎ ((unless_empty tools es ≡ some es) × ¬ All Passes fs)
  IsReport-Passes [] es h = inl (h, tt)
  IsReport-Passes (f ∷ fs) es (inl (passes, h)) = elim (IsReport-Passes fs es h) [
    | inl (nothing, all) ↦ inl (nothing, (passes, all))
    | inr (given, some_fails) ↦ inr (given, λ (p, all). some_fails all)
  ]
  IsReport-Passes (f ∷ fs) es (inr (e, rest, same, fails, h)) = inr (
    ap (unless_empty tools) same ∙ ap some (sym same),
    λ (passes, all). Fails-Passes f e fails passes,
  )

  -- Validate of a struct returns nil if each of its fields is unexported, has no tag or breaks no rule of
  -- its tag, and otherwise it returns the errors of the fields that break one, each with the error of the
  -- first rule of its tag that it breaks, in the order of the fields, and no other errors.
  pub validate-Passes :
      (fs : List (CheckedField V))
      → ((validate tools fs ≡ none) × All Passes fs)
        ⊎ ((es : List (Bytes × RuleError E)) × (validate tools fs ≡ some es)
            × IsReport fs es
            × ¬ All Passes fs)
  unfolding validate
  validate-Passes fs =
      let report = field_errors-IsReport fs in
      elim (IsReport-Passes fs (field_errors tools fs) report) [
        | inl (nothing, all) ↦ inl (ap (unless_empty tools) nothing, all)
        | inr (given, fails) ↦ inr (field_errors tools fs, given, report, fails)
      ]
