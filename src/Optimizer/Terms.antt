-- ===== src/Optimizer/Terms.antt =====
-- The order terms that `orderByOptimization` keeps: the first on each column.
use breezeorm.Prelude.{
  true, false, ◌≡◌, refl, sym, List, [], ◌∷◌, ◌⊎◌, inl, inr, arith, Any, Bool-cases, subst,
}
use breezeorm.Text.{Bytes, bytes_eq, bytes_eq_lem, bytes_eq_sides}
use breezeorm.Query.{OrderTerm}
use breezeorm.Optimizer.{has_key, dedupe_terms, distinct_terms}

-- What is left of some terms if each one on a column that was seen before it is dropped, and no other.
abbrev pub IsFirstOfEach : List Bytes → List OrderTerm → List OrderTerm → Type 0
IsFirstOfEach seen [] us = us ≡ []
IsFirstOfEach seen (t ∷ ts) us =
    (Any (λ c. t.column ≡ c) seen × IsFirstOfEach seen ts us)
    ⊎ (¬ Any (λ c. t.column ≡ c) seen
        × (rest : List OrderTerm) × (us ≡ t ∷ rest)
        × IsFirstOfEach (t.column ∷ seen) ts rest)

has_key-Any : (k : Bytes) (seen : List Bytes) → has_key k seen ≡ true → Any (λ c. k ≡ c) seen
unfolding has_key
has_key-Any k [] h = absurd (cc)
has_key-Any k (j ∷ js) h = elim (Bool-cases (bytes_eq k j)) [
  | inl e ↦ inl (bytes_eq_lem k j e)
  | inr e ↦ inr (has_key-Any k js (ground arith))
]

has_key-no-Any : (k : Bytes) (seen : List Bytes) → has_key k seen ≡ false → ¬ Any (λ c. k ≡ c) seen
unfolding has_key
has_key-no-Any k [] h a = a
has_key-no-Any k (j ∷ js) h (inl e) = bytes_eq_sides k j (ground arith) e
has_key-no-Any k (j ∷ js) h (inr a) = has_key-no-Any k js (ground arith) a

dedupe_terms-IsFirstOfEach :
    (seen : List Bytes) (ts : List OrderTerm) → IsFirstOfEach seen ts (dedupe_terms seen ts)
unfolding dedupe_terms
dedupe_terms-IsFirstOfEach seen [] = refl
dedupe_terms-IsFirstOfEach seen (t ∷ ts) = elim (Bool-cases (has_key t.column seen)) [
  | inl e ↦ rw e (inl (has_key-Any t.column seen e, dedupe_terms-IsFirstOfEach seen ts))
  | inr e ↦ rw e (
      inr (
        has_key-no-Any t.column seen e,
        dedupe_terms (t.column ∷ seen) ts,
        refl,
        dedupe_terms-IsFirstOfEach (t.column ∷ seen) ts,
      ))
]

pub distinct_terms-IsFirstOfEach : (ts : List OrderTerm) → IsFirstOfEach [] ts (distinct_terms ts)
unfolding distinct_terms
distinct_terms-IsFirstOfEach [] = refl
distinct_terms-IsFirstOfEach (t ∷ []) = inr (λ a. a, [], refl, refl)
distinct_terms-IsFirstOfEach (t ∷ u ∷ ts) =
    subst (IsFirstOfEach [] (t ∷ u ∷ ts)) (sym several) (dedupe_terms-IsFirstOfEach [] (t ∷ u ∷ ts))
  where
    several : distinct_terms (t ∷ u ∷ ts) ≡ dedupe_terms [] (t ∷ u ∷ ts)
    several = ground arith
