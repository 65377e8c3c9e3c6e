-- ===== src/Metadata/KeyPlaces.antt =====
-- Which columns a table lists as its keys.
use breezeorm.Prelude.{
  ℕ, zero, suc, ◌+◌, ◌≡◌, refl, subst, Bool, true, false, List, [], ◌∷◌, some, if◌then◌else◌, arith,
  Any, get_elem?, inl, inr, ◌≤◌,
}
use breezeorm.Metadata.{Column}
use breezeorm.Metadata.Compiled.{pk_indices}

-- A column marked as a key at a place.
abbrev pub IsKeyAt : List Column → ℕ → Type 0
IsKeyAt cs i = (c : Column) × (get_elem? cs i ≡ some c) × (c.is_pk ≡ true)

-- Strictly ascending, from a number on.
abbrev pub IsAscending : ℕ → List ℕ → Type 0
IsAscending k [] = Unit
IsAscending k (i ∷ is) = (k ≤ i) × IsAscending (suc i) is

IsAscending-weaken : (k : ℕ) (is : List ℕ) → IsAscending (suc k) is → IsAscending k is
IsAscending-weaken k [] h = tt
IsAscending-weaken k (i ∷ is) (le, rest) = (omega arith, rest)

pub pk_indices-IsAscending : (cs : List Column) (k : ℕ) → IsAscending k (pk_indices cs k)
unfolding pk_indices
pk_indices-IsAscending [] k = tt
pk_indices-IsAscending (c ∷ cs) k =
    step c.is_pk (pk_indices cs (suc k)) (pk_indices-IsAscending cs (suc k))
  where
    step :
        (b : Bool) (is : List ℕ) → IsAscending (suc k) is → IsAscending k (if b then k ∷ is else is)
    step true is h = (omega arith, h)
    step false is h = IsAscending-weaken k is h

pub pk_indices-Any :
    (cs : List Column) (k i : ℕ) → IsKeyAt cs i → Any (λ j. k + i ≡ j) (pk_indices cs k)
unfolding pk_indices
pk_indices-Any [] k i (c, at, key) = absurd (ground arith)
pk_indices-Any (d ∷ cs) k zero (c, at, key) =
    let here : d.is_pk ≡ true = ground arith in rw here (inl (omega arith))
pk_indices-Any (d ∷ cs) k (suc i) (c, at, key) = step d.is_pk (pk_indices cs (suc k)) (
    subst (λ n. Any (λ j. n ≡ j) (pk_indices cs (suc k))) (omega arith)
      (pk_indices-Any cs (suc k) i (c, at, key)))
  where
    step :
        (b : Bool) (is : List ℕ)
        → Any (λ j. k + suc i ≡ j) is
        → Any (λ j. k + suc i ≡ j) (if b then k ∷ is else is)
    step true is h = inr h
    step false is h = h

pub Any-pk_indices :
    (cs : List Column) (k j : ℕ)
    → Any (λ x. j ≡ x) (pk_indices cs k)
    → (i : ℕ) × (j ≡ k + i) × IsKeyAt cs i
unfolding pk_indices
Any-pk_indices [] k j h = absurd h
Any-pk_indices (d ∷ cs) k j h =
    step d.is_pk refl
      (λ later. let (i, e, key) = Any-pk_indices cs (suc k) j later in (suc i, omega arith, key)) h
  where
    step :
        (b : Bool)
        → d.is_pk ≡ b
        → (Any (λ x. j ≡ x) (pk_indices cs (suc k)) → (i : ℕ) × (j ≡ k + i) × IsKeyAt (d ∷ cs) i)
        → Any (λ x. j ≡ x) (if b then k ∷ pk_indices cs (suc k) else pk_indices cs (suc k))
        → (i : ℕ) × (j ≡ k + i) × IsKeyAt (d ∷ cs) i
    step true e after (inl h) = (0, omega arith, (d, refl, e))
    step true e after (inr h) = after h
    step false e after h = after h
