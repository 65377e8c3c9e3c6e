-- ===== src/Tests/Snapshots.antt =====
-- The copy-on-write cache on small numbers.
use native.Mathlib.Decide.{ℕ_discrete}
use breezeorm.Prelude.{ℕ, ◌≡◌, [], ◌∷◌, none, some, arith}
use breezeorm.Cache.Calls.{Outcome, value}
use breezeorm.Cache.CopyOnWrite.{Cache, get, set, delete, get_or_compute, compute_locked}
use breezeorm.Cache.CopyOnWrite.Lookups.{answered, kept, set-delete, get_or_compute-compute_locked}

abbrev ten : Cache ℕ ℕ
ten = record { snapshot = (1, 10) ∷ []; hits = 0; misses = 0 }

set-delete_example :
    ((get ℕ_discrete 1 (set ℕ_discrete 1 11 ten)).0 ≡ some 11)
    × ((get ℕ_discrete 2 (set ℕ_discrete 1 11 ten)).0 ≡ (get ℕ_discrete 2 ten).0)
    × ((get ℕ_discrete 1 (delete ℕ_discrete 1 ten)).0 ≡ none)
    × ((get ℕ_discrete 2 (delete ℕ_discrete 1 ten)).0 ≡ (get ℕ_discrete 2 ten).0)
    × ((i : ℕ) → (get ℕ_discrete i (get ℕ_discrete 1 ten).1).0 ≡ (get ℕ_discrete i ten).0)
set-delete_example = set-delete ℕ_discrete 1 2 11 ten (ground arith)

abbrev twenty : Outcome ℕ ℕ
twenty = value 20

get_or_compute-compute_locked_example :
    ((get_or_compute ℕ_discrete 2 twenty ten).1
      ≡ answered ℕ_discrete (get ℕ_discrete 2 ten).0 twenty)
    × ((get ℕ_discrete 2 (get_or_compute ℕ_discrete 2 twenty ten).0).0
        ≡ kept ℕ_discrete (get ℕ_discrete 2 ten).0 twenty)
    × ((get ℕ_discrete 1 (get_or_compute ℕ_discrete 2 twenty ten).0).0 ≡ (get ℕ_discrete 1 ten).0)
    × ((compute_locked ℕ_discrete 2 twenty ten).1
        ≡ answered ℕ_discrete (get ℕ_discrete 2 ten).0 twenty)
    × ((get ℕ_discrete 2 (compute_locked ℕ_discrete 2 twenty ten).0).0
        ≡ kept ℕ_discrete (get ℕ_discrete 2 ten).0 twenty)
    × ((get ℕ_discrete 1 (compute_locked ℕ_discrete 2 twenty ten).0).0 ≡ (get ℕ_discrete 1 ten).0)
get_or_compute-compute_locked_example =
    get_or_compute-compute_locked ℕ_discrete 2 1 twenty ten (ground arith)
