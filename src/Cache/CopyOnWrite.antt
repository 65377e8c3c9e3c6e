-- ===== src/Cache/CopyOnWrite.antt =====
-- pkg/cache/cache.go: the cache whose readers take no lock. A snapshot is an association list, and a
-- writer puts a new one in its place; what a writer does under `writeMu` is one step. `hits` and `misses`
-- are `int64` bit patterns.
pub mod Lookups
use breezeorm.Prelude.{ℕ, ◌≡◌, List, [], ◌∷◌, Option, none, some, length}
use breezeorm.Cache.Lru.{bump}
use breezeorm.Cache.Calls.{Outcome, value, failed, panicked, Reply, returned, lead_reply}

pub record Cache {ℓ} (K V : Type ℓ) : Type ℓ where
  pub snapshot : List (K × V)
  pub hits : ℕ
  pub misses : ℕ

-- `New`
unfoldable pub new_cache {ℓ} : {K V : Type ℓ} → Cache K V
new_cache = record { snapshot = []; hits = 0; misses = 0 }

module _ {ℓ} {K V : Type ℓ} where
  abbrev pub counted : Option V → Cache K V → Cache K V
  counted none c = record c { misses = bump c.misses }
  counted (some v) c = record c { hits = bump c.hits }

  unfoldable pub size : Cache K V → ℕ
  size c = length c.snapshot

  abbrev pub stats : Cache K V → ℕ × ℕ
  stats c = (c.hits, c.misses)

module _ {ℓ} {K V : Type ℓ} (dec : Discrete K) where
  -- `m[key]`
  unfoldable pub lookup : K → List (K × V) → Option V
  lookup k [] = none
  lookup k ((j, v) ∷ m) = let rest = lookup k m in elim (dec k j) [ yes p ↦ some v | no p ↦ rest ]

  -- The copy of a map without a key.
  unfoldable pub copy_without : K → List (K × V) → List (K × V)
  copy_without k [] = []
  copy_without k ((j, v) ∷ m) =
      let rest = copy_without k m in elim (dec k j) [ yes p ↦ rest | no p ↦ (j, v) ∷ rest ]

  -- The copy of a map with a key set.
  unfoldable pub copy_with : K → V → List (K × V) → List (K × V)
  unfolding copy_without
  copy_with k v m = (k, v) ∷ copy_without k m

  unfoldable pub get : K → Cache K V → Option V × Cache K V
  unfolding lookup
  get k c = (lookup k c.snapshot, counted (lookup k c.snapshot) c)

  unfoldable pub set : K → V → Cache K V → Cache K V
  unfolding copy_with
  set k v c = record c { snapshot = copy_with k v c.snapshot }

  unfoldable pub delete : K → Cache K V → Cache K V
  unfolding lookup copy_without
  delete k c = elim (lookup k c.snapshot) [
    | none ↦ c
    | some v ↦ record c { snapshot = copy_without k c.snapshot }
  ]

  module _ {E : Type ℓ} where
    -- What the computation leaves: only a value is installed.
    abbrev pub installed : K → Outcome V E → Cache K V → Cache K V
    installed k (value v) c = record c { snapshot = copy_with k v c.snapshot }
    installed k (failed e) c = c
    installed k panicked c = c

    -- The part of `GetOrCompute` under the lock, which looks again; `o` is what `compute` would give.
    unfoldable pub compute_locked : K → Outcome V E → Cache K V → Cache K V × Reply V E
    unfolding lookup lead_reply copy_with
    compute_locked k o c = elim (lookup k c.snapshot) [
      | some v ↦ (c, returned (some v))
      | none ↦ (installed k o c, lead_reply o)
    ]

    -- `GetOrCompute` of one caller with no writer in between
    unfoldable pub get_or_compute : K → Outcome V E → Cache K V → Cache K V × Reply V E
    unfolding get compute_locked
    get_or_compute k o c =
        let (seen, c') = get k c in
        elim seen [ some v ↦ (c', returned (some v)) | none ↦ compute_locked k o c' ]
