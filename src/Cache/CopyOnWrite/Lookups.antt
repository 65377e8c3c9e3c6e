-- ===== src/Cache/CopyOnWrite/Lookups.antt =====
-- What the copy-on-write cache answers after its operations.
use breezeorm.Prelude.{◌≡◌, ◌≢◌, refl, List, [], ◌∷◌, Option, none, some, arith}
use breezeorm.Cache.Calls.{Outcome, value, failed, panicked, Reply, returned, lead_reply}
use breezeorm.Cache.CopyOnWrite.{
  Cache, lookup, copy_without, copy_with, get, set, delete, counted, installed, compute_locked,
  get_or_compute,
}

module _ {ℓ} {K V : Type ℓ} (dec : Discrete K) where
  lookup-copy_without : (k : K) (m : List (K × V)) → lookup dec k (copy_without dec k m) ≡ none
  unfolding lookup copy_without
  lookup-copy_without k [] = refl
  lookup-copy_without k ((j, v) ∷ m) = ground (arith, lookup-copy_without k m)

  lookup-copy_without_other :
      (k : K) (m : List (K × V)) (j : K)
      → j ≢ k
      → lookup dec j (copy_without dec k m) ≡ lookup dec j m
  unfolding lookup copy_without
  lookup-copy_without_other k [] j h = refl
  lookup-copy_without_other k ((i, v) ∷ m) j h =
      ground (arith, lookup-copy_without_other k m j h, h)

  lookup-copy_with :
      (k : K) (v : V) (m : List (K × V)) → lookup dec k (copy_with dec k v m) ≡ some v
  unfolding lookup copy_with
  lookup-copy_with k v m = ground arith

  lookup-copy_with_other :
      (k : K) (v : V) (m : List (K × V)) (j : K)
      → j ≢ k
      → lookup dec j (copy_with dec k v m) ≡ lookup dec j m
  unfolding lookup copy_with
  lookup-copy_with_other k v m j h = ground (arith, lookup-copy_without_other k m j h, h)

  -- `Set` makes the cache answer a key with the value and `Delete` with nothing, and neither changes what
  -- it answers for another key; reading changes no answer.
  pub set-delete :
      (k j : K) (v : V) (c : Cache K V)
      → j ≢ k
      → ((get dec k (set dec k v c)).0 ≡ some v)
        × ((get dec j (set dec k v c)).0 ≡ (get dec j c).0)
        × ((get dec k (delete dec k c)).0 ≡ none)
        × ((get dec j (delete dec k c)).0 ≡ (get dec j c).0)
        × ((i : K) → (get dec i (get dec k c).1).0 ≡ (get dec i c).0)
  unfolding get set delete
  set-delete k j v c h = (
    lookup-copy_with k v c.snapshot,
    lookup-copy_with_other k v c.snapshot j h,
    deleted,
    other,
    λ i. counted_same i (lookup dec k c.snapshot),
  )
    where
      deleted : lookup dec k (delete dec k c).snapshot ≡ none
      deleted = ground (arith, lookup-copy_without k c.snapshot)

      other : lookup dec j (delete dec k c).snapshot ≡ lookup dec j c.snapshot
      other = ground (arith, lookup-copy_without_other k c.snapshot j h)

      counted_same :
          (i : K) (o : Option V) → lookup dec i (counted o c).snapshot ≡ lookup dec i c.snapshot
      counted_same i none = refl
      counted_same i (some w) = refl

  module _ {E : Type ℓ} where
    -- What a caller gets, and what the key then has, from what it had and what the computation gives.
    abbrev pub answered : Option V → Outcome V E → Reply V E
    answered (some v) o = returned (some v)
    answered none o = lead_reply o

    abbrev pub kept : Option V → Outcome V E → Option V
    kept (some v) o = some v
    kept none (value v) = some v
    kept none (failed e) = none
    kept none panicked = none

    lookup-installed :
        (k : K) (o : Outcome V E) (c : Cache K V)
        → lookup dec k c.snapshot ≡ none
        → lookup dec k (installed dec k o c).snapshot ≡ kept none o
    lookup-installed k (value v) c h = lookup-copy_with k v c.snapshot
    lookup-installed k (failed e) c h = h
    lookup-installed k panicked c h = h

    lookup-installed_other :
        (k : K) (o : Outcome V E) (c : Cache K V) (j : K)
        → j ≢ k
        → lookup dec j (installed dec k o c).snapshot ≡ lookup dec j c.snapshot
    lookup-installed_other k (value v) c j h = lookup-copy_with_other k v c.snapshot j h
    lookup-installed_other k (failed e) c j h = refl
    lookup-installed_other k panicked c j h = refl

    compute_locked_lem :
        (k j : K) (o : Outcome V E) (c : Cache K V)
        → j ≢ k
        → ((compute_locked dec k o c).1 ≡ answered (lookup dec k c.snapshot) o)
          × (lookup dec k (compute_locked dec k o c).0.snapshot ≡ kept (lookup dec k c.snapshot) o)
          × (lookup dec j (compute_locked dec k o c).0.snapshot ≡ lookup dec j c.snapshot)
    unfolding compute_locked
    compute_locked_lem k j o c h = (
      ground arith,
      ground (arith, lookup-installed k o c),
      ground (arith, lookup-installed_other k o c j h),
    )

    -- `GetOrCompute`, without another writer in between, and its part under the lock on whatever cache the
    -- lock finds: it gives its caller the value of the key, or else what the computation gives; a value
    -- that was computed is then the key's, an error or a panic leaves the key without one, and another
    -- key keeps its answer.
    pub get_or_compute-compute_locked :
        (k j : K) (o : Outcome V E) (c : Cache K V)
        → j ≢ k
        → ((get_or_compute dec k o c).1 ≡ answered (get dec k c).0 o)
          × ((get dec k (get_or_compute dec k o c).0).0 ≡ kept (get dec k c).0 o)
          × ((get dec j (get_or_compute dec k o c).0).0 ≡ (get dec j c).0)
          × ((compute_locked dec k o c).1 ≡ answered (get dec k c).0 o)
          × ((get dec k (compute_locked dec k o c).0).0 ≡ kept (get dec k c).0 o)
          × ((get dec j (compute_locked dec k o c).0).0 ≡ (get dec j c).0)
    unfolding get_or_compute get
    get_or_compute-compute_locked k j o c h =
        let (a, b, d) = compute_locked_lem k j o c h in
        let (a', b', d') = compute_locked_lem k j o (counted none c) h in
        (ground (arith, a'), ground (arith, b'), ground (arith, d'), a, b, d)
