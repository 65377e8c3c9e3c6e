-- ===== src/Cache/Sharded/Layout.antt =====
-- The number and the size of the shards, and the shard that a key belongs to.
use Prim.Native.Nat.{min, digits, bit_and, bit_and-bitwise}
use native.Mathlib.Nat.{pow-suc, one-le-pow, le-div_iff_mul-le, mul-div-le}
use native.Mathlib.Decide.{dec_lt}
use breezeorm.Prelude.{
  ℕ, zero, suc, ◌+◌, ◌-◌, ◌*◌, ◌/◌, ◌^◌, ◌≤◌, ◌<◌, ◌≡◌, refl, sym, ap, ◌∙◌, some, ltb,
  if◌then◌else◌, arith, Bool-cases, inl, inr, get_elem?, set_elem, replicate, length,
  length-replicate, All, get_elem?-lt, length-set_elem, ◌⊎◌,
}
use breezeorm.Prelude.Int.{ℤ, pos, negsuc, mul64}
use breezeorm.Cache.Lru.{Lru, new_lru}
use breezeorm.Cache.Sharded.{
  next_pow2_from, next_pow2, prev_pow2_from, prev_pow2, Sharded, new_sharded, make_shards,
  fit_shards, or_default, default_shard_count, on_shard,
}

-- Doubling an `int` below 2^62 does not wrap.
double : (p : ℕ) → p < 2 ^ 62 → mul64 (pos p) (pos 2) ≡ pos (p * 2)
unfolding mul64
double p h = ground arith

exponent_room : (j : ℕ) → j ≤ 62 → 2 ^ j < 2 ^ 62 → suc j ≤ 62
exponent_room j b h = elim (dec_lt j 62) [
  | yes p ↦ p
  | no p ↦
      let e : j ≡ 62 = omega arith in
      let full : 2 ^ j ≡ 2 ^ 62 = ap (λ t. 2 ^ t) e in absurd (omega arith)
]

doubled : (j : ℕ) → 2 ^ j < 2 ^ 62 → mul64 (pos (2 ^ j)) (pos 2) ≡ pos (2 ^ suc j)
doubled j h = double (2 ^ j) h ∙ ap pos (sym (pow-suc 2 j))

next_pow2_from_lem :
    (rounds j n : ℕ)
    → 0 < n
    → n ≤ 2 ^ 62
    → j ≤ 62
    → 62 < j + rounds
    → 2 ^ j < 2 * n
    → (k : ℕ) × (next_pow2_from rounds (pos (2 ^ j)) (pos n) ≡ some (pos (2 ^ k)))
      × (n ≤ 2 ^ k)
      × (2 ^ k < 2 * n)
unfolding next_pow2_from
next_pow2_from_lem zero j n p h b r i = absurd (omega arith)
next_pow2_from_lem (suc rounds) j n p h b r i = elim (Bool-cases (ltb (2 ^ j) n)) [
  | inl e ↦
      let small : 2 ^ j < n = ground arith in
      let below : 2 ^ j < 2 ^ 62 = omega arith in
      let (k, found, up, down) =
        next_pow2_from_lem rounds (suc j) n p h (exponent_room j b below) (omega arith)
          (omega (arith, pow-suc 2 j)) in
      (k, ground (arith, doubled j below), up, down)
  | inr e ↦ (j, ground arith, ground arith, i)
]

prev_pow2_from_lem :
    (rounds j n : ℕ)
    → n < 2 ^ 62
    → j ≤ 62
    → 62 < j + rounds
    → 2 ^ j ≤ n
    → (k : ℕ) × (prev_pow2_from rounds (pos (2 ^ j)) (pos n) ≡ some (pos (2 ^ k)))
      × (2 ^ k ≤ n)
      × (n < 2 * 2 ^ k)
unfolding prev_pow2_from
prev_pow2_from_lem zero j n h b r i = absurd (omega arith)
prev_pow2_from_lem (suc rounds) j n h b r i =
    let below : 2 ^ j < 2 ^ 62 = omega arith in
    elim (Bool-cases (ltb n (2 ^ suc j))) [
      | inl e ↦ (j, ground (arith, doubled j below), i, ground (arith, pow-suc 2 j))
      | inr e ↦
          let (k, found, up, down) =
            prev_pow2_from_lem rounds (suc j) n h (exponent_room j b below) (omega arith)
              (ground arith) in
          (k, ground (arith, doubled j below), up, down)
    ]

next_pow2_lem :
    (n : ℕ)
    → 0 < n
    → n ≤ 2 ^ 62
    → (k : ℕ) × (next_pow2 (pos n) ≡ some (pos (2 ^ k))) × (n ≤ 2 ^ k) × (2 ^ k < 2 * n)
unfolding next_pow2
next_pow2_lem n p h = next_pow2_from_lem 64 0 n p h (omega arith) (omega arith) (omega arith)

prev_pow2_lem :
    (n : ℕ)
    → 0 < n
    → n < 2 ^ 62
    → (k : ℕ) × (prev_pow2 (pos n) ≡ some (pos (2 ^ k))) × (2 ^ k ≤ n) × (n < 2 * 2 ^ k)
unfolding prev_pow2
prev_pow2_lem n p h =
    let (k, found, up, down) =
      prev_pow2_from_lem 64 0 n h (omega arith) (omega arith) (omega arith) in
    (k, ground arith, up, down)

-- 2^k is the least power of two that is no less than the count, or, where that is above the
-- capacity, the greatest one that is not.
abbrev pub IsShardCount : ℕ → ℕ → ℕ → Type 0
IsShardCount total count k =
    (j : ℕ) × (count ≤ 2 ^ j)
    × (2 ^ j < 2 * count)
    × (((2 ^ j ≤ total) × (k ≡ j)) ⊎ ((total < 2 ^ j) × (2 ^ k ≤ total) × (total < 2 * 2 ^ k)))

-- The shard count is a power of two that is no larger than the capacity, for counts up to 2^62.
fit_shards_lem :
    (total n : ℕ)
    → 0 < total
    → total < 2 ^ 62
    → 0 < n
    → n ≤ 2 ^ 62
    → (k : ℕ) × (fit_shards (pos total) (next_pow2 (pos n)) ≡ some (pos (2 ^ k)))
      × IsShardCount total n k
      × (2 ^ k ≤ total)
fit_shards_lem total n t b p h =
    let (k, found, up, down) = next_pow2_lem n p h in
    elim (Bool-cases (ltb total (2 ^ k))) [
      | inl e ↦
          let (j, less, below, above) = prev_pow2_lem total t b in
          let over : total < 2 ^ k = ground arith in
          (j, rw found (ground arith), (k, up, down, inr (over, below, above)), below)
      | inr e ↦
          let fits : 2 ^ k ≤ total = ground arith in
          (k, rw found (ground arith), (k, up, down, inl (fits, refl)), fits)
    ]

replicate-All {ℓ κ} : {A : Type ℓ} (P : A → Type κ) (n : ℕ) (x : A) → P x → All P (replicate n x)
replicate-All P zero x h = tt
replicate-All P (suc n) x h = (h, replicate-All P n x h)

-- A sharded cache of so many shards, each of an equal share of the capacity `total`.
abbrev pub IsSplit {ℓ} : {K V : Type ℓ} → ℕ → ℕ → Sharded K V → Type ℓ
IsSplit total count s =
    (k : ℕ) × IsShardCount total count k
    × (length s.shards ≡ 2 ^ k)
    × (s.mask ≡ 2 ^ k - 1)
    × (0 < total / 2 ^ k)
    × (2 ^ k * (total / 2 ^ k) ≤ total)
    × All (λ c. c ≡ new_lru (pos (total / 2 ^ k))) s.shards

share-le : (n total : ℕ) → 0 < n → n ≤ total → (0 < total / n) × (n * (total / n) ≤ total)
share-le n total p h = ((le-div_iff_mul-le p).1 (omega arith), mul-div-le total n)

make_shards-IsSplit {ℓ} :
    (K V : Type ℓ) (k total count : ℕ)
    → IsShardCount total count k
    → 2 ^ k ≤ total
    → IsSplit total count (make_shards {K = K} {V = V} total (2 ^ k))
make_shards-IsSplit K V k total count chosen_count h =
    let (some_share, fits) = share-le (2 ^ k) total (one-le-pow k 2 (omega arith)) h in
    let share = total / 2 ^ k in
    let chosen : (if ltb 0 share then share else 1) ≡ share = ground arith in
    (
      k,
      chosen_count,
      length-replicate (2 ^ k) _,
      refl,
      some_share,
      fits,
      replicate-All (λ c. c ≡ new_lru (pos share)) (2 ^ k) _
          (ap (λ n. new_lru {K = K} {V = V} (pos n)) chosen),
    )

-- What is asked for, or a default where that is not positive.
abbrev pub wanted : ℕ → ℤ → ℕ
wanted d (pos zero) = d
wanted d (pos (suc n)) = suc n
wanted d (negsuc n) = d

or_default_lem : (d : ℕ) (n : ℤ) → 0 < d → (or_default d n ≡ pos (wanted d n)) × (0 < wanted d n)
or_default_lem d (pos zero) h = (refl, h)
or_default_lem d (pos (suc n)) h = ground arith
or_default_lem d (negsuc n) h = ground arith

-- Whatever capacity and shard count are asked for, below 2^62 and up to 2^62, with 1 and 32 in place of
-- one that is not positive, `NewShardedLRU` makes as many shards as the least power of two that is no
-- less than the count, or, where that is above the capacity, the greatest power of two that is not; the
-- mask is one less; every shard is new, of the capacity divided by their number, which is at least one
-- entry for each shard and no more than the capacity together.
pub new_sharded-IsSplit {ℓ} :
    (K V : Type ℓ) (total n : ℤ)
    → wanted 1 total < 2 ^ 62
    → wanted 32 n ≤ 2 ^ 62
    → (s : Sharded K V) × (new_sharded total n ≡ some s) × IsSplit (wanted 1 total) (wanted 32 n) s
unfolding new_sharded
new_sharded-IsSplit K V total n b h =
    let (t, t0) = or_default_lem 1 total (omega arith) in
    let (m, m0) = or_default_lem 32 n (omega arith) in
    let (k, found, count, fits) = fit_shards_lem (wanted 1 total) (wanted 32 n) t0 b m0 h in
    let chosen : fit_shards (or_default 1 total) (next_pow2 (or_default default_shard_count n))
        ≡ some (pos (2 ^ k)) =
      ap (λ u. fit_shards u (next_pow2 (or_default default_shard_count n))) t
      ∙ ap (λ u. fit_shards (pos (wanted 1 total)) (next_pow2 u)) m
      ∙ found in
    (
      make_shards (wanted 1 total) (2 ^ k),
      ground arith,
      make_shards-IsSplit K V k (wanted 1 total) (wanted 32 n) count fits,
    )

-- A mask bounds what it is put over.
and_digits-le : (fuel a b : ℕ) → digits (λ b. zero) min fuel a b ≤ b
and_digits-le zero a b = omega arith
and_digits-le (suc fuel) zero b = omega arith
and_digits-le (suc fuel) (suc a) b = omega (arith, and_digits-le fuel (suc a / 2) (b / 2))

bit_and-le : (a b : ℕ) → bit_and a b ≤ b
bit_and-le a b = omega (arith, bit_and-bitwise a b, and_digits-le a a b)

-- What an operation on a key's shard did: only the shard at one index changed.
abbrev pub ChangesOne {ℓ} :
    {K V : Type ℓ} {A : Type ℓ}
    → ℕ
    → (Lru K V → A × Lru K V)
    → Sharded K V
    → A
    → Sharded K V
    → Type ℓ
ChangesOne {K} {V} i f s a t =
    (c : Lru K V) × (get_elem? s.shards i ≡ some c)
    × (a ≡ (f c).0)
    × (t.shards ≡ set_elem s.shards i (f c).1)
    × (t.mask ≡ s.mask)
    × (length t.shards ≡ length s.shards)

-- On a cache with as many shards as its mask says, an operation always finds the shard of its key,
-- which depends on the hash alone, runs on it, and leaves every other shard, the number of shards
-- and the mask as they are.
pub on_shard-ChangesOne {ℓ} :
    {K V A : Type ℓ} (hash : K → ℕ) (f : Lru K V → A × Lru K V) (k : K) (s : Sharded K V)
    → length s.shards ≡ s.mask + 1
    → (a : A) × (t : Sharded K V) × (on_shard hash f k s ≡ some (a, t))
      × ChangesOne (bit_and (hash k) s.mask) f s a t
unfolding on_shard
on_shard-ChangesOne hash f k s h =
    let i = bit_and (hash k) s.mask in
    let (c, found) = get_elem?-lt s.shards i (omega (arith, bit_and-le (hash k) s.mask)) in
    (
      (f c).0,
      record s { shards = set_elem s.shards i (f c).1 },
      ground arith,
      (c, found, refl, refl, refl, length-set_elem s.shards i (f c).1),
    )
