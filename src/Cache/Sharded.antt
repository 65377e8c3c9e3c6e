-- ===== src/Cache/Sharded.antt =====
-- pkg/cache/sharded.go: the cache split into shards by a hash of the key. The hash (`maphash` under
-- the cache's seed) is a parameter, a function into `uint64`. `none` is a loop that does not end or
-- an index out of range.
pub mod Layout
use Prim.Native.Nat.{bit_and, bit_xor}
use breezeorm.Prelude.{
  ℕ, zero, suc, ◌+◌, ◌-◌, ◌*◌, ◌/◌, ◌%◌, ◌^◌, Bool, List, [], ◌∷◌, ◌++◌, Option, none, some, ltb,
  if◌then◌else◌, get_elem?, set_elem, replicate, length,
}
use breezeorm.Prelude.Int.{ℤ, pos, negsuc, ltb_ℤ, mul64, word_mod}
use breezeorm.Cache.Lru
use breezeorm.Cache.Lru.{Lru, new_lru}

abbrev pub default_shard_count : ℕ
default_shard_count = 32

-- the loop of `nextPow2`: `p <<= 1` doubles an `int`
unfoldable pub next_pow2_from : ℕ → ℤ → ℤ → Option ℤ
next_pow2_from zero p n = none
next_pow2_from (suc rounds) p n =
    let rest = next_pow2_from rounds (mul64 p (pos 2)) n in if ltb_ℤ p n then rest else some p

unfoldable pub next_pow2 : ℤ → Option ℤ
next_pow2 n = next_pow2_from 64 (pos 1) n

-- the loop of `prevPow2`
unfoldable pub prev_pow2_from : ℕ → ℤ → ℤ → Option ℤ
prev_pow2_from zero p n = none
prev_pow2_from (suc rounds) p n =
    let rest = prev_pow2_from rounds (mul64 p (pos 2)) n in
    if ltb_ℤ n (mul64 p (pos 2)) then some p else rest

unfoldable pub prev_pow2 : ℤ → Option ℤ
prev_pow2 n =
    let found = prev_pow2_from 64 (pos 1) n in if ltb_ℤ n (pos 1) then some (pos 1) else found

-- `len(s.shards)` is a positive `int`.
pub record Sharded {ℓ} (K V : Type ℓ) : Type ℓ where
  pub shards : List (Lru K V)
  pub mask : ℕ

-- `if numShards <= 0 { numShards = defaultShardCount }`, and the same for the capacity
abbrev pub or_default : ℕ → ℤ → ℤ
or_default d n = if ltb_ℤ (pos 0) n then n else pos d

-- the shard count that is left when there are more shards than entries
abbrev pub fit_shards : ℤ → Option ℤ → Option ℤ
fit_shards total none = none
fit_shards total (some n) = let fewer = prev_pow2 total in if ltb_ℤ total n then fewer else some n

abbrev pub nat_of : ℤ → ℕ
nat_of (pos n) = n
nat_of (negsuc n) = 0

-- The cache of `n` shards; `totalCapacity / numShards` is of positive numbers.
abbrev pub make_shards {ℓ} : {K V : Type ℓ} → ℕ → ℕ → Sharded K V
make_shards total n = record {
  shards = replicate n (new_lru (pos (if ltb 0 (total / n) then total / n else 1)));
  mask = n - 1;
}

unfoldable pub new_sharded {ℓ} : {K V : Type ℓ} → ℤ → ℤ → Option (Sharded K V)
new_sharded total_capacity num_shards =
    let total = or_default 1 total_capacity in
    elim (fit_shards total (next_pow2 (or_default default_shard_count num_shards))) [
      | none ↦ none
      | some n ↦ some (make_shards (nat_of total) (nat_of n))
    ]

module _ {ℓ} {K V : Type ℓ} (hash : K → ℕ) where
  -- the index of `shardFor`
  unfoldable pub shard_index : Sharded K V → K → ℕ
  shard_index s k = bit_and (hash k) s.mask

  -- A method that runs on the key's shard.
  unfoldable pub on_shard {κ} :
      {A : Type κ} → (Lru K V → A × Lru K V) → K → Sharded K V → Option (A × Sharded K V)
  unfolding shard_index
  on_shard f k s = elim (get_elem? s.shards (shard_index s k)) [
    | none ↦ none
    | some c ↦
        let (a, c') = f c in some (a, record s { shards = set_elem s.shards (shard_index s k) c' })
  ]

module _ {ℓ} {K V : Type ℓ} where
  unfoldable pub total_len : List (Lru K V) → ℕ
  total_len [] = 0
  total_len (c ∷ cs) = Lru.len c + total_len cs

  -- `Stats`, sums of `int64` bit patterns
  unfoldable pub total_stats : List (Lru K V) → ℕ × ℕ
  total_stats [] = (0, 0)
  total_stats (c ∷ cs) =
      let (h, m) = total_stats cs in ((c.hits + h) % word_mod, (c.misses + m) % word_mod)

  -- `Purge` of each shard, given the order of the loop over each one's map
  unfoldable pub purge_all :
      (Lru K V → List (K × ℕ)) → List (Lru K V) → List (Lru K V) × List (K × V)
  purge_all order [] = ([], [])
  purge_all order (c ∷ cs) =
      let (c', out) = Lru.purge (order c) c in
      let (cs', more) = purge_all order cs in (c' ∷ cs', out ++ more)

-- `Uint64Hash`, the finaliser of splitmix64 on `uint64`
abbrev mix : ℕ → ℕ
mix k = bit_xor k (k / 2 ^ 33)

unfoldable pub uint64_hash : ℕ → ℕ
uint64_hash k =
    let a = mix k * 0xff51afd7ed558ccd % word_mod in
    let b = mix a * 0xc4ceb9fe1a85ec53 % word_mod in mix b
