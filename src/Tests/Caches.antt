-- ===== src/Tests/Caches.antt =====
-- The caches, on small numbers as keys and values.
use native.Mathlib.Decide.{ℕ_discrete}
use mathlib.Core.List.{lookup}
use Prim.Native.Nat.{bit_and}
use breezeorm.Prelude.{ℕ, ◌≡◌, refl, List, [], ◌∷◌, Option, none, some, arith}
use breezeorm.Prelude.Int.{pos, negsuc}
use breezeorm.Cache.Lru
use breezeorm.Cache.Lru.{Lru, new_lru, get, get_no_touch, set, delete, purge, find_item, peek}
use breezeorm.Cache.Lru.Views.{entries, remove_key}
use breezeorm.Cache.Lru.Refines.{IsValid, promote}
use breezeorm.Cache.Lru.Purges.{IsOnce, IsWalk}
use breezeorm.Cache.Lru.Operations.{get-get_no_touch, entry_of, delete-purge, new_lru-IsValid}
use breezeorm.Cache.Lru.Writes.{Keeps, set-Keeps}
use breezeorm.Cache.Calls.{World, panicked, enter, complete, wait_reply}
use breezeorm.Cache.Calls.SingleFlight.{
  here, next, enters, completes, start, IsFlying, Reach-IsFlying,
}
use breezeorm.Cache.Calls.Replies.{shared, installed, complete-wait_reply}
use breezeorm.Cache.Sharded.{Sharded, new_sharded, on_shard}
use breezeorm.Cache.Sharded.Layout.{
  IsSplit, wanted, new_sharded-IsSplit, ChangesOne, on_shard-ChangesOne,
}

abbrev no_entries : Lru ℕ ℕ
no_entries = new_lru (pos 2)

-- Keys 1 and 2, the latter more recent, in a cache of two.
abbrev full : Lru ℕ ℕ
full = (set ℕ_discrete 2 20 (set ℕ_discrete 1 10 no_entries).0).0

full-IsValid : IsValid ℕ_discrete full
full-IsValid =
    let one = set-Keeps ℕ_discrete no_entries 1 10 (new_lru-IsValid ℕ_discrete (pos 2)).0 in
    (set-Keeps ℕ_discrete (set ℕ_discrete 1 10 no_entries).0 2 20 one.3).3

opened_cache : Unit {0}
unfolding ℕ_discrete new_lru get set delete purge Lru.walked Lru.set_locked Lru.find_item
    Lru.put_item Lru.delete_item Lru.at_id Lru.remove_id Lru.move_to_front Lru.set_value Lru.back
    Lru.evict Lru.peek Lru.touch Lru.clamp_capacity enter complete
opened_cache = tt

-- The least recent entry goes.
set_evicts : (set ℕ_discrete 3 30 full).1 ≡ (1, 10) ∷ []
unfolding opened_cache
set_evicts = refl

-- A read saves it.
set_after_get : (set ℕ_discrete 3 30 (get ℕ_discrete 1 full).1).1 ≡ (2, 20) ∷ []
unfolding opened_cache
set_after_get = refl

set-Keeps_example :
    Keeps ℕ_discrete full
      ((3, 30) ∷ remove_key ℕ_discrete 3 (entries full.ll))
      (set ℕ_discrete 3 30 full)
set-Keeps_example = set-Keeps ℕ_discrete full 3 30 full-IsValid

get-get_no_touch_example :
    ((get ℕ_discrete 1 full).0 ≡ lookup ℕ_discrete 1 (entries full.ll))
    × (entries (get ℕ_discrete 1 full).1.ll ≡ promote ℕ_discrete 1 (entries full.ll))
    × IsValid ℕ_discrete (get ℕ_discrete 1 full).1
    × ((get_no_touch ℕ_discrete 1 full).0 ≡ lookup ℕ_discrete 1 (entries full.ll))
    × (entries (get_no_touch ℕ_discrete 1 full).1.ll ≡ entries full.ll)
    × IsValid ℕ_discrete (get_no_touch ℕ_discrete 1 full).1
get-get_no_touch_example = get-get_no_touch ℕ_discrete full 1 full-IsValid

abbrev oldest_first : List (ℕ × ℕ)
oldest_first = (1, 0) ∷ (2, 1) ∷ []

oldest_first-IsWalk : IsWalk ℕ_discrete full.items oldest_first
unfolding opened_cache lookup
oldest_first-IsWalk = ((refl, (refl, tt)), λ k. ground arith)

delete-purge_example :
    (entries (delete ℕ_discrete 1 full).0.ll ≡ remove_key ℕ_discrete 1 (entries full.ll))
    × ((delete ℕ_discrete 1 full).1 ≡ entry_of ℕ_discrete 1 (lookup ℕ_discrete 1 (entries full.ll)))
    × IsValid ℕ_discrete (delete ℕ_discrete 1 full).0
    × (entries (purge oldest_first full).0.ll ≡ [])
    × ((purge oldest_first full).0.items ≡ [])
    × IsOnce ℕ_discrete (purge oldest_first full).1
    × ((j : ℕ)
        → lookup ℕ_discrete j (purge oldest_first full).1 ≡ lookup ℕ_discrete j (entries full.ll))
    × IsValid ℕ_discrete (purge oldest_first full).0
delete-purge_example = delete-purge ℕ_discrete full 1 oldest_first full-IsValid oldest_first-IsWalk

-- Two callers miss the same key; the first leads, and its computation panics.
abbrev idle : World ℕ ℕ ℕ
idle = start ℕ_discrete (pos 2)

abbrev led : World ℕ ℕ ℕ
led = (enter ℕ_discrete 7 idle).0

abbrev joined : World ℕ ℕ ℕ
joined = (enter ℕ_discrete 7 led).0

abbrev ended : World ℕ ℕ ℕ
ended = (complete ℕ_discrete 7 0 panicked joined).0

leads : find_item ℕ_discrete 7 joined.leaders ≡ some 0
unfolding opened_cache start
leads = refl

Reach-IsFlying_example : IsFlying ℕ_discrete ended
Reach-IsFlying_example =
    Reach-IsFlying ℕ_discrete (pos 2)
      (next (next (next here (enters 7 idle)) (enters 7 led)) (completes 7 0 panicked joined leads))

complete-wait_reply_example :
    (wait_reply ((complete ℕ_discrete 7 0 panicked joined).0.calls 0) ≡ shared panicked)
    × (find_item ℕ_discrete 7 (complete ℕ_discrete 7 0 panicked joined).0.inflight ≡ none)
    × (peek ℕ_discrete 7 (complete ℕ_discrete 7 0 panicked joined).0.lru
        ≡ installed {E = ℕ} panicked (peek ℕ_discrete 7 joined.lru))
complete-wait_reply_example =
    complete-wait_reply ℕ_discrete 7 0 panicked joined
      (Reach-IsFlying ℕ_discrete (pos 2) (next (next here (enters 7 idle)) (enters 7 led))).valid

new_sharded-IsSplit_example :
    (s : Sharded ℕ ℕ) × (new_sharded (pos 100) (negsuc 0) ≡ some s)
    × IsSplit (wanted 1 (pos 100)) (wanted 32 (negsuc 0)) s
new_sharded-IsSplit_example =
    new_sharded-IsSplit ℕ ℕ (pos 100) (negsuc 0) (omega arith) (omega arith)

abbrev pair_of_shards : Sharded ℕ ℕ
pair_of_shards = record { shards = full ∷ no_entries ∷ []; mask = 1 }

on_shard-ChangesOne_example :
    (a : Option ℕ) × (t : Sharded ℕ ℕ) × (on_shard (λ k. k) (get ℕ_discrete 2) 2 pair_of_shards
      ≡ some (a, t))
    × ChangesOne (bit_and 2 1) (get ℕ_discrete 2) pair_of_shards a t
on_shard-ChangesOne_example = on_shard-ChangesOne (λ k. k) (get ℕ_discrete 2) 2 pair_of_shards refl
