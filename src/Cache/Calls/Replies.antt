-- ===== src/Cache/Calls/Replies.antt =====
-- What the callers that share a computation are told when it ends.
use mathlib.Core.List.{lookup}
use breezeorm.Prelude.{
  ℕ, zero, suc, ◌<◌, ◌≡◌, refl, ap, ◌∙◌, List, ◌∷◌, Option, none, some, take, arith,
}
use breezeorm.Cache.Lru.{Lru, find_item, peek, set}
use breezeorm.Cache.Lru.Moves.{find_item-delete_item}
use breezeorm.Cache.Lru.Refines.{IsValid, peek_lem}
use breezeorm.Cache.Lru.Writes.{set-Keeps}
use breezeorm.Cache.Calls.{
  Outcome, value, failed, panicked, World, Reply, returned, closed, update, wait_reply, lead_reply,
  complete,
}

module _ {ℓ} {V E : Type ℓ} where
  -- A waiting caller gets what the leading one gets, unless the computation panicked.
  abbrev pub shared : Outcome V E → Reply V E
  shared panicked = returned none
  shared o = lead_reply o

  -- What a key has once its computation ended, given what it had.
  abbrev pub installed : Outcome V E → Option V → Option V
  installed (value v) old = some v
  installed o old = old

module _ {ℓ} {K V : Type ℓ} (dec : Discrete K) where
  lookup-take :
      (n : ℕ) (k : K) (v : V) (l : List (K × V))
      → 0 < n
      → lookup dec k (take n ((k, v) ∷ l)) ≡ some v
  unfolding lookup
  lookup-take zero k v l h = absurd (omega arith)
  lookup-take (suc n) k v l h = ground arith

  peek-set : (c : Lru K V) (k : K) (v : V) → IsValid dec c → peek dec k (set dec k v c).0 ≡ some v
  peek-set c k v h =
      let (kept, out, same, valid) = set-Keeps dec c k v h in
      peek_lem dec (set dec k v c).0 k valid.0
      ∙ ap (lookup dec k) kept
      ∙ lookup-take c.capacity k v _ h.1

module _ {ℓ} {K V E : Type ℓ} (dec : Discrete K) where
  -- On a valid cache, when the computation that leads call `i` of a key ends: the callers that wait
  -- for the call get the leader's value or error, or no error and the zero value if it panicked; the
  -- key has no call under way any more; it reads as the value, or as before if there is none.
  pub complete-wait_reply :
      (k : K) (i : ℕ) (o : Outcome V E) (w : World K V E)
      → IsValid dec w.lru
      → (wait_reply ((complete dec k i o w).0.calls i) ≡ shared o)
        × (find_item dec k (complete dec k i o w).0.inflight ≡ none)
        × (peek dec k (complete dec k i o w).0.lru ≡ installed o (peek dec k w.lru))
  unfolding complete set wait_reply lead_reply closed update
  complete-wait_reply k i (value v) w h = (
    ground arith,
    ground (arith, find_item-delete_item dec k k w.inflight),
    peek-set dec w.lru k v h,
  )
  complete-wait_reply k i (failed e) w h =
      (ground arith, ground (arith, find_item-delete_item dec k k w.inflight), refl)
  complete-wait_reply k i panicked w h =
      (ground arith, ground (arith, find_item-delete_item dec k k w.inflight), refl)
