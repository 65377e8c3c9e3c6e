-- ===== src/Cache/Lru/Operations.antt =====
-- The methods that read, delete and purge, on the entries by recency: what each returns, what it
-- leaves, what it hands to `onEvict`, and that the invariant stays.
use mathlib.Core.List.{lookup}
use breezeorm.Prelude.{
  ℕ, zero, suc, ◌≡◌, refl, sym, ap, ◌∙◌, List, [], ◌∷◌, Option, none, some, arith, inl, inr,
}
use breezeorm.Prelude.Int.{ℤ, pos, negsuc}
use breezeorm.Cache.Lru.{
  Element, Lru, at_id, remove_id, find_item, delete_item, peek, touch, get, get_no_touch, delete,
  count_read, purge, new_lru,
}
use breezeorm.Cache.Lru.Views.{
  entries, value_of, find_key, remove_key, at_id-find_key, entries-remove_id, lookup-entries,
}
use breezeorm.Cache.Lru.Purges.{IsOnce, IsWalk, walked-IsOnce}
use breezeorm.Cache.Lru.Moves.{length-remove_id}
use breezeorm.Cache.Lru.Refines.{
  IsValid, peek_lem, promote, entries-touch, touch-IsValid, without-IsLinked, remove_key_absent,
  find_item-find_key,
}

module _ {ℓ} {K V : Type ℓ} (dec : Discrete K) where
  pub count_read_lem :
      (o : Option V) (c : Lru K V)
      → ((count_read o c).ll ≡ c.ll) × (IsValid dec c → IsValid dec (count_read o c))
  count_read_lem none c = (refl, λ h. h)
  count_read_lem (some v) c = (refl, λ h. h)

  -- On a valid cache a read returns the entry of its key: `Get` moves the entry to the front,
  -- `GetNoTouch` leaves every entry where it is, and both leave a valid cache.
  pub get-get_no_touch :
      (c : Lru K V) (k : K)
      → IsValid dec c
      → ((get dec k c).0 ≡ lookup dec k (entries c.ll))
        × (entries (get dec k c).1.ll ≡ promote dec k (entries c.ll))
        × IsValid dec (get dec k c).1
        × ((get_no_touch dec k c).0 ≡ lookup dec k (entries c.ll))
        × (entries (get_no_touch dec k c).1.ll ≡ entries c.ll)
        × IsValid dec (get_no_touch dec k c).1
  unfolding get get_no_touch
  get-get_no_touch c k h =
      let (p, v) = count_read_lem (peek dec k c) (touch dec k c) in
      let (q, w) = count_read_lem (peek dec k c) c in
      (
        peek_lem dec c k h.0,
        ap entries p ∙ entries-touch dec c k h.0,
        v (touch-IsValid dec c k h),
        peek_lem dec c k h.0,
        ap entries q,
        w h,
      )

  delete_hit :
      (c : Lru K V) (k : K) (e : Element K V)
      → find_item dec k c.items ≡ some e.id
      → at_id e.id c.ll ≡ some e
      → delete dec k c ≡ (
        record c { ll = remove_id e.id c.ll; items = delete_item dec k c.items },
        (k, e.value) ∷ [],
      )
  unfolding delete
  delete_hit c k e g h = ground arith

  delete_miss : (c : Lru K V) (k : K) → find_item dec k c.items ≡ none → delete dec k c ≡ (c, [])
  unfolding delete
  delete_miss c k h = ground arith

  -- The entry of a key, as a list of at most one.
  abbrev pub entry_of : K → Option V → List (K × V)
  entry_of k none = []
  entry_of k (some v) = (k, v) ∷ []

  lookup_found :
      (c : Lru K V) (k : K) (e : Element K V)
      → find_key dec k c.ll ≡ some e
      → lookup dec k (entries c.ll) ≡ some e.value
  lookup_found c k e f = lookup-entries dec k c.ll ∙ ap value_of f

  lookup_absent :
      (c : Lru K V) (k : K) → find_key dec k c.ll ≡ none → lookup dec k (entries c.ll) ≡ none
  lookup_absent c k f = lookup-entries dec k c.ll ∙ ap value_of f

  pub purge-IsValid :
      (order : List (K × ℕ)) (c : Lru K V) → IsValid dec c → IsValid dec (purge order c).0
  unfolding purge find_item find_key
  purge-IsValid order c h = ((tt, λ q. refl), h.1, omega arith)

  delete_lem :
      (c : Lru K V) (k : K)
      → IsValid dec c
      → (entries (delete dec k c).0.ll ≡ remove_key dec k (entries c.ll))
        × ((delete dec k c).1 ≡ entry_of k (lookup dec k (entries c.ll)))
        × IsValid dec (delete dec k c).0
  delete_lem c k h = elim (find_item-find_key dec c k h.0) [
    | inl (g, f) ↦
        rw (delete_miss c k g)
          (sym (remove_key_absent dec k c.ll f), ap (entry_of k) (sym (lookup_absent c k f)), h)
    | inr (e, g, f) ↦
        let there = at_id-find_key dec c.next_id k c.ll e h.0.0 f in
        rw (delete_hit c k e g there) (
          entries-remove_id dec c.next_id k c.ll e h.0.0 f,
          ap (entry_of k) (sym (lookup_found c k e f)),
          (
            without-IsLinked dec c k e h.0 f,
            h.1,
            omega (arith, length-remove_id dec e.id c.ll e there),
          ),
        )
  ]

  pub delete-IsValid : (c : Lru K V) (k : K) → IsValid dec c → IsValid dec (delete dec k c).0
  delete-IsValid c k h = (delete_lem c k h).2

  -- On a valid cache `Delete` takes the entry of its key out and hands it to `onEvict` if there is one;
  -- `Purge`, in whatever order its loop comes to the keys of the map, hands over every entry, each key
  -- once and no other, and leaves none; both leave a valid cache.
  pub delete-purge :
      (c : Lru K V) (k : K) (order : List (K × ℕ))
      → IsValid dec c
      → IsWalk dec c.items order
      → (entries (delete dec k c).0.ll ≡ remove_key dec k (entries c.ll))
        × ((delete dec k c).1 ≡ entry_of k (lookup dec k (entries c.ll)))
        × IsValid dec (delete dec k c).0
        × (entries (purge order c).0.ll ≡ [])
        × ((purge order c).0.items ≡ [])
        × IsOnce dec (purge order c).1
        × ((j : K) → lookup dec j (purge order c).1 ≡ lookup dec j (entries c.ll))
        × IsValid dec (purge order c).0
  unfolding purge
  delete-purge c k order h w =
      let (a, b, v) = delete_lem c k h in
      let (once, same) = walked-IsOnce dec c order h.0 w in
      (a, b, v, refl, refl, once, same, purge-IsValid order c h)

  -- `NewLRU` makes a valid empty cache that holds at least one entry, whatever capacity it is given.
  pub new_lru-IsValid :
      (n : ℤ) → IsValid dec (new_lru {V = V} n) × (entries (new_lru {K = K} {V = V} n).ll ≡ [])
  unfolding new_lru find_item find_key
  new_lru-IsValid (pos zero) = (((tt, λ q. refl), omega arith, omega arith), refl)
  new_lru-IsValid (pos (suc n)) = (((tt, λ q. refl), omega arith, omega arith), refl)
  new_lru-IsValid (negsuc n) = (((tt, λ q. refl), omega arith, omega arith), refl)
