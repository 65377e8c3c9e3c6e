-- ===== src/Cache/Lru/Writes.antt =====
-- `Set` on the entries by recency: the loop that evicts, and both branches of `setLocked`.
use breezeorm.Prelude.{
  ℕ, zero, suc, ◌≤◌, ◌<◌, ◌≡◌, refl, sym, ap, ◌∙◌, List, [], ◌∷◌, none, some, length, ltb, arith,
  Bool-cases, inl, inr, take, drop, take_of_length-le, drop_of_length-le,
}
use breezeorm.Cache.Lru.{Element, Lru, move_to_front, set_value, find_item, evict, pushed, set}
use breezeorm.Cache.Lru.Views.{
  entries, find_key, remove_key, Distinct, find_key_key, at_id-find_key,
}
use breezeorm.Cache.Lru.Moves.{
  length-entries, length-remove_id, entries-move_to_front, Distinct-move_to_front,
  find_key-move_to_front, length-move_to_front, Distinct-set_value, length-set_value,
  find_key-set_value, remove_key-set_value, find_key-back,
}
use breezeorm.Cache.Lru.Refines.{
  IsLinked, IsValid, without-IsLinked, pushed-IsLinked, remove_key_absent, back-lt, entries-back,
  evict_done, evict_one, find_item-find_key,
}

module _ {ℓ} {K V : Type ℓ} (dec : Discrete K) where
  -- What `setLocked` leaves, as one statement about a cache and what was evicted.
  abbrev pub Keeps : Lru K V → List (K × V) → Lru K V × List (K × V) → Type ℓ
  Keeps c l r =
      (entries r.0.ll ≡ take c.capacity l)
      × (r.1 ≡ drop c.capacity l)
      × (r.0.capacity ≡ c.capacity)
      × IsValid dec r.0

  evict-Keeps :
      (rounds : ℕ) (c : Lru K V)
      → rounds ≡ length c.ll
      → IsLinked dec c
      → 0 < c.capacity
      → length c.ll ≤ suc c.capacity
      → Keeps c (entries c.ll) (evict dec rounds c)
  evict-Keeps zero c r l p b = rw (evict_done dec zero c (omega arith)) (
    sym (take_of_length-le c.capacity (entries c.ll) (omega (arith, length-entries c.ll))),
    sym (drop_of_length-le c.capacity (entries c.ll) (omega (arith, length-entries c.ll))),
    refl,
    (l, p, omega arith),
  )
  evict-Keeps (suc rounds) c r l p b = elim (Bool-cases (ltb c.capacity (length c.ll))) [
    | inl over ↦
        let full : length c.ll ≡ suc c.capacity = ground arith in
        let (e, last) = back-lt dec c.ll (omega arith) in
        let found = find_key-back dec c.next_id c.ll e l.0 last in
        let there = at_id-find_key dec c.next_id e.key c.ll e l.0 found in
        let (f, g) = entries-back dec c.capacity c.next_id c.ll e l.0 full last in
        rw (evict_one dec rounds c e full last found l) (
          f,
          sym g,
          refl,
          (
            without-IsLinked dec c e.key e l found,
            p,
            omega (arith, length-remove_id dec e.id c.ll e there),
          ),
        )
    | inr within ↦
        let short : length c.ll ≤ c.capacity = ground arith in
        rw (evict_done dec (suc rounds) c short) (
          sym (take_of_length-le c.capacity (entries c.ll) (omega (arith, length-entries c.ll))),
          sym (drop_of_length-le c.capacity (entries c.ll) (omega (arith, length-entries c.ll))),
          refl,
          (l, p, short),
        )
  ]

  set_miss :
      (c : Lru K V) (k : K) (v : V)
      → find_item dec k c.items ≡ none
      → set dec k v c ≡ evict dec (suc (length c.ll)) (pushed dec k v c)
  unfolding set
  set_miss c k v h = ground arith

  set_hit :
      (c : Lru K V) (k : K) (v : V) (i : ℕ)
      → find_item dec k c.items ≡ some i
      → set dec k v c ≡ (record c { ll = move_to_front i (set_value i v c.ll) }, [])
  unfolding set
  set_hit c k v i h = ground arith

  -- Writing to the element of a key, and moving it to the front.
  module _ (c : Lru K V) (k : K) (v : V) (e : Element K V) (h : IsValid dec c)
      (f : find_key dec k c.ll ≡ some e) where
    written : List (Element K V)
    written = set_value e.id v c.ll

    written-Distinct : Distinct dec c.next_id written
    unfolding written
    written-Distinct = Distinct-set_value dec c.next_id e.id v c.ll h.0.0

    find_key-written :
        (q : K)
        → find_key dec q written
          ≡ elim (dec q k) [ yes p ↦ some (record e { value = v }) | no p ↦ find_key dec q c.ll ]
    unfolding written
    find_key-written q = find_key-set_value dec c.next_id k q v c.ll e h.0.0 f

    written_found : find_key dec k written ≡ some (record e { value = v })
    written_found = ground (arith, find_key-written k)

    written-Keeps :
        Keeps c
          ((k, v) ∷ remove_key dec k (entries c.ll))
          (record c { ll = move_to_front e.id written }, [])
    unfolding written
    written-Keeps =
        let e' = record e { value = v } in
        let moved =
          entries-move_to_front dec c.next_id k written e' written-Distinct written_found in
        let same = remove_key-set_value dec c.next_id k v c.ll e h.0.0 f in
        let len =
          length-move_to_front dec c.next_id k written e' written-Distinct written_found
          ∙ length-set_value dec e.id v c.ll in
        let all : entries (move_to_front e.id written) ≡ (k, v) ∷ remove_key dec k (entries c.ll) =
          moved ∙ ap (λ t. (k, v) ∷ t) same in
        let size : length ((k, v) ∷ remove_key dec k (entries c.ll)) ≤ c.capacity =
          omega
            (arith, sym (ap length all), length-entries (move_to_front e.id written), len, h.2) in
        let find =
          find_key-move_to_front dec c.next_id k written e' written-Distinct written_found in
        (
          all ∙ sym (take_of_length-le c.capacity _ size),
          sym (drop_of_length-le c.capacity _ size),
          refl,
          (
            (
              Distinct-move_to_front dec c.next_id k written e' written-Distinct written_found,
              λ q.
                  h.0.1 q ∙ ground (arith, find q, find_key-written q, find_key_key dec k c.ll e f),
            ),
            h.1,
            omega (arith, len, h.2),
          ),
        )

  -- On a valid cache `Set` puts the entry in front, keeps the most recent entries that fit, hands the
  -- others to `onEvict`, and leaves a valid cache of the same capacity.
  pub set-Keeps :
      (c : Lru K V) (k : K) (v : V)
      → IsValid dec c
      → Keeps c ((k, v) ∷ remove_key dec k (entries c.ll)) (set dec k v c)
  unfolding written set_value
  set-Keeps c k v h = elim (find_item-find_key dec c k h.0) [
    | inl (g, f) ↦
        rw (set_miss c k v g, remove_key_absent dec k c.ll f)
          (evict-Keeps (suc (length c.ll)) (pushed dec k v c) refl (pushed-IsLinked dec c k v h.0 f)
            h.1 (omega arith))
    | inr (e, g, f) ↦ rw (set_hit c k v e.id g) (written-Keeps c k v e h f)
  ]
