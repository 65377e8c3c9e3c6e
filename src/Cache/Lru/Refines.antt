-- ===== src/Cache/Lru/Refines.antt =====
-- The cache's operations against their specification on the entries by recency, and the invariant
-- that ties the map, the list and the bound together.
use mathlib.Core.List.{lookup}
use breezeorm.Prelude.{
  ℕ, zero, suc, ◌≤◌, ◌<◌, ◌≡◌, refl, sym, ap, ◌∙◌, false, List, [], ◌∷◌, Option, none, some, length,
  ◌==◌, arith, Option-cases, inl, inr, ◌⊎◌, take, drop,
}
use breezeorm.Cache.Lru.{
  Element, Lru, at_id, remove_id, move_to_front, back, find_item, delete_item, peek, touch, without,
  evict, pushed,
}
use breezeorm.Cache.Lru.Views.{
  entries, id_of, find_key, remove_key, Distinct, at_id-find_key, Distinct-remove_id,
  find_key-remove_id, lookup-entries,
}
use breezeorm.Cache.Lru.Moves.{
  find_item-delete_item, find_item-put_item, length-remove_id, entries-move_to_front,
  Distinct-move_to_front, find_key-move_to_front, length-move_to_front, find_key-back,
}

module _ {ℓ} {K V : Type ℓ} (dec : Discrete K) where
  -- The map has exactly the elements of the list, by their keys.
  abbrev pub IsLinked : Lru K V → Type ℓ
  IsLinked c =
      Distinct dec c.next_id c.ll
      × ((q : K) → find_item dec q c.items ≡ id_of (find_key dec q c.ll))

  abbrev pub IsValid : Lru K V → Type ℓ
  IsValid c = IsLinked c × (0 < c.capacity) × (length c.ll ≤ c.capacity)

  -- A key is in the map when it is in the list, and then under the element's identity.
  pub find_item-find_key :
      (c : Lru K V) (k : K)
      → IsLinked c
      → ((find_item dec k c.items ≡ none) × (find_key dec k c.ll ≡ none))
        ⊎ ((e : Element K V) × (find_item dec k c.items ≡ some e.id)
            × (find_key dec k c.ll ≡ some e))
  find_item-find_key c k l = elim (Option-cases (find_key dec k c.ll)) [
    | inl h ↦ inl (l.1 k ∙ ap id_of h, h)
    | inr (e, h) ↦ inr (e, l.1 k ∙ ap id_of h, h)
  ]

  pub peek_lem : (c : Lru K V) (k : K) → IsLinked c → peek dec k c ≡ lookup dec k (entries c.ll)
  unfolding peek
  peek_lem c k l = elim (find_item-find_key c k l) [
    | inl (g, h) ↦ ground (arith, lookup-entries dec k c.ll)
    | inr (e, g, h) ↦
        ground (arith, lookup-entries dec k c.ll, at_id-find_key dec c.next_id k c.ll e l.0 h)
  ]

  touch_miss : (c : Lru K V) (k : K) → find_item dec k c.items ≡ none → touch dec k c ≡ c
  unfolding touch
  touch_miss c k h = ground arith

  touch_hit :
      (c : Lru K V) (k : K) (i : ℕ)
      → find_item dec k c.items ≡ some i
      → touch dec k c ≡ record c { ll = move_to_front i c.ll }
  unfolding touch
  touch_hit c k i h = ground arith

  -- What a read that promotes does to the entries.
  abbrev pub promote : K → List (K × V) → List (K × V)
  promote k l = elim (lookup dec k l) [ none ↦ l | some v ↦ (k, v) ∷ remove_key dec k l ]

  promote_lem :
      (k : K) (es : List (Element K V)) (o : Option (Element K V))
      → find_key dec k es ≡ o
      → promote k (entries es)
        ≡ elim o [ none ↦ entries es | some e ↦ (k, e.value) ∷ remove_key dec k (entries es) ]
  promote_lem k es none h = ground (arith, lookup-entries dec k es)
  promote_lem k es (some e) h = ground (arith, lookup-entries dec k es)

  pub entries-touch :
      (c : Lru K V) (k : K) → IsLinked c → entries (touch dec k c).ll ≡ promote k (entries c.ll)
  entries-touch c k l = elim (find_item-find_key c k l) [
    | inl (g, h) ↦ rw (touch_miss c k g) (sym (promote_lem k c.ll none h))
    | inr (e, g, h) ↦
        rw (touch_hit c k e.id g)
          (entries-move_to_front dec c.next_id k c.ll e l.0 h ∙ sym (promote_lem k c.ll (some e) h))
  ]

  pub touch-IsValid : (c : Lru K V) (k : K) → IsValid c → IsValid (touch dec k c)
  touch-IsValid c k (l, p, b) = elim (find_item-find_key c k l) [
    | inl (g, h) ↦ rw (touch_miss c k g) (l, p, b)
    | inr (e, g, h) ↦ rw (touch_hit c k e.id g) (
      (
        Distinct-move_to_front dec c.next_id k c.ll e l.0 h,
        λ q. l.1 q ∙ ap id_of (sym (find_key-move_to_front dec c.next_id k c.ll e l.0 h q)),
      ),
      p,
      omega (arith, length-move_to_front dec c.next_id k c.ll e l.0 h),
    )
  ]

  -- Removing one element.
  pub without-IsLinked :
      (c : Lru K V) (k : K) (e : Element K V)
      → IsLinked c
      → find_key dec k c.ll ≡ some e
      → IsLinked (record c { ll = remove_id e.id c.ll; items = delete_item dec k c.items })
  without-IsLinked c k e l h = (
    Distinct-remove_id dec c.next_id e.id c.ll l.0,
    λ q. ground (
      arith,
      find_item-delete_item dec k q c.items,
      find_key-remove_id dec c.next_id k q c.ll e l.0 h,
      l.1 q,
    ),
  )

  Distinct-suc :
      (n : ℕ) (es : List (Element K V))
      → Distinct dec n es
      → Distinct dec (suc n) es × (at_id n es ≡ none)
  unfolding at_id
  Distinct-suc n [] d = (tt, refl)
  Distinct-suc n (e ∷ es) (a, b, i, d) =
      let (d', f) = Distinct-suc n es d in ((a, b, omega arith, d'), ground arith)

  pub pushed-IsLinked :
      (c : Lru K V) (k : K) (v : V)
      → IsLinked c
      → find_key dec k c.ll ≡ none
      → IsLinked (pushed dec k v c)
  unfolding find_key
  pushed-IsLinked c k v l h =
      let (d, f) = Distinct-suc c.next_id c.ll l.0 in
      (
        (h, f, omega arith, d),
        λ q. ground (arith, find_item-put_item dec k q c.next_id c.items, l.1 q),
      )

  pub remove_key_absent :
      (k : K) (es : List (Element K V))
      → find_key dec k es ≡ none
      → remove_key dec k (entries es) ≡ entries es
  unfolding find_key remove_key
  remove_key_absent k [] h = refl
  remove_key_absent k (e ∷ es) h = ground (arith, remove_key_absent k es)

  pub back-lt : (es : List (Element K V)) → 0 < length es → (e : Element K V) × (back es ≡ some e)
  unfolding back
  back-lt [] h = absurd (omega arith)
  back-lt (e ∷ []) h = (e, refl)
  back-lt (e ∷ f ∷ es) h = back-lt (f ∷ es) (omega arith)

  -- Without its last element a list is one shorter.
  pub entries-back :
      (n m : ℕ) (es : List (Element K V)) (e : Element K V)
      → Distinct dec m es
      → length es ≡ suc n
      → back es ≡ some e
      → (entries (remove_id e.id es) ≡ take n (entries es))
        × (drop n (entries es) ≡ (e.key, e.value) ∷ [])
  unfolding back remove_id at_id
  entries-back n m [] e d p h = absurd (omega arith)
  entries-back zero m (x ∷ []) e d p h = ground arith
  entries-back (suc n) m (x ∷ []) e d p h = absurd (omega arith)
  entries-back zero m (x ∷ y ∷ es) e d p h = absurd (omega arith)
  entries-back (suc n) m (x ∷ y ∷ es) e (a, b, i, d) p h =
      let (f, g) = entries-back n m (y ∷ es) e d (omega arith) h in
      let there = at_id-find_key dec m e.key (y ∷ es) e d (find_key-back dec m (y ∷ es) e d h) in
      let other : (x.id == e.id) ≡ false = ground arith in
      (rw other (ap (◌∷◌ (x.key, x.value)) f), g)

  pub evict_done :
      (rounds : ℕ) (c : Lru K V) → length c.ll ≤ c.capacity → evict dec rounds c ≡ (c, [])
  unfolding evict
  evict_done zero c h = refl
  evict_done (suc rounds) c h = ground arith

  -- One element over the bound: the loop takes the last one, and no other.
  pub evict_one :
      (rounds : ℕ) (c : Lru K V) (e : Element K V)
      → length c.ll ≡ suc c.capacity
      → back c.ll ≡ some e
      → find_key dec e.key c.ll ≡ some e
      → IsLinked c
      → evict dec (suc rounds) c ≡ (without dec e c, (e.key, e.value) ∷ [])
  unfolding evict
  evict_one rounds c e p h f l =
      let there = at_id-find_key dec c.next_id e.key c.ll e l.0 f in
      let shorter = length-remove_id dec e.id c.ll e there in
      let rest = evict_done rounds (without dec e c) (omega arith) in ground arith
