-- ===== src/Cache/Lru/Moves.antt =====
-- What each of container/list's operations does to the entries and to the keys.
use breezeorm.Prelude.{
  ℕ, suc, ◌<◌, ◌≡◌, refl, ap, ◌∙◌, List, [], ◌∷◌, none, some, length, ◌==◌, arith, Bool-cases, inl,
  inr,
}
use breezeorm.Cache.Lru.{
  Element, at_id, remove_id, move_to_front, set_value, back, find_item, delete_item, put_item,
}
use breezeorm.Cache.Lru.Views.{
  entries, find_key, remove_key, Distinct, find_key_key, at_id-find_key, entries-remove_id,
  Distinct-remove_id, find_key-remove_id,
}

pub length-entries {ℓ} : {K V : Type ℓ} (es : List (Element K V)) → length (entries es) ≡ length es
length-entries [] = refl
length-entries (e ∷ es) = ap suc (length-entries es)

module _ {ℓ} {K : Type ℓ} (dec : Discrete K) where
  pub find_item-delete_item :
      (k q : K) (m : List (K × ℕ))
      → find_item dec q (delete_item dec k m)
        ≡ elim (dec q k) [ yes p ↦ none | no p ↦ find_item dec q m ]
  unfolding find_item delete_item
  find_item-delete_item k q [] = ground arith
  find_item-delete_item k q ((j, i) ∷ m) = ground (arith, find_item-delete_item k q m)

  pub find_item-put_item :
      (k q : K) (i : ℕ) (m : List (K × ℕ))
      → find_item dec q (put_item dec k i m)
        ≡ elim (dec q k) [ yes p ↦ some i | no p ↦ find_item dec q m ]
  unfolding find_item put_item
  find_item-put_item k q i m = ground (arith, find_item-delete_item k q m)

module _ {ℓ} {K V : Type ℓ} (dec : Discrete K) where
  at_id-remove_id_self :
      (n i : ℕ) (es : List (Element K V)) → Distinct dec n es → at_id i (remove_id i es) ≡ none
  unfolding at_id remove_id
  at_id-remove_id_self n i [] d = refl
  at_id-remove_id_self n i (x ∷ es) d = ground (arith, at_id-remove_id_self n i es)

  pub length-remove_id :
      (i : ℕ) (es : List (Element K V)) (e : Element K V)
      → at_id i es ≡ some e
      → suc (length (remove_id i es)) ≡ length es
  unfolding at_id remove_id
  length-remove_id i [] e h = absurd (cc)
  length-remove_id i (x ∷ es) e h = ground (arith, length-remove_id i es e)

  id-lt :
      (n k : ℕ) (es : List (Element K V)) (e : Element K V)
      → Distinct dec n es
      → at_id k es ≡ some e
      → e.id < n
  unfolding at_id
  id-lt n k [] e d h = absurd (cc)
  id-lt n k (x ∷ es) e d h = ground (arith, id-lt n k es e)

  -- Moving the element of a key to the front.
  module _ (n : ℕ) (k : K) (es : List (Element K V)) (e : Element K V) (d : Distinct dec n es)
      (h : find_key dec k es ≡ some e) where
    pub move_to_front_lem : move_to_front e.id es ≡ e ∷ remove_id e.id es
    unfolding move_to_front
    move_to_front_lem = rw (at_id-find_key dec n k es e d h, move_to_front)

    pub entries-move_to_front :
        entries (move_to_front e.id es) ≡ (k, e.value) ∷ remove_key dec k (entries es)
    entries-move_to_front =
        ap entries move_to_front_lem
        ∙ ap (λ j. (j, e.value) ∷ entries (remove_id e.id es)) (find_key_key dec k es e h)
        ∙ ap (λ t. (k, e.value) ∷ t) (entries-remove_id dec n k es e d h)

    pub Distinct-move_to_front : Distinct dec n (move_to_front e.id es)
    Distinct-move_to_front = rw move_to_front_lem (
      find_key-remove_id dec n k e.key es e d h ∙ ground (arith, find_key_key dec k es e h),
      at_id-remove_id_self n e.id es d,
      id-lt n e.id es e d (at_id-find_key dec n k es e d h),
      Distinct-remove_id dec n e.id es d,
    )

    pub find_key-move_to_front :
        (q : K) → find_key dec q (move_to_front e.id es) ≡ find_key dec q es
    unfolding find_key
    find_key-move_to_front q =
        rw move_to_front_lem
          (ground (arith, find_key-remove_id dec n k q es e d h, find_key_key dec k es e h))

    pub length-move_to_front : length (move_to_front e.id es) ≡ length es
    length-move_to_front =
        ap length move_to_front_lem ∙ length-remove_id e.id es e (at_id-find_key dec n k es e d h)

  -- Writing a value.
  at_id-set_value-none :
      (i j : ℕ) (v : V) (es : List (Element K V))
      → at_id j es ≡ none
      → at_id j (set_value i v es) ≡ none
  unfolding at_id set_value
  at_id-set_value-none i j v [] h = refl
  at_id-set_value-none i j v (x ∷ es) h = ground (arith, at_id-set_value-none i j v es)

  find_key-set_value-none :
      (i : ℕ) (q : K) (v : V) (es : List (Element K V))
      → find_key dec q es ≡ none
      → find_key dec q (set_value i v es) ≡ none
  unfolding find_key set_value
  find_key-set_value-none i q v [] h = refl
  find_key-set_value-none i q v (x ∷ es) h = ground (arith, find_key-set_value-none i q v es)

  pub Distinct-set_value :
      (n i : ℕ) (v : V) (es : List (Element K V))
      → Distinct dec n es
      → Distinct dec n (set_value i v es)
  unfolding set_value
  Distinct-set_value n i v [] d = tt
  Distinct-set_value n i v (x ∷ es) (a, b, c, d) = elim (Bool-cases (x.id == i)) [
    | inl e ↦ rw e (a, b, c, d)
    | inr e ↦ rw e (
      find_key-set_value-none i x.key v es a,
      at_id-set_value-none i x.id v es b,
      c,
      Distinct-set_value n i v es d,
    )
  ]

  pub length-set_value :
      (i : ℕ) (v : V) (es : List (Element K V)) → length (set_value i v es) ≡ length es
  unfolding set_value
  length-set_value i v [] = refl
  length-set_value i v (x ∷ es) = ground (arith, length-set_value i v es)

  pub find_key-set_value :
      (n : ℕ) (k q : K) (v : V) (es : List (Element K V)) (e : Element K V)
      → Distinct dec n es
      → find_key dec k es ≡ some e
      → find_key dec q (set_value e.id v es)
        ≡ elim (dec q k) [ yes p ↦ some (record e { value = v }) | no p ↦ find_key dec q es ]
  unfolding find_key set_value
  find_key-set_value n k q v [] e d h = absurd (cc)
  find_key-set_value n k q v (x ∷ es) e d h =
      ground (arith, find_key-set_value n k q v es e, at_id-find_key dec n k es e)

  pub remove_key-set_value :
      (n : ℕ) (k : K) (v : V) (es : List (Element K V)) (e : Element K V)
      → Distinct dec n es
      → find_key dec k es ≡ some e
      → remove_key dec k (entries (set_value e.id v es)) ≡ remove_key dec k (entries es)
  unfolding find_key set_value remove_key
  remove_key-set_value n k v [] e d h = absurd (cc)
  remove_key-set_value n k v (x ∷ es) e d h =
      ground (arith, remove_key-set_value n k v es e, at_id-find_key dec n k es e)

  -- The last element.
  pub find_key-back :
      (n : ℕ) (es : List (Element K V)) (e : Element K V)
      → Distinct dec n es
      → back es ≡ some e
      → find_key dec e.key es ≡ some e
  unfolding back find_key
  find_key-back n [] e d h = absurd (cc)
  find_key-back n (x ∷ []) e d h = ground arith
  find_key-back n (x ∷ y ∷ es) e (a, b, c, d) h = ground (arith, find_key-back n (y ∷ es) e d h)
