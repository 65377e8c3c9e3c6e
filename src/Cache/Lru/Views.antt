-- ===== src/Cache/Lru/Views.antt =====
-- The cache as what it promises: its entries by recency, the most recent first.
use mathlib.Core.List.{lookup}
use breezeorm.Prelude.{
  ℕ, ◌<◌, ◌≡◌, refl, List, [], ◌∷◌, Option, none, some, ◌==◌, arith, Bool-cases, inl, inr,
}
use breezeorm.Cache.Lru.{Element, at_id, remove_id}

module _ {ℓ} {K V : Type ℓ} where
  abbrev pub entries : List (Element K V) → List (K × V)
  entries [] = []
  entries (e ∷ es) = (e.key, e.value) ∷ entries es

  abbrev pub id_of : Option (Element K V) → Option ℕ
  id_of none = none
  id_of (some e) = some e.id

  abbrev pub value_of : Option (Element K V) → Option V
  value_of none = none
  value_of (some e) = some e.value

  pub at_id-remove_id :
      (i j : ℕ) (es : List (Element K V)) → at_id j es ≡ none → at_id j (remove_id i es) ≡ none
  unfolding at_id remove_id
  at_id-remove_id i j [] h = refl
  at_id-remove_id i j (e ∷ es) h = ground (arith, at_id-remove_id i j es)

module _ {ℓ} {K V : Type ℓ} (dec : Discrete K) where
  -- The element with a key, and the entries without it.
  unfoldable pub find_key : K → List (Element K V) → Option (Element K V)
  find_key k [] = none
  find_key k (e ∷ es) = elim (dec k e.key) [ yes p ↦ some e | no p ↦ find_key k es ]

  unfoldable pub remove_key : K → List (K × V) → List (K × V)
  remove_key k [] = []
  remove_key k (e ∷ es) = elim (dec k e.0) [ yes p ↦ es | no p ↦ e ∷ remove_key k es ]

  -- No two elements share a key or an identity, and every identity was given out.
  abbrev pub Distinct : ℕ → List (Element K V) → Type ℓ
  Distinct n [] = Unit
  Distinct n (e ∷ es) =
      (find_key e.key es ≡ none) × (at_id e.id es ≡ none) × (e.id < n) × Distinct n es

  pub lookup-entries :
      (k : K) (es : List (Element K V)) → lookup dec k (entries es) ≡ value_of (find_key k es)
  unfolding lookup find_key
  lookup-entries k [] = refl
  lookup-entries k (e ∷ es) = ground (arith, lookup-entries k es)

  pub find_key_key :
      (k : K) (es : List (Element K V)) (e : Element K V) → find_key k es ≡ some e → e.key ≡ k
  unfolding find_key
  find_key_key k [] e h = absurd (cc)
  find_key_key k (x ∷ es) e h = ground (arith, find_key_key k es e)

  pub at_id-find_key :
      (n : ℕ) (k : K) (es : List (Element K V)) (e : Element K V)
      → Distinct n es
      → find_key k es ≡ some e
      → at_id e.id es ≡ some e
  unfolding find_key at_id
  at_id-find_key n k [] e d h = absurd (cc)
  at_id-find_key n k (x ∷ es) e d h = ground (arith, at_id-find_key n k es e)

  pub entries-remove_id :
      (n : ℕ) (k : K) (es : List (Element K V)) (e : Element K V)
      → Distinct n es
      → find_key k es ≡ some e
      → entries (remove_id e.id es) ≡ remove_key k (entries es)
  unfolding find_key at_id remove_id remove_key
  entries-remove_id n k [] e d h = absurd (cc)
  entries-remove_id n k (x ∷ es) e d h =
      ground (arith, entries-remove_id n k es e, at_id-find_key n k es e)

  find_key-remove_id-none :
      (q : K) (i : ℕ) (es : List (Element K V))
      → find_key q es ≡ none
      → find_key q (remove_id i es) ≡ none
  unfolding find_key remove_id
  find_key-remove_id-none q i [] h = refl
  find_key-remove_id-none q i (x ∷ es) h = ground (arith, find_key-remove_id-none q i es)

  pub Distinct-remove_id :
      (n i : ℕ) (es : List (Element K V)) → Distinct n es → Distinct n (remove_id i es)
  unfolding remove_id
  Distinct-remove_id n i [] d = tt
  Distinct-remove_id n i (x ∷ es) (a, b, c, d) = elim (Bool-cases (x.id == i)) [
    | inl e ↦ rw e d
    | inr e ↦ rw e (
      find_key-remove_id-none x.key i es a,
      at_id-remove_id i x.id es b,
      c,
      Distinct-remove_id n i es d,
    )
  ]

  pub find_key-remove_id :
      (n : ℕ) (k q : K) (es : List (Element K V)) (e : Element K V)
      → Distinct n es
      → find_key k es ≡ some e
      → find_key q (remove_id e.id es) ≡ elim (dec q k) [ yes p ↦ none | no p ↦ find_key q es ]
  unfolding find_key remove_id at_id
  find_key-remove_id n k q [] e d h = absurd (cc)
  find_key-remove_id n k q (x ∷ es) e d h =
      ground (arith, find_key-remove_id n k q es e, at_id-find_key n k es e)
