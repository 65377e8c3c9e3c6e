-- ===== src/Cache/Lru/Purges.antt =====
-- What `Purge` hands over, whatever the order in which its loop walks the map.
use mathlib.Core.List.{lookup}
use breezeorm.Prelude.{
  ℕ, ◌≡◌, ◌≢◌, refl, sym, ap, ◌∙◌, subst, List, [], ◌∷◌, Option, none, some, arith, All,
}
use breezeorm.Cache.Lru.{Element, Lru, at_id, find_item, taken, walked}
use breezeorm.Cache.Lru.Views.{
  entries, id_of, value_of, find_key, find_key_key, at_id-find_key, lookup-entries,
}
use breezeorm.Cache.Lru.Refines.{IsLinked}

module _ {ℓ} {K : Type ℓ} (dec : Discrete K) where
  -- No key twice.
  abbrev pub IsOnce {κ} : {A : Type κ} → List (K × A) → Type κ
  IsOnce [] = Unit
  IsOnce (e ∷ es) = (lookup dec e.0 es ≡ none) × IsOnce es

  -- An order in which a loop over a map can come to its keys: each once, with what the map has for it.
  abbrev pub IsWalk : List (K × ℕ) → List (K × ℕ) → Type ℓ
  IsWalk items order = IsOnce order × ((k : K) → lookup dec k order ≡ find_item dec k items)

module _ {ℓ κ} {K : Type ℓ} {A : Type κ} (dec : Discrete K) where
  lookup_here : (j k : K) (a : A) (es : List (K × A)) → j ≡ k → lookup dec j ((k, a) ∷ es) ≡ some a
  unfolding lookup
  lookup_here j k a es h = ground (arith, h)

  lookup_later :
      (j k : K) (a : A) (es : List (K × A)) → j ≢ k → lookup dec j ((k, a) ∷ es) ≡ lookup dec j es
  unfolding lookup
  lookup_later j k a es h = ground (arith, h)

  -- A key that the order comes to later keeps its answer with another one in front.
  found_later :
      (k : K) (i : A) (order ps : List (K × A))
      → lookup dec k order ≡ none
      → All (λ (p : K × A). lookup dec p.0 order ≡ some p.1) ps
      → All (λ (p : K × A). lookup dec p.0 ((k, i) ∷ order) ≡ some p.1) ps
  found_later k i order [] new h = tt
  found_later k i order ((j, m) ∷ ps) new (h, hs) = (
    lookup_later j k i order (λ same.
          let lost : none ≡ some m = sym new ∙ ap (λ q. lookup dec q order) (sym same) ∙ h in
          absurd (cc))
        ∙ h,
    found_later k i order ps new hs,
  )

  IsOnce-found :
      (order : List (K × A))
      → IsOnce dec order
      → All (λ (p : K × A). lookup dec p.0 order ≡ some p.1) order
  IsOnce-found [] o = tt
  IsOnce-found ((k, i) ∷ order) (new, o) =
      (lookup_here k k i order refl, found_later k i order order new (IsOnce-found order o))

module _ {ℓ} {K V : Type ℓ} (dec : Discrete K) where
  -- Each key of the order leads to an element of that key.
  abbrev IsKept : List (Element K V) → K × ℕ → Type ℓ
  IsKept es (k, i) = (e : Element K V) × (at_id i es ≡ some e) × (e.key ≡ k)

  abbrev value_at : List (Element K V) → Option ℕ → Option V
  value_at es none = none
  value_at es (some i) = value_of (at_id i es)

  walked_lem :
      (es : List (Element K V)) (k : K) (i : ℕ) (order : List (K × ℕ)) (e : Element K V)
      → at_id i es ≡ some e
      → e.key ≡ k
      → walked ((k, i) ∷ order) es ≡ (k, e.value) ∷ walked order es
  unfolding walked
  walked_lem es k i order e at key =
      ap (λ o. taken o (walked order es)) at
      ∙ ap {B = List (K × V)} (λ q. (q, e.value) ∷ walked order es) key

  lookup-walked :
      (es : List (Element K V)) (order : List (K × ℕ)) (j : K)
      → All (IsKept es) order
      → lookup dec j (walked order es) ≡ value_at es (lookup dec j order)
  unfolding walked lookup
  lookup-walked es [] j h = refl
  lookup-walked es ((k, i) ∷ order) j ((e, at, key), hs) =
      ap (lookup dec j) (walked_lem es k i order e at key) ∙ elim (dec j k) [
        | yes p ↦
            lookup_here dec j k e.value (walked order es) p
            ∙ ap value_of (sym at)
            ∙ ap (value_at es) (sym (lookup_here dec j k i order p))
        | no p ↦
            lookup_later dec j k e.value (walked order es) p
            ∙ lookup-walked es order j hs
            ∙ ap (value_at es) (sym (lookup_later dec j k i order p))
      ]

  IsOnce-walked :
      (es : List (Element K V)) (order : List (K × ℕ))
      → All (IsKept es) order
      → IsOnce dec order
      → IsOnce dec (walked order es)
  unfolding walked
  IsOnce-walked es [] h o = tt
  IsOnce-walked es ((k, i) ∷ order) ((e, at, key), hs) (new, o) =
      subst (IsOnce dec) (sym (walked_lem es k i order e at key))
        (lookup-walked es order k hs ∙ ap (value_at es) new, IsOnce-walked es order hs o)

  found-IsKept :
      (c : Lru K V) (order ps : List (K × ℕ))
      → IsLinked dec c
      → IsWalk dec c.items order
      → All (λ (p : K × ℕ). lookup dec p.0 order ≡ some p.1) ps
      → All (IsKept c.ll) ps
  found-IsKept c order [] l w h = tt
  found-IsKept c order ((k, i) ∷ ps) l w (h, hs) =
      (kept (find_key dec k c.ll) refl, found-IsKept c order ps l w hs)
    where
      linked : (o : Option (Element K V)) → find_key dec k c.ll ≡ o → id_of o ≡ some i
      linked o e = ap id_of (sym e) ∙ sym (l.1 k) ∙ sym (w.1 k) ∙ h

      kept : (o : Option (Element K V)) → find_key dec k c.ll ≡ o → IsKept c.ll (k, i)
      kept none f = let lost = linked none f in absurd (cc)
      kept (some e) f =
          let same : e.id ≡ i = ground (arith, linked (some e) f) in
          (
            e,
            ap (λ n. at_id n c.ll) (sym same) ∙ at_id-find_key dec c.next_id k c.ll e l.0 f,
            find_key_key dec k c.ll e f,
          )

  pub walked-IsOnce :
      (c : Lru K V) (order : List (K × ℕ))
      → IsLinked dec c
      → IsWalk dec c.items order
      → IsOnce dec (walked order c.ll)
        × ((j : K) → lookup dec j (walked order c.ll) ≡ lookup dec j (entries c.ll))
  walked-IsOnce c order l w = (
    IsOnce-walked c.ll order kept w.0,
    λ j.
        lookup-walked c.ll order j kept
        ∙ ap (value_at c.ll) (w.1 j ∙ l.1 j)
        ∙ elements j (find_key dec j c.ll) refl
        ∙ sym (lookup-entries dec j c.ll),
  )
    where
      kept : All (IsKept c.ll) order
      kept = found-IsKept c order order l w (IsOnce-found dec order w.0)

      elements :
          (j : K) (o : Option (Element K V))
          → find_key dec j c.ll ≡ o
          → value_at c.ll (id_of (find_key dec j c.ll)) ≡ value_of (find_key dec j c.ll)
      elements j none f = ap (λ o. value_at c.ll (id_of o)) f ∙ ap value_of (sym f)
      elements j (some e) f =
          ap (λ o. value_at c.ll (id_of o)) f
          ∙ ap value_of (at_id-find_key dec c.next_id j c.ll e l.0 f)
          ∙ ap value_of (sym f)
