-- ===== src/Cache/Lru.antt =====
-- pkg/cache/lru.go: the bounded cache. A `*list.Element` is the number that the allocation gave it,
-- `ll` is the container/list with its front first, and `items` the map from keys to elements. A
-- method returns the entries that it hands to `onEvict`, in the order of the calls. What an
-- operation does under the lock is one step; `hits` and `misses` are `int64` bit patterns.
pub mod Views
pub mod Moves
pub mod Refines
pub mod Purges
pub mod Operations
pub mod Writes
use breezeorm.Prelude.{
  ℕ, zero, suc, ◌+◌, ◌%◌, ◌≡◌, refl, Bool, true, false, List, [], ◌∷◌, ◌++◌, map, Option, none,
  some, length, ltb, ◌==◌, if◌then◌else◌,
}
use breezeorm.Prelude.Int.{ℤ, pos, negsuc, word_mod}

-- `*entry` in its list element
pub record Element {ℓ} (K V : Type ℓ) : Type ℓ where
  pub id : ℕ
  pub key : K
  pub value : V

pub record Lru {ℓ} (K V : Type ℓ) : Type ℓ where
  pub capacity : ℕ
  pub ll : List (Element K V)
  pub items : List (K × ℕ)
  pub next_id : ℕ
  pub hits : ℕ
  pub misses : ℕ

-- `atomic.Int64.Add(1)`
abbrev pub bump : ℕ → ℕ
bump n = (n + 1) % word_mod

-- `if capacity <= 0 { capacity = 1 }`
unfoldable pub clamp_capacity : ℤ → ℕ
clamp_capacity (pos zero) = 1
clamp_capacity (pos (suc n)) = suc n
clamp_capacity (negsuc n) = 1

unfoldable pub new_lru {ℓ} : {K V : Type ℓ} → ℤ → Lru K V
unfolding clamp_capacity
new_lru capacity = record {
  capacity = clamp_capacity capacity;
  ll = [];
  items = [];
  next_id = 0;
  hits = 0;
  misses = 0;
}

-- The operations of container/list on the element with a given identity.
module _ {ℓ} {K V : Type ℓ} where
  unfoldable pub at_id : ℕ → List (Element K V) → Option (Element K V)
  at_id i [] = none
  at_id i (e ∷ es) = if e.id == i then some e else at_id i es

  abbrev pub count_read : Option V → Lru K V → Lru K V
  count_read none c = record c { misses = bump c.misses }
  count_read (some v) c = record c { hits = bump c.hits }

  -- `l.Remove(e)`
  unfoldable pub remove_id : ℕ → List (Element K V) → List (Element K V)
  remove_id i [] = []
  remove_id i (e ∷ es) = if e.id == i then es else e ∷ remove_id i es

  -- `l.MoveToFront(e)`
  unfoldable pub move_to_front : ℕ → List (Element K V) → List (Element K V)
  move_to_front i es = elim (at_id i es) [ none ↦ es | some e ↦ e ∷ remove_id i es ]

  -- `el.Value.(*entry[K, V]).value = value`
  unfoldable pub set_value : ℕ → V → List (Element K V) → List (Element K V)
  set_value i v [] = []
  set_value i v (e ∷ es) = if e.id == i then record e { value = v } ∷ es else e ∷ set_value i v es

  -- `l.Back()`
  unfoldable pub back : List (Element K V) → Option (Element K V)
  back [] = none
  back (e ∷ []) = some e
  back (e ∷ f ∷ es) = back (f ∷ es)

-- The map `items`.
module _ {ℓ} {K : Type ℓ} (dec : Discrete K) where
  unfoldable pub find_item : K → List (K × ℕ) → Option ℕ
  find_item k [] = none
  find_item k ((j, i) ∷ m) = elim (dec k j) [ yes p ↦ some i | no p ↦ find_item k m ]

  -- `delete(c.items, k)`
  unfoldable pub delete_item : K → List (K × ℕ) → List (K × ℕ)
  delete_item k [] = []
  delete_item k ((j, i) ∷ m) =
      let rest = delete_item k m in elim (dec k j) [ yes p ↦ rest | no p ↦ (j, i) ∷ rest ]

  -- `c.items[k] = el`
  unfoldable pub put_item : K → ℕ → List (K × ℕ) → List (K × ℕ)
  unfolding delete_item
  put_item k i m = (k, i) ∷ delete_item k m

module _ {ℓ} {K V : Type ℓ} (dec : Discrete K) where
  -- The value of the element that `items` has for a key.
  unfoldable pub peek : K → Lru K V → Option V
  peek k c = elim (find_item dec k c.items) [
    | none ↦ none
    | some i ↦ elim (at_id i c.ll) [ none ↦ none | some e ↦ some e.value ]
  ]

  unfoldable pub touch : K → Lru K V → Lru K V
  touch k c = elim (find_item dec k c.items) [
    | none ↦ c
    | some i ↦ record c { ll = move_to_front i c.ll }
  ]

  unfoldable pub get : K → Lru K V → Option V × Lru K V
  unfolding peek touch
  get k c = (peek k c, count_read (peek k c) (touch k c))

  unfoldable pub get_no_touch : K → Lru K V → Option V × Lru K V
  unfolding peek
  get_no_touch k c = (peek k c, count_read (peek k c) c)

  abbrev pub without : Element K V → Lru K V → Lru K V
  without e c = record c { ll = remove_id e.id c.ll; items = delete_item dec e.key c.items }

  -- the loop of `setLocked`; a round takes one element away
  unfoldable pub evict : ℕ → Lru K V → Lru K V × List (K × V)
  evict zero c = (c, [])
  evict (suc rounds) c = elim (ltb c.capacity (length c.ll)) [
    | false ↦ (c, [])
    | true ↦ elim (back c.ll) [
      | none ↦ (c, [])
      | some e ↦ let (c', out) = evict rounds (without e c) in (c', (e.key, e.value) ∷ out)
    ]
  ]

  abbrev pub pushed : K → V → Lru K V → Lru K V
  pushed k v c = record c {
    ll = record { id = c.next_id; key = k; value = v } ∷ c.ll;
    items = put_item dec k c.next_id c.items;
    next_id = suc c.next_id;
  }

  unfoldable pub set_locked : K → V → Lru K V → Lru K V × List (K × V)
  set_locked k v c = elim (find_item dec k c.items) [
    | some i ↦ (record c { ll = move_to_front i (set_value i v c.ll) }, [])
    | none ↦ evict (length (pushed k v c).ll) (pushed k v c)
  ]

  -- `Set`
  unfoldable pub set : K → V → Lru K V → Lru K V × List (K × V)
  unfolding set_locked
  set k v c = set_locked k v c

  unfoldable pub delete : K → Lru K V → Lru K V × List (K × V)
  delete k c = elim (find_item dec k c.items) [
    | none ↦ (c, [])
    | some i ↦ elim (at_id i c.ll) [
      | none ↦ (c, [])
      | some e ↦
          (record c { ll = remove_id i c.ll; items = delete_item dec k c.items }, (k, e.value) ∷ [])
    ]
  ]

module _ {ℓ} {K V : Type ℓ} where
  unfoldable pub len : Lru K V → ℕ
  len c = length c.ll

  abbrev pub taken : Option (Element K V) → List (K × V) → List (K × V)
  taken none out = out
  taken (some e) out = (e.key, e.value) ∷ out

  -- what the loop over `c.items` collects; Go walks the map in an order of its own, which is an argument
  unfoldable pub walked : List (K × ℕ) → List (Element K V) → List (K × V)
  walked [] es = []
  walked ((k, i) ∷ order) es = taken (at_id i es) (walked order es)

  unfoldable pub purge : List (K × ℕ) → Lru K V → Lru K V × List (K × V)
  unfolding walked
  purge order c = (record c { ll = []; items = [] }, walked order c.ll)
