-- ===== src/Metadata/PrimaryKeys.antt =====
-- The keys of a table and its map of columns by name.
use breezeorm.Prelude.{
  ℕ, zero, suc, ◌+◌, ◌≡◌, refl, sym, ap, ◌∙◌, subst, Bool, true, false, List, [], ◌∷◌, map, Option,
  none, some, if◌then◌else◌, arith, All, Any, get_elem?, ◌⊎◌, inl, inr, ◌↔◌, ◌≢◌,
}
use breezeorm.Text.{Bytes, lit, bytes_eq, bytes_eq_lem, bytes_eq_sides}
use breezeorm.Metadata.{Column}
use breezeorm.Metadata.KeyPlaces.{
  IsKeyAt, IsAscending, pk_indices-IsAscending, pk_indices-Any, Any-pk_indices,
}
use breezeorm.Metadata.Tags.{to_snake_case_plural}
use breezeorm.Metadata.Walk.{walk_fields}
use breezeorm.Metadata.Compiled.{
  Model, Table, find_name, index_columns, pk_indices, set_pk, default_pk, or_default_pk, name_of,
  compile_struct,
}

abbrev pub names : List Column → List Bytes
names cs = map (λ c. c.name) cs

-- What a name leads to: the place of a column that has it, or nothing where no column has it.
abbrev pub IsPlace : Bytes → List Bytes → Option ℕ → Type 0
IsPlace name ns none = All (λ n. name ≢ n) ns
IsPlace name ns (some i) = get_elem? ns i ≡ some name

-- The same by the code's comparison.
abbrev IsNamed : Bytes → List Bytes → Option ℕ → Type 0
IsNamed name ns none = All (λ n. bytes_eq name n ≡ false) ns
IsNamed name ns (some i) = (n : Bytes) × (get_elem? ns i ≡ some n) × (bytes_eq name n ≡ true)

All-apart :
    (name : Bytes) (ns : List Bytes)
    → All (λ n. bytes_eq name n ≡ false) ns
    → All (λ n. name ≢ n) ns
All-apart name [] h = tt
All-apart name (n ∷ ns) (h, hs) = (bytes_eq_sides name n h, All-apart name ns hs)

IsNamed-IsPlace :
    (name : Bytes) (ns : List Bytes) (o : Option ℕ) → IsNamed name ns o → IsPlace name ns o
IsNamed-IsPlace name ns none h = All-apart name ns h
IsNamed-IsPlace name ns (some i) (n, at, same) = at ∙ ap some (sym (bytes_eq_lem name n same))

-- The last column of a name, where there is one.
last_named : Bytes → List Column → ℕ → Option ℕ → Option ℕ
last_named name [] k o = o
last_named name (c ∷ cs) k o =
    last_named name cs (suc k) (if bytes_eq name c.name then some k else o)

find_name-index_columns :
    (name : Bytes) (cs : List Column) (k : ℕ) (by_name : List (Bytes × ℕ))
    → find_name name (index_columns cs k by_name) ≡ last_named name cs k (find_name name by_name)
unfolding find_name index_columns last_named
find_name-index_columns name [] k by_name = refl
find_name-index_columns name (c ∷ cs) k by_name =
    find_name-index_columns name cs (suc k) ((c.name, k) ∷ by_name)

-- Where a search ends that began at a place and with what was found before.
abbrev EndsWell : Bytes → List Column → ℕ → Option ℕ → Option ℕ → Type 0
EndsWell name cs k o r =
    ((r ≡ o) × All (λ n. bytes_eq name n ≡ false) (names cs))
    ⊎ ((i : ℕ) × (r ≡ some (k + i)) × IsNamed name (names cs) (some i))

last_named-EndsWell :
    (name : Bytes) (cs : List Column) (k : ℕ) (o : Option ℕ)
    → EndsWell name cs k o (last_named name cs k o)
unfolding last_named
last_named-EndsWell name [] k o = inl (refl, tt)
last_named-EndsWell name (c ∷ cs) k o =
    step (bytes_eq name c.name) refl
      (last_named-EndsWell name cs (suc k) (if bytes_eq name c.name then some k else o))
  where
    step :
        (b : Bool)
        → bytes_eq name c.name ≡ b
        → EndsWell name cs
            (suc k)
            (if bytes_eq name c.name then some k else o)
            (last_named name (c ∷ cs) k o)
        → EndsWell name (c ∷ cs) k o (last_named name (c ∷ cs) k o)
    step b e (inr (i, r, named)) = inr (suc i, r ∙ ap some (omega arith), named)
    step true e (inl (r, all)) =
        inr
          (0, r ∙ (ap (λ b. if b then some k else o) e ∙ ap some (omega arith)), (c.name, refl, e))
    step false e (inl (r, all)) = inl (r ∙ ap (λ b. if b then some k else o) e, (e, all))

-- A search through the map of all columns.
find_name-IsNamed :
    (name : Bytes) (cs : List Column)
    → IsNamed name (names cs) (find_name name (index_columns cs 0 []))
unfolding find_name
find_name-IsNamed name cs =
    subst (IsNamed name (names cs)) (sym (find_name-index_columns name cs 0 []))
      (read (last_named name cs 0 none) (last_named-EndsWell name cs 0 none))
  where
    read : (r : Option ℕ) → EndsWell name cs 0 none r → IsNamed name (names cs) r
    read r (inl (e, all)) = subst (IsNamed name (names cs)) (sym e) all
    read r (inr (i, e, named)) =
        subst (IsNamed name (names cs)) (sym (e ∙ ap some (omega arith))) named

names-set_pk : (cs : List Column) (i : ℕ) → names (set_pk cs i) ≡ names cs
unfolding set_pk
names-set_pk [] i = refl
names-set_pk (c ∷ cs) zero = refl
names-set_pk (c ∷ cs) (suc i) = ap (◌∷◌ c.name) (names-set_pk cs i)

no_key :
    (b : Bool) (k : ℕ) (is : List ℕ) → (if b then k ∷ is else is) ≡ [] → (b ≡ false) × (is ≡ [])
no_key true k is h = absurd (ground arith)
no_key false k is h = (refl, h)

-- The only key, once it is set.
pk_indices-set_pk :
    (cs : List Column) (k i : ℕ) (n : Bytes)
    → pk_indices cs k ≡ []
    → get_elem? (names cs) i ≡ some n
    → pk_indices (set_pk cs i) k ≡ (k + i) ∷ []
unfolding pk_indices set_pk
pk_indices-set_pk [] k i n h at = absurd (ground arith)
pk_indices-set_pk (c ∷ cs) k zero n h at =
    let (b, rest) = no_key c.is_pk k (pk_indices cs (suc k)) h in
    ap (◌∷◌ k) rest ∙ ap (λ j. j ∷ []) (omega arith)
pk_indices-set_pk (c ∷ cs) k (suc i) n h at =
    let (b, rest) = no_key c.is_pk k (pk_indices cs (suc k)) h in
    let later = pk_indices (set_pk cs i) (suc k) in
    ap (λ b. if b then k ∷ later else later) b
    ∙ (pk_indices-set_pk cs (suc k) i n rest at ∙ ap (λ j. j ∷ []) (omega arith))

-- The keys as the code finds them, and its map by name.
abbrev IsListed : Table → Type 0
IsListed tbl =
    (tbl.pk_columns ≡ pk_indices tbl.columns 0)
    × ((name : Bytes) → IsNamed name (names tbl.columns) (find_name name tbl.column_by_name))

default_pk-IsListed :
    (o : Option ℕ) (tbl : Table)
    → IsNamed (lit "id") (names tbl.columns) o
    → tbl.pk_columns ≡ []
    → IsListed tbl
    → IsListed (default_pk o tbl)
default_pk-IsListed none tbl id none_yet h = h
default_pk-IsListed (some i) tbl (n, at, same) none_yet (keys, named) = (
  sym (
      pk_indices-set_pk tbl.columns 0 i n (sym keys ∙ none_yet) at
      ∙ ap (λ j. j ∷ []) (omega arith)),
  λ name.
      subst (λ ns. IsNamed name ns (find_name name tbl.column_by_name))
        (sym (names-set_pk tbl.columns i)) (named name),
)

or_default_pk-IsListed :
    (keys : List ℕ) (tbl : Table)
    → tbl.pk_columns ≡ keys
    → IsListed tbl
    → IsListed (or_default_pk keys tbl)
or_default_pk-IsListed (k ∷ ks) tbl e h = h
or_default_pk-IsListed [] tbl e (keys, named) =
    default_pk-IsListed (find_name (lit "id") tbl.column_by_name) tbl (named (lit "id")) e
      (keys, named)

-- There is a key, or else no column is named id.
abbrev pub IsKeyed : Table → Type 0
IsKeyed tbl = ((i : ℕ) × IsKeyAt tbl.columns i) ⊎ All (λ n. lit "id" ≢ n) (names tbl.columns)

first_key :
    (tbl : Table) (i : ℕ) (is : List ℕ) → tbl.pk_columns ≡ i ∷ is → IsListed tbl → IsKeyed tbl
first_key tbl i is e (keys, named) =
    let here : Any (λ x. i ≡ x) (pk_indices tbl.columns 0) =
      subst (λ js. Any (λ x. i ≡ x) js) (sym e ∙ keys) (inl refl) in
    let (j, at, key) = Any-pk_indices tbl.columns 0 i here in inl (j, key)

or_default_pk-IsKeyed :
    (keys : List ℕ) (tbl : Table)
    → tbl.pk_columns ≡ keys
    → IsListed tbl
    → IsKeyed (or_default_pk keys tbl)
or_default_pk-IsKeyed (k ∷ ks) tbl e h = first_key tbl k ks e h
or_default_pk-IsKeyed [] tbl e (keys, named) =
    found (find_name (lit "id") tbl.column_by_name) (named (lit "id"))
  where
    found : (o : Option ℕ) → IsNamed (lit "id") (names tbl.columns) o → IsKeyed (default_pk o tbl)
    found none id = inr (All-apart (lit "id") (names tbl.columns) id)
    found (some i) id =
        first_key (default_pk (some i) tbl) i [] refl
          (default_pk-IsListed (some i) tbl id e (keys, named))

-- The keys are listed in order, each once, and are exactly the columns marked as such; and the map
-- leads a name to a column of that name.
abbrev pub IsIndexed : Table → Type 0
IsIndexed tbl =
    IsAscending 0 tbl.pk_columns
    × ((i : ℕ) → Any (λ j. i ≡ j) tbl.pk_columns ↔ IsKeyAt tbl.columns i)
    × IsKeyed tbl
    × ((name : Bytes) → IsPlace name (names tbl.columns) (find_name name tbl.column_by_name))

IsListed-IsIndexed : (tbl : Table) → IsListed tbl → IsKeyed tbl → IsIndexed tbl
IsListed-IsIndexed tbl (keys, named) keyed = (
  subst (IsAscending 0) (sym keys) (pk_indices-IsAscending tbl.columns 0),
  λ i. (
    λ h.
        let (j, e, key) =
          Any-pk_indices tbl.columns 0 i (subst (λ js. Any (λ x. i ≡ x) js) keys h) in
        subst (IsKeyAt tbl.columns) (omega arith) key,
    λ key.
        subst (λ js. Any (λ x. i ≡ x) js) (sym keys)
          (subst (λ n. Any (λ x. n ≡ x) (pk_indices tbl.columns 0)) (omega arith)
            (pk_indices-Any tbl.columns 0 i key)),
  ),
  keyed,
  λ name. IsNamed-IsPlace name (names tbl.columns) (find_name name tbl.column_by_name) (named name),
)

-- A compiled table lists as its keys, in order and once each, exactly the columns that are marked as keys,
-- also where it had to take the column that is named id, and it has one unless no column is named so; its
-- map by name leads each name to a column of that name, and to nothing exactly where no column has it.
pub compile_struct-IsIndexed : (m : Model) → IsIndexed (compile_struct m)
unfolding compile_struct
compile_struct-IsIndexed m =
    let read = walk_fields m.fields [] 0 (record { columns = []; relations = [] }) in
    let tbl : Table = record {
      name = name_of m.table_name (to_snake_case_plural m.name);
      columns = read.columns;
      column_by_name = index_columns read.columns 0 [];
      pk_columns = pk_indices read.columns 0;
      relations = read.relations;
      size = m.size;
    } in
    let listed : IsListed tbl = (refl, λ name. find_name-IsNamed name read.columns) in
    let keys = pk_indices read.columns 0 in
    IsListed-IsIndexed (or_default_pk keys tbl) (or_default_pk-IsListed keys tbl refl listed)
      (or_default_pk-IsKeyed keys tbl refl listed)
