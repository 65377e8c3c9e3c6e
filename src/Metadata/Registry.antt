-- ===== src/Metadata/Registry.antt =====
-- pkg/metadata/metadata.go: `Compile` and its registry, a copy-on-write map from a type, which is a number
-- here, to an entry that is compiled once. An entry is a pointer: a place in the list of entries. One
-- caller after the other is modelled, which the write lock and `sync.Once` make of several.
use breezeorm.Prelude.{
  ℕ, List, [], ◌∷◌, ◌++◌, length, get_elem?, set_elem, Option, none, some, if◌then◌else◌, ◌==◌,
}
use breezeorm.Metadata.Compiled.{Model, Table, compile_struct}

-- A type: a struct, a pointer to a type, or anything else.
pub data ModelType : Type 0 where
  struct_model : ℕ → Model → ModelType
  pointer_model : ModelType → ModelType
  no_struct : ModelType

-- An entry has its table once it was compiled.
pub record Registry : Type 0 where
  pub snapshot : List (ℕ × ℕ)
  pub entries : List (Option Table)

unfoldable pub find_entry : ℕ → List (ℕ × ℕ) → Option ℕ
find_entry t [] = none
find_entry t ((u, i) ∷ rest) = if t == u then some i else find_entry t rest

-- the slow path: a map with the new entry takes the place of the old one
abbrev pub added_entry : ℕ → Option ℕ → Registry → ℕ × Registry
added_entry t (some i) r = (i, r)
added_entry t none r = (
  length r.entries,
  record { snapshot = (t, length r.entries) ∷ r.snapshot; entries = r.entries ++ (none ∷ []) },
)

unfoldable pub get_or_create_entry : ℕ → Registry → ℕ × Registry
unfolding find_entry
get_or_create_entry t r = added_entry t (find_entry t r.snapshot) r

-- `e.once.Do`, on what the entry holds
abbrev pub compiled_once : Model → ℕ → Option (Option Table) → Registry → Option Table × Registry
compiled_once m i (some (some table)) r = (some table, r)
compiled_once m i (some none) r =
    let table = compile_struct m in
    (some table, record r { entries = set_elem r.entries i (some table) })
compiled_once m i none r = (none, r)

-- `Compile`; none is the error for a type that is no struct
unfoldable pub compile_type : ModelType → Registry → Option Table × Registry
unfolding get_or_create_entry compile_struct
compile_type no_struct r = (none, r)
compile_type (pointer_model t) r = compile_type t r
compile_type (struct_model t m) r =
    let (i, r') = get_or_create_entry t r in compiled_once m i (get_elem? r'.entries i) r'
