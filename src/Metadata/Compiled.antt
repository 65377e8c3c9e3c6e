-- ===== src/Metadata/Compiled.antt =====
-- pkg/metadata/metadata.go: `compileStruct`. A pointer to a column is its place in the list of columns.
use breezeorm.Prelude.{ℕ, zero, suc, true, List, [], ◌∷◌, Option, none, some, if◌then◌else◌}
use breezeorm.Text.{Bytes, lit, bytes_eq}
use breezeorm.Metadata.{Fields, Column, Relationship}
use breezeorm.Metadata.Tags.{to_snake_case_plural}
use breezeorm.Metadata.Walk.{walk_fields}

-- A struct type: its name, its fields, its size, and what its `TableName` method gives if it has one.
pub record Model : Type 0 where
  pub name : Bytes
  pub fields : Fields
  pub size : ℕ
  pub table_name : Option Bytes

-- A table; the map by name has the latest entry first.
pub record Table : Type 0 where
  pub name : Bytes
  pub columns : List Column
  pub column_by_name : List (Bytes × ℕ)
  pub pk_columns : List ℕ
  pub relations : List Relationship
  pub size : ℕ

unfoldable pub find_name : Bytes → List (Bytes × ℕ) → Option ℕ
unfolding bytes_eq
find_name name [] = none
find_name name ((n, i) ∷ rest) = if bytes_eq name n then some i else find_name name rest

-- the loop over the columns: their map, and the keys among them
unfoldable pub index_columns : List Column → ℕ → List (Bytes × ℕ) → List (Bytes × ℕ)
index_columns [] i by_name = by_name
index_columns (c ∷ cs) i by_name = index_columns cs (suc i) ((c.name, i) ∷ by_name)

unfoldable pub pk_indices : List Column → ℕ → List ℕ
pk_indices [] i = []
pk_indices (c ∷ cs) i = if c.is_pk then i ∷ pk_indices cs (suc i) else pk_indices cs (suc i)

-- `c.IsPK = true`
unfoldable pub set_pk : List Column → ℕ → List Column
set_pk [] i = []
set_pk (c ∷ cs) zero = record c { is_pk = true } ∷ cs
set_pk (c ∷ cs) (suc i) = c ∷ set_pk cs i

-- without a tagged key, the column that is named id
abbrev pub default_pk : Option ℕ → Table → Table
default_pk none tbl = tbl
default_pk (some i) tbl = record tbl { columns = set_pk tbl.columns i; pk_columns = i ∷ [] }

abbrev pub or_default_pk : List ℕ → Table → Table
or_default_pk (i ∷ is) tbl = tbl
or_default_pk [] tbl = default_pk (find_name (lit "id") tbl.column_by_name) tbl

abbrev pub name_of : Option Bytes → Bytes → Bytes
name_of (some name) derived = name
name_of none derived = derived

unfoldable pub compile_struct : Model → Table
unfolding to_snake_case_plural walk_fields index_columns pk_indices set_pk find_name lit
compile_struct m =
    let found = walk_fields m.fields [] 0 (record { columns = []; relations = [] }) in
    let keys = pk_indices found.columns 0 in
    or_default_pk keys (record {
      name = name_of m.table_name (to_snake_case_plural m.name);
      columns = found.columns;
      column_by_name = index_columns found.columns 0 [];
      pk_columns = keys;
      relations = found.relations;
      size = m.size;
    })
