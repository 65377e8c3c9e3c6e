-- ===== src/Migrations/Diff.antt =====
-- pkg/migrations/diff.go: what a database lacks of the schema that the models imply. Of the metadata of a
-- model only the names are read, which is all that a `WantedTable` has.
use breezeorm.Prelude.{
  Bool, true, false, List, [], ◌∷◌, ◌++◌, map, Option, none, some, if◌then◌else◌,
}
use breezeorm.Text.{Bytes, bytes_eq}

pub record WantedTable : Type 0 where
  pub name : Bytes
  pub columns : List Bytes
  pub indexes : List Bytes

pub record ColumnInfo : Type 0 where
  pub name : Bytes
  pub db_type : Bytes
  pub nullable : Bool
  pub default : Bytes

pub record IndexInfo : Type 0 where
  pub name : Bytes
  pub columns : List Bytes
  pub unique : Bool

pub record ConstraintInfo : Type 0 where
  pub name : Bytes
  pub kind : Bytes

pub record TableInfo : Type 0 where
  pub name : Bytes
  pub columns : List ColumnInfo
  pub indexes : List IndexInfo
  pub constraints : List ConstraintInfo

pub record ColumnDiff : Type 0 where
  pub table : Bytes
  pub column : Bytes

pub record IndexDiff : Type 0 where
  pub table : Bytes
  pub index : Bytes

pub record SchemaDiff : Type 0 where
  pub create_tables : List Bytes
  pub add_columns : List ColumnDiff
  pub drop_columns : List ColumnDiff
  pub add_indexes : List IndexDiff
  pub drop_indexes : List IndexDiff

-- `var d SchemaDiff`
abbrev pub no_diff : SchemaDiff
no_diff = record {
  create_tables = [];
  add_columns = [];
  drop_columns = [];
  add_indexes = [];
  drop_indexes = [];
}

-- `actualTables[name]`: of two tables with one name the map keeps the later one
unfoldable pub table_named : Bytes → List TableInfo → Option TableInfo
table_named name [] = none
table_named name (t ∷ ts) =
    let later = table_named name ts in
    elim later [ some u ↦ some u | none ↦ if bytes_eq t.name name then some t else none ]

abbrev pub has_name : Bytes → List Bytes → Bool
has_name name [] = false
has_name name (n ∷ ns) = if bytes_eq n name then true else has_name name ns

-- The wanted names that are not there.
unfoldable pub missing : List Bytes → List Bytes → List Bytes
missing [] there = []
missing (n ∷ ns) there = if has_name n there then missing ns there else n ∷ missing ns there

abbrev pub column_names : TableInfo → List Bytes
column_names t = map (λ c. c.name) t.columns

abbrev pub index_names : TableInfo → List Bytes
index_names t = map (λ i. i.name) t.indexes

-- the round of the loop for a table that there is
unfoldable pub diff_found : WantedTable → TableInfo → SchemaDiff → SchemaDiff
unfolding missing
diff_found want got d = record d {
  add_columns =
      d.add_columns
      ++ map (λ c. record { table = want.name; column = c })
          (missing want.columns (column_names got));
  add_indexes =
      d.add_indexes
      ++ map (λ i. record { table = want.name; index = i })
          (missing want.indexes (index_names got));
}

-- one round of the loop
unfoldable pub diff_table : WantedTable → Option TableInfo → SchemaDiff → SchemaDiff
unfolding diff_found
diff_table want none d = record d { create_tables = d.create_tables ++ (want.name ∷ []) }
diff_table want (some got) d = diff_found want got d

unfoldable pub diff_from : List TableInfo → List WantedTable → SchemaDiff → SchemaDiff
unfolding diff_table table_named
diff_from actual [] d = d
diff_from actual (want ∷ wants) d =
    diff_from actual wants (diff_table want (table_named want.name actual) d)

-- `Diff`
unfoldable pub diff : List WantedTable → List TableInfo → SchemaDiff
unfolding diff_from
diff desired actual = diff_from actual desired no_diff
