-- ===== src/Sqlgen/Bulk.antt =====
-- `GenerateBulkInsert` of pkg/sqlgen/sqlgen.go.
use breezeorm.Prelude.{
  ℕ, suc, List, [], ◌∷◌, Option, none, some, length, ◌==◌, if◌then◌else◌, is_empty,
}
use breezeorm.Text.{Bytes, lit}
use breezeorm.Query.{Value}
use breezeorm.Dialect.{Dialect}
use breezeorm.Sqlgen.{
  SqlGen, ◌▷◌, start, write, separated, write_ident, write_bind, Result, err, GeneratedSql,
  no_bulk_insert, no_rows, row_width,
}
use breezeorm.Sqlgen.Statement.{write_idents, write_suffix, finish}

-- The first row, counted from `i`, whose length is not the number of columns.
unfoldable pub bad_row : ℕ → ℕ → List (List Value) → Option ℕ
bad_row i width [] = none
bad_row i width (r ∷ rs) =
    let rest = bad_row (suc i) width rs in if length r == width then rest else some i

module _ (d : Dialect) where
  unfoldable pub write_row : List Value → SqlGen → SqlGen
  write_row row g = g ▷ write (lit "(") ▷ separated (lit ", ") (write_bind d) row ▷ write (lit ")")

  unfoldable pub gen_rows : Bytes → List Bytes → List (List Value) → SqlGen → SqlGen
  gen_rows table columns rows g =
      g
      ▷ write (lit "INSERT INTO ")
      ▷ write_ident d table
      ▷ write (lit " (")
      ▷ write_idents d columns
      ▷ write (lit ") VALUES ")
      ▷ separated (lit ", ") write_row rows
      ▷ write_suffix (d.returning_clause (lit "*" ∷ []))

  unfoldable pub generate_bulk_insert : Bytes → List Bytes → List (List Value) → Result GeneratedSql
  generate_bulk_insert table columns rows =
      if d.bulk_insert_supported
      then if is_empty rows then err no_rows else elim (bad_row 0 (length columns) rows) [
        | some i ↦ err (row_width i)
        | none ↦ finish (gen_rows table columns rows start)
      ]
      else err no_bulk_insert
