-- ===== src/Execution/Batch.antt =====
-- pkg/execution/batch.go: the bound on the rows of one INSERT.
use breezeorm.Prelude.{ℕ, ltb, List, length, if◌then◌else◌}
use breezeorm.Text.{Bytes}
use breezeorm.Query.{Value}
use breezeorm.Dialect.{Dialect}
use breezeorm.Plugins.{Answer}
use breezeorm.Sqlgen.{Error, Result, ok, err, GeneratedSql}
use breezeorm.Sqlgen.Bulk.{generate_bulk_insert}

abbrev pub max_bulk_insert_rows : ℕ
max_bulk_insert_rows = 5000

pub data BulkError : Type 0 where
  too_many_rows : ℕ → BulkError
  not_generated : Error → BulkError

abbrev pub bulk_answer : Result GeneratedSql → Answer BulkError GeneratedSql
bulk_answer (ok gen) = Answer.ok gen
bulk_answer (err e) = Answer.refused (not_generated e)

unfoldable pub bounded_bulk_insert :
    Dialect → Bytes → List Bytes → List (List Value) → Answer BulkError GeneratedSql
unfolding generate_bulk_insert
bounded_bulk_insert d table columns rows =
    if ltb max_bulk_insert_rows (length rows)
    then Answer.refused (too_many_rows (length rows))
    else bulk_answer (generate_bulk_insert d table columns rows)
