-- ===== src/Orm/Batch.antt =====
-- pkg/orm/query.go: what `CreateBatch` does in its transaction.
use breezeorm.Prelude.{
  ℕ, zero, suc, ◌+◌, ◌%◌, List, [], ◌∷◌, map, length, take, drop, Option, none, some,
}
use breezeorm.Prelude.Int.{ℤ, pos, word_mod, to_word, of_word}
use breezeorm.Query.{Value}
use breezeorm.Plugins.{Answer}
use breezeorm.Sqlgen.{GeneratedSql}
use breezeorm.Execution.{Failure}
use breezeorm.Execution.Statements.{Executor}
use breezeorm.Execution.Batch.{BulkError, bounded_bulk_insert, max_bulk_insert_rows}
use breezeorm.Metadata.{GoType}
use breezeorm.Metadata.Compiled.{Table}
use breezeorm.Orm.{Db}
use breezeorm.Orm.Values.{batch_columns, row_values}
use breezeorm.Orm.Writes.{
  Done, completed, errored, panicked, bulk_refused, Wire, affected, exec_with_plugins,
}

-- `int64` addition
unfoldable pub add64 : ℤ → ℤ → ℤ
add64 a b = of_word ((to_word a + to_word b) % word_mod)

-- The loop of `CreateBatch`, over any way to send a statement, with `most` rows to a statement; none is
-- out of fuel, of which each chunk takes one.
module _ {E V X : Type 0} (most : ℕ) (bulk : List V → Answer BulkError GeneratedSql)
    (send : GeneratedSql → X → Done E ℤ × X) where
  abbrev pub chunk_sent : (ℤ → X → Option (Done E ℤ × X)) → ℤ → Done E ℤ × X → Option (Done E ℤ × X)
  chunk_sent next total (completed n, x) = next (add64 total n) x
  chunk_sent next total (errored e, x) = some (errored e, x)
  chunk_sent next total (panicked, x) = some (panicked, x)

  abbrev pub chunk_generated :
      (ℤ → X → Option (Done E ℤ × X))
      → ℤ
      → Answer BulkError GeneratedSql
      → X
      → Option (Done E ℤ × X)
  chunk_generated next total (Answer.refused e) x = some (errored (bulk_refused e), x)
  chunk_generated next total (Answer.ok gen) x = chunk_sent next total (send gen x)

  unfoldable pub insert_chunks : ℕ → List V → ℤ → X → Option (Done E ℤ × X)
  insert_chunks zero models total x = none
  insert_chunks (suc fuel) [] total x = some (completed total, x)
  insert_chunks (suc fuel) (m ∷ ms) total x =
      chunk_generated (insert_chunks fuel (drop most (m ∷ ms))) total (bulk (take most (m ∷ ms))) x

module _ {Ctx E Report S Stmt Rows Res V : Type 0} (db : Db Ctx E Report)
    (ex : Executor S E Stmt Rows Res) (gives_up : Ctx → ℕ → Option E) (error_of : Failure E → E)
    (rows_affected : Res → Answer E ℤ) (read_at : V → GoType → ℕ → Value) where
  abbrev pub chunk_insert : Table → List V → Answer BulkError GeneratedSql
  chunk_insert table chunk =
      let (names, matched) = batch_columns table.columns in
      bounded_bulk_insert db.dialect table.name names
        (map (λ m. row_values read_at m matched) chunk)

  abbrev pub chunk_exec :
      Ctx → ℕ → GeneratedSql → Wire S E Stmt Report → Done E ℤ × Wire S E Stmt Report
  chunk_exec ctx nanos gen x =
      affected db ex gives_up error_of rows_affected
        (exec_with_plugins db ex gives_up error_of rows_affected ctx nanos gen x)

  -- One attempt of the transaction.
  unfoldable pub insert_batch :
      Ctx → ℕ → Table → List V → Wire S E Stmt Report → Option (Done E ℤ × Wire S E Stmt Report)
  unfolding insert_chunks
  insert_batch ctx nanos table models x =
      insert_chunks max_bulk_insert_rows (chunk_insert table) (chunk_exec ctx nanos)
        (suc (length models)) models (pos 0) x
