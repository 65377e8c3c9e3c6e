-- ===== src/Tests/Writing.antt =====
-- A batch on a database that counts its calls.
use breezeorm.Prelude.{ℕ, ◌+◌, ◌≡◌, true, List, [], ◌∷◌, Option, none, some, All}
use breezeorm.Prelude.Int.{ℤ, pos}
use breezeorm.Query.{Value, scalar, int}
use breezeorm.Plugins.{Answer}
use breezeorm.Dialect.Postgres.{postgres}
use breezeorm.Execution.{Failure}
use breezeorm.Execution.Batch.{max_bulk_insert_rows}
use breezeorm.Metadata.{GoType}
use breezeorm.Metadata.Compiled.{compile_struct}
use breezeorm.Orm.{Db}
use breezeorm.Orm.Writes.{Wire}
use breezeorm.Orm.Batch.{insert_batch, chunk_exec}
use breezeorm.Orm.Chunks.{concat, IsChunk, send_all, plain_insert, insert_batch-send_all}
use breezeorm.Tests.Running.{counting, idle}
use breezeorm.Tests.Scanning.{post}

abbrev database : Db ℕ ℕ ℕ
database = record { dialect = postgres; passes = []; plugins = []; plugins_cache_safe = true }

-- Every field of a model is the model plus its offset.
abbrev read_field : ℕ → GoType → ℕ → Value
read_field model type offset = scalar (int (pos (model + offset)))

abbrev gives_up : ℕ → ℕ → Option ℕ
gives_up ctx attempt = none

abbrev error_of : Failure ℕ → ℕ
error_of f = 0

abbrev one_row : ℕ → Answer ℕ ℤ
one_row res = Answer.ok (pos 1)

abbrev wire : Wire ℕ ℕ ℕ ℕ
wire = record { store = idle; reports = [] }

insert_batch-send_all_example :
    (chunks : List (List ℕ)) × (concat chunks ≡ 3 ∷ 4 ∷ [])
    × All (IsChunk max_bulk_insert_rows) chunks
    × (insert_batch database counting gives_up error_of one_row read_field 0 7
          (compile_struct post)
          (3 ∷ 4 ∷ [])
          wire
        ≡ some (
            send_all
              (plain_insert database counting gives_up error_of one_row read_field
                (compile_struct post))
              (chunk_exec database counting gives_up error_of one_row read_field 0 7)
              chunks
              (pos 0)
              wire))
insert_batch-send_all_example =
    insert_batch-send_all database counting gives_up error_of one_row read_field 0 7
      (compile_struct post) (3 ∷ 4 ∷ []) wire
