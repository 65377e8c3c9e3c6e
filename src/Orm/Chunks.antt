-- ===== src/Orm/Chunks.antt =====
-- Which statements `CreateBatch` sends in one attempt.
use breezeorm.Prelude.{
  ℕ, zero, suc, ◌≤◌, ◌<◌, ◌≡◌, refl, ap, ◌∙◌, false, ltb, List, [], ◌∷◌, ◌++◌, map, length, take,
  drop, Option, some, All, arith, if◌then◌else◌,
}
use breezeorm.Prelude.Int.{ℤ, pos}
use breezeorm.Text.{Bytes}
use breezeorm.Query.{Value}
use breezeorm.Dialect.{Dialect}
use breezeorm.Plugins.{Answer}
use breezeorm.Sqlgen.{GeneratedSql}
use breezeorm.Sqlgen.Bulk.{generate_bulk_insert}
use breezeorm.Execution.{Failure}
use breezeorm.Execution.Statements.{Executor}
use breezeorm.Execution.Batch.{
  BulkError, too_many_rows, bulk_answer, bounded_bulk_insert, max_bulk_insert_rows,
}
use breezeorm.Metadata.{GoType}
use breezeorm.Metadata.Compiled.{Table}
use breezeorm.Orm.{Db}
use breezeorm.Orm.Values.{batch_columns, row_values}
use breezeorm.Orm.Writes.{Done, completed, errored, panicked, bulk_refused, Wire}
use breezeorm.Orm.Batch.{
  add64, chunk_sent, chunk_generated, insert_chunks, chunk_insert, chunk_exec, insert_batch,
}

abbrev pub concat : {V : Type 0} → List (List V) → List V
concat [] = []
concat (c ∷ cs) = c ++ concat cs

take-drop : {V : Type 0} (n : ℕ) (xs : List V) → take n xs ++ drop n xs ≡ xs
take-drop zero xs = refl
take-drop (suc n) [] = refl
take-drop (suc n) (x ∷ xs) = ap (◌∷◌ x) (take-drop n xs)

length-take : {V : Type 0} (n : ℕ) (xs : List V) → length (take n xs) ≤ n
length-take zero xs = omega arith
length-take (suc n) [] = omega arith
length-take (suc n) (x ∷ xs) = omega (arith, length-take n xs)

length-drop : {V : Type 0} (n : ℕ) (xs : List V) → length (drop n xs) ≤ length xs
length-drop zero xs = omega arith
length-drop (suc n) [] = omega arith
length-drop (suc n) (x ∷ xs) = omega (arith, length-drop n xs)

-- A chunk has a row, and no more than a number of them.
abbrev pub IsChunk : {V : Type 0} → ℕ → List V → Type 0
IsChunk most chunk = (0 < length chunk) × (length chunk ≤ most)

take-IsChunk : {V : Type 0} (n : ℕ) (x : V) (xs : List V) → 0 < n → IsChunk n (take n (x ∷ xs))
take-IsChunk zero x xs h = absurd (omega arith)
take-IsChunk (suc n) x xs h = (omega arith, omega (arith, length-take n xs))

drop-shorter :
    {V : Type 0} (n fuel : ℕ) (x : V) (xs : List V)
    → 0 < n
    → length (x ∷ xs) < suc fuel
    → length (drop n (x ∷ xs)) < fuel
drop-shorter zero fuel x xs h k = absurd (omega arith)
drop-shorter (suc n) fuel x xs h k = omega (arith, length-drop n xs)

-- The chunks as statements, one after the other, up to the first that fails; the counts add up.
module _ {E V X : Type 0} (bulk : List V → Answer BulkError GeneratedSql)
    (send : GeneratedSql → X → Done E ℤ × X) where
  abbrev pub then_sent : (ℤ → X → Done E ℤ × X) → ℤ → Done E ℤ × X → Done E ℤ × X
  then_sent next total (completed n, x) = next (add64 total n) x
  then_sent next total (errored e, x) = (errored e, x)
  then_sent next total (panicked, x) = (panicked, x)

  abbrev pub then_generated :
      (ℤ → X → Done E ℤ × X) → ℤ → Answer BulkError GeneratedSql → X → Done E ℤ × X
  then_generated next total (Answer.refused e) x = (errored (bulk_refused e), x)
  then_generated next total (Answer.ok gen) x = then_sent next total (send gen x)

  abbrev pub send_all : List (List V) → ℤ → X → Done E ℤ × X
  send_all [] total x = (completed total, x)
  send_all (c ∷ cs) total x = then_generated (send_all cs) total (bulk c) x

module _ {E V X : Type 0} (most : ℕ) (bulk plain : List V → Answer BulkError GeneratedSql)
    (send : GeneratedSql → X → Done E ℤ × X) (positive : 0 < most)
    (agree : (chunk : List V) → length chunk ≤ most → bulk chunk ≡ plain chunk) where
  chunk_sent-then_sent :
      (loop : ℤ → X → Option (Done E ℤ × X)) (all : ℤ → X → Done E ℤ × X) (total : ℤ)
      (r : Done E ℤ × X)
      → ((t : ℤ) (y : X) → loop t y ≡ some (all t y))
      → chunk_sent most bulk send loop total r ≡ some (then_sent plain send all total r)
  chunk_sent-then_sent loop all total (completed n, x) h = h (add64 total n) x
  chunk_sent-then_sent loop all total (errored e, x) h = refl
  chunk_sent-then_sent loop all total (panicked, x) h = refl

  chunk_generated-then_generated :
      (loop : ℤ → X → Option (Done E ℤ × X)) (all : ℤ → X → Done E ℤ × X) (total : ℤ)
      (a : Answer BulkError GeneratedSql) (x : X)
      → ((t : ℤ) (y : X) → loop t y ≡ some (all t y))
      → chunk_generated most bulk send loop total a x
        ≡ some (then_generated plain send all total a x)
  chunk_generated-then_generated loop all total (Answer.refused e) x h = refl
  chunk_generated-then_generated loop all total (Answer.ok gen) x h =
      chunk_sent-then_sent loop all total (send gen x) h

  -- The models cut into chunks whose statements are sent in order.
  abbrev pub IsSent : ℕ → List V → Type 0
  IsSent fuel models =
      (chunks : List (List V)) × (concat chunks ≡ models)
      × All (IsChunk most) chunks
      × ((total : ℤ) (x : X)
          → insert_chunks most bulk send fuel models total x
            ≡ some (send_all plain send chunks total x))

  insert_chunks-IsSent : (fuel : ℕ) (models : List V) → length models < fuel → IsSent fuel models
  unfolding insert_chunks
  insert_chunks-IsSent zero models h = absurd (omega arith)
  insert_chunks-IsSent (suc fuel) [] h = ([], refl, tt, λ total x. refl)
  insert_chunks-IsSent (suc fuel) (m ∷ ms) h =
      let rest = drop most (m ∷ ms) in
      let chunk = take most (m ∷ ms) in
      let (chunks, whole, sizes, sent) =
        insert_chunks-IsSent fuel rest (drop-shorter most fuel m ms positive h) in
      let is_chunk = take-IsChunk most m ms positive in
      (
        chunk ∷ chunks,
        ap (λ r. chunk ++ r) whole ∙ take-drop most (m ∷ ms),
        (is_chunk, sizes),
        λ total x.
            chunk_generated-then_generated (insert_chunks most bulk send fuel rest)
              (send_all plain send chunks) total (bulk chunk) x sent
            ∙ ap (λ a. some (then_generated plain send (send_all plain send chunks) total a x))
                (agree chunk is_chunk.1),
      )

-- Within the bound it makes no difference.
bounded_bulk_insert_lem :
    (d : Dialect) (table : Bytes) (columns : List Bytes) (rows : List (List Value))
    → length rows ≤ max_bulk_insert_rows
    → bounded_bulk_insert d table columns rows
      ≡ bulk_answer (generate_bulk_insert d table columns rows)
unfolding bounded_bulk_insert
bounded_bulk_insert_lem d table columns rows h =
    let within : ltb max_bulk_insert_rows (length rows) ≡ false = ground arith in
    ap
      (λ b.
        if b
        then Answer.refused (too_many_rows (length rows))
        else bulk_answer (generate_bulk_insert d table columns rows))
      within

module _ {Ctx E Report S Stmt Rows Res V : Type 0} (db : Db Ctx E Report)
    (ex : Executor S E Stmt Rows Res) (gives_up : Ctx → ℕ → Option E) (error_of : Failure E → E)
    (rows_affected : Res → Answer E ℤ) (read_at : V → GoType → ℕ → Value) where
  -- The INSERT of a chunk, as pkg/sqlgen makes it for any number of rows.
  abbrev pub plain_insert : Table → List V → Answer BulkError GeneratedSql
  plain_insert table chunk =
      let (names, matched) = batch_columns table.columns in
      bulk_answer (
        generate_bulk_insert db.dialect table.name names
          (map (λ m. row_values read_at m matched) chunk))

  length-map : {A B : Type 0} (f : A → B) (xs : List A) → length (map f xs) ≡ length xs
  length-map f [] = refl
  length-map f (x ∷ xs) = ap suc (length-map f xs)

  chunk_insert-plain_insert :
      (table : Table) (chunk : List V)
      → length chunk ≤ max_bulk_insert_rows
      → chunk_insert db ex gives_up error_of rows_affected read_at table chunk
        ≡ plain_insert table chunk
  chunk_insert-plain_insert table chunk h =
      let (names, matched) = batch_columns table.columns in
      let rows = map (λ m. row_values read_at m matched) chunk in
      bounded_bulk_insert_lem db.dialect table.name names rows
        (omega (arith, h, length-map (λ m. row_values read_at m matched) chunk))

  -- One attempt of CreateBatch comes to an end: it cuts the models into chunks of one to 5000, which
  -- together are all the models in order, and sends the INSERT of each chunk in order, up to the first
  -- that fails; the bound on the rows of a statement refuses none of them, and the total is the sum of
  -- what the statements affected.
  pub insert_batch-send_all :
      (ctx : Ctx) (nanos : ℕ) (table : Table) (models : List V) (x : Wire S E Stmt Report)
      → (chunks : List (List V)) × (concat chunks ≡ models)
        × All (IsChunk max_bulk_insert_rows) chunks
        × (insert_batch db ex gives_up error_of rows_affected read_at ctx nanos table models x
            ≡ some (
                send_all
                  (plain_insert table)
                  (chunk_exec db ex gives_up error_of rows_affected read_at ctx nanos)
                  chunks
                  (pos 0)
                  x))
  unfolding insert_batch
  insert_batch-send_all ctx nanos table models x =
      let (chunks, whole, sizes, sent) =
        insert_chunks-IsSent max_bulk_insert_rows
          (chunk_insert db ex gives_up error_of rows_affected read_at table) (plain_insert table)
          (chunk_exec db ex gives_up error_of rows_affected read_at ctx nanos) (omega arith)
          (chunk_insert-plain_insert table) (suc (length models)) models (omega arith) in
      (chunks, whole, sizes, sent (pos 0) x)
