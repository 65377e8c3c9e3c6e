-- ===== src/Dialect.antt =====
-- pkg/dialect/dialect.go: the interface that every database backend implements. The generator works
-- over any value of it; the four backends are the modules below.
pub mod Identifier
pub mod Postgres
pub mod Mysql
pub mod Sqlite
pub mod Sqlserver
use breezeorm.Prelude.{ℕ, Bool, List, Option}
use breezeorm.Prelude.Int.{ℤ}
use breezeorm.Text.{Bytes}
use breezeorm.Query.{LockMode, UpsertConflictTarget}

-- `validate_identifier` is true where the method returns a nil error.
pub record Dialect : Type 0 where
  pub name : Bytes
  pub placeholder : ℕ → Bytes
  pub quote_identifier : Bytes → Bytes
  pub returning_clause : List Bytes → Bytes
  pub limit_offset : Option ℤ → Option ℤ → Bytes
  pub lock_clause : LockMode → Bytes
  pub upsert_clause : UpsertConflictTarget → List Bytes → Bytes
  pub bulk_insert_supported : Bool
  pub supports_returning : Bool
  pub validate_identifier : Bytes → Bool
