-- ===== src/Dialect/Postgres.antt =====
-- pkg/dialect/postgres.go
use breezeorm.Prelude.{
  ℕ, true, Option, none, some, List, [], ◌∷◌, ◌++◌, map, if◌then◌else◌, is_empty,
}
use breezeorm.Prelude.Int.{ℤ}
use breezeorm.Text.{Bytes, lit, itoa, format_int, join, bytes_eq}
use breezeorm.Query.{
  LockMode, lock_none, lock_for_update, lock_for_share, lock_for_no_key_update,
  lock_for_update_skip_locked, lock_for_update_no_wait, UpsertConflictTarget,
}
use breezeorm.Dialect.Identifier.{valid_identifier, quote_dotted}
use breezeorm.Dialect.{Dialect}

unfoldable pub placeholder : ℕ → Bytes
unfolding itoa
placeholder n = b'$' ∷ itoa n

unfoldable pub quote_identifier : Bytes → Bytes
unfolding quote_dotted
quote_identifier = quote_dotted b'"' b'"'

unfoldable pub returning_column : Bytes → Bytes
unfolding quote_identifier lit bytes_eq
returning_column c = if bytes_eq c (lit "*") then c else quote_identifier c

unfoldable pub returning_clause : List Bytes → Bytes
unfolding returning_column lit join
returning_clause columns =
    if is_empty columns
    then []
    else lit "RETURNING " ++ join (lit ", ") (map returning_column columns)

unfoldable pub limit_offset : Option ℤ → Option ℤ → Bytes
unfolding lit format_int
limit_offset none none = []
limit_offset (some n) none = lit "LIMIT " ++ format_int n
limit_offset none (some m) = lit "OFFSET " ++ format_int m
limit_offset (some n) (some m) =
    lit "LIMIT " ++ (format_int n ++ (lit " " ++ (lit "OFFSET " ++ format_int m)))

unfoldable pub lock_clause : LockMode → Bytes
unfolding lit
lock_clause lock_for_update = lit "FOR UPDATE"
lock_clause lock_for_share = lit "FOR SHARE"
lock_clause lock_for_no_key_update = lit "FOR NO KEY UPDATE"
lock_clause lock_for_update_skip_locked = lit "FOR UPDATE SKIP LOCKED"
lock_clause lock_for_update_no_wait = lit "FOR UPDATE NOWAIT"
lock_clause lock_none = []

unfoldable pub conflict_target : UpsertConflictTarget → Bytes
unfolding quote_identifier lit join
conflict_target t =
    if is_empty t.constraint
    then if is_empty t.columns
      then []
      else lit "(" ++ (join (lit ", ") (map quote_identifier t.columns) ++ lit ")")
    else lit "ON CONSTRAINT " ++ t.constraint

unfoldable pub upsert_set : Bytes → Bytes
unfolding quote_identifier lit
upsert_set c = quote_identifier c ++ (lit " = EXCLUDED." ++ quote_identifier c)

unfoldable pub upsert_clause : UpsertConflictTarget → List Bytes → Bytes
unfolding conflict_target upsert_set lit join
upsert_clause t columns =
    lit "ON CONFLICT "
    ++ (conflict_target t
        ++ (if is_empty columns
            then lit " DO NOTHING"
            else lit " DO UPDATE SET " ++ join (lit ", ") (map upsert_set columns)))

abbrev pub postgres : Dialect
postgres = record {
  name = lit "postgres";
  placeholder = placeholder;
  quote_identifier = quote_identifier;
  returning_clause = returning_clause;
  limit_offset = limit_offset;
  lock_clause = lock_clause;
  upsert_clause = upsert_clause;
  bulk_insert_supported = true;
  supports_returning = true;
  validate_identifier = valid_identifier;
}
