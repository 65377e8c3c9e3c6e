-- ===== src/Dialect/Sqlite.antt =====
-- pkg/dialect/sqlite.go
use breezeorm.Prelude.{ℕ, true, Option, none, some, List, [], ◌++◌, map, if◌then◌else◌, is_empty}
use breezeorm.Prelude.Int.{ℤ}
use breezeorm.Text.{Bytes, lit, format_int, join, bytes_eq, trim_space}
use breezeorm.Query.{LockMode, UpsertConflictTarget}
use breezeorm.Dialect.Identifier.{valid_identifier, quote_dotted}
use breezeorm.Dialect.{Dialect}

unfoldable pub placeholder : ℕ → Bytes
unfolding lit
placeholder n = lit "?"

unfoldable pub quote_identifier : Bytes → Bytes
unfolding quote_dotted
quote_identifier = quote_dotted b'"' b'"'

unfoldable pub returning_column : Bytes → Bytes
unfolding quote_identifier lit bytes_eq
returning_column c = if bytes_eq c (lit "*") then c else quote_identifier c

unfoldable pub returning_clause : List Bytes → Bytes
unfolding returning_column lit join
returning_clause columns =
    if is_empty columns
    then []
    else lit "RETURNING " ++ join (lit ", ") (map returning_column columns)

unfoldable pub limit_text : Option ℤ → Bytes
unfolding lit format_int
limit_text none = []
limit_text (some n) = lit "LIMIT " ++ format_int n

unfoldable pub limit_offset : Option ℤ → Option ℤ → Bytes
unfolding limit_text lit format_int trim_space
limit_offset limit none = trim_space (limit_text limit)
limit_offset limit (some m) =
    let head = limit_text limit in
    trim_space
      ((if is_empty head then lit "LIMIT -1 " else head) ++ (lit " OFFSET " ++ format_int m))

-- SQLite has no row locks.
unfoldable pub lock_clause : LockMode → Bytes
lock_clause mode = []

unfoldable pub upsert_set : Bytes → Bytes
unfolding quote_identifier lit
upsert_set c = quote_identifier c ++ (lit " = excluded." ++ quote_identifier c)

unfoldable pub upsert_clause : UpsertConflictTarget → List Bytes → Bytes
unfolding quote_identifier upsert_set lit join
upsert_clause t columns =
    lit "ON CONFLICT"
    ++ ((if is_empty t.columns
          then []
          else lit " (" ++ (join (lit ", ") (map quote_identifier t.columns) ++ lit ")"))
        ++ (if is_empty columns
            then lit " DO NOTHING"
            else lit " DO UPDATE SET " ++ join (lit ", ") (map upsert_set columns)))

abbrev pub sqlite : Dialect
sqlite = record {
  name = lit "sqlite";
  placeholder = placeholder;
  quote_identifier = quote_identifier;
  returning_clause = returning_clause;
  limit_offset = limit_offset;
  lock_clause = lock_clause;
  upsert_clause = upsert_clause;
  bulk_insert_supported = true;
  supports_returning = true;
  validate_identifier = valid_identifier;
}
