-- ===== src/Dialect/Sqlserver.antt =====
-- pkg/dialect/sqlserver.go
use breezeorm.Prelude.{ℕ, true, Option, none, some, List, [], ◌++◌, map, if◌then◌else◌, is_empty}
use breezeorm.Prelude.Int.{ℤ, pos}
use breezeorm.Text.{Bytes, lit, itoa, format_int, join, bytes_eq}
use breezeorm.Query.{
  LockMode, lock_none, lock_for_update, lock_for_share, lock_for_no_key_update,
  lock_for_update_skip_locked, lock_for_update_no_wait, UpsertConflictTarget,
}
use breezeorm.Dialect.Identifier.{valid_identifier, quote_dotted}
use breezeorm.Dialect.{Dialect}

unfoldable pub placeholder : ℕ → Bytes
unfolding lit itoa
placeholder n = lit "@p" ++ itoa n

unfoldable pub quote_identifier : Bytes → Bytes
unfolding quote_dotted
quote_identifier = quote_dotted b'[' b']'

unfoldable pub returning_column : Bytes → Bytes
unfolding quote_identifier lit bytes_eq
returning_column c =
    if bytes_eq c (lit "*") then lit "INSERTED.*" else lit "INSERTED." ++ quote_identifier c

unfoldable pub returning_clause : List Bytes → Bytes
unfolding returning_column lit join
returning_clause columns =
    if is_empty columns then [] else lit "OUTPUT " ++ join (lit ", ") (map returning_column columns)

abbrev offset_or_zero : Option ℤ → ℤ
offset_or_zero none = pos 0
offset_or_zero (some m) = m

abbrev fetch_text : Option ℤ → Bytes
fetch_text none = []
fetch_text (some n) = lit " FETCH NEXT " ++ (format_int n ++ lit " ROWS ONLY")

unfoldable pub limit_offset : Option ℤ → Option ℤ → Bytes
unfolding lit format_int
limit_offset none none = []
limit_offset limit offset =
    lit "OFFSET " ++ (format_int (offset_or_zero offset) ++ (lit " ROWS" ++ fetch_text limit))

unfoldable pub lock_clause : LockMode → Bytes
unfolding lit
lock_clause lock_for_update = lit "WITH (UPDLOCK, ROWLOCK)"
lock_clause lock_for_no_key_update = lit "WITH (UPDLOCK, ROWLOCK)"
lock_clause lock_for_share = lit "WITH (HOLDLOCK, ROWLOCK)"
lock_clause lock_for_update_skip_locked = lit "WITH (UPDLOCK, ROWLOCK, READPAST)"
lock_clause lock_for_update_no_wait = lit "WITH (UPDLOCK, ROWLOCK, NOWAIT)"
lock_clause lock_none = []

unfoldable pub upsert_clause : UpsertConflictTarget → List Bytes → Bytes
unfolding lit
upsert_clause t columns = lit "-- MERGE upsert: see sqlgen.BuildMerge"

abbrev pub sqlserver : Dialect
sqlserver = record {
  name = lit "sqlserver";
  placeholder = placeholder;
  quote_identifier = quote_identifier;
  returning_clause = returning_clause;
  limit_offset = limit_offset;
  lock_clause = lock_clause;
  upsert_clause = upsert_clause;
  bulk_insert_supported = true;
  supports_returning = true;
  validate_identifier = valid_identifier;
}
