-- ===== src/Dialect/Mysql.antt =====
-- pkg/dialect/mysql.go
use breezeorm.Prelude.{
  ℕ, true, false, Option, none, some, List, [], ◌++◌, map, if◌then◌else◌, is_empty,
}
use breezeorm.Prelude.Int.{ℤ}
use breezeorm.Text.{Bytes, lit, format_int, join, trim_space}
use breezeorm.Query.{
  LockMode, lock_none, lock_for_update, lock_for_share, lock_for_no_key_update,
  lock_for_update_skip_locked, lock_for_update_no_wait, UpsertConflictTarget,
}
use breezeorm.Dialect.Identifier.{valid_identifier, quote_dotted}
use breezeorm.Dialect.{Dialect}

unfoldable pub placeholder : ℕ → Bytes
unfolding lit
placeholder n = lit "?"

unfoldable pub quote_identifier : Bytes → Bytes
unfolding quote_dotted
quote_identifier = quote_dotted b'`' b'`'

unfoldable pub returning_clause : List Bytes → Bytes
returning_clause columns = []

unfoldable pub limit_text : Option ℤ → Bytes
unfolding lit format_int
limit_text none = []
limit_text (some n) = lit "LIMIT " ++ format_int n

-- MySQL wants a LIMIT before OFFSET.
unfoldable pub limit_offset : Option ℤ → Option ℤ → Bytes
unfolding limit_text lit format_int trim_space
limit_offset limit none = trim_space (limit_text limit)
limit_offset limit (some m) =
    let head = limit_text limit in
    trim_space (
      (if is_empty head then lit "LIMIT 18446744073709551615 " else head)
      ++ (lit " OFFSET " ++ format_int m))

unfoldable pub lock_clause : LockMode → Bytes
unfolding lit
lock_clause lock_for_update = lit "FOR UPDATE"
lock_clause lock_for_no_key_update = lit "FOR UPDATE"
lock_clause lock_for_share = lit "LOCK IN SHARE MODE"
lock_clause lock_for_update_skip_locked = lit "FOR UPDATE SKIP LOCKED"
lock_clause lock_for_update_no_wait = lit "FOR UPDATE NOWAIT"
lock_clause lock_none = []

unfoldable pub upsert_set : Bytes → Bytes
unfolding quote_identifier lit
upsert_set c = quote_identifier c ++ (lit " = VALUES(" ++ (quote_identifier c ++ lit ")"))

unfoldable pub upsert_clause : UpsertConflictTarget → List Bytes → Bytes
unfolding upsert_set lit join
upsert_clause t columns =
    if is_empty columns
    then []
    else lit "ON DUPLICATE KEY UPDATE " ++ join (lit ", ") (map upsert_set columns)

abbrev pub mysql : Dialect
mysql = record {
  name = lit "mysql";
  placeholder = placeholder;
  quote_identifier = quote_identifier;
  returning_clause = returning_clause;
  limit_offset = limit_offset;
  lock_clause = lock_clause;
  upsert_clause = upsert_clause;
  bulk_insert_supported = true;
  supports_returning = false;
  validate_identifier = valid_identifier;
}
