-- ===== src/Orm/Reads.antt =====
-- pkg/orm/query.go: the operations that read. `count_source` is the rows of the driver when they are
-- scanned into an int64; `fast` is the registry of generated scanners.
use mathlib.Core.Option
use breezeorm.Prelude.{ℕ, Bool, true, false, List, [], ◌∷◌, Option, none, some}
use breezeorm.Prelude.Int.{ℤ, pos, ltb_ℤ}
use breezeorm.Text.{Bytes, lit}
use breezeorm.Query.Builder.{Builder, limit, select}
use breezeorm.Plugins.{Answer}
use breezeorm.Cache.Calls.{World}
use breezeorm.Compiler.{CompiledQuery}
use breezeorm.Execution.{Failure}
use breezeorm.Execution.Statements.{Executor}
use breezeorm.Metadata.{scalar, int64_type}
use breezeorm.Metadata.Compiled.{Table}
use breezeorm.Scanner.Rows.{
  RowsSource, ScanError, iteration_failed, fast_scan_failed, close_failed, scan_failed, no_rows,
  scan_one, scan_one_fast, scan_all_hint,
}
use breezeorm.Orm.{Db, compile_cached, sent}
use breezeorm.Orm.Writes.{
  OrmError, not_compilable, no_rows_found, count_failed, unread, Done, completed, errored, panicked,
  Wire,
}
use breezeorm.Orm.Opening.{Desk, Opened, with_db, read_sent, query_with_plugins, query_and_plan}

-- A registered pair of generated functions; the second may be nil.
pub record FastScan (S E V : Type 0) : Type 0 where
  pub one : V → S → Option E × V × S
  pub all : Option (ℤ → S → Answer (ScanError E) (List V) × S)

module _ {Ctx E Report S Stmt Rows Res V : Type 0} (db : Db Ctx E Report)
    (ex : Executor S E Stmt Rows Res) (gives_up : Ctx → ℕ → Option E) (error_of : Failure E → E)
    (rows_affected : Res → Answer E ℤ) (columns : Rows → S → Answer E (List Bytes) × S)
    (source : Rows → RowsSource S E V) (count_source : Rows → RowsSource S E ℤ)
    (fast : ℕ → Option (FastScan S E V)) where
  abbrev pub find_answer : Answer (ScanError E) (List V) → Done E (List V)
  find_answer (Answer.ok vs) = completed vs
  find_answer (Answer.refused e) = errored (unread e)

  abbrev pub first_error : ScanError E → OrmError E
  first_error no_rows = no_rows_found
  first_error (iteration_failed e) = unread (iteration_failed e)
  first_error (fast_scan_failed e) = unread (fast_scan_failed e)
  first_error (close_failed e) = unread (close_failed e)
  first_error (scan_failed table e) = unread (scan_failed table e)

  abbrev pub first_answer : Answer (ScanError E) V → Done E V
  first_answer (Answer.ok v) = completed v
  first_answer (Answer.refused e) = errored (first_error e)

  abbrev pub all_fast :
      Option (ℤ → S → Answer (ScanError E) (List V) × S)
      → Opened Rows
      → Desk S E Stmt Report
      → Option (Done E (List V) × Desk S E Stmt Report)
  all_fast none o x = some (panicked, x)
  all_fast (some all) o x =
      let (a, s) = all o.hint x.wire.store.db in
      some (find_answer a, with_db db ex gives_up error_of rows_affected columns source x s)

  -- a generated scanner if one is registered, else the scan plan; `zero_value` is a new `T`
  abbrev pub find_scanned :
      ℕ
      → V
      → Option (FastScan S E V)
      → Opened Rows
      → Desk S E Stmt Report
      → Option (Done E (List V) × Desk S E Stmt Report)
  find_scanned fuel zero_value (some f) o x = all_fast f.all o x
  find_scanned fuel zero_value none o x =
      Option.map
        (λ (a, s).
          (find_answer a, with_db db ex gives_up error_of rows_affected columns source x s))
        (scan_all_hint (source o.rows) fuel o.plan zero_value x.wire.store.db)

  abbrev pub find_opened :
      ℕ
      → V
      → Done E (Opened Rows) × Desk S E Stmt Report
      → Option (Done E (List V) × Desk S E Stmt Report)
  find_opened fuel zero_value (completed o, x) = find_scanned fuel zero_value (fast o.key) o x
  find_opened fuel zero_value (errored e, x) = some (errored e, x)
  find_opened fuel zero_value (panicked, x) = some (panicked, x)

  abbrev pub first_scanned :
      V → Option (FastScan S E V) → Opened Rows → S → Answer (ScanError E) V × S
  first_scanned zero_value (some f) o s = scan_one_fast (source o.rows) f.one zero_value s
  first_scanned zero_value none o s = scan_one (source o.rows) o.plan zero_value s

  abbrev pub first_opened :
      V → Done E (Opened Rows) × Desk S E Stmt Report → Done E V × Desk S E Stmt Report
  first_opened zero_value (completed o, x) =
      let (a, s) = first_scanned zero_value (fast o.key) o x.wire.store.db in
      (first_answer a, with_db db ex gives_up error_of rows_affected columns source x s)
  first_opened zero_value (errored e, x) = (errored e, x)
  first_opened zero_value (panicked, x) = (panicked, x)

  abbrev pub if_opened :
      {A : Type 0}
      → (Done E (Opened Rows) × Desk S E Stmt Report → Option A)
      → World ℕ CompiledQuery E × Option (Done E (Opened Rows) × Desk S E Stmt Report)
      → World ℕ CompiledQuery E × Option A
  if_opened next (w, none) = (w, none)
  if_opened next (w, some r) = (w, next r)

  -- `Find`; none is also out of fuel for the rows
  unfoldable pub find :
      ℕ
      → V
      → (Bytes → ℕ)
      → Ctx
      → ℕ
      → Option Table
      → Builder
      → World ℕ CompiledQuery E
      → Desk S E Stmt Report
      → World ℕ CompiledQuery E × Option (Done E (List V) × Desk S E Stmt Report)
  unfolding query_and_plan scan_all_hint
  find fuel zero_value hash ctx nanos table b w x = if_opened (find_opened fuel zero_value) (
      query_and_plan db ex gives_up error_of rows_affected columns source hash ctx nanos table b w
        x)

  -- `First`
  unfoldable pub first :
      V
      → (Bytes → ℕ)
      → Ctx
      → ℕ
      → Option Table
      → Builder
      → World ℕ CompiledQuery E
      → Desk S E Stmt Report
      → World ℕ CompiledQuery E × Option (Done E V × Desk S E Stmt Report)
  unfolding query_and_plan scan_one scan_one_fast
  first zero_value hash ctx nanos table b w x =
      if_opened (λ r. some (first_opened zero_value r))
        (query_and_plan db ex gives_up error_of rows_affected columns source hash ctx nanos table
          (limit b (pos 1)) w x)

  -- the rows of `Count`: the number, unless the rows have an error, and the deferred `Close`
  abbrev pub count_end : ℤ → Option E → Done E ℤ
  count_end n none = completed n
  count_end n (some e) = errored (count_failed e)

  abbrev pub count_scanned : Rows → Option E × ℤ × S → Done E ℤ × S
  count_scanned rows (some e, n, s) = (errored (count_failed e), ((count_source rows).close s).1)
  count_scanned rows (none, n, s) =
      (count_end n ((count_source rows).err s), ((count_source rows).close s).1)

  abbrev pub count_from : Rows → Bool × S → Done E ℤ × S
  count_from rows (true, s) =
      count_scanned rows
        ((count_source rows).scan (record { to = scalar int64_type; address = 0 } ∷ []) (pos 0) s)
  count_from rows (false, s) = count_scanned rows (none, pos 0, s)

  abbrev pub count_opened : Done E Rows × Wire S E Stmt Report → Done E ℤ × Wire S E Stmt Report
  count_opened (completed rows, x) =
      let (n, s) = count_from rows ((count_source rows).advance x.store.db) in
      (n, record { store = record { stmts = x.store.stmts; db = s }; reports = x.reports })
  count_opened (errored e, x) = (errored e, x)
  count_opened (panicked, x) = (panicked, x)

  -- `Count`; the number that it returns beside an error is left out
  unfoldable pub count :
      (Bytes → ℕ)
      → Ctx
      → ℕ
      → Option Table
      → Builder
      → World ℕ CompiledQuery E
      → Wire S E Stmt Report
      → World ℕ CompiledQuery E × Option (Done E ℤ × Wire S E Stmt Report)
  unfolding compile_cached sent query_with_plugins
  count hash ctx nanos none b w x = (w, some (errored not_compilable, x))
  count hash ctx nanos (some table) b w x =
      let counted =
        select b (record { expr = lit "COUNT(*)"; alias = lit "count"; window = none } ∷ []) in
      let (w', reply) = compile_cached hash ctx db counted w in
      (
        w',
        Option.map
            (λ r. count_opened (
              read_sent db ex gives_up error_of rows_affected columns source ctx nanos
                (sent counted r) x))
            reply,
      )

  abbrev pub is_positive : Done E ℤ × Wire S E Stmt Report → Done E Bool × Wire S E Stmt Report
  is_positive (completed n, x) = (completed (ltb_ℤ (pos 0) n), x)
  is_positive (errored e, x) = (errored e, x)
  is_positive (panicked, x) = (panicked, x)

  unfoldable pub exists :
      (Bytes → ℕ)
      → Ctx
      → ℕ
      → Option Table
      → Builder
      → World ℕ CompiledQuery E
      → Wire S E Stmt Report
      → World ℕ CompiledQuery E × Option (Done E Bool × Wire S E Stmt Report)
  unfolding count
  exists hash ctx nanos table b w x =
      let (w', n) = count hash ctx nanos table (limit b (pos 1)) w x in
      (w', Option.map is_positive n)
