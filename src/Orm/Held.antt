-- ===== src/Orm/Held.antt =====
-- Which rows `queryAndPlanBuilder` leaves open.
use native.Mathlib.Decide.{ℕ_discrete}
use breezeorm.Prelude.{ℕ, List, ◌≡◌, Option, none, some}
use breezeorm.Prelude.Int.{ℤ}
use breezeorm.Text.{Bytes}
use breezeorm.Query.Builder.{Builder}
use breezeorm.Plugins.{Answer, run_before_execute}
use breezeorm.Query.{Value}
use breezeorm.Sqlgen.{Result, ok, err, GeneratedSql}
use breezeorm.Sqlgen.Args.{extract_args_from_builder}
use breezeorm.Cache.Lru.{Lru, get_no_touch}
use breezeorm.Cache.Calls.{Reply, returned, refused, rethrown}
use breezeorm.Compiler.{CompiledQuery}
use breezeorm.Execution.{Store, Failure, Ran, done, broken, crashed}
use breezeorm.Execution.Statements.{Executor, query}
use breezeorm.Execution.Cursors.{IsManaged, Left, query-Left}
use breezeorm.Metadata.Compiled.{Table}
use breezeorm.Scanner.{Plan, Pointer}
use breezeorm.Scanner.Rows.{RowsSource}
use breezeorm.Orm.{Db, Sent, statement, compile_failed, args_failed, sql_failed, sent}
use breezeorm.Orm.Writes.{Done, completed, errored, panicked, Wire, exec_reported}
use breezeorm.Orm.Opening.{
  Desk, Opened, query_allowed, query_with_plugins, read_sent, columns_read, planned, scan_plan,
  with_plan, queried,
}
use breezeorm.Orm.Reads.{FastScan}

-- Of rows that are open: that asking for their columns, advancing and scanning leaves them open, and that
-- closing them leaves none open.
pub record IsClosable {S E Rows V : Type 0} (columns : Rows → S → Answer E (List Bytes) × S)
    (source : Rows → RowsSource S E V) (fast : ℕ → Option (FastScan S E V)) (Quiet : S → Type 0)
    (Owned : Rows → S → Type 0) : Type 0 where
  pub columns_owned : (rows : Rows) (s : S) → Owned rows s → Owned rows (columns rows s).1
  pub advance_owned : (rows : Rows) (s : S) → Owned rows s → Owned rows ((source rows).advance s).1
  pub scan_owned :
      (rows : Rows) (ts : List Pointer) (v : V) (s : S)
      → Owned rows s
      → Owned rows ((source rows).scan ts v s).2
  pub fast_owned :
      (rows : Rows) (key : ℕ) (f : FastScan S E V) (v : V) (s : S)
      → fast key ≡ some f
      → Owned rows s
      → Owned rows (f.one v s).2
  pub close_quiet : (rows : Rows) (s : S) → Owned rows s → Quiet ((source rows).close s).1

module _ {Ctx E Report S Stmt Rows Res V : Type 0} (db : Db Ctx E Report)
    (ex : Executor S E Stmt Rows Res) (gives_up : Ctx → ℕ → Option E) (error_of : Failure E → E)
    (rows_affected : Res → Answer E ℤ) (columns : Rows → S → Answer E (List Bytes) × S)
    (source : Rows → RowsSource S E V) (fast : ℕ → Option (FastScan S E V)) (Quiet : S → Type 0)
    (Owned : Rows → S → Type 0) (managed : IsManaged ex Quiet Owned)
    (closable : IsClosable columns source fast Quiet Owned) where
  -- What opening rows leaves, before they are read.
  abbrev pub Holds : Done E Rows × Wire S E Stmt Report → Type 0
  Holds (completed rows, x) = Owned rows x.store.db
  Holds (errored e, x) = Quiet x.store.db
  Holds (panicked, x) = Quiet x.store.db

  exec_reported-Holds :
      (ctx : Ctx) (sql : Bytes) (nanos : ℕ) (r : Ran E Rows × Store S E Stmt)
      (reports : List Report)
      → Left ex Quiet Owned managed r
      → Holds (exec_reported db ex gives_up error_of rows_affected ctx sql nanos r reports)
  exec_reported-Holds ctx sql nanos (done rows, store) reports l = l
  exec_reported-Holds ctx sql nanos (broken f, store) reports l = l
  exec_reported-Holds ctx sql nanos (crashed, store) reports l = l

  query_allowed-Holds :
      (gen : GeneratedSql) (nanos : ℕ) (a : Answer E Ctx) (x : Wire S E Stmt Report)
      → Quiet x.store.db
      → Holds (query_allowed db ex gives_up error_of rows_affected columns source gen nanos a x)
  query_allowed-Holds gen nanos (Answer.refused e) x q = q
  query_allowed-Holds gen nanos (Answer.ok ctx) x q =
      exec_reported-Holds ctx gen.sql nanos (query ex (gives_up ctx) gen x.store) x.reports
        (query-Left ex Quiet Owned managed gen (gives_up ctx) x.store q)

  read_sent-Holds :
      (ctx : Ctx) (nanos : ℕ) (s : Sent E) (x : Wire S E Stmt Report)
      → Quiet x.store.db
      → Holds (read_sent db ex gives_up error_of rows_affected columns source ctx nanos s x)
  unfolding query_with_plugins
  read_sent-Holds ctx nanos (statement gen) x q =
      query_allowed-Holds gen nanos (run_before_execute db.plugins ctx gen.sql gen.params) x q
  read_sent-Holds ctx nanos (compile_failed e) x q = q
  read_sent-Holds ctx nanos (args_failed e) x q = q
  read_sent-Holds ctx nanos (sql_failed e) x q = q
  read_sent-Holds ctx nanos Sent.crashed x q = q

  -- What the scan plan leaves of rows.
  abbrev pub Planned : Rows → Done E Plan × Desk S E Stmt Report → Type 0
  Planned rows (completed plan, x) = Owned rows x.wire.store.db
  Planned rows (errored e, x) = Quiet x.wire.store.db
  Planned rows (panicked, x) = Quiet x.wire.store.db

  columns_read-Planned :
      (table : Table) (key : ℕ) (rows : Rows) (r : Answer E (List Bytes) × S)
      (x : Desk S E Stmt Report)
      → Owned rows r.1
      → Planned rows
          (columns_read db ex gives_up error_of rows_affected columns source table key rows r x)
  columns_read-Planned table key rows (Answer.refused e, s) x o = closable.close_quiet rows s o
  columns_read-Planned table key rows (Answer.ok names, s) x o = o

  planned-Planned :
      (table : Table) (key : ℕ) (rows : Rows) (hit : Option Plan) (x : Desk S E Stmt Report)
      → Owned rows x.wire.store.db
      → Planned rows
          (planned db ex gives_up error_of rows_affected columns source table key rows hit x)
  planned-Planned table key rows (some plan) x o = o
  planned-Planned table key rows none x o =
      columns_read-Planned table key rows (columns rows x.wire.store.db) x
        (closable.columns_owned rows x.wire.store.db o)

  -- What `queryAndPlanBuilder` leaves.
  abbrev pub Opens : Done E (Opened Rows) × Desk S E Stmt Report → Type 0
  Opens (completed o, x) = Owned o.rows x.wire.store.db
  Opens (errored e, x) = Quiet x.wire.store.db
  Opens (panicked, x) = Quiet x.wire.store.db

  with_plan-Opens :
      (cq : CompiledQuery) (rows : Rows) (r : Done E Plan × Desk S E Stmt Report)
      → Planned rows r
      → Opens (with_plan db ex gives_up error_of rows_affected columns source cq rows r)
  with_plan-Opens cq rows (completed plan, x) h = h
  with_plan-Opens cq rows (errored e, x) h = h
  with_plan-Opens cq rows (panicked, x) h = h

  completed-Opens :
      (table : Table) (cq : CompiledQuery) (r : Done E Rows × Wire S E Stmt Report)
      (plans : Lru ℕ Plan)
      → Holds r
      → Opens (
          queried db ex gives_up error_of rows_affected columns source table
            (returned (some cq))
            r
            plans)
  unfolding scan_plan
  completed-Opens table cq (completed rows, wire) plans h =
      let (hit, plans') = get_no_touch ℕ_discrete cq.cache_key plans in
      let x : Desk S E Stmt Report = record { plans = plans'; wire = wire } in
      with_plan-Opens cq rows
        (planned db ex gives_up error_of rows_affected columns source table cq.cache_key rows hit x)
        (planned-Planned table cq.cache_key rows hit x h)
  completed-Opens table cq (errored e, wire) plans h = h
  completed-Opens table cq (panicked, wire) plans h = h

  -- A nil query is used, if its arguments were collected.
  nil_query-Opens :
      (ctx : Ctx) (nanos : ℕ) (table : Table) (o : Result (List Value)) (x : Desk S E Stmt Report)
      → Quiet x.wire.store.db
      → Opens (
          queried db ex gives_up error_of rows_affected columns source table
            (returned none)
            (read_sent db ex gives_up error_of rows_affected columns source ctx nanos
              (elim o [ err e ↦ args_failed e | ok args ↦ Sent.crashed ])
              x.wire)
            x.plans)
  nil_query-Opens ctx nanos table (err e) x q = q
  nil_query-Opens ctx nanos table (ok args) x q = q

  pub queried-Opens :
      (ctx : Ctx) (nanos : ℕ) (table : Table) (b : Builder) (r : Reply CompiledQuery E)
      (x : Desk S E Stmt Report)
      → Quiet x.wire.store.db
      → Opens (
          queried db ex gives_up error_of rows_affected columns source table r
            (read_sent db ex gives_up error_of rows_affected columns source ctx nanos
              (sent b r)
              x.wire)
            x.plans)
  unfolding sent
  queried-Opens ctx nanos table b (refused e) x q = q
  queried-Opens ctx nanos table b rethrown x q = q
  queried-Opens ctx nanos table b (returned none) x q =
      nil_query-Opens ctx nanos table (extract_args_from_builder b) x q
  queried-Opens ctx nanos table b (returned (some cq)) x q =
      completed-Opens table cq
        (read_sent db ex gives_up error_of rows_affected columns source ctx nanos
          (sent b (returned (some cq))) x.wire)
        x.plans (read_sent-Holds ctx nanos (sent b (returned (some cq))) x.wire q)
