-- ===== src/Orm/Opening.antt =====
-- pkg/orm/query.go: `queryAndPlanBuilder`. `columns` and `source` are the driver's rows.
use native.Mathlib.Decide.{ℕ_discrete}
use mathlib.Core.Option
use breezeorm.Prelude.{ℕ, List, Option, none, some}
use breezeorm.Prelude.Int.{ℤ}
use breezeorm.Text.{Bytes}
use breezeorm.Query.Builder.{Builder}
use breezeorm.Plugins.{Answer, run_before_execute}
use breezeorm.Sqlgen.{GeneratedSql}
use breezeorm.Cache.Lru.{Lru, get_no_touch, set}
use breezeorm.Cache.Calls.{World, Reply, returned}
use breezeorm.Compiler.{CompiledQuery}
use breezeorm.Execution.{Failure}
use breezeorm.Execution.Statements.{Executor, query}
use breezeorm.Metadata.Compiled.{Table}
use breezeorm.Scanner.{Plan, compile_plan}
use breezeorm.Scanner.Rows.{RowsSource}
use breezeorm.Orm.{
  Db, Sent, statement, compile_failed, args_failed, sql_failed, compile_cached, sent,
}
use breezeorm.Orm.Writes.{
  not_compilable, before_execute_failed, compile_refused, args_refused, sql_refused, columns_failed,
  Done, completed, errored, panicked, Wire, exec_reported,
}

-- What a read works on: the shard of the scan plan cache that has the key, and the wire.
pub record Desk (S E Stmt Report : Type 0) : Type 0 where
  pub plans : Lru ℕ Plan
  pub wire : Wire S E Stmt Report

-- Rows that were opened, and how to read them.
pub record Opened (Rows : Type 0) : Type 0 where
  pub rows : Rows
  pub plan : Plan
  pub key : ℕ
  pub hint : ℤ

module _ {Ctx E Report S Stmt Rows Res V : Type 0} (db : Db Ctx E Report)
    (ex : Executor S E Stmt Rows Res) (gives_up : Ctx → ℕ → Option E) (error_of : Failure E → E)
    (rows_affected : Res → Answer E ℤ) (columns : Rows → S → Answer E (List Bytes) × S)
    (source : Rows → RowsSource S E V) where
  abbrev pub with_db : Desk S E Stmt Report → S → Desk S E Stmt Report
  with_db x s = record {
    plans = x.plans;
    wire = record {
      store = record { stmts = x.wire.store.stmts; db = s };
      reports = x.wire.reports;
    };
  }

  abbrev pub query_allowed :
      GeneratedSql → ℕ → Answer E Ctx → Wire S E Stmt Report → Done E Rows × Wire S E Stmt Report
  query_allowed gen nanos (Answer.refused e) x = (errored (before_execute_failed e), x)
  query_allowed gen nanos (Answer.ok ctx) x =
      exec_reported db ex gives_up error_of rows_affected ctx gen.sql nanos
        (query ex (gives_up ctx) gen x.store) x.reports

  -- `Query` of the executor between the plugins
  unfoldable pub query_with_plugins :
      Ctx → ℕ → GeneratedSql → Wire S E Stmt Report → Done E Rows × Wire S E Stmt Report
  unfolding run_before_execute query
  query_with_plugins ctx nanos gen x =
      query_allowed gen nanos (run_before_execute db.plugins ctx gen.sql gen.params) x

  abbrev pub read_sent :
      Ctx → ℕ → Sent E → Wire S E Stmt Report → Done E Rows × Wire S E Stmt Report
  read_sent ctx nanos (statement gen) x = query_with_plugins ctx nanos gen x
  read_sent ctx nanos (compile_failed e) x = (errored (compile_refused e), x)
  read_sent ctx nanos (args_failed e) x = (errored (args_refused e), x)
  read_sent ctx nanos (sql_failed e) x = (errored (sql_refused e), x)
  read_sent ctx nanos Sent.crashed x = (panicked, x)

  -- the scan plan: from the cache, or compiled for the columns of the rows
  abbrev pub columns_read :
      Table
      → ℕ
      → Rows
      → Answer E (List Bytes) × S
      → Desk S E Stmt Report
      → Done E Plan × Desk S E Stmt Report
  columns_read table key rows (Answer.refused e, s) x =
      (errored (columns_failed e), with_db x ((source rows).close s).1)
  columns_read table key rows (Answer.ok names, s) x =
      let plan = compile_plan table names in
      let (plans, evicted) = set ℕ_discrete key plan x.plans in
      (completed plan, record (with_db x s) { plans = plans })

  abbrev pub planned :
      Table → ℕ → Rows → Option Plan → Desk S E Stmt Report → Done E Plan × Desk S E Stmt Report
  planned table key rows (some plan) x = (completed plan, x)
  planned table key rows none x = columns_read table key rows (columns rows x.wire.store.db) x

  unfoldable pub scan_plan :
      Table → ℕ → Rows → Desk S E Stmt Report → Done E Plan × Desk S E Stmt Report
  unfolding get_no_touch set compile_plan
  scan_plan table key rows x =
      let (hit, plans) = get_no_touch ℕ_discrete key x.plans in
      planned table key rows hit (record x { plans = plans })

  abbrev pub with_plan :
      CompiledQuery
      → Rows
      → Done E Plan × Desk S E Stmt Report
      → Done E (Opened Rows) × Desk S E Stmt Report
  with_plan cq rows (completed plan, x) =
      (completed (record { rows = rows; plan = plan; key = cq.cache_key; hint = cq.limit_hint }), x)
  with_plan cq rows (errored e, x) = (errored e, x)
  with_plan cq rows (panicked, x) = (panicked, x)

  abbrev pub queried :
      Table
      → Reply CompiledQuery E
      → Done E Rows × Wire S E Stmt Report
      → Lru ℕ Plan
      → Done E (Opened Rows) × Desk S E Stmt Report
  queried table (returned (some cq)) (completed rows, wire) plans =
      with_plan cq rows (scan_plan table cq.cache_key rows (record { plans = plans; wire = wire }))
  queried table reply (errored e, wire) plans = (errored e, record { plans = plans; wire = wire })
  queried table reply (r, wire) plans = (panicked, record { plans = plans; wire = wire })

  -- `queryAndPlanBuilder`; none is a wait for another caller's compilation
  unfoldable pub query_and_plan :
      (Bytes → ℕ)
      → Ctx
      → ℕ
      → Option Table
      → Builder
      → World ℕ CompiledQuery E
      → Desk S E Stmt Report
      → World ℕ CompiledQuery E × Option (Done E (Opened Rows) × Desk S E Stmt Report)
  unfolding compile_cached sent query_with_plugins scan_plan
  query_and_plan hash ctx nanos none b w x = (w, some (errored not_compilable, x))
  query_and_plan hash ctx nanos (some table) b w x =
      let (w', reply) = compile_cached hash ctx db b w in
      (w', Option.map (λ r. queried table r (read_sent ctx nanos (sent b r) x.wire) x.plans) reply)
