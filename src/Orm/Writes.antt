-- ===== src/Orm/Writes.antt =====
-- pkg/orm/query.go: the operations that write. `nanos` is how long the database takes. `error_of` is the
-- error that the executor's failure is to a plugin, and `read_at` reads a field of a model.
use mathlib.Core.Option
use breezeorm.Prelude.{ℕ, false, List, ◌++◌, Option, none, some}
use breezeorm.Prelude.Int.{ℤ}
use breezeorm.Text.{Bytes}
use breezeorm.Query.{Value, Assignment}
use breezeorm.Query.Builder.{Builder, new, insert, update, delete}
use breezeorm.Plugins.{Answer, run_before_execute, run_after_execute}
use breezeorm.Sqlgen.{Error, GeneratedSql}
use breezeorm.Cache.Calls.{World}
use breezeorm.Compiler.{CompiledQuery}
use breezeorm.Execution.{Store, Failure, Ran, done, broken}
use breezeorm.Execution.Statements.{Executor, exec}
use breezeorm.Execution.Batch.{BulkError}
use breezeorm.Metadata.{GoType}
use breezeorm.Metadata.Compiled.{Table}
use breezeorm.Scanner.Rows.{ScanError}
use breezeorm.Hooks.{Hooks, run_before_create, run_after_create}
use breezeorm.Orm.{Db, Sent, statement, compile_failed, args_failed, sql_failed, prepare_query}
use breezeorm.Orm.Values.{struct_assignments}

pub data OrmError (E : Type 0) : Type 0 where
  not_compilable : OrmError E
  before_execute_failed compile_refused before_create_failed after_create_failed affected_failed
        columns_failed count_failed :
      E → OrmError E
  no_rows_found : OrmError E
  unread : ScanError E → OrmError E
  args_refused sql_refused : Error → OrmError E
  bulk_refused : BulkError → OrmError E
  execution_failed : Failure E → OrmError E

pub data Done (E V : Type 0) : Type 0 where
  completed : V → Done E V
  errored : OrmError E → Done E V
  panicked : Done E V

-- Where the statements go, and what the plugins reported.
pub record Wire (S E Stmt Report : Type 0) : Type 0 where
  pub store : Store S E Stmt
  pub reports : List Report

module _ {Ctx E Report S Stmt Rows Res : Type 0} (db : Db Ctx E Report)
    (ex : Executor S E Stmt Rows Res) (gives_up : Ctx → ℕ → Option E) (error_of : Failure E → E)
    (rows_affected : Res → Answer E ℤ) where
  -- the outcome of `Exec` or `Query`, and `AfterExecute`
  abbrev pub exec_reported :
      {A : Type 0}
      → Ctx
      → Bytes
      → ℕ
      → Ran E A × Store S E Stmt
      → List Report
      → Done E A × Wire S E Stmt Report
  exec_reported ctx sql nanos (done v, store) reports = (
    completed v,
    record { store = store; reports = reports ++ run_after_execute db.plugins ctx sql nanos none },
  )
  exec_reported ctx sql nanos (broken f, store) reports = (
    errored (execution_failed f),
    record {
      store = store;
      reports = reports ++ run_after_execute db.plugins ctx sql nanos (some (error_of f));
    },
  )
  exec_reported ctx sql nanos (Ran.crashed, store) reports =
      (panicked, record { store = store; reports = reports })

  abbrev pub exec_allowed :
      GeneratedSql → ℕ → Answer E Ctx → Wire S E Stmt Report → Done E Res × Wire S E Stmt Report
  exec_allowed gen nanos (Answer.refused e) x = (errored (before_execute_failed e), x)
  exec_allowed gen nanos (Answer.ok ctx) x =
      exec_reported ctx gen.sql nanos (exec ex (gives_up ctx) gen x.store) x.reports

  unfoldable pub exec_with_plugins :
      Ctx → ℕ → GeneratedSql → Wire S E Stmt Report → Done E Res × Wire S E Stmt Report
  unfolding run_before_execute run_after_execute exec
  exec_with_plugins ctx nanos gen x =
      exec_allowed gen nanos (run_before_execute db.plugins ctx gen.sql gen.params) x

  abbrev pub affected_answer : Answer E ℤ → Done E ℤ
  affected_answer (Answer.ok n) = completed n
  affected_answer (Answer.refused e) = errored (affected_failed e)

  -- `res.RowsAffected()`
  abbrev pub affected : Done E Res × Wire S E Stmt Report → Done E ℤ × Wire S E Stmt Report
  affected (completed res, x) = (affected_answer (rows_affected res), x)
  affected (errored e, x) = (errored e, x)
  affected (panicked, x) = (panicked, x)

  -- from the prepared statement on
  abbrev pub write_sent :
      Ctx → ℕ → Sent E → Wire S E Stmt Report → Done E Res × Wire S E Stmt Report
  write_sent ctx nanos (statement gen) x = exec_with_plugins ctx nanos gen x
  write_sent ctx nanos (compile_failed e) x = (errored (compile_refused e), x)
  write_sent ctx nanos (args_failed e) x = (errored (args_refused e), x)
  write_sent ctx nanos (sql_failed e) x = (errored (sql_refused e), x)
  write_sent ctx nanos Sent.crashed x = (panicked, x)

  -- `UpdateAll` and `Delete`; none is a wait for another caller's compilation
  unfoldable pub update_all :
      (Bytes → ℕ)
      → Ctx
      → ℕ
      → Builder
      → List Assignment
      → World ℕ CompiledQuery E
      → Wire S E Stmt Report
      → World ℕ CompiledQuery E × Option (Done E ℤ × Wire S E Stmt Report)
  unfolding prepare_query exec_with_plugins
  update_all hash ctx nanos b assignments w x =
      let (w', sent) = prepare_query hash ctx db (update b assignments) w in
      (w', Option.map (λ s. affected (write_sent ctx nanos s x)) sent)

  unfoldable pub delete_all :
      (Bytes → ℕ)
      → Ctx
      → ℕ
      → Builder
      → World ℕ CompiledQuery E
      → Wire S E Stmt Report
      → World ℕ CompiledQuery E × Option (Done E ℤ × Wire S E Stmt Report)
  unfolding prepare_query exec_with_plugins
  delete_all hash ctx nanos b w x =
      let (w', sent) = prepare_query hash ctx db (delete b) w in
      (w', Option.map (λ s. affected (write_sent ctx nanos s x)) sent)

  module _ {V : Type 0} (read_at : V → GoType → ℕ → Value) (hooks : Hooks Ctx E V) where
    abbrev pub hooked : Option E → Done E Unit
    hooked none = completed tt
    hooked (some e) = errored (after_create_failed e)

    -- `Create` after the write
    abbrev pub create_written :
        Ctx → V → Done E Res × Wire S E Stmt Report → Done E Unit × V × Wire S E Stmt Report
    create_written ctx model (completed res, x) =
        let (e, model') = run_after_create hooks ctx model in (hooked e, model', x)
    create_written ctx model (errored e, x) = (errored e, model, x)
    create_written ctx model (panicked, x) = (panicked, model, x)

    -- and from the first hook on
    abbrev pub create_from :
        (Bytes → ℕ)
        → Ctx
        → ℕ
        → Table
        → Option E × V
        → World ℕ CompiledQuery E
        → Wire S E Stmt Report
        → World ℕ CompiledQuery E × Option (Done E Unit × V × Wire S E Stmt Report)
    create_from hash ctx nanos table (some e, model) w x =
        (w, some (errored (before_create_failed e), model, x))
    create_from hash ctx nanos table (none, model) w x =
        let b = insert (new table.name) (struct_assignments read_at table.columns model false) in
        let (w', sent) = prepare_query hash ctx db b w in
        (w', Option.map (λ s. create_written ctx model (write_sent ctx nanos s x)) sent)

    -- `Create`; a model whose type was not compiled has no table
    unfoldable pub create :
        (Bytes → ℕ)
        → Ctx
        → ℕ
        → Option Table
        → V
        → World ℕ CompiledQuery E
        → Wire S E Stmt Report
        → World ℕ CompiledQuery E × Option (Done E Unit × V × Wire S E Stmt Report)
    unfolding run_before_create run_after_create struct_assignments prepare_query exec_with_plugins
    create hash ctx nanos none model w x = (w, some (errored not_compilable, model, x))
    create hash ctx nanos (some table) model w x =
        create_from hash ctx nanos table (run_before_create hooks ctx model) w x
