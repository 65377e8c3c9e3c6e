-- ===== src/Execution/Statements.antt =====
-- pkg/execution/executor.go: `prepare`, and the calls that run a prepared statement.
use breezeorm.Prelude.{ℕ, Bool, List, [], ◌∷◌, Option, none, some, if◌then◌else◌}
use breezeorm.Prelude.Int.{pos, ltb_ℤ}
use breezeorm.Text.{Bytes}
use breezeorm.Plugins.{Answer}
use breezeorm.Cache.Calls.{
  World, Outcome, value, failed, Entry, hit, wait, lead, Reply, returned, refused, rethrown, enter,
  complete, wait_reply,
}
use breezeorm.Sqlgen.{GeneratedSql}
use breezeorm.Execution.{
  Driver, Store, Failure, plain, prepare_failed, query_failed, exec_failed, Ran, done, broken,
  crashed, RetryPolicy, Errors, with_retry,
}

-- An `Executor`, but for its deadline: what it calls, and how it retries. `same_text` compares keys.
pub record Executor (S E Stmt Rows Res : Type 0) : Type 0 where
  pub driver : Driver S E Stmt Rows Res
  pub errors : Errors E
  pub retry : RetryPolicy
  pub same_text : Discrete Bytes
  pub others : ℕ → Store S E Stmt → Store S E Stmt

module _ {S E Stmt Rows Res : Type 0} (ex : Executor S E Stmt Rows Res) where
  -- the `onEvict` of `newStmtCache`, on each entry that the cache gives up
  unfoldable pub close_all : List (Bytes × Stmt) → S → S
  close_all [] db = db
  close_all ((text, stmt) ∷ rest) db = close_all rest (ex.driver.close_stmt stmt db)

  abbrev pub outcome_of : Answer E Stmt → Outcome Stmt E
  outcome_of (Answer.ok stmt) = value stmt
  outcome_of (Answer.refused e) = failed e

  abbrev pub reply_of : Answer E Stmt → Reply Stmt E
  reply_of (Answer.ok stmt) = returned (some stmt)
  reply_of (Answer.refused e) = refused e

  -- the caller that leads prepares the statement and installs it
  unfoldable pub lead_prepare : Bytes → ℕ → Store S E Stmt → Reply Stmt E × Store S E Stmt
  unfolding close_all
  lead_prepare text i x =
      let (a, db) = ex.driver.prepare_context text x.db in
      let (stmts, evicted) = complete ex.same_text text i (outcome_of a) x.stmts in
      (reply_of a, record { stmts = stmts; db = close_all evicted db })

  abbrev pub prepare_entered : Bytes → Entry Stmt → Store S E Stmt → Reply Stmt E × Store S E Stmt
  prepare_entered text (hit stmt) x = (returned (some stmt), x)
  prepare_entered text (wait i) x = let x' = ex.others i x in (wait_reply (x'.stmts.calls i), x')
  prepare_entered text (lead i) x = lead_prepare text i x

  -- `prepare`
  unfoldable pub prepare : Bytes → Store S E Stmt → Reply Stmt E × Store S E Stmt
  unfolding lead_prepare enter
  prepare text x =
      let (stmts, entry) = enter ex.same_text text x.stmts in
      prepare_entered text entry (record x { stmts = stmts })

  -- What a driver's answer is to the caller, under the error that wraps its own.
  abbrev pub answered :
      {V : Type 0}
      → (E → Failure E)
      → Answer E V × S
      → World Bytes Stmt E
      → Ran E V × Store S E Stmt
  answered wrap (Answer.ok v, db) stmts = (done v, record { stmts = stmts; db = db })
  answered wrap (Answer.refused e, db) stmts = (broken (wrap e), record { stmts = stmts; db = db })

  -- Prepare, then run: one attempt. A nil statement, from a call that panicked, is a panic here.
  abbrev pub run_prepared :
      {V : Type 0}
      → (Stmt → S → Answer E V × S)
      → (E → Failure E)
      → Reply Stmt E × Store S E Stmt
      → Ran E V × Store S E Stmt
  run_prepared run wrap (returned (some stmt), x) = answered wrap (run stmt x.db) x.stmts
  run_prepared run wrap (returned none, x) = (crashed, x)
  run_prepared run wrap (refused e, x) = (broken (prepare_failed e), x)
  run_prepared run wrap (rethrown, x) = (crashed, x)

  unfoldable pub query_once : GeneratedSql → Store S E Stmt → Ran E Rows × Store S E Stmt
  unfolding prepare
  query_once gen x =
      run_prepared (λ stmt. ex.driver.query_context stmt gen.params) query_failed
        (prepare gen.sql x)

  unfoldable pub exec_once : GeneratedSql → Store S E Stmt → Ran E Res × Store S E Stmt
  unfolding prepare
  exec_once gen x =
      run_prepared (λ stmt. ex.driver.exec_context stmt gen.params) exec_failed (prepare gen.sql x)

  -- one attempt of `QueryCursor`, which does not wrap the error of the query
  unfoldable pub cursor_once : GeneratedSql → Store S E Stmt → Ran E Rows × Store S E Stmt
  unfolding prepare
  cursor_once gen x =
      run_prepared (λ stmt. ex.driver.query_context stmt gen.params) plain (prepare gen.sql x)

  -- `if ex.retry.MaxAttempts <= 1`
  abbrev pub is_single : Bool
  is_single = ltb_ℤ ex.retry.max_attempts (pos 2)

  unfoldable pub query :
      (ℕ → Option E) → GeneratedSql → Store S E Stmt → Ran E Rows × Store S E Stmt
  unfolding query_once with_retry
  query gives_up gen x =
      if is_single
      then query_once gen x
      else with_retry ex.errors (query_once gen) ex.retry gives_up x

  -- `Exec`, and so `BulkExec`
  unfoldable pub exec : (ℕ → Option E) → GeneratedSql → Store S E Stmt → Ran E Res × Store S E Stmt
  unfolding exec_once with_retry
  exec gives_up gen x =
      if is_single
      then exec_once gen x
      else with_retry ex.errors (exec_once gen) ex.retry gives_up x

  unfoldable pub query_cursor :
      (ℕ → Option E) → GeneratedSql → Store S E Stmt → Ran E Rows × Store S E Stmt
  unfolding cursor_once with_retry
  query_cursor gives_up gen x = with_retry ex.errors (cursor_once gen) ex.retry gives_up x
