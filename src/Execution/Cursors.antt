-- ===== src/Execution/Cursors.antt =====
-- Which rows are open after a query.
use breezeorm.Prelude.{
  ℕ, zero, suc, Bool, true, false, List, [], ◌∷◌, Option, none, some, if◌then◌else◌,
}
use breezeorm.Text.{Bytes}
use breezeorm.Query.{Value}
use breezeorm.Plugins.{Answer}
use breezeorm.Cache.Calls.{
  Entry, hit, wait, lead, Reply, returned, refused, rethrown, enter, complete,
}
use breezeorm.Retry.{Wait, waited, overflowed, given_up}
use breezeorm.Sqlgen.{GeneratedSql}
use breezeorm.Execution.{
  Store, Failure, no_error, query_failed, Ran, done, broken, crashed, is_retryable_error,
  attempts_of, unless_given_up, again, retry_from, wait_before, with_retry,
}
use breezeorm.Execution.Statements.{
  Executor, close_all, lead_prepare, outcome_of, prepare_entered, prepare, answered, run_prepared,
  query_once, is_single, query,
}

-- What a driver's query leaves: open rows, or none.
abbrev pub Leaves :
    {S E Rows : Type 0} → (S → Type 0) → (Rows → S → Type 0) → Answer E Rows × S → Type 0
Leaves Quiet Owned (Answer.ok rows, s) = Owned rows s
Leaves Quiet Owned (Answer.refused e, s) = Quiet s

-- Of a database without open rows, that preparing and closing statements opens none, what other callers
-- do included, and that a query opens its own rows or none.
pub record IsManaged {S E Stmt Rows Res : Type 0} (ex : Executor S E Stmt Rows Res)
    (Quiet : S → Type 0) (Owned : Rows → S → Type 0) : Type 0 where
  pub prepare_quiet : (text : Bytes) (s : S) → Quiet s → Quiet (ex.driver.prepare_context text s).1
  pub close_quiet : (stmt : Stmt) (s : S) → Quiet s → Quiet (ex.driver.close_stmt stmt s)
  pub others_quiet : (i : ℕ) (x : Store S E Stmt) → Quiet x.db → Quiet (ex.others i x).db
  pub query_leaves :
      (stmt : Stmt) (args : List Value) (s : S)
      → Quiet s
      → Leaves Quiet Owned (ex.driver.query_context stmt args s)

module _ {S E Stmt Rows Res : Type 0} (ex : Executor S E Stmt Rows Res) (Quiet : S → Type 0)
    (Owned : Rows → S → Type 0) (managed : IsManaged ex Quiet Owned) where
  close_all-Quiet :
      (entries : List (Bytes × Stmt)) (s : S) → Quiet s → Quiet (close_all ex entries s)
  unfolding close_all
  close_all-Quiet [] s q = q
  close_all-Quiet ((text, stmt) ∷ rest) s q =
      close_all-Quiet rest (ex.driver.close_stmt stmt s) (managed.close_quiet stmt s q)

  lead_prepare-Quiet :
      (text : Bytes) (i : ℕ) (x : Store S E Stmt)
      → Quiet x.db
      → Quiet (lead_prepare ex text i x).1.db
  unfolding lead_prepare
  lead_prepare-Quiet text i x q =
      let (a, s) = ex.driver.prepare_context text x.db in
      close_all-Quiet (complete ex.same_text text i (outcome_of ex a) x.stmts).1 s
        (managed.prepare_quiet text x.db q)

  prepare_entered-Quiet :
      (text : Bytes) (entry : Entry Stmt) (x : Store S E Stmt)
      → Quiet x.db
      → Quiet (prepare_entered ex text entry x).1.db
  prepare_entered-Quiet text (hit stmt) x q = q
  prepare_entered-Quiet text (wait i) x q = managed.others_quiet i x q
  prepare_entered-Quiet text (lead i) x q = lead_prepare-Quiet text i x q

  prepare-Quiet : (text : Bytes) (x : Store S E Stmt) → Quiet x.db → Quiet (prepare ex text x).1.db
  unfolding prepare
  prepare-Quiet text x q =
      let (stmts, entry) = enter ex.same_text text x.stmts in
      prepare_entered-Quiet text entry (record x { stmts = stmts }) q

  -- What running a query leaves.
  abbrev pub Left : Ran E Rows × Store S E Stmt → Type 0
  Left (done rows, x) = Owned rows x.db
  Left (broken f, x) = Quiet x.db
  Left (crashed, x) = Quiet x.db

  answered-Left :
      (a : Answer E Rows × S) (x : Store S E Stmt)
      → Leaves Quiet Owned a
      → Left (answered ex query_failed a x.stmts)
  answered-Left (Answer.ok rows, s) x h = h
  answered-Left (Answer.refused e, s) x h = h

  run_prepared-Left :
      (gen : GeneratedSql) (r : Reply Stmt E) (x : Store S E Stmt)
      → Quiet x.db
      → Left (run_prepared ex (λ stmt. ex.driver.query_context stmt gen.params) query_failed (r, x))
  run_prepared-Left gen (returned (some stmt)) x q =
      answered-Left (ex.driver.query_context stmt gen.params x.db) x
        (managed.query_leaves stmt gen.params x.db q)
  run_prepared-Left gen (returned none) x q = q
  run_prepared-Left gen (refused e) x q = q
  run_prepared-Left gen rethrown x q = q

  query_once-Left :
      (gen : GeneratedSql) (x : Store S E Stmt) → Quiet x.db → Left (query_once ex gen x)
  unfolding query_once
  query_once-Left gen x q =
      let (r, x') = prepare ex gen.sql x in run_prepared-Left gen r x' (prepare-Quiet gen.sql x q)

  module _ (gen : GeneratedSql) where
    again-Left :
        (next : Failure E → Store S E Stmt → Ran E Rows × Store S E Stmt)
        (r : Ran E Rows × Store S E Stmt)
        → ((f : Failure E) (x : Store S E Stmt) → Quiet x.db → Left (next f x))
        → Left r
        → Left (again ex.errors (query_once ex gen) next r)
    unfolding again
    again-Left next (done rows, x) h l = l
    again-Left next (crashed, x) h l = l
    again-Left next (broken f, x) h l = choose (is_retryable_error ex.errors f)
      where
        choose : (b : Bool) → Left (if b then next f x else (broken f, x))
        choose true = h f x l
        choose false = l

    unless_given_up-Left :
        (p : Wait E) (x : Store S E Stmt) (rest : Ran E Rows × Store S E Stmt)
        → Quiet x.db
        → Left rest
        → Left (unless_given_up ex.errors (query_once ex gen) p x rest)
    unless_given_up-Left (given_up e) x rest q l = q
    unless_given_up-Left overflowed x rest q l = q
    unless_given_up-Left waited x rest q l = l

    retry_from-Left :
        (pause : ℕ → Wait E) (total rounds attempt : ℕ) (last : Failure E) (x : Store S E Stmt)
        → Quiet x.db
        → Left (retry_from ex.errors (query_once ex gen) pause total rounds attempt last x)
    unfolding retry_from
    retry_from-Left pause total zero attempt last x q = q
    retry_from-Left pause total (suc rounds) attempt last x q =
        let next = retry_from ex.errors (query_once ex gen) pause total rounds (suc attempt) in
        unless_given_up-Left (pause attempt) x
          (again ex.errors (query_once ex gen) next (query_once ex gen x)) q
          (again-Left next (query_once ex gen x)
            (λ f x. retry_from-Left pause total rounds (suc attempt) f x) (query_once-Left gen x q))

    -- A query opens its own rows, or none where it fails, whatever is retried.
    pub query-Left :
        (gives_up : ℕ → Option E) (x : Store S E Stmt) → Quiet x.db → Left (query ex gives_up gen x)
    unfolding query with_retry
    query-Left gives_up x q = choose (is_single ex)
      where
        attempts : ℕ
        attempts = attempts_of ex.retry.max_attempts

        choose :
            (b : Bool)
            → Left (
                if b
                then query_once ex gen x
                else with_retry ex.errors (query_once ex gen) ex.retry gives_up x)
        choose true = query_once-Left gen x q
        choose false =
            retry_from-Left (wait_before ex.errors (query_once ex gen) ex.retry gives_up) attempts
              attempts 0 no_error x q
