-- ===== src/Transaction.antt =====
-- pkg/transaction/transaction.go: transactions, their savepoints and their retries. What the caller's
-- function does with its context is a `Body`; the database is a function that answers a command after
-- the commands before it. A `*Tx` is its `depth`, since a body uses the context it is given.
pub mod Savepoints
pub mod Retry
use breezeorm.Prelude.{
  ℕ, zero, suc, Bool, true, false, List, [], ◌∷◌, ◌++◌, Option, none, some, if◌then◌else◌,
}
use breezeorm.Prelude.Int.{ℤ, pos, negsuc}
use breezeorm.Retry.{
  is_transient, capped_delay, draw_bound, Wait, waited, overflowed, given_up, wait_for,
}
use breezeorm.Text.{Bytes, lit, itoa}

-- What is sent to the database. A savepoint is named by its number.
pub data Command : Type 0 where
  begin commit rollback : Command
  savepoint rollback_to release : ℕ → Command
  statement : Bytes → Command

-- `fmt.Sprintf("sp_%d", tx.depth)`
abbrev pub sp_name : ℕ → Bytes
sp_name n = lit "sp_" ++ itoa n

-- The errors that the package makes, over the errors of the driver and of the caller; `no_error` is the
-- nil that `lastErr` starts with.
pub data Failure (E : Type 0) : Type 0 where
  no_error : Failure E
  plain begin_failed commit_failed savepoint_failed : E → Failure E
  rollback_failed : Failure E → E → Failure E
  savepoint_rollback_failed : Failure E → E → Failure E
  exhausted : ℕ → Failure E → Failure E

-- How a function ends: with nil, with an error, or by a panic.
pub data Ending (E : Type 0) : Type 0 where
  finished panicked : Ending E
  failed : Failure E → Ending E

-- A caller's `fn`: it ends, sends a statement and goes on, or calls `Run` on its context and goes on.
pub data Body (E : Type 0) : Type 0 where
  ends : Ending E → Body E
  sends : Bytes → (Option E → Body E) → Body E
  nests : Body E → (Option (Failure E) → Body E) → Body E

-- The commands sent and their errors, the newest first.
abbrev pub Log : Type 0 → Type 0
Log E = List (Command × Option E)

-- `err.Error()`, over the texts of the errors below it
unfoldable pub failure_text : {E : Type 0} → (E → Bytes) → Failure E → Bytes
failure_text text no_error = lit "%!w(<nil>)"
failure_text text (plain e) = text e
failure_text text (begin_failed e) = lit "transaction: begin: " ++ text e
failure_text text (commit_failed e) = lit "transaction: commit: " ++ text e
failure_text text (savepoint_failed e) = lit "transaction: savepoint: " ++ text e
failure_text text (rollback_failed f e) =
    lit "transaction: rollback after error " ++ (failure_text text f ++ (lit ": " ++ text e))
failure_text text (savepoint_rollback_failed f e) =
    lit "transaction: rollback to savepoint after error "
    ++ (failure_text text f ++ (lit ": " ++ text e))
failure_text text (exhausted n f) =
    lit "transaction: exhausted " ++ (itoa n ++ (lit " attempts: " ++ failure_text text f))

-- `defaultIsRetryable`
unfoldable pub default_is_retryable : {E : Type 0} → (E → Bytes) → Failure E → Bool
unfolding failure_text is_transient
default_is_retryable text f = is_transient (failure_text text f)

pub record RetryPolicy (E : Type 0) : Type 0 where
  pub max_attempts : ℤ
  pub base_delay : ℤ
  pub max_delay : ℤ
  pub is_retryable : Option (Failure E → Bool)

-- `if policy.IsRetryable == nil { policy.IsRetryable = defaultIsRetryable }`
abbrev pub retryable_by : {E : Type 0} → (E → Bytes) → RetryPolicy E → Failure E → Bool
retryable_by text policy = elim policy.is_retryable [
  | none ↦ default_is_retryable text
  | some f ↦ f
]

-- `DefaultRetryPolicy`, in nanoseconds
abbrev pub default_retry_policy : {E : Type 0} → (E → Bytes) → RetryPolicy E
default_retry_policy text = record {
  max_attempts = pos 3;
  base_delay = pos 10_000_000;
  max_delay = pos 500_000_000;
  is_retryable = some (default_is_retryable text);
}

-- `if policy.MaxAttempts <= 0 { policy.MaxAttempts = 1 }`
unfoldable pub clamp_attempts : ℤ → ℕ
clamp_attempts (pos zero) = 1
clamp_attempts (pos (suc n)) = suc n
clamp_attempts (negsuc n) = 1

-- What the body of a transaction leaves.
pub record Left (E : Type 0) : Type 0 where
  pub ending : Ending E
  pub depth : ℕ
  pub log : Log E

module _ {E : Type 0} (answer : Log E → Command → Option E) where
  unfoldable pub issue : Command → Log E → Option E × Log E
  issue c log = let r = answer log c in (r, (c, r) ∷ log)

  abbrev pub left : Ending E → ℕ → Log E → Left E
  left e d log = record { ending = e; depth = d; log = log }

  -- the error of `ROLLBACK TO SAVEPOINT` after the error of the nested function
  abbrev pub after_rollback_to : Failure E → Option E → Failure E
  after_rollback_to e none = e
  after_rollback_to e (some rb) = savepoint_rollback_failed e rb

  abbrev pub after_release : Option E → Option (Failure E)
  after_release none = none
  after_release (some e) = some (plain e)

  -- `runNested`: `fn` is the nested function at a depth, and `next` what the caller does with the error.
  module _ (fn : ℕ → Log E → Left E) (next : Option (Failure E) → ℕ → Log E → Left E) where
    -- from the end of `fn` on, under the savepoint n
    unfoldable pub end_nested : ℕ → Ending E → Log E → Left E
    unfolding issue
    end_nested n panicked log = left panicked n log
    end_nested n (failed e) log =
        let (rb, log') = issue (rollback_to n) log in next (some (after_rollback_to e rb)) n log'
    end_nested n finished log =
        let (rl, log') = issue (release n) log in next (after_release rl) n log'

    -- from the answer to `SAVEPOINT` on
    unfoldable pub begin_nested : ℕ → Option E → Log E → Left E
    unfolding end_nested
    begin_nested depth (some e) log = next (some (savepoint_failed e)) depth log
    begin_nested depth none log =
        let nested = fn (suc depth) log in end_nested (suc depth) nested.ending nested.log

    unfoldable pub run_nested : ℕ → Log E → Left E
    unfolding issue begin_nested
    run_nested depth log =
        let (r, log') = issue (savepoint (suc depth)) log in begin_nested depth r log'

  unfoldable pub run_body : Body E → ℕ → Log E → Left E
  unfolding issue run_nested
  run_body (ends e) depth log = left e depth log
  run_body (sends s next) depth log =
      let (r, log') = issue (statement s) log in run_body (next r) depth log'
  run_body (nests inner next) depth log =
      run_nested (run_body inner) (λ x. run_body (next x)) depth log

  -- `is_tx_done` is `errors.Is(err, sql.ErrTxDone)`.
  module _ (is_tx_done : E → Bool) where
    abbrev pub after_rollback : Failure E → Option E → Ending E
    after_rollback e none = failed e
    after_rollback e (some rb) = if is_tx_done rb then failed e else failed (rollback_failed e rb)

    abbrev pub after_commit : Option E → Ending E
    after_commit none = finished
    after_commit (some e) = failed (commit_failed e)

    -- the end of `runOnce`
    unfoldable pub close : Ending E → Log E → Ending E × Log E
    unfolding issue
    close panicked log = let (r, log') = issue rollback log in (panicked, log')
    close (failed e) log = let (r, log') = issue rollback log in (after_rollback e r, log')
    close finished log = let (r, log') = issue commit log in (after_commit r, log')

    -- `runOnce` from the answer to `BEGIN` on
    unfoldable pub begun : Body E → Option E → Log E → Ending E × Log E
    unfolding run_body close
    begun fn (some e) log = (failed (begin_failed e), log)
    begun fn none log = let body = run_body fn 0 log in close body.ending body.log

    unfoldable pub run_once : Body E → Log E → Ending E × Log E
    unfolding issue begun
    run_once fn log = let (r, log') = issue begin log in begun fn r log'

    -- the end of a round: another one only for an error that allows it
    unfoldable pub again :
        (Failure E → Bool)
        → (Failure E → Log E → Ending E × Log E)
        → Ending E
        → Log E
        → Ending E × Log E
    again is_retryable next finished log = (finished, log)
    again is_retryable next panicked log = (panicked, log)
    again is_retryable next (failed e) log = if is_retryable e then next e log else (failed e, log)

    -- `return ctx.Err()`, a panic of the draw, or what follows
    abbrev pub unless_given_up : Wait E → Log E → Ending E × Log E → Ending E × Log E
    unless_given_up (given_up e) log rest = (failed (plain e), log)
    unless_given_up overflowed log rest = (panicked, log)
    unless_given_up waited log rest = rest

    -- The loop of `runWithRetry`: `rounds` attempts are left, `last` is `lastErr`, `total` is
    -- `MaxAttempts`. `fn i` is what the function does on attempt i, and `gives_up i` the error of the
    -- context if the wait before attempt i ends with `ctx.Done()`.
    unfoldable pub retry_from :
        (Failure E → Bool)
        → (ℕ → Body E)
        → (ℕ → Wait E)
        → ℕ
        → ℕ
        → ℕ
        → Failure E
        → Log E
        → Ending E × Log E
    unfolding run_once again
    retry_from is_retryable fn wait total zero attempt last log =
        (failed (exhausted total last), log)
    retry_from is_retryable fn wait total (suc rounds) attempt last log =
        let (r, log') = run_once (fn attempt) log in
        unless_given_up (wait attempt) log
          (again is_retryable (retry_from is_retryable fn wait total rounds (suc attempt)) r log')

    -- The wait before an attempt; the first has none. `gives_up` says whether the context ends it.
    unfoldable pub wait_before : RetryPolicy E → (ℕ → Option E) → ℕ → Wait E
    unfolding draw_bound capped_delay
    wait_before policy gives_up zero = waited
    wait_before policy gives_up (suc n) =
        wait_for (draw_bound (capped_delay policy.base_delay policy.max_delay (suc n)))
          (gives_up (suc n))

    unfoldable pub run_with_retry :
        (E → Bytes) → RetryPolicy E → (ℕ → Body E) → (ℕ → Option E) → Log E → Ending E × Log E
    unfolding retry_from wait_before
    run_with_retry text policy fn gives_up log =
        let attempts = clamp_attempts policy.max_attempts in
        retry_from (retryable_by text policy) fn (wait_before policy gives_up) attempts attempts 0
          no_error log
