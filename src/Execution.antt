-- ===== src/Execution.antt =====
-- pkg/execution/executor.go: prepared statements over a cache, and the retry of a statement. The driver
-- is a record of functions on a state `S` of the database. `others` is what the other callers do from
-- the moment that this caller waits for a statement that one of them prepares until it is there.
pub mod Statements
pub mod Paths
pub mod Rounds
pub mod Batch
pub mod Cursors
use breezeorm.Prelude.{
  ℕ, zero, suc, ◌≤◌, leb, Bool, true, false, not, List, [], ◌∷◌, ◌++◌, Option, none, some,
  if◌then◌else◌,
}
use breezeorm.Prelude.Int.{ℤ, pos, negsuc, ltb_ℤ}
use breezeorm.Text.{Bytes, lit, itoa}
use breezeorm.Query.{Value}
use breezeorm.Plugins.{Answer}
use breezeorm.Retry.{
  is_transient, capped_delay, draw_bound, Wait, waited, overflowed, given_up, wait_for,
}
use breezeorm.Cache.Calls.{World}

pub record Driver (S E Stmt Rows Res : Type 0) : Type 0 where
  pub prepare_context : Bytes → S → Answer E Stmt × S
  pub query_context : Stmt → List Value → S → Answer E Rows × S
  pub exec_context : Stmt → List Value → S → Answer E Res × S
  pub close_stmt : Stmt → S → S

-- What an `Executor` works on: the shard of the statement cache that has the text, and the database.
pub record Store (S E Stmt : Type 0) : Type 0 where
  pub stmts : World Bytes Stmt E
  pub db : S

-- The errors that the package makes over those of the driver; `no_error` is the nil of `lastErr`.
pub data Failure (E : Type 0) : Type 0 where
  no_error : Failure E
  plain prepare_failed query_failed exec_failed : E → Failure E
  exhausted : ℕ → Failure E → Failure E

-- What a call gives, or a panic.
pub data Ran (E V : Type 0) : Type 0 where
  done : V → Ran E V
  broken : Failure E → Ran E V
  crashed : Ran E V

pub record RetryPolicy : Type 0 where
  pub max_attempts : ℤ
  pub base_delay : ℤ
  pub max_delay : ℤ

abbrev pub default_retry_policy : RetryPolicy
default_retry_policy = record {
  max_attempts = pos 3;
  base_delay = pos 5_000_000;
  max_delay = pos 200_000_000;
}

-- The errors of the driver: their text, and whether they are an end of the context.
pub record Errors (E : Type 0) : Type 0 where
  pub text : E → Bytes
  pub is_context : E → Bool

module _ {E : Type 0} (errors : Errors E) where
  unfoldable pub failure_text : Failure E → Bytes
  failure_text no_error = lit "%!w(<nil>)"
  failure_text (plain e) = errors.text e
  failure_text (prepare_failed e) = lit "execution: prepare: " ++ errors.text e
  failure_text (query_failed e) = lit "execution: query: " ++ errors.text e
  failure_text (exec_failed e) = lit "execution: exec: " ++ errors.text e
  failure_text (exhausted n f) =
      lit "execution: exhausted " ++ (itoa n ++ (lit " attempts: " ++ failure_text f))

  -- `errors.Is` of the two context errors, through what wraps them
  unfoldable pub is_context_failure : Failure E → Bool
  is_context_failure no_error = false
  is_context_failure (plain e) = errors.is_context e
  is_context_failure (prepare_failed e) = errors.is_context e
  is_context_failure (query_failed e) = errors.is_context e
  is_context_failure (exec_failed e) = errors.is_context e
  is_context_failure (exhausted n f) = is_context_failure f

  unfoldable pub is_retryable_error : Failure E → Bool
  unfolding failure_text is_context_failure is_transient
  is_retryable_error f = if is_context_failure f then false else is_transient (failure_text f)

-- `if base <= 0 { base = 5 * time.Millisecond }`, and so the most
abbrev pub or_delay : ℤ → ℕ → ℤ
or_delay (pos zero) n = pos n
or_delay (negsuc m) n = pos n
or_delay (pos (suc m)) n = pos (suc m)

unfoldable pub backoff_bound : RetryPolicy → ℕ → Option ℕ
unfolding draw_bound capped_delay
backoff_bound policy attempt = draw_bound (
    capped_delay (or_delay policy.base_delay 5_000_000) (or_delay policy.max_delay 200_000_000)
      attempt)

-- `if attempts <= 0 { attempts = 1 }`
abbrev pub attempts_of : ℤ → ℕ
attempts_of (pos zero) = 1
attempts_of (pos (suc n)) = suc n
attempts_of (negsuc n) = 1

-- `withRetryGeneric`, over any state; `fn` is one attempt.
module _ {E V X : Type 0} (errors : Errors E) (fn : X → Ran E V × X) where
  -- an end of the context, a panic of the draw, or what follows
  abbrev pub unless_given_up : Wait E → X → Ran E V × X → Ran E V × X
  unless_given_up (given_up e) x rest = (broken (plain e), x)
  unless_given_up overflowed x rest = (crashed, x)
  unless_given_up waited x rest = rest

  -- the end of a round
  unfoldable pub again : (Failure E → X → Ran E V × X) → Ran E V × X → Ran E V × X
  unfolding is_retryable_error
  again next (done v, x) = (done v, x)
  again next (crashed, x) = (crashed, x)
  again next (broken f, x) = if is_retryable_error errors f then next f x else (broken f, x)

  unfoldable pub retry_from : (ℕ → Wait E) → ℕ → ℕ → ℕ → Failure E → X → Ran E V × X
  unfolding again
  retry_from pause total zero attempt last x = (broken (exhausted total last), x)
  retry_from pause total (suc rounds) attempt last x =
      unless_given_up (pause attempt) x (again (retry_from pause total rounds (suc attempt)) (fn x))

  -- The wait before an attempt; the first has none. `gives_up` says whether the context ends it.
  unfoldable pub wait_before : RetryPolicy → (ℕ → Option E) → ℕ → Wait E
  unfolding backoff_bound
  wait_before policy gives_up zero = waited
  wait_before policy gives_up (suc n) = wait_for (backoff_bound policy (suc n)) (gives_up (suc n))

  unfoldable pub with_retry : RetryPolicy → (ℕ → Option E) → X → Ran E V × X
  unfolding retry_from wait_before
  with_retry policy gives_up x =
      let attempts = attempts_of policy.max_attempts in
      retry_from (wait_before policy gives_up) attempts attempts 0 no_error x
