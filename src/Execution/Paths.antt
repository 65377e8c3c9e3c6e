-- ===== src/Execution/Paths.antt =====
-- The path of `Query` and `Exec` without retries against the loop that it stands for.
use breezeorm.Prelude.{ℕ, zero, suc, ◌≡◌, refl, sym, ap, ◌∙◌, true, Option, if◌then◌else◌, arith}
use breezeorm.Prelude.Int.{ℤ, pos, negsuc, ltb_ℤ}
use breezeorm.Sqlgen.{GeneratedSql}
use breezeorm.Execution.{
  Store, no_error, exhausted, Ran, done, broken, crashed, RetryPolicy, Errors, is_retryable_error,
  attempts_of, again, retry_from, wait_before, with_retry,
}
use breezeorm.Execution.Statements.{Executor, query_once, exec_once, query, exec, is_single}

-- A transient error as the loop reports it after its only attempt.
abbrev pub reported : {E V X : Type 0} → Errors E → Ran E V × X → Ran E V × X
reported errors (done v, x) = (done v, x)
reported errors (crashed, x) = (crashed, x)
reported errors (broken f, x) =
    if is_retryable_error errors f then (broken (exhausted 1 f), x) else (broken f, x)

attempts_of-single : (n : ℤ) → ltb_ℤ n (pos 2) ≡ true → attempts_of n ≡ 1
attempts_of-single (pos zero) h = refl
attempts_of-single (pos (suc n)) h = ground arith
attempts_of-single (negsuc n) h = refl

module _ {E V X : Type 0} (errors : Errors E) (fn : X → Ran E V × X) where
  again_once :
      (r : Ran E V × X) → again errors fn (λ f x. (broken (exhausted 1 f), x)) r ≡ reported errors r
  unfolding again
  again_once (done v, x) = refl
  again_once (crashed, x) = refl
  again_once (broken f, x) = refl

  with_retry_once :
      (policy : RetryPolicy) (gives_up : ℕ → Option E) (x : X)
      → ltb_ℤ policy.max_attempts (pos 2) ≡ true
      → with_retry errors fn policy gives_up x ≡ reported errors (fn x)
  unfolding with_retry retry_from wait_before
  with_retry_once policy gives_up x h =
      ap (λ n. retry_from errors fn (wait_before errors fn policy gives_up) n n 0 no_error x)
        (attempts_of-single policy.max_attempts h)
      ∙ again_once (fn x)

module _ {S E Stmt Rows Res : Type 0} where
  -- Where no more than one attempt is allowed, `Query` and `Exec` end in the same state and with the same
  -- result as the retry loop would; only a transient error differs, which the loop reports as exhausted
  -- after one attempt and they report as it is.
  pub query-exec :
      (ex : Executor S E Stmt Rows Res) (gives_up : ℕ → Option E) (gen : GeneratedSql)
      (x : Store S E Stmt)
      → is_single ex ≡ true
      → (with_retry ex.errors (query_once ex gen) ex.retry gives_up x
          ≡ reported ex.errors (query ex gives_up gen x))
        × (with_retry ex.errors (exec_once ex gen) ex.retry gives_up x
            ≡ reported ex.errors (exec ex gives_up gen x))
  unfolding query exec
  query-exec ex gives_up gen x h = (
    with_retry_once ex.errors (query_once ex gen) ex.retry gives_up x h
        ∙ ap
            (λ b. reported ex.errors (
              if b
              then query_once ex gen x
              else with_retry ex.errors (query_once ex gen) ex.retry gives_up x))
            (sym h),
    with_retry_once ex.errors (exec_once ex gen) ex.retry gives_up x h
        ∙ ap
            (λ b. reported ex.errors (
              if b
              then exec_once ex gen x
              else with_retry ex.errors (exec_once ex gen) ex.retry gives_up x))
            (sym h),
  )
