-- ===== src/Execution/Rounds.antt =====
-- Which attempt of a retried statement decides its outcome.
use breezeorm.Prelude.{
  ℕ, zero, suc, ◌<◌, ◌≡◌, refl, ap, ◌∙◌, true, false, Option, if◌then◌else◌, arith,
}
use breezeorm.Retry.{Wait, waited}
use breezeorm.Execution.{
  Failure, no_error, Ran, done, broken, crashed, RetryPolicy, Errors, is_retryable_error,
  attempts_of, unless_given_up, again, retry_from, wait_before, with_retry,
}

module _ {E V X : Type 0} (errors : Errors E) (fn : X → Ran E V × X) where
  -- The state after some attempts.
  abbrev pub after : ℕ → X → X
  after zero x = x
  after (suc k) x = after k (fn x).1

  -- An attempt fails with an error that is taken as transient.
  abbrev pub IsTransient : Ran E V → Type 0
  IsTransient (done v) = ⊥
  IsTransient crashed = ⊥
  IsTransient (broken f) = is_retryable_error errors f ≡ true

  abbrev pub IsFinal : Ran E V → Type 0
  IsFinal (done v) = Unit
  IsFinal crashed = Unit
  IsFinal (broken f) = is_retryable_error errors f ≡ false

  -- The next attempts are all transient failures.
  abbrev pub Fails : ℕ → X → Type 0
  Fails zero x = Unit
  Fails (suc k) x = IsTransient (fn x).0 × Fails k (fn x).1

  -- Each wait before the next attempts, from one of a number on, ends in time.
  abbrev pub Waits : (ℕ → Wait E) → ℕ → ℕ → Type 0
  Waits pause zero attempt = Unit
  Waits pause (suc k) attempt = (pause attempt ≡ waited) × Waits pause k (suc attempt)

  again-IsFinal :
      (next : Failure E → X → Ran E V × X) (r : Ran E V) (x : X)
      → IsFinal r
      → again errors fn next (r, x) ≡ (r, x)
  unfolding again
  again-IsFinal next (done v) x h = refl
  again-IsFinal next crashed x h = refl
  again-IsFinal next (broken f) x h = ap (λ b. if b then next f x else (broken f, x)) h

  again-IsTransient :
      (next : Failure E → X → Ran E V × X) (r : Ran E V) (x : X)
      → IsTransient r
      → (f : Failure E) × (again errors fn next (r, x) ≡ next f x)
  unfolding again
  again-IsTransient next (done v) x h = absurd h
  again-IsTransient next crashed x h = absurd h
  again-IsTransient next (broken f) x h = (f, ap (λ b. if b then next f x else (broken f, x)) h)

  module _ (pause : ℕ → Wait E) (total : ℕ) where
    retry_from-IsFinal :
        (k rounds attempt : ℕ) (last : Failure E) (x : X)
        → k < rounds
        → Fails k x
        → Waits pause (suc k) attempt
        → IsFinal (fn (after k x)).0
        → retry_from errors fn pause total rounds attempt last x ≡ fn (after k x)
    unfolding retry_from
    retry_from-IsFinal k zero attempt last x lt fails (w, ws) final = absurd (omega arith)
    retry_from-IsFinal zero (suc rounds) attempt last x lt fails (w, ws) final =
        ap
          (λ p.
            unless_given_up errors fn p x
              (again errors fn (retry_from errors fn pause total rounds (suc attempt)) (fn x)))
          w
        ∙ again-IsFinal (retry_from errors fn pause total rounds (suc attempt)) (fn x).0 (fn x).1
            final
    retry_from-IsFinal (suc k) (suc rounds) attempt last x lt (fail, fails) (w, ws) final =
        let (f, on) =
          again-IsTransient (retry_from errors fn pause total rounds (suc attempt)) (fn x).0
            (fn x).1 fail in
        ap
          (λ p.
            unless_given_up errors fn p x
              (again errors fn (retry_from errors fn pause total rounds (suc attempt)) (fn x)))
          w
        ∙ on
        ∙ retry_from-IsFinal k rounds (suc attempt) f (fn x).1 (omega arith) fails ws final

  -- A retried call, where some attempts in a row, fewer than are allowed, fail with transient errors and
  -- the waits up to the next attempt end in time: if that attempt succeeds, panics or fails with another
  -- error, the call ends with exactly its outcome and state.
  pub with_retry-IsFinal :
      (policy : RetryPolicy) (gives_up : ℕ → Option E) (k : ℕ) (x : X)
      → k < attempts_of policy.max_attempts
      → Fails k x
      → Waits (wait_before errors fn policy gives_up) (suc k) 0
      → IsFinal (fn (after k x)).0
      → with_retry errors fn policy gives_up x ≡ fn (after k x)
  unfolding with_retry
  with_retry-IsFinal policy gives_up k x lt fails waits final =
      retry_from-IsFinal (wait_before errors fn policy gives_up) (attempts_of policy.max_attempts) k
        (attempts_of policy.max_attempts) 0 no_error x lt fails waits final
