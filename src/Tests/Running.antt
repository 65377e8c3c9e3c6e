-- ===== src/Tests/Running.antt =====
-- Statements and their retries, on a database that is a count of calls.
use native.Mathlib.Decide.{ℕ_discrete}
use breezeorm.Prelude.{
  ℕ, zero, suc, ◌*◌, ◌^◌, ◌≡◌, refl, false, [], none, some, ltb, if◌then◌else◌, arith,
}
use breezeorm.Prelude.Int.{pos}
use breezeorm.Text
use breezeorm.Text.{Bytes, lit, bytes_eq}
use breezeorm.Plugins.{Answer}
use breezeorm.Sqlgen.{GeneratedSql}
use breezeorm.Retry
use breezeorm.Retry.{capped_delay, draw_bound}
use breezeorm.Retry.Delays.{draw_bound-capped_delay}
use breezeorm.Cache.Calls.SingleFlight.{start}
use breezeorm.Execution
use breezeorm.Execution.{
  Driver, Store, Ran, done, broken, plain, Errors, RetryPolicy, with_retry, default_retry_policy,
}
use breezeorm.Execution.Statements.{Executor, query_once, exec_once, query, exec}
use breezeorm.Execution.Rounds.{with_retry-IsFinal}
use breezeorm.Execution.Paths.{reported, query-exec}

draw_bound-capped_delay_example : draw_bound (capped_delay (pos 10_000_000) (pos 500_000_000) 3) ≡ (
    if ltb (10_000_000 * 2 ^ 2) (2 ^ 63)
    then some
        (suc (if ltb 500_000_000 (10_000_000 * 2 ^ 2) then 500_000_000 else 10_000_000 * 2 ^ 2))
    else none)
draw_bound-capped_delay_example =
    draw_bound-capped_delay 10_000_000 500_000_000 2 (omega arith) (omega arith) (omega arith)

-- With the default policy of a transaction the 41st attempt panics.
overflow : draw_bound (capped_delay (pos 10_000_000) (pos 500_000_000) 41) ≡ none
overflow =
    draw_bound-capped_delay 10_000_000 500_000_000 40 (omega arith) (omega arith) (omega arith)

-- Errors are their own texts.
abbrev texts : Errors Bytes
texts = record { text = λ e. e; is_context = λ e. false }

-- It fails with a deadlock on its first call.
abbrev first_deadlocks : ℕ → Ran Bytes ℕ × ℕ
first_deadlocks zero = (broken (plain (lit "Deadlock found")), 1)
first_deadlocks (suc n) = (done n, suc (suc n))

with_retry-IsFinal_example :
    with_retry texts first_deadlocks default_retry_policy (λ i. none) 0 ≡ first_deadlocks 1
unfolding lit Execution.is_retryable_error Execution.wait_before Retry.to_lower Retry.contains_any
    Retry.contains Text.has_prefix
with_retry-IsFinal_example =
    with_retry-IsFinal texts first_deadlocks default_retry_policy (λ i. none) 1 0 (omega arith)
      (refl, tt) (refl, (refl, tt)) tt

abbrev pub text_discrete : Discrete Bytes
text_discrete = hlevel ℕ_discrete

abbrev pub counting : Executor ℕ ℕ ℕ ℕ ℕ
counting = record {
  driver = record {
    prepare_context = λ text db. (Answer.ok 7, suc db);
    query_context = λ stmt args db. (Answer.refused 3, suc db);
    exec_context = λ stmt args db. (Answer.ok db, suc db);
    close_stmt = λ stmt db. db;
  };
  errors = record { text = λ e. lit "deadlock"; is_context = λ e. false };
  retry = record { max_attempts = pos 1; base_delay = pos 0; max_delay = pos 0 };
  same_text = text_discrete;
  others = λ i x. x;
}

abbrev pub idle : Store ℕ ℕ ℕ
idle = record { stmts = start text_discrete (pos 4); db = 0 }

abbrev select_one : GeneratedSql
select_one = record { sql = lit "SELECT 1"; params = [] }

query-exec_example :
    (with_retry counting.errors (query_once counting select_one) counting.retry (λ i. none) idle
      ≡ reported counting.errors (query counting (λ i. none) select_one idle))
    × (with_retry counting.errors (exec_once counting select_one) counting.retry (λ i. none) idle
        ≡ reported counting.errors (exec counting (λ i. none) select_one idle))
query-exec_example = query-exec counting (λ i. none) select_one idle refl
