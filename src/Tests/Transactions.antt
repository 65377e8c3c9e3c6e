-- ===== src/Tests/Transactions.antt =====
-- The transaction theorems on a transaction with a nested one that fails, and on a database that refuses
-- the first COMMIT.
use breezeorm.Prelude.{
  ℕ, refl, Bool, true, false, [], ◌∷◌, Option, none, some, arith, if◌then◌else◌,
}
use breezeorm.Prelude.Int.{pos}
use breezeorm.Text.{lit}
use breezeorm.Transaction.{
  Command, commit, plain, finished, failed, Body, ends, sends, nests, Log, RetryPolicy, run_body,
}
use breezeorm.Transaction.Savepoints.{savepoints, Returns, IsNested, run_body-IsNested}

-- `fn` runs a transaction inside its own, which inserts a row and fails; then it goes on.
abbrev careful : Body ℕ
careful =
    nests (sends (lit "INSERT") (λ r. ends (failed (plain 5))))
      (λ e. sends (lit "UPDATE") (λ r. nests (ends finished) (λ e'. ends finished)))

abbrev willing : Log ℕ → Command → Option ℕ
willing log c = none

willing-Returns : Returns willing
willing-Returns log n there = (refl, refl)

run_body-IsNested_example : IsNested 0 [] (run_body willing careful 0 [])
unfolding savepoints
run_body-IsNested_example = run_body-IsNested willing careful 0 [] willing-Returns tt (omega arith)

abbrev has_tried : Log ℕ → Bool
has_tried [] = false
has_tried ((commit, r) ∷ log) = true
has_tried (x ∷ log) = has_tried log

-- A database that refuses the first COMMIT with error 40.
abbrev deadlocks : Log ℕ → Command → Option ℕ
deadlocks log commit = if has_tried log then none else some 40
deadlocks log c = none

abbrev twice : RetryPolicy ℕ
twice = record {
  max_attempts = pos 2;
  base_delay = pos 10;
  max_delay = pos 50;
  is_retryable = some (λ e. true);
}
