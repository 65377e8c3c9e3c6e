-- ===== src/Transaction/Retry.antt =====
-- What reaches the database when a transaction is run and run again.
use breezeorm.Prelude.{ℕ, ◌+◌, ◌≤◌, ◌≡◌, [], ◌∷◌, Option, none}
use breezeorm.Text.{Bytes}
use breezeorm.Transaction.{
  Command, begin, commit, rollback, savepoint, rollback_to, release, statement, Ending, finished,
  Log,
}

module _ {E : Type 0} where
  -- A count over the commands of a log.
  abbrev pub total : (Command → Option E → ℕ) → Log E → ℕ
  total w [] = 0
  total w ((c, r) ∷ log) = w c r + total w log

  -- Transactions that the database made durable, began, and was told to end.
  abbrev pub is_commit : Command → Option E → ℕ
  is_commit commit none = 1
  is_commit _ r = 0

  abbrev pub is_begin : Command → Option E → ℕ
  is_begin begin none = 1
  is_begin _ r = 0

  abbrev pub is_end : Command → Option E → ℕ
  is_end commit r = 1
  is_end rollback r = 1
  is_end _ r = 0

  -- A count of commands that no body sends.
  abbrev pub IsOuter : (Command → Option E → ℕ) → Type 0
  IsOuter w =
      ((s : Bytes) (r : Option E) → w (statement s) r ≡ 0)
      × ((n : ℕ) (r : Option E)
          → (w (savepoint n) r ≡ 0) × (w (rollback_to n) r ≡ 0) × (w (release n) r ≡ 0))

  module _ (answer : Log E → Command → Option E) where
    -- a nil error
    abbrev pub is_done : Ending E → ℕ
    is_done finished = 1
    is_done _ = 0

    -- What one or more attempts leave: a nil error stands for one durable transaction, any other end for
    -- none; each transaction that began was ended once; no more began than a number.
    abbrev pub Settles : ℕ → Log E → Ending E × Log E → Type 0
    Settles n log (e, log') =
        (total is_commit log' ≡ is_done e + total is_commit log)
        × (total is_begin log' + total is_end log ≡ total is_begin log + total is_end log')
        × (total is_begin log' ≤ n + total is_begin log)
