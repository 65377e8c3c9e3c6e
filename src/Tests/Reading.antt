-- ===== src/Tests/Reading.antt =====
-- A read on a database that counts its open rows.
use breezeorm.Prelude.{
  ℕ, suc, ◌-◌, ◌≡◌, refl, ap, subst, true, false, List, [], ◌∷◌, Option, none, some,
}
use breezeorm.Prelude.Int.{ℤ, pos}
use breezeorm.Text.{Bytes, lit}
use breezeorm.Query.Builder.{new}
use breezeorm.Plugins.{Answer}
use breezeorm.Dialect.Postgres.{postgres}
use breezeorm.Cache.Lru.{new_lru}
use breezeorm.Cache.Calls.SingleFlight.{start}
use breezeorm.Execution.{Failure}
use breezeorm.Execution.Statements.{Executor}
use breezeorm.Execution.Cursors.{IsManaged}
use breezeorm.Metadata.Compiled.{compile_struct}
use breezeorm.Scanner.Rows.{RowsSource}
use breezeorm.Orm.{Db}
use breezeorm.Orm.Opening.{Desk}
use breezeorm.Orm.Reads.{FastScan, first}
use breezeorm.Orm.Held.{IsClosable}
use breezeorm.Orm.Closing.{EndsQuiet, first-EndsQuiet}
use breezeorm.Tests.Running.{text_discrete}
use breezeorm.Tests.Scanning.{post}
use breezeorm.Tests.Orm.{cold}

abbrev IsQuiet : ℕ → Type 0
IsQuiet n = n ≡ 0

abbrev IsOwned : ℕ → ℕ → Type 0
IsOwned rows n = n ≡ 1

abbrev opening : Executor ℕ ℕ ℕ ℕ ℕ
opening = record {
  driver = record {
    prepare_context = λ text n. (Answer.ok 7, n);
    query_context = λ stmt args n. (Answer.ok 5, suc n);
    exec_context = λ stmt args n. (Answer.ok 1, n);
    close_stmt = λ stmt n. n;
  };
  errors = record { text = λ e. []; is_context = λ e. false };
  retry = record { max_attempts = pos 2; base_delay = pos 1; max_delay = pos 1 };
  same_text = text_discrete;
  others = λ i x. x;
}

opening-IsManaged : IsManaged opening IsQuiet IsOwned
opening-IsManaged = record {
  prepare_quiet = λ text s q. q;
  close_quiet = λ stmt s q. q;
  others_quiet = λ i x q. q;
  query_leaves = λ stmt args s q. ap suc q;
}

abbrev columns : ℕ → ℕ → Answer ℕ (List Bytes) × ℕ
columns rows n = (Answer.ok (lit "id" ∷ []), n)

abbrev one_row : ℕ → RowsSource ℕ ℕ ℕ
one_row rows = record {
  advance = λ n. (true, n);
  scan = λ ts v n. (none, rows, n);
  close = λ n. (none, n - 1);
  err = λ n. none;
}

abbrev one_count : ℕ → RowsSource ℕ ℕ ℤ
one_count rows = record {
  advance = λ n. (true, n);
  scan = λ ts v n. (none, pos rows, n);
  close = λ n. (none, n - 1);
  err = λ n. none;
}

abbrev generated : ℕ → Option (FastScan ℕ ℕ ℕ)
generated key = some (record { one = λ v n. (none, 8, n); all = none })

-- A generated function leaves a number of rows open.
abbrev Keeps : ℕ → ℕ → ℕ → Option (FastScan ℕ ℕ ℕ) → Type 0
Keeps rows v n none = Unit
Keeps rows v n (some f) = IsOwned rows (f.one v n).2

opening-IsClosable : IsClosable columns one_row generated IsQuiet IsOwned
opening-IsClosable = record {
  columns_owned = λ rows s o. o;
  advance_owned = λ rows s o. o;
  scan_owned = λ rows ts v s o. o;
  fast_owned = λ rows key f v s e o. subst (Keeps rows v s) e o;
  close_quiet = λ rows s o. ap (λ k. k - 1) o;
}

abbrev database : Db ℕ ℕ ℕ
database = record { dialect = postgres; passes = []; plugins = []; plugins_cache_safe = true }

abbrev gives_up : ℕ → ℕ → Option ℕ
gives_up ctx attempt = none

abbrev error_of : Failure ℕ → ℕ
error_of f = 0

abbrev affected : ℕ → Answer ℕ ℤ
affected res = Answer.ok (pos res)

abbrev desk : Desk ℕ ℕ ℕ ℕ
desk = record {
  plans = new_lru (pos 4);
  wire = record { store = record { stmts = start text_discrete (pos 4); db = 0 }; reports = [] };
}

first-EndsQuiet_example :
    EndsQuiet database opening gives_up error_of affected columns one_row one_count generated
      IsQuiet IsOwned opening-IsManaged opening-IsClosable
      (first database opening gives_up error_of affected columns one_row one_count generated 0
        (λ bytes. 1)
        0
        7
        (some (compile_struct post))
        (new (lit "posts"))
        cold
        desk).1
first-EndsQuiet_example =
    first-EndsQuiet database opening gives_up error_of affected columns one_row one_count generated
      IsQuiet IsOwned opening-IsManaged opening-IsClosable 0 (λ bytes. 1) 0 7
      (some (compile_struct post)) (new (lit "posts")) cold desk refl
