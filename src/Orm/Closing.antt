-- ===== src/Orm/Closing.antt =====
-- Every read leaves its rows closed.
use mathlib.Core.Option
use breezeorm.Prelude.{ℕ, List, ◌≡◌, refl, Option, none, some}
use breezeorm.Prelude.Int.{ℤ, pos}
use breezeorm.Text.{Bytes}
use breezeorm.Query.Builder.{Builder, limit}
use breezeorm.Plugins.{Answer}
use breezeorm.Cache.Calls.{World, Reply}
use breezeorm.Compiler.{CompiledQuery}
use breezeorm.Execution.{Failure}
use breezeorm.Execution.Statements.{Executor}
use breezeorm.Execution.Cursors.{IsManaged}
use breezeorm.Metadata.Compiled.{Table}
use breezeorm.Scanner.Rows.{RowsSource}
use breezeorm.Scanner.Closing.{scan_one-Closed, scan_one_fast-Closed}
use breezeorm.Orm.{Db, compile_cached, sent}
use breezeorm.Orm.Writes.{Done, completed, errored, panicked}
use breezeorm.Orm.Opening.{Desk, Opened, read_sent, queried, query_and_plan}
use breezeorm.Orm.Reads.{FastScan, first_scanned, first_opened, first, if_opened}
use breezeorm.Orm.Held.{IsClosable, Opens, queried-Opens}

module _ {Ctx E Report S Stmt Rows Res V : Type 0} (db : Db Ctx E Report)
    (ex : Executor S E Stmt Rows Res) (gives_up : Ctx → ℕ → Option E) (error_of : Failure E → E)
    (rows_affected : Res → Answer E ℤ) (columns : Rows → S → Answer E (List Bytes) × S)
    (source : Rows → RowsSource S E V) (count_source : Rows → RowsSource S E ℤ)
    (fast : ℕ → Option (FastScan S E V)) (Quiet : S → Type 0) (Owned : Rows → S → Type 0)
    (managed : IsManaged ex Quiet Owned)
    (closable : IsClosable columns source fast Quiet Owned) where
  first_scanned-Quiet :
      (zero_value : V) (f : Option (FastScan S E V)) (o : Opened Rows) (s : S)
      → fast o.key ≡ f
      → Owned o.rows s
      → Quiet
          (first_scanned db ex gives_up error_of rows_affected columns source count_source fast
            zero_value f o s).1
  first_scanned-Quiet zero_value none o s e own =
      scan_one-Closed (source o.rows) Quiet (Owned o.rows) (closable.advance_owned o.rows)
        (closable.close_quiet o.rows) (closable.scan_owned o.rows) o.plan zero_value s own
  first_scanned-Quiet zero_value (some f) o s e own =
      scan_one_fast-Closed (source o.rows) Quiet (Owned o.rows) (closable.advance_owned o.rows)
        (closable.close_quiet o.rows) f.one (λ v s. closable.fast_owned o.rows o.key f v s e)
        zero_value s own

  first_opened-Quiet :
      (zero_value : V) (r : Done E (Opened Rows) × Desk S E Stmt Report)
      → Opens db ex gives_up error_of rows_affected columns source fast Quiet Owned managed closable
          r
      → Quiet
          (first_opened db ex gives_up error_of rows_affected columns source count_source fast
            zero_value r).1.wire.store.db
  first_opened-Quiet zero_value (completed o, x) h =
      first_scanned-Quiet zero_value (fast o.key) o x.wire.store.db refl h
  first_opened-Quiet zero_value (errored e, x) h = h
  first_opened-Quiet zero_value (panicked, x) h = h

  -- Nothing is open after a read, where it comes to an end.
  abbrev pub EndsQuiet : {A : Type 0} → Option (A × Desk S E Stmt Report) → Type 0
  EndsQuiet none = Unit
  EndsQuiet (some (a, x)) = Quiet x.wire.store.db

  first-Reply :
      (zero_value : V) (ctx : Ctx) (nanos : ℕ) (table : Table) (b : Builder)
      (o : Option (Reply CompiledQuery E)) (w : World ℕ CompiledQuery E) (x : Desk S E Stmt Report)
      → Quiet x.wire.store.db
      → EndsQuiet
          (if_opened db ex gives_up error_of rows_affected columns source count_source fast
            (λ r. some (
              first_opened db ex gives_up error_of rows_affected columns source count_source fast
                zero_value r))
            (
              w,
              Option.map
                  (λ r.
                    queried db ex gives_up error_of rows_affected columns source table r
                      (read_sent db ex gives_up error_of rows_affected columns source ctx nanos
                        (sent b r)
                        x.wire)
                      x.plans)
                  o,
            )).1
  first-Reply zero_value ctx nanos table b none w x q = tt
  first-Reply zero_value ctx nanos table b (some r) w x q =
      first_opened-Quiet zero_value
        (queried db ex gives_up error_of rows_affected columns source table r
          (read_sent db ex gives_up error_of rows_affected columns source ctx nanos (sent b r)
            x.wire)
          x.plans)
        (queried-Opens db ex gives_up error_of rows_affected columns source fast Quiet Owned managed
          closable ctx nanos table b r x q)

  -- First, on a database without open rows, whose driver opens rows by queries only and closes them by
  -- Close, and with generated scanners that do not close them, where neither of the two panics: unless it
  -- waits for another caller's compilation, no rows are open when it returns, through whichever scanner,
  -- error, retry or other panic.
  pub first-EndsQuiet :
      (zero_value : V) (hash : Bytes → ℕ) (ctx : Ctx) (nanos : ℕ) (table : Option Table)
      (b : Builder) (w : World ℕ CompiledQuery E) (x : Desk S E Stmt Report)
      → Quiet x.wire.store.db
      → EndsQuiet
          (first db ex gives_up error_of rows_affected columns source count_source fast zero_value
            hash ctx nanos table b w x).1
  unfolding first query_and_plan
  first-EndsQuiet zero_value hash ctx nanos none b w x q = q
  first-EndsQuiet zero_value hash ctx nanos (some table) b w x q =
      let (w', reply) = compile_cached hash ctx db (limit b (pos 1)) w in
      first-Reply zero_value ctx nanos table (limit b (pos 1)) reply w' x q
