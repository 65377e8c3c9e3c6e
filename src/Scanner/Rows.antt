-- ===== src/Scanner/Rows.antt =====
-- pkg/scanner/scanner.go: reading rows. A row source is a record of functions on its state `S`; its `scan`
-- writes to a value of the struct, which is a `V`, through pointers from its start. `zero_value` is what
-- `new(T)` holds. The capacity of the slice of `ScanAllHint` only says when it is copied.
use breezeorm.Prelude.{ℕ, zero, suc, Bool, true, false, List, [], ◌∷◌, ◌++◌, Option, none, some}
use breezeorm.Text.{Bytes}
use breezeorm.Plugins.{Answer}
use breezeorm.Scanner.{Pointer, Plan, targets}

pub record RowsSource (S E V : Type 0) : Type 0 where
  pub advance : S → Bool × S
  pub scan : List Pointer → V → S → Option E × V × S
  pub close : S → Option E × S
  pub err : S → Option E

pub data ScanError (E : Type 0) : Type 0 where
  iteration_failed fast_scan_failed close_failed : E → ScanError E
  scan_failed : Bytes → E → ScanError E
  no_rows : ScanError E

module _ {S E V : Type 0} (rows : RowsSource S E V) where
  abbrev pub scan_row_error : Plan → Option E → Option (ScanError E)
  scan_row_error p none = none
  scan_row_error p (some e) = some (scan_failed p.table.name e)

  unfoldable pub scan_row : Plan → V → S → Option (ScanError E) × V × S
  unfolding targets
  scan_row p dest s = let (e, v, s') = rows.scan (targets p 0) dest s in (scan_row_error p e, v, s')

  -- where there is no row
  abbrev pub without_row : Option E → S → Answer (ScanError E) V × S
  without_row (some e) s = (Answer.refused (iteration_failed e), (rows.close s).1)
  without_row none s = (Answer.refused no_rows, (rows.close s).1)

  -- `ScanOne` after the row, on what closing says
  abbrev pub one_closed : Plan → Option E → Option E → V → Answer (ScanError E) V
  one_closed p (some e) closed v = Answer.refused (scan_failed p.table.name e)
  one_closed p none (some e) v = Answer.refused (close_failed e)
  one_closed p none none v = Answer.ok v

  abbrev pub one_scanned : Plan → Option E × V × S → Answer (ScanError E) V × S
  one_scanned p (e, v, s) = let (closed, s') = rows.close s in (one_closed p e closed v, s')

  abbrev pub one_from : Plan → V → Bool × S → Answer (ScanError E) V × S
  one_from p zero_value (false, s) = without_row (rows.err s) s
  one_from p zero_value (true, s) = one_scanned p (rows.scan (targets p 0) zero_value s)

  unfoldable pub scan_one : Plan → V → S → Answer (ScanError E) V × S
  unfolding targets
  scan_one p zero_value s = one_from p zero_value (rows.advance s)

  abbrev pub fast_closed : V → Option E × S → Answer (ScanError E) V × S
  fast_closed v (none, s) = (Answer.ok v, s)
  fast_closed v (some e, s) = (Answer.refused (close_failed e), s)

  abbrev pub fast_scanned : Option E × V × S → Answer (ScanError E) V × S
  fast_scanned (some e, v, s) = (Answer.refused (fast_scan_failed e), (rows.close s).1)
  fast_scanned (none, v, s) = fast_closed v (rows.close s)

  abbrev pub fast_from : (V → S → Option E × V × S) → V → Bool × S → Answer (ScanError E) V × S
  fast_from scan zero_value (false, s) = without_row (rows.err s) s
  fast_from scan zero_value (true, s) = fast_scanned (scan zero_value s)

  -- `ScanOneFast`; `scan` is the generated function
  unfoldable pub scan_one_fast : (V → S → Option E × V × S) → V → S → Answer (ScanError E) V × S
  scan_one_fast scan zero_value s = fast_from scan zero_value (rows.advance s)

  abbrev pub all_ended : List V → Option E → Answer (ScanError E) (List V)
  all_ended out (some e) = Answer.refused (iteration_failed e)
  all_ended out none = Answer.ok out

  -- the end of a round of the loop of `ScanAllHint`
  abbrev pub all_scanned :
      Plan
      → (List V → S → Option (Answer (ScanError E) (List V) × S))
      → List V
      → Option E × V × S
      → Option (Answer (ScanError E) (List V) × S)
  all_scanned p next out (some e, v, s) = some (Answer.refused (scan_failed p.table.name e), s)
  all_scanned p next out (none, v, s) = next (out ++ (v ∷ [])) s

  abbrev pub all_advanced :
      Plan
      → V
      → (List V → S → Option (Answer (ScanError E) (List V) × S))
      → List V
      → Bool × S
      → Option (Answer (ScanError E) (List V) × S)
  all_advanced p zero_value next out (false, s) = some (all_ended out (rows.err s), s)
  all_advanced p zero_value next out (true, s) =
      all_scanned p next out (rows.scan (targets p 0) zero_value s)

  -- One unit of fuel is one call of `Next`.
  unfoldable pub scan_loop : ℕ → Plan → V → List V → S → Option (Answer (ScanError E) (List V) × S)
  unfolding targets
  scan_loop zero p zero_value out s = none
  scan_loop (suc fuel) p zero_value out s =
      all_advanced p zero_value (scan_loop fuel p zero_value) out (rows.advance s)

  -- the `defer` of `ScanAllHint`
  abbrev pub then_close :
      Option (Answer (ScanError E) (List V) × S) → Option (Answer (ScanError E) (List V) × S)
  then_close none = none
  then_close (some (a, s)) = some (a, (rows.close s).1)

  -- `ScanAllHint`, and so `ScanAll`; none is out of fuel
  unfoldable pub scan_all_hint : ℕ → Plan → V → S → Option (Answer (ScanError E) (List V) × S)
  unfolding scan_loop
  scan_all_hint fuel p zero_value s = then_close (scan_loop fuel p zero_value [] s)
