-- ===== src/Scanner/Closing.antt =====
-- Every way out of the scanner closes the rows.
use breezeorm.Prelude.{
  ℕ, zero, suc, ◌≤◌, ◌≡◌, refl, Bool, true, false, List, [], ◌∷◌, ◌++◌, Option, none, some, arith,
  ◌⊎◌, inl, inr,
}
use breezeorm.Plugins.{Answer}
use breezeorm.Scanner.{Pointer, Plan, targets}
use breezeorm.Scanner.Rows.{
  RowsSource, ScanError, without_row, one_from, scan_one, fast_closed, fast_scanned, fast_from,
  scan_one_fast, all_scanned, all_advanced, scan_loop, then_close, scan_all_hint,
}

-- `Owned` holds of a row source that is open, and `Closed` after its `Close`.
module _ {S E V : Type 0} (rows : RowsSource S E V) (Closed Owned : S → Type 0)
    (advancing : (s : S) → Owned s → Owned (rows.advance s).1)
    (closing : (s : S) → Owned s → Closed (rows.close s).1) where
  without_row-Closed : (e : Option E) (s : S) → Owned s → Closed (without_row rows e s).1
  without_row-Closed (some e) s o = closing s o
  without_row-Closed none s o = closing s o

  module _
      (scanning : (ts : List Pointer) (v : V) (s : S) → Owned s → Owned (rows.scan ts v s).2) where
    one_from-Closed : (p : Plan) (v : V) (r : Bool × S) → Owned r.1 → Closed (one_from rows p v r).1
    one_from-Closed p v (false, s) o = without_row-Closed (rows.err s) s o
    one_from-Closed p v (true, s) o =
        closing (rows.scan (targets p 0) v s).2 (scanning (targets p 0) v s o)

    pub scan_one-Closed :
        (p : Plan) (zero_value : V) (s : S) → Owned s → Closed (scan_one rows p zero_value s).1
    unfolding scan_one
    scan_one-Closed p zero_value s o = one_from-Closed p zero_value (rows.advance s) (advancing s o)

  fast_closed-Closed : (v : V) (r : Option E × S) → Closed r.1 → Closed (fast_closed rows v r).1
  fast_closed-Closed v (none, s) h = h
  fast_closed-Closed v (some e, s) h = h

  fast_scanned-Closed : (r : Option E × V × S) → Owned r.2 → Closed (fast_scanned rows r).1
  fast_scanned-Closed (some e, v, s) o = closing s o
  fast_scanned-Closed (none, v, s) o = fast_closed-Closed v (rows.close s) (closing s o)

  module _ (scan : V → S → Option E × V × S)
      (scanning : (v : V) (s : S) → Owned s → Owned (scan v s).2) where
    fast_from-Closed : (v : V) (r : Bool × S) → Owned r.1 → Closed (fast_from rows scan v r).1
    fast_from-Closed v (false, s) o = without_row-Closed (rows.err s) s o
    fast_from-Closed v (true, s) o = fast_scanned-Closed (scan v s) (scanning v s o)

    pub scan_one_fast-Closed :
        (zero_value : V) (s : S) → Owned s → Closed (scan_one_fast rows scan zero_value s).1
    unfolding scan_one_fast
    scan_one_fast-Closed zero_value s o =
        fast_from-Closed zero_value (rows.advance s) (advancing s o)

-- The rows come to an end within a number of calls of `Next`, each followed by a scan into a new value.
module _ {S E V : Type 0} (rows : RowsSource S E V) (p : Plan) (zero_value : V) where
  abbrev pub EndsAfter : (S → Type 0) → Bool × S → Type 0
  EndsAfter Later (false, s) = Unit
  EndsAfter Later (true, s) = Later (rows.scan (targets p 0) zero_value s).2

  abbrev pub Ends : ℕ → S → Type 0
  Ends zero s = ⊥
  Ends (suc n) s = EndsAfter (Ends n) (rows.advance s)

  abbrev IsSome : Option (Answer (ScanError E) (List V) × S) → Type 0
  IsSome none = ⊥
  IsSome (some r) = Unit

  all_scanned-IsSome :
      (next : List V → S → Option (Answer (ScanError E) (List V) × S)) (out : List V)
      (r : Option E × V × S)
      → ((out : List V) → IsSome (next out r.2))
      → IsSome (all_scanned rows p next out r)
  all_scanned-IsSome next out (some e, v, s) h = tt
  all_scanned-IsSome next out (none, v, s) h = h (out ++ (v ∷ []))

  all_advanced-IsSome :
      (Later : S → Type 0) (next : List V → S → Option (Answer (ScanError E) (List V) × S))
      (out : List V) (r : Bool × S)
      → ((out : List V) (s : S) → Later s → IsSome (next out s))
      → EndsAfter Later r
      → IsSome (all_advanced rows p zero_value next out r)
  all_advanced-IsSome Later next out (false, s) h e = tt
  all_advanced-IsSome Later next out (true, s) h e =
      let r = rows.scan (targets p 0) zero_value s in
      all_scanned-IsSome next out r (λ out. h out r.2 e)

  scan_loop-IsSome :
      (n fuel : ℕ) (out : List V) (s : S)
      → n ≤ fuel
      → Ends n s
      → IsSome (scan_loop rows fuel p zero_value out s)
  unfolding scan_loop
  scan_loop-IsSome zero fuel out s le e = absurd e
  scan_loop-IsSome (suc n) zero out s le e = absurd (omega arith)
  scan_loop-IsSome (suc n) (suc fuel) out s le e =
      all_advanced-IsSome (Ends n) (scan_loop rows fuel p zero_value) out (rows.advance s)
        (λ out s. scan_loop-IsSome n fuel out s (omega arith)) e

  all_Closed :
      (Closed : S → Type 0) (closing : (s : S) → Closed (rows.close s).1)
      (o : Option (Answer (ScanError E) (List V) × S))
      → IsSome o
      → (a : Answer (ScanError E) (List V)) × (s' : S) × (then_close rows o ≡ some (a, s'))
        × Closed s'
  all_Closed Closed closing none h = absurd h
  all_Closed Closed closing (some (a, s)) h = (a, (rows.close s).1, refl, closing s)

  loop_Closed :
      (Closed : S → Type 0) (closing : (s : S) → Closed (rows.close s).1) (fuel : ℕ) (s : S)
      (o : Option (Answer (ScanError E) (List V) × S))
      → (Ends fuel s → IsSome o)
      → (¬ Ends fuel s)
        ⊎ ((a : Answer (ScanError E) (List V)) × (s' : S) × (then_close rows o ≡ some (a, s'))
            × Closed s')
  loop_Closed Closed closing fuel s none h = inl h
  loop_Closed Closed closing fuel s (some r) h = inr (all_Closed Closed closing (some r) tt)

  -- A row source that Close leaves closed is left closed by ScanOne and by ScanOneFast with any generated
  -- function, with a row, without one and on every error, whatever rows it has; and ScanAll, with a unit
  -- of fuel for each call of Next, returns and leaves it closed, unless the rows do not come to an end
  -- within so many calls.
  pub scan_one-scan_all_hint :
      (Closed : S → Type 0) (closing : (s : S) → Closed (rows.close s).1)
      (scan : V → S → Option E × V × S) (fuel : ℕ) (s : S)
      → Closed (scan_one rows p zero_value s).1
        × Closed (scan_one_fast rows scan zero_value s).1
        × ((¬ Ends fuel s)
            ⊎ ((a : Answer (ScanError E) (List V)) × (s' : S) × (scan_all_hint rows fuel p
                    zero_value s
                  ≡ some (a, s'))
                × Closed s'))
  unfolding scan_all_hint
  scan_one-scan_all_hint Closed closing scan fuel s = (
    scan_one-Closed rows Closed (λ s. Unit) (λ s o. tt) (λ s o. closing s) (λ ts v s o. tt) p
        zero_value s tt,
    scan_one_fast-Closed rows Closed (λ s. Unit) (λ s o. tt) (λ s o. closing s) scan (λ v s o. tt)
        zero_value s tt,
    loop_Closed Closed closing fuel s (scan_loop rows fuel p zero_value [] s)
        (scan_loop-IsSome fuel fuel [] s (omega arith)),
  )
