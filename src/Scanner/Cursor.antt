-- ===== src/Scanner/Cursor.antt =====
-- The scanner over rows that are a list: what it promises without a cursor.
use breezeorm.Prelude.{
  ℕ, zero, suc, ◌<◌, ◌≡◌, refl, sym, ap, ◌∙◌, Bool, true, false, List, [], ◌∷◌, ◌++◌, append-nil,
  append_assoc, length, Option, none, some, arith,
}
use breezeorm.Plugins.{Answer}
use breezeorm.Scanner.{Pointer, Plan, targets}
use breezeorm.Scanner.Rows.{
  RowsSource, ScanError, scan_failed, iteration_failed, all_ended, all_scanned, scan_loop,
  then_close, scan_all_hint,
}

-- A driver's cursor: the row it stands on, the rows to come, what went wrong after them, and whether it
-- was closed.
pub record Cursor (R E : Type 0) : Type 0 where
  pub current : Option R
  pub coming : List R
  pub broke : Option E
  pub closed : Bool

-- A cursor before some rows.
abbrev pub before_rows : {R E : Type 0} → Option R → Option E → Bool → List R → Cursor R E
before_rows current broke closed rs = record {
  current = current;
  coming = rs;
  broke = broke;
  closed = closed;
}

-- `decode` writes a row through pointers; `stray` is what scanning without a row gives.
module _ {R E V : Type 0} (stray : E) (decode : List Pointer → V → R → Answer E V) where
  abbrev scanned : V → Answer E V → Option E × V
  scanned v (Answer.ok w) = (none, w)
  scanned v (Answer.refused e) = (some e, v)

  abbrev scan_current : List Pointer → V → Option R → Option E × V
  scan_current ts v none = (some stray, v)
  scan_current ts v (some r) = scanned v (decode ts v r)

  abbrev advance_over : Cursor R E → List R → Bool × Cursor R E
  advance_over c [] = (false, record c { current = none })
  advance_over c (r ∷ rs) = (true, record c { current = some r; coming = rs })

  abbrev pub list_rows : RowsSource (Cursor R E) E V
  list_rows = record {
    advance = λ c. advance_over c c.coming;
    scan = λ ts v c. let (e, w) = scan_current ts v c.current in (e, w, c);
    close = λ c. (none, record c { closed = true });
    err = λ c. c.broke;
  }

  -- All rows decoded in order, or the first failure.
  abbrev pub after_rows : Option E → List V → Answer (ScanError E) (List V)
  after_rows none vs = Answer.ok vs
  after_rows (some e) vs = Answer.refused (iteration_failed e)

  abbrev put : Plan → Answer E V → Answer (ScanError E) (List V) → Answer (ScanError E) (List V)
  put p (Answer.refused e) rest = Answer.refused (scan_failed p.table.name e)
  put p (Answer.ok v) (Answer.ok vs) = Answer.ok (v ∷ vs)
  put p (Answer.ok v) (Answer.refused e) = Answer.refused e

  unfoldable pub decode_all : Plan → V → Option E → List R → Answer (ScanError E) (List V)
  decode_all p zero_value broke [] = after_rows broke []
  decode_all p zero_value broke (r ∷ rs) =
      put p (decode (targets p 0) zero_value r) (decode_all p zero_value broke rs)

  abbrev onto : List V → Answer (ScanError E) (List V) → Answer (ScanError E) (List V)
  onto out (Answer.ok vs) = Answer.ok (out ++ vs)
  onto out (Answer.refused e) = Answer.refused e

  -- What a loop gives that goes on from a list, with what it does to the cursor left open.
  abbrev Gives :
      Answer (ScanError E) (List V) → Option (Answer (ScanError E) (List V) × Cursor R E) → Type 0
  Gives a o = (c : Cursor R E) × (o ≡ some (a, c))

  onto-put :
      (p : Plan) (out : List V) (v : V) (rest : Answer (ScanError E) (List V))
      → onto (out ++ (v ∷ [])) rest ≡ onto out (put p (Answer.ok v) rest)
  onto-put p out v (Answer.ok vs) = ap Answer.ok (append_assoc out (v ∷ []) vs)
  onto-put p out v (Answer.refused e) = refl

  ended :
      (out : List V) (broke : Option E)
      → all_ended list_rows out broke ≡ onto out (after_rows broke [])
  ended out (some e) = refl
  ended out none = ap Answer.ok (sym (append-nil out))

  round :
      (p : Plan) (zero_value : V) (a : Answer E V)
      (next : List V → Cursor R E → Option (Answer (ScanError E) (List V) × Cursor R E))
      (rest : Answer (ScanError E) (List V)) (out : List V) (c : Cursor R E)
      → ((out : List V) → Gives (onto out rest) (next out c))
      → Gives
          (onto out (put p a rest))
          (all_scanned list_rows p next out (let (e, w) = scanned zero_value a in (e, w, c)))
  round p zero_value (Answer.refused e) next rest out c h = (c, refl)
  round p zero_value (Answer.ok v) next rest out c h =
      let (c', gives) = h (out ++ (v ∷ [])) in
      (c', gives ∙ ap (λ a. some (a, c')) (onto-put p out v rest))

  scan_loop-decode_all :
      (p : Plan) (zero_value : V) (broke : Option E) (closed : Bool) (rs : List R) (fuel : ℕ)
      (out : List V) (current : Option R)
      → length rs < fuel
      → Gives
          (onto out (decode_all p zero_value broke rs))
          (scan_loop list_rows fuel p zero_value out (before_rows current broke closed rs))
  unfolding scan_loop decode_all
  scan_loop-decode_all p zero_value broke closed rs zero out current le = absurd (omega arith)
  scan_loop-decode_all p zero_value broke closed [] (suc fuel) out current le = (
    before_rows none broke closed [],
    ap (λ a. some (a, before_rows none broke closed [])) (ended out broke),
  )
  scan_loop-decode_all p zero_value broke closed (r ∷ rs) (suc fuel) out current le =
      round p zero_value (decode (targets p 0) zero_value r) (scan_loop list_rows fuel p zero_value)
        (decode_all p zero_value broke rs) out (before_rows (some r) broke closed rs)
        (λ out. scan_loop-decode_all p zero_value broke closed rs fuel out (some r) (omega arith))

  onto-nil : (a : Answer (ScanError E) (List V)) → onto [] a ≡ a
  onto-nil (Answer.ok vs) = refl
  onto-nil (Answer.refused e) = refl

  -- ScanAll over a cursor, with more fuel than there are rows: it gives the decoded rows in order, or else
  -- the first error among them, or else the error after the last; the cursor is then closed.
  pub scan_all_hint-decode_all :
      (p : Plan) (zero_value : V) (current : Option R) (broke : Option E) (closed : Bool)
      (rs : List R) (fuel : ℕ)
      → length rs < fuel
      → (c : Cursor R E) × (scan_all_hint list_rows fuel p zero_value
            (before_rows current broke closed rs)
          ≡ some (decode_all p zero_value broke rs, c))
        × (c.closed ≡ true)
  unfolding scan_all_hint
  scan_all_hint-decode_all p zero_value current broke closed rs fuel le =
      let (c, gives) = scan_loop-decode_all p zero_value broke closed rs fuel [] current le in
      (
        record c { closed = true },
        ap (then_close list_rows) gives
            ∙ ap (λ a. some (a, record c { closed = true }))
                (onto-nil (decode_all p zero_value broke rs)),
        refl,
      )
