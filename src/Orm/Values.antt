-- ===== src/Orm/Values.antt =====
-- pkg/orm/query.go: which columns and values of a model are written. `read_at` reads a field of it.
use breezeorm.Prelude.{
  ℕ, ◌≡◌, refl, ap, Bool, true, false, ◌&&◌, ◌||◌, not, List, [], ◌∷◌, if◌then◌else◌,
}
use breezeorm.Text.{Bytes}
use breezeorm.Query.{Value, Assignment}
use breezeorm.Metadata.{Column, GoType}

-- `batchColumns` and `rowValues`
abbrev pub is_made : Column → Bool
is_made c = c.is_auto_incr || c.is_generated

unfoldable pub batch_columns : List Column → List Bytes × List Column
batch_columns [] = ([], [])
batch_columns (c ∷ cs) =
    let (names, matched) = batch_columns cs in
    if is_made c then (names, matched) else (c.name ∷ names, c ∷ matched)

module _ {V : Type 0} (read_at : V → GoType → ℕ → Value) where
  unfoldable pub row_values : V → List Column → List Value
  row_values model [] = []
  row_values model (c ∷ cs) = read_at model c.type c.offset ∷ row_values model cs

  unfoldable pub struct_assignments : List Column → V → Bool → List Assignment
  struct_assignments [] model include_auto_increment = []
  struct_assignments (c ∷ cs) model include_auto_increment =
      let rest = struct_assignments cs model include_auto_increment in
      if c.is_auto_incr && not include_auto_increment
      then rest
      else if c.is_generated
      then rest
      else record { column = c.name; value = read_at model c.type c.offset } ∷ rest

  -- Columns and values as assignments, as far as both go.
  abbrev pub assign_all : List Bytes → List Value → List Assignment
  assign_all [] vs = []
  assign_all (n ∷ ns) [] = []
  assign_all (n ∷ ns) (v ∷ vs) = record { column = n; value = v } ∷ assign_all ns vs

  abbrev pub assign_matched : V → List Bytes × List Column → List Assignment
  assign_matched model (names, matched) = assign_all names (row_values model matched)

  next_assignment :
      (auto gen : Bool) (c : Column) (names : List Bytes) (matched : List Column) (model : V)
      (rest : List Assignment)
      → rest ≡ assign_matched model (names, matched)
      → (if auto && true
          then rest
          else if gen
          then rest
          else record { column = c.name; value = read_at model c.type c.offset } ∷ rest)
        ≡ assign_matched model
            (if auto || gen then (names, matched) else (c.name ∷ names, c ∷ matched))
  unfolding row_values
  next_assignment true gen c names matched model rest h = h
  next_assignment false true c names matched model rest h = h
  next_assignment false false c names matched model rest h =
      ap (◌∷◌ (record { column = c.name; value = read_at model c.type c.offset })) h

  -- Create assigns to a model's columns what a row of CreateBatch holds for them: the columns that
  -- batchColumns selects, with the values that rowValues reads, in order.
  struct_assignments-batch_columns :
      (cs : List Column) (model : V)
      → struct_assignments cs model false ≡ assign_matched model (batch_columns cs)
  unfolding struct_assignments batch_columns row_values
  struct_assignments-batch_columns [] model = refl
  struct_assignments-batch_columns (c ∷ cs) model =
      next_assignment c.is_auto_incr c.is_generated c (batch_columns cs).0 (batch_columns cs).1
        model (struct_assignments cs model false) (struct_assignments-batch_columns cs model)
