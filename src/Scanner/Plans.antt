-- ===== src/Scanner/Plans.antt =====
-- The pointers of a plan, and the fields that they are for.
use breezeorm.Prelude.{
  ℕ, zero, suc, ◌+◌, ◌≡◌, refl, sym, ap, ◌∙◌, subst, List, [], ◌∷◌, map, length, Option, none, some,
  arith, All, get_elem?,
}
use breezeorm.Text.{Bytes}
use breezeorm.Metadata.{GoType, Column}
use breezeorm.Metadata.Compiled.{Model, Table, find_name, compile_struct}
use breezeorm.Metadata.Offsets.{start_of, parent, field_by_index, IsPlaced, compile_struct-IsPlaced}
use breezeorm.Scanner.{
  pointee, classify, assign_to, switch_kind, FieldAssignment, assigner_for, assignment_of,
  assign_found, assign_from, column_at, column_named, compile_plan, target, targets,
}
use breezeorm.Scanner.Targets.{underlying, classify-Fits}

-- An assignment is for the column that the name of its result column leads to. Its pointer, by the switch
-- and by its function alike, points at the column's offset to what the column's type is underneath.
abbrev pub IsBound : Table → List Bytes → ℕ → FieldAssignment → Type 0
IsBound tbl result_columns dest a =
    ((name : Bytes) × (get_elem? result_columns a.column_index ≡ some name)
      × (column_named tbl name ≡ some a.column))
    × (target dest a ≡ record { to = underlying a.column.type; address = dest + a.column.offset })
    × (a.assign (dest + a.column.offset) ≡ target dest a)

abbrev pub count_found : Option Column → ℕ → ℕ
count_found none n = n
count_found (some c) n = suc n

-- How many names lead to a column.
abbrev pub count_known : Table → List Bytes → ℕ
count_known tbl [] = 0
count_known tbl (name ∷ rest) = count_found (column_named tbl name) (count_known tbl rest)

switch_kind-assign :
    (o : Option GoType) (a : FieldAssignment) (t : GoType) (p : ℕ)
    → ((q : ℕ) → a.assign q ≡ assign_to o t q)
    → switch_kind o a p ≡ assign_to o t p
switch_kind-assign none a t p h = h p
switch_kind-assign (some known) a t p h = refl

target-assignment_of :
    (dest i : ℕ) (c : Column)
    → target dest (assignment_of i c) ≡ record { to = underlying c.type; address = dest + c.offset }
unfolding target assignment_of assigner_for
target-assignment_of dest i c =
    switch_kind-assign (pointee (classify c.type)) (assignment_of i c) c.type (dest + c.offset)
      (λ q. refl)
    ∙ classify-Fits c.type (dest + c.offset)

assign-assignment_of :
    (dest i : ℕ) (c : Column)
    → (assignment_of i c).assign (dest + c.offset) ≡ target dest (assignment_of i c)
unfolding assignment_of assigner_for
assign-assignment_of dest i c =
    classify-Fits c.type (dest + c.offset) ∙ sym (target-assignment_of dest i c)

module _ (tbl : Table) (all : List Bytes) (dest : ℕ) where
  assign_found-IsBound :
      (i : ℕ) (name : Bytes) (o : Option Column) (rest : List FieldAssignment)
      → get_elem? all i ≡ some name
      → column_named tbl name ≡ o
      → All (IsBound tbl all dest) rest
      → All (IsBound tbl all dest) (assign_found i o rest)
  unfolding assignment_of
  assign_found-IsBound i name none rest h e hs = hs
  assign_found-IsBound i name (some c) rest h e hs =
      (((name, h, e), target-assignment_of dest i c, assign-assignment_of dest i c), hs)

  assign_from-IsBound :
      (rest : List Bytes) (i : ℕ)
      → ((j : ℕ) → get_elem? all (i + j) ≡ get_elem? rest j)
      → All (IsBound tbl all dest) (assign_from tbl rest i)
  unfolding assign_from
  assign_from-IsBound [] i h = tt
  assign_from-IsBound (name ∷ rest) i h =
      assign_found-IsBound i name (column_named tbl name) (assign_from tbl rest (suc i))
        (ap (get_elem? all) (omega arith) ∙ h 0) refl
        (assign_from-IsBound rest (suc i) (λ j. ap (get_elem? all) (omega arith) ∙ h (suc j)))

length-assign_found :
    (i : ℕ) (o : Option Column) (rest : List FieldAssignment) (n : ℕ)
    → length rest ≡ n
    → length (assign_found i o rest) ≡ count_found o n
length-assign_found i none rest n h = h
length-assign_found i (some c) rest n h = ap suc h

length-assign_from :
    (tbl : Table) (names : List Bytes) (i : ℕ)
    → length (assign_from tbl names i) ≡ count_known tbl names
unfolding assign_from
length-assign_from tbl [] i = refl
length-assign_from tbl (name ∷ rest) i =
    length-assign_found i (column_named tbl name) (assign_from tbl rest (suc i))
      (count_known tbl rest) (length-assign_from tbl rest (suc i))

length-map :
    (dest : ℕ) (found : List FieldAssignment) → length (map (target dest) found) ≡ length found
length-map dest [] = refl
length-map dest (a ∷ found) = ap suc (length-map dest found)

-- A plan has an assignment for each result column that leads to a column of the table, and no other;
-- each is for the column of its result column's name, and both ways to make its pointer give a pointer
-- at the column's offset to the column's type, or to the predeclared type that this is defined from.
pub compile_plan-IsBound :
    (tbl : Table) (result_columns : List Bytes) (dest : ℕ)
    → (length (targets (compile_plan tbl result_columns) dest) ≡ count_known tbl result_columns)
      × All (IsBound tbl result_columns dest) (compile_plan tbl result_columns).assignments
unfolding compile_plan targets
compile_plan-IsBound tbl result_columns dest = (
  length-map dest (assign_from tbl result_columns 0) ∙ length-assign_from tbl result_columns 0,
  assign_from-IsBound tbl result_columns dest result_columns 0
      (λ j. ap (get_elem? result_columns) (omega arith)),
)

-- A pointer has the type of a field underneath and stands as far before the field as the struct that
-- declares it starts after the value that is scanned.
abbrev pub IsAimed : Model → ℕ → FieldAssignment → Type 0
IsAimed m dest a =
    (start : ℕ) × (type : GoType) × (start_of m.fields (parent a.column.field_index) ≡ some start)
    × (field_by_index m.fields a.column.field_index ≡ some (start + a.column.offset, type))
    × (target dest a ≡ record { to = underlying type; address = dest + a.column.offset })

All-get_elem? :
    (P : Column → Type 0) (cs : List Column) (i : ℕ) (c : Column)
    → All P cs
    → get_elem? cs i ≡ some c
    → P c
All-get_elem? P [] i c hs e = absurd (cc)
All-get_elem? P (x ∷ cs) zero c (h, hs) e = subst P (cc) h
All-get_elem? P (x ∷ cs) (suc i) c (h, hs) e = All-get_elem? P cs i c hs e

column_at-All :
    (P : Column → Type 0) (tbl : Table) (o : Option ℕ) (c : Column)
    → All P tbl.columns
    → column_at tbl o ≡ some c
    → P c
column_at-All P tbl none c hs e = absurd (cc)
column_at-All P tbl (some i) c hs e = All-get_elem? P tbl.columns i c hs e

IsBound-IsAimed :
    (m : Model) (names : List Bytes) (dest : ℕ) (found : List FieldAssignment)
    → All (IsBound (compile_struct m) names dest) found
    → All (IsAimed m dest) found
IsBound-IsAimed m names dest [] hs = tt
IsBound-IsAimed m names dest (a ∷ found) (((name, at, of_name), points, assigned), hs) =
    let tbl = compile_struct m in
    let (start, starts, placed) =
      column_at-All (IsPlaced m.fields) tbl (find_name name tbl.column_by_name) a.column
        (compile_struct-IsPlaced m) of_name in
    ((start, a.column.type, starts, placed, points), IsBound-IsAimed m names dest found hs)

-- The pointers of a plan over a compiled struct: each is for a field of the struct, has its type, or the
-- predeclared type that this is defined from, and stands at the field's place less the offset of the
-- embedded struct that declares it, which is 0 for a field of the struct itself.
pub compile_plan-compile_struct :
    (m : Model) (result_columns : List Bytes) (dest : ℕ)
    → All (IsAimed m dest) (compile_plan (compile_struct m) result_columns).assignments
compile_plan-compile_struct m result_columns dest =
    IsBound-IsAimed m result_columns dest
      (compile_plan (compile_struct m) result_columns).assignments
      (compile_plan-IsBound (compile_struct m) result_columns dest).1
