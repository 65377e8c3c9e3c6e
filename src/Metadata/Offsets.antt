-- ===== src/Metadata/Offsets.antt =====
-- Where the fields of the columns stand in memory. `reflect` finds the field of an index path by adding the
-- offsets of the structs on the way.
use breezeorm.Prelude.{
  ℕ, zero, suc, ◌+◌, ◌≡◌, refl, sym, ap, ◌∙◌, Bool, true, false, List, [], ◌∷◌, ◌++◌, append_assoc,
  Option, none, some, if◌then◌else◌, arith, All,
}
use breezeorm.Text.{lit}
use breezeorm.Metadata.{
  GoType, struct_type, FieldInfo, Fields, no_fields, field, struct_field, Column, RelationKind,
}
use breezeorm.Metadata.Tags.{parse_tag, to_snake_case_plural}
use breezeorm.Metadata.Walk.{
  Found, add_entry, add_field, add_struct, is_left_out, is_flattened, walk_fields,
  detect_relation_kind, column_of,
}
use breezeorm.Metadata.Compiled.{
  Model, Table, find_name, or_default_pk, default_pk, set_pk, pk_indices, index_columns, name_of,
  compile_struct,
}

-- A place in memory, with the type that stands there, further on by an offset.
abbrev shift : ℕ → ℕ × GoType → ℕ × GoType
shift n (offset, type) = (n + offset, type)

abbrev pub shift_found : ℕ → Option (ℕ × GoType) → Option (ℕ × GoType)
shift_found n none = none
shift_found n (some place) = some (shift n place)

-- `FieldByIndex` from a field on
abbrev pub place_of : Fields → ℕ → List ℕ → Option (ℕ × GoType)
place_of no_fields i path = none
place_of (field f type rest) zero [] = some (f.offset, type)
place_of (field f type rest) zero (j ∷ path) = none
place_of (field f type rest) (suc i) path = place_of rest i path
place_of (struct_field f pkg name inner rest) zero [] = some (f.offset, struct_type pkg name)
place_of (struct_field f pkg name inner rest) zero (j ∷ path) =
    shift_found f.offset (place_of inner j path)
place_of (struct_field f pkg name inner rest) (suc i) path = place_of rest i path

-- `FieldByIndex`
abbrev pub field_by_index : Fields → List ℕ → Option (ℕ × GoType)
field_by_index fs [] = none
field_by_index fs (i ∷ path) = place_of fs i path

abbrev offset_of : Option (ℕ × GoType) → Option ℕ
offset_of none = none
offset_of (some (offset, type)) = some offset

-- Where the struct starts that an index path leads to.
abbrev pub start_of : Fields → List ℕ → Option ℕ
start_of fs [] = some 0
start_of fs (i ∷ path) = offset_of (place_of fs i path)

-- An index path without its last step.
abbrev pub parent : List ℕ → List ℕ
parent [] = []
parent (i ∷ []) = []
parent (i ∷ j ∷ path) = i ∷ parent (j ∷ path)

zero_add : (j : ℕ) → 0 + j ≡ j
zero_add j = omega arith

shift_found-zero : (o : Option (ℕ × GoType)) → shift_found 0 o ≡ o
shift_found-zero none = refl
shift_found-zero (some (offset, type)) = ap (λ k. some (k, type)) (zero_add offset)

parent-append : (prefix : List ℕ) (i : ℕ) → parent (prefix ++ (i ∷ [])) ≡ prefix
parent-append [] i = refl
parent-append (j ∷ []) i = refl
parent-append (j ∷ k ∷ prefix) i = ap (◌∷◌ j) (parent-append (k ∷ prefix) i)

add_zero : (i : ℕ) → i ≡ i + 0
add_zero i = omega arith

add_suc : (i j : ℕ) → suc i + j ≡ i + suc j
add_suc i j = omega arith

add_assoc : (m n k : ℕ) → m + (n + k) ≡ m + n + k
add_assoc m n k = omega arith

shift_found-shift_found :
    (m n : ℕ) (o : Option (ℕ × GoType)) → shift_found m (shift_found n o) ≡ shift_found (m + n) o
shift_found-shift_found m n none = refl
shift_found-shift_found m n (some (offset, type)) = ap (λ k. some (k, type)) (add_assoc m n offset)

All-append :
    (P : Column → Type 0) (xs : List Column) (x : Column) → All P xs → P x → All P (xs ++ (x ∷ []))
All-append P [] x hs h = (h, tt)
All-append P (y ∷ xs) x (g, hs) h = (g, All-append P xs x hs h)

All-if :
    (P : Column → Type 0) (b : Bool) (x y : Found)
    → All P x.columns
    → All P y.columns
    → All P (if b then x else y).columns
All-if P true x y g h = g
All-if P false x y g h = h

module _ (root : Fields) where
  -- The path of a column leads to a field of its type, which stands at the column's offset in the struct
  -- that declares it.
  abbrev pub IsPlaced : Column → Type 0
  IsPlaced c =
      (start : ℕ) × (start_of root (parent c.field_index) ≡ some start)
      × (field_by_index root c.field_index ≡ some (start + c.offset, c.type))

  -- The fields from one on are those of the struct at an index path, which starts at an offset.
  abbrev IsSuffix : List ℕ → ℕ → ℕ → Fields → Type 0
  IsSuffix prefix start i rest =
      (j : ℕ) (path : List ℕ)
      → field_by_index root (prefix ++ ((i + j) ∷ path)) ≡ shift_found start (place_of rest j path)

  here :
      (prefix : List ℕ) (start i : ℕ) (rest : Fields)
      → IsSuffix prefix start i rest
      → (path : List ℕ)
      → field_by_index root (prefix ++ (i ∷ path)) ≡ shift_found start (place_of rest 0 path)
  here prefix start i rest h path =
      ap (λ k. field_by_index root (prefix ++ (k ∷ path))) (add_zero i) ∙ h 0 path

  add_entry-IsPlaced :
      (f : FieldInfo) (type : GoType) (prefix : List ℕ) (start i : ℕ) (kind : Option RelationKind)
      (found : Found)
      → start_of root prefix ≡ some start
      → field_by_index root (prefix ++ (i ∷ [])) ≡ some (start + f.offset, type)
      → All IsPlaced found.columns
      → All IsPlaced (add_entry f type (parse_tag f.tag) (prefix ++ (i ∷ [])) kind found).columns
  unfolding column_of
  add_entry-IsPlaced f type prefix start i (some k) found s h hs = hs
  add_entry-IsPlaced f type prefix start i none found s h hs =
      All-append IsPlaced found.columns (column_of f type (parse_tag f.tag) (prefix ++ (i ∷ []))) hs
        (start, ap (start_of root) (parent-append prefix i) ∙ s, h)

  add_field-IsPlaced :
      (f : FieldInfo) (type : GoType) (prefix : List ℕ) (start i : ℕ) (found : Found)
      → start_of root prefix ≡ some start
      → field_by_index root (prefix ++ (i ∷ [])) ≡ some (start + f.offset, type)
      → All IsPlaced found.columns
      → All IsPlaced (add_field f type (prefix ++ (i ∷ [])) found).columns
  unfolding add_field
  add_field-IsPlaced f type prefix start i found s h hs =
      let t = parse_tag f.tag in
      let idx = prefix ++ (i ∷ []) in
      All-if IsPlaced (is_left_out f) found (add_entry f type t idx (detect_relation_kind t) found)
        hs (add_entry-IsPlaced f type prefix start i (detect_relation_kind t) found s h hs)

  add_struct-IsPlaced :
      (f : FieldInfo) (type : GoType) (prefix : List ℕ) (start i : ℕ) (inner found : Found)
      → start_of root prefix ≡ some start
      → field_by_index root (prefix ++ (i ∷ [])) ≡ some (start + f.offset, type)
      → All IsPlaced inner.columns
      → All IsPlaced found.columns
      → All IsPlaced (add_struct f type (prefix ++ (i ∷ [])) inner found).columns
  add_struct-IsPlaced f type prefix start i inner found s h gs hs =
      let plain = add_field f type (prefix ++ (i ∷ [])) found in
      All-if IsPlaced (is_left_out f) found (if is_flattened f then inner else plain) hs (
        All-if IsPlaced (is_flattened f) inner plain gs
          (add_field-IsPlaced f type prefix start i found s h hs))

  start_of-append :
      (prefix : List ℕ) (i : ℕ)
      → start_of root (prefix ++ (i ∷ [])) ≡ offset_of (field_by_index root (prefix ++ (i ∷ [])))
  start_of-append [] i = refl
  start_of-append (j ∷ prefix) i = refl

  walk_fields-IsPlaced :
      (rest : Fields) (prefix : List ℕ) (start i : ℕ) (found : Found)
      → start_of root prefix ≡ some start
      → IsSuffix prefix start i rest
      → All IsPlaced found.columns
      → All IsPlaced (walk_fields rest prefix i found).columns
  unfolding walk_fields
  walk_fields-IsPlaced no_fields prefix start i found s h hs = hs
  walk_fields-IsPlaced (field f type rest) prefix start i found s h hs =
      walk_fields-IsPlaced rest prefix start (suc i) (add_field f type (prefix ++ (i ∷ [])) found) s
        (λ j path.
          ap (λ k. field_by_index root (prefix ++ (k ∷ path))) (add_suc i j) ∙ h (suc j) path)
        (add_field-IsPlaced f type prefix start i found s
          (here prefix start i (field f type rest) h []) hs)
  walk_fields-IsPlaced (struct_field f pkg name inner rest) prefix start i found s h hs =
      let idx = prefix ++ (i ∷ []) in
      let at = here prefix start i (struct_field f pkg name inner rest) h in
      let inside =
        walk_fields-IsPlaced inner idx (start + f.offset) 0 found
          (start_of-append prefix i ∙ ap offset_of (at []))
          (λ j path.
            ap (field_by_index root) (append_assoc prefix (i ∷ []) ((0 + j) ∷ path))
            ∙ (ap (λ k. field_by_index root (prefix ++ (i ∷ k ∷ path))) (zero_add j)
                ∙ (at (j ∷ path) ∙ shift_found-shift_found start f.offset (place_of inner j path))))
          hs in
      walk_fields-IsPlaced rest prefix start (suc i)
        (add_struct f (struct_type pkg name) idx (walk_fields inner idx 0 found) found) s
        (λ j path.
          ap (λ k. field_by_index root (prefix ++ (k ∷ path))) (add_suc i j) ∙ h (suc j) path)
        (add_struct-IsPlaced f (struct_type pkg name) prefix start i (walk_fields inner idx 0 found)
          found s (at []) inside hs)

All-set_pk :
    (P : Column → Type 0)
    → ((c : Column) → P c → P (record c { is_pk = true }))
    → (cs : List Column) (i : ℕ) → All P cs
    → All P (set_pk cs i)
unfolding set_pk
All-set_pk P keeps [] i hs = tt
All-set_pk P keeps (c ∷ cs) zero (h, hs) = (keeps c h, hs)
All-set_pk P keeps (c ∷ cs) (suc i) (h, hs) = (h, All-set_pk P keeps cs i hs)

module _ (P : Column → Type 0) (keeps : (c : Column) → P c → P (record c { is_pk = true })) where
  All-default_pk :
      (o : Option ℕ) (tbl : Table) → All P tbl.columns → All P (default_pk o tbl).columns
  All-default_pk none tbl hs = hs
  All-default_pk (some i) tbl hs = All-set_pk P keeps tbl.columns i hs

  All-or_default_pk :
      (keys : List ℕ) (tbl : Table) → All P tbl.columns → All P (or_default_pk keys tbl).columns
  All-or_default_pk (i ∷ is) tbl hs = hs
  All-or_default_pk [] tbl hs = All-default_pk (find_name (lit "id") tbl.column_by_name) tbl hs

-- Each column of a compiled struct has an index path that leads to a field of the column's type; the
-- field stands at the start of the struct that declares it, wherever the path to that leads, plus the
-- column's offset.
pub compile_struct-IsPlaced : (m : Model) → All (IsPlaced m.fields) (compile_struct m).columns
unfolding compile_struct
compile_struct-IsPlaced m =
    let found = walk_fields m.fields [] 0 (record { columns = []; relations = [] }) in
    let placed =
      walk_fields-IsPlaced m.fields m.fields [] 0 0 (record { columns = []; relations = [] }) refl
        (λ j path.
          ap (λ k. place_of m.fields k path) (zero_add j)
          ∙ sym (shift_found-zero (place_of m.fields j path)))
        tt in
    All-or_default_pk (IsPlaced m.fields) (λ c h. h) (pk_indices found.columns 0)
      (record {
        name = name_of m.table_name (to_snake_case_plural m.name);
        columns = found.columns;
        column_by_name = index_columns found.columns 0 [];
        pk_columns = pk_indices found.columns 0;
        relations = found.relations;
        size = m.size;
      })
      placed
