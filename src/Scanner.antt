-- ===== src/Scanner.antt =====
-- pkg/scanner/scanner.go: which pointers a row is scanned into. An `any` that holds a pointer is the type
-- that it points to and an address.
pub mod Rows
pub mod Targets
pub mod Plans
pub mod Closing
pub mod Cursor
use breezeorm.Prelude.{
  ℕ, suc, ◌+◌, Bool, true, false, ◌&&◌, List, [], ◌∷◌, ◌++◌, map, Option, none, some, if◌then◌else◌,
  get_elem?,
}
use breezeorm.Text.{Bytes, lit, bytes_eq}
use breezeorm.Metadata.{
  Scalar, int_type, int8_type, int16_type, int32_type, int64_type, uint_type, uint8_type,
  uint16_type, uint32_type, uint64_type, float32_type, float64_type, string_type, bool_type, GoType,
  scalar, defined, pointer, slice, defined_slice, struct_type, opaque, Column,
}
use breezeorm.Metadata.Compiled.{Table, find_name}

pub data FieldKind : Type 0 where
  kind_other kind_int kind_int8 kind_int16 kind_int32 kind_int64 : FieldKind
  kind_uint kind_uint8 kind_uint16 kind_uint32 kind_uint64 : FieldKind
  kind_float32 kind_float64 kind_string kind_bool kind_bytes kind_time : FieldKind
  kind_null_string kind_null_int64 kind_null_int32 kind_null_float64 : FieldKind
  kind_null_bool kind_null_time : FieldKind

abbrev pub scalar_kind : Scalar → FieldKind
scalar_kind int_type = kind_int
scalar_kind int8_type = kind_int8
scalar_kind int16_type = kind_int16
scalar_kind int32_type = kind_int32
scalar_kind int64_type = kind_int64
scalar_kind uint_type = kind_uint
scalar_kind uint8_type = kind_uint8
scalar_kind uint16_type = kind_uint16
scalar_kind uint32_type = kind_uint32
scalar_kind uint64_type = kind_uint64
scalar_kind float32_type = kind_float32
scalar_kind float64_type = kind_float64
scalar_kind string_type = kind_string
scalar_kind bool_type = kind_bool

-- `typeTime`, `typeBytes` and the others
abbrev pub type_time : GoType
type_time = struct_type (lit "time") (lit "Time")

abbrev pub type_bytes : GoType
type_bytes = slice (lit "uint8")

abbrev pub sql_type : Bytes → GoType
sql_type name = struct_type (lit "database/sql") name

abbrev pub null_kind : Bytes → FieldKind
null_kind name =
    if bytes_eq name (lit "NullString")
    then kind_null_string
    else if bytes_eq name (lit "NullInt64")
    then kind_null_int64
    else if bytes_eq name (lit "NullInt32")
    then kind_null_int32
    else if bytes_eq name (lit "NullFloat64")
    then kind_null_float64
    else if bytes_eq name (lit "NullBool")
    then kind_null_bool
    else if bytes_eq name (lit "NullTime")
    then kind_null_time
    else kind_other

-- the tests by identity on a struct type
abbrev pub struct_kind : Bytes → Bytes → FieldKind
struct_kind pkg name =
    if bytes_eq pkg (lit "time") && bytes_eq name (lit "Time")
    then kind_time
    else if bytes_eq pkg (lit "database/sql")
    then null_kind name
    else kind_other

unfoldable pub classify : GoType → FieldKind
unfolding lit bytes_eq
classify (scalar s) = scalar_kind s
classify (defined name s) = scalar_kind s
classify (slice elem) = if bytes_eq elem (lit "uint8") then kind_bytes else kind_other
classify (struct_type pkg name) = struct_kind pkg name
classify (pointer elem) = kind_other
classify (defined_slice name) = kind_other
classify (opaque name) = kind_other

pub record Pointer : Type 0 where
  pub to : GoType
  pub address : ℕ

-- The type behind the pointer that a kind has a case for.
abbrev pub pointee : FieldKind → Option GoType
pointee kind_other = none
pointee kind_int = some (scalar int_type)
pointee kind_int8 = some (scalar int8_type)
pointee kind_int16 = some (scalar int16_type)
pointee kind_int32 = some (scalar int32_type)
pointee kind_int64 = some (scalar int64_type)
pointee kind_uint = some (scalar uint_type)
pointee kind_uint8 = some (scalar uint8_type)
pointee kind_uint16 = some (scalar uint16_type)
pointee kind_uint32 = some (scalar uint32_type)
pointee kind_uint64 = some (scalar uint64_type)
pointee kind_float32 = some (scalar float32_type)
pointee kind_float64 = some (scalar float64_type)
pointee kind_string = some (scalar string_type)
pointee kind_bool = some (scalar bool_type)
pointee kind_bytes = some type_bytes
pointee kind_time = some type_time
pointee kind_null_string = some (sql_type (lit "NullString"))
pointee kind_null_int64 = some (sql_type (lit "NullInt64"))
pointee kind_null_int32 = some (sql_type (lit "NullInt32"))
pointee kind_null_float64 = some (sql_type (lit "NullFloat64"))
pointee kind_null_bool = some (sql_type (lit "NullBool"))
pointee kind_null_time = some (sql_type (lit "NullTime"))

-- the `assign…` function of a kind; the last is `reflect.NewAt`
abbrev pub assign_to : Option GoType → GoType → ℕ → Pointer
assign_to (some known) type p = record { to = known; address = p }
assign_to none type p = record { to = type; address = p }

unfoldable pub assigner_for : FieldKind → GoType → ℕ → Pointer
assigner_for kind type = assign_to (pointee kind) type

pub record FieldAssignment : Type 0 where
  pub column_index : ℕ
  pub column : Column
  pub kind : FieldKind
  pub assign : ℕ → Pointer

pub record Plan : Type 0 where
  pub table : Table
  pub assignments : List FieldAssignment

-- `tbl.ColumnByName[name]`
abbrev pub column_at : Table → Option ℕ → Option Column
column_at tbl none = none
column_at tbl (some i) = get_elem? tbl.columns i

abbrev pub column_named : Table → Bytes → Option Column
column_named tbl name = column_at tbl (find_name name tbl.column_by_name)

unfoldable pub assignment_of : ℕ → Column → FieldAssignment
unfolding classify assigner_for
assignment_of i c = record {
  column_index = i;
  column = c;
  kind = classify c.type;
  assign = assigner_for (classify c.type) c.type;
}

abbrev pub assign_found : ℕ → Option Column → List FieldAssignment → List FieldAssignment
assign_found i none rest = rest
assign_found i (some c) rest = assignment_of i c ∷ rest

-- the loop of `Compile`
unfoldable pub assign_from : Table → List Bytes → ℕ → List FieldAssignment
unfolding assignment_of find_name
assign_from tbl [] i = []
assign_from tbl (name ∷ rest) i =
    assign_found i (column_named tbl name) (assign_from tbl rest (suc i))

unfoldable pub compile_plan : Table → List Bytes → Plan
unfolding assign_from
compile_plan tbl result_columns = record {
  table = tbl;
  assignments = assign_from tbl result_columns 0;
}

-- the `switch` on the kind in `ScanRow`, `ScanOne` and `ScanAllHint`
abbrev pub switch_kind : Option GoType → FieldAssignment → ℕ → Pointer
switch_kind (some known) a fp = record { to = known; address = fp }
switch_kind none a fp = a.assign fp

unfoldable pub target : ℕ → FieldAssignment → Pointer
target dest a = switch_kind (pointee a.kind) a (dest + a.column.offset)

unfoldable pub targets : Plan → ℕ → List Pointer
unfolding target
targets p dest = map (target dest) p.assignments
