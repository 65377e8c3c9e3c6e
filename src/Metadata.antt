-- ===== src/Metadata.antt =====
-- pkg/metadata: what a struct's fields and their tags make of a table. Reflection is a list of fields, as
-- `reflect.Type` reports them; a pointer or slice type has the name of what it points to.
pub mod Tags
pub mod Walk
pub mod Compiled
pub mod Offsets
pub mod KeyPlaces
pub mod PrimaryKeys
pub mod Registry
use breezeorm.Prelude.{ℕ, Bool, true, false, List, Option, none, some}
use breezeorm.Text.{Bytes, lit, bytes_eq}

-- Go's predeclared types that a column is read into without reflection.
pub data Scalar : Type 0 where
  int_type int8_type int16_type int32_type int64_type : Scalar
  uint_type uint8_type uint16_type uint32_type uint64_type : Scalar
  float32_type float64_type string_type bool_type : Scalar

-- A `reflect.Type`: a predeclared type or one defined from it, a pointer or slice, a struct by its package
-- and name, anything else.
pub data GoType : Type 0 where
  scalar : Scalar → GoType
  defined : Bytes → Scalar → GoType
  pointer slice defined_slice : Bytes → GoType
  struct_type : Bytes → Bytes → GoType
  opaque : Bytes → GoType

-- A `reflect.StructField` without its type; the offset is from the start of the struct that declares it.
pub record FieldInfo : Type 0 where
  pub name : Bytes
  pub pkg_path : Bytes
  pub anonymous : Bool
  pub tag : Bytes
  pub offset : ℕ

-- The fields of a struct in order. A field whose type is a struct carries that struct's fields.
pub data Fields : Type 0 where
  no_fields : Fields
  field : FieldInfo → GoType → Fields → Fields
  struct_field : FieldInfo → Bytes → Bytes → Fields → Fields → Fields

pub record Tag : Type 0 where
  pub column : Bytes
  pub skip : Bool
  pub primary_key : Bool
  pub auto_increment : Bool
  pub nullable : Bool
  pub unique : Bool
  pub generated : Bool
  pub default : Bytes
  pub relation : Bytes
  pub foreign_key : List Bytes
  pub references : List Bytes
  pub join_table : Bytes

pub record Column : Type 0 where
  pub name : Bytes
  pub field_name : Bytes
  pub field_index : List ℕ
  pub offset : ℕ
  pub type : GoType
  pub is_pk : Bool
  pub is_auto_incr : Bool
  pub is_nullable : Bool
  pub is_generated : Bool
  pub is_unique : Bool
  pub default : Bytes
  pub tag : Tag

pub data RelationKind : Type 0 where
  has_one has_many belongs_to many_to_many : RelationKind

pub record Relationship : Type 0 where
  pub name : Bytes
  pub kind : RelationKind
  pub field_index : List ℕ
  pub related : GoType
  pub foreign_key : List Bytes
  pub references : List Bytes
  pub join_table : Bytes
