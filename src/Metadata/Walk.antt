-- ===== src/Metadata/Walk.antt =====
-- pkg/metadata/metadata.go: `walkFields`.
use breezeorm.Prelude.{
  ℕ, suc, Bool, true, false, ◌||◌, ◌&&◌, not, List, [], ◌∷◌, ◌++◌, Option, none, some,
  if◌then◌else◌, is_empty,
}
use breezeorm.Text.{lit, bytes_eq}
use breezeorm.Metadata.{
  GoType, scalar, defined, pointer, slice, defined_slice, struct_type, opaque, FieldInfo, Fields,
  no_fields, field, struct_field, Tag, Column, RelationKind, has_one, has_many, belongs_to,
  many_to_many, Relationship,
}
use breezeorm.Metadata.Tags.{parse_tag, to_snake_case}

-- What the walk appends to.
pub record Found : Type 0 where
  pub columns : List Column
  pub relations : List Relationship

unfoldable pub detect_relation_kind : Tag → Option RelationKind
unfolding bytes_eq lit
detect_relation_kind t =
    if bytes_eq t.relation (lit "has_one")
    then some has_one
    else if bytes_eq t.relation (lit "has_many")
    then some has_many
    else if bytes_eq t.relation (lit "belongs_to")
    then some belongs_to
    else if bytes_eq t.relation (lit "many_to_many")
    then some many_to_many
    else none

-- A type by the name of a pointer's or slice's element.
abbrev pub elem_type : GoType → GoType
elem_type (pointer name) = opaque name
elem_type (slice name) = opaque name
elem_type (defined_slice name) = opaque name
elem_type (scalar s) = scalar s
elem_type (defined name s) = defined name s
elem_type (struct_type pkg name) = struct_type pkg name
elem_type (opaque name) = opaque name

abbrev pub is_pointer : GoType → Bool
is_pointer (pointer name) = true
is_pointer (slice name) = false
is_pointer (defined_slice name) = false
is_pointer (scalar s) = false
is_pointer (defined name s) = false
is_pointer (struct_type pkg name) = false
is_pointer (opaque name) = false

unfoldable pub relationship_of : FieldInfo → GoType → Tag → List ℕ → RelationKind → Relationship
relationship_of f type t idx kind = record {
  name = f.name;
  kind = kind;
  field_index = idx;
  related = elem_type type;
  foreign_key = t.foreign_key;
  references = t.references;
  join_table = t.join_table;
}

unfoldable pub column_of : FieldInfo → GoType → Tag → List ℕ → Column
unfolding to_snake_case
column_of f type t idx = record {
  name = if is_empty t.column then to_snake_case f.name else t.column;
  field_name = f.name;
  field_index = idx;
  offset = f.offset;
  type = type;
  is_pk = t.primary_key;
  is_auto_incr = t.auto_increment;
  is_nullable = is_pointer type || t.nullable;
  is_generated = t.generated;
  is_unique = t.unique;
  default = t.default;
  tag = t;
}

-- a relation, or else a column
abbrev pub add_entry : FieldInfo → GoType → Tag → List ℕ → Option RelationKind → Found → Found
add_entry f type t idx (some kind) found = record found {
  relations = found.relations ++ (relationship_of f type t idx kind ∷ []);
}
add_entry f type t idx none found = record found {
  columns = found.columns ++ (column_of f type t idx ∷ []);
}

-- unexported, or skipped by its tag
abbrev pub is_left_out : FieldInfo → Bool
is_left_out f = (not (is_empty f.pkg_path) && not f.anonymous) || (parse_tag f.tag).skip

unfoldable pub add_field : FieldInfo → GoType → List ℕ → Found → Found
unfolding parse_tag detect_relation_kind relationship_of column_of
add_field f type idx found =
    let t = parse_tag f.tag in
    if is_left_out f then found else add_entry f type t idx (detect_relation_kind t) found

-- an embedded struct, unless its tag names a relation
abbrev pub is_flattened : FieldInfo → Bool
is_flattened f = f.anonymous && is_empty (parse_tag f.tag).relation

-- the round of the loop for a field that is a struct, on what walking its fields gives
abbrev pub add_struct : FieldInfo → GoType → List ℕ → Found → Found → Found
add_struct f type idx inner found =
    if is_left_out f then found else if is_flattened f then inner else add_field f type idx found

-- `walkFields`, from field `i` on
unfoldable pub walk_fields : Fields → List ℕ → ℕ → Found → Found
unfolding add_field
walk_fields no_fields prefix i found = found
walk_fields (field f type rest) prefix i found =
    walk_fields rest prefix (suc i) (add_field f type (prefix ++ (i ∷ [])) found)
walk_fields (struct_field f pkg name inner rest) prefix i found =
    let idx = prefix ++ (i ∷ []) in
    walk_fields rest prefix (suc i)
      (add_struct f (struct_type pkg name) idx (walk_fields inner idx 0 found) found)
