-- ===== src/Tests/Scanning.antt =====
-- A struct with an embedded one, its table, and rows scanned into it.
use breezeorm.Prelude.{
  ℕ, zero, suc, ◌+◌, ◌≡◌, refl, true, false, List, [], ◌∷◌, length, none, some, arith, All, ◌⊎◌,
}
use breezeorm.Text
use breezeorm.Text.{Bytes, lit}
use breezeorm.Retry
use breezeorm.Metadata.Tags
use breezeorm.Metadata.Walk
use breezeorm.Metadata.Compiled
use breezeorm.Scanner
use breezeorm.Plugins.{Answer}
use breezeorm.Metadata.{
  FieldInfo, Fields, no_fields, field, struct_field, scalar, defined, int64_type, string_type,
  pointer,
}
use breezeorm.Metadata.Compiled.{Model, compile_struct}
use breezeorm.Metadata.PrimaryKeys.{IsIndexed, compile_struct-IsIndexed}
use breezeorm.Scanner.{Pointer, Plan, FieldAssignment, compile_plan, targets, target}
use breezeorm.Scanner.Plans.{
  IsBound, IsAimed, count_known, compile_plan-IsBound, compile_plan-compile_struct,
}
use breezeorm.Scanner.Rows.{RowsSource, ScanError, scan_one, scan_one_fast, scan_all_hint}
use breezeorm.Scanner.Closing.{Ends, scan_one-scan_all_hint}
use breezeorm.Scanner.Cursor.{Cursor, before_rows, list_rows, decode_all, scan_all_hint-decode_all}

abbrev exported : Bytes → Bytes → ℕ → FieldInfo
exported name tag offset = record {
  name = name;
  pkg_path = [];
  anonymous = false;
  tag = tag;
  offset = offset;
}

-- type Audit struct { Author Name; Note *string }
abbrev audit : Fields
audit =
    field (exported (lit "Author") [] 0) (defined (lit "Name") string_type)
      (field (exported (lit "Note") (lit "remark,nullable") 16) (pointer (lit "string")) no_fields)

-- type Post struct { ID int64; Audit }
abbrev pub post : Model
post = record {
  name = lit "Post";
  fields = field (exported (lit "Id") [] 0) (scalar int64_type) (
      struct_field (record (exported (lit "Audit") [] 8) { anonymous = true }) (lit "main")
        (lit "Audit") audit no_fields);
  size = 32;
  table_name = none;
}

abbrev result_columns : List Bytes
result_columns = lit "author" ∷ lit "total" ∷ lit "id" ∷ []

abbrev post_plan : Plan
post_plan = compile_plan (compile_struct post) result_columns

compile_struct-IsIndexed_example : IsIndexed (compile_struct post)
compile_struct-IsIndexed_example = compile_struct-IsIndexed post

compile_plan-IsBound_example :
    (length (targets (compile_plan (compile_struct post) result_columns) 100)
      ≡ count_known (compile_struct post) result_columns)
    × All
        (IsBound (compile_struct post) result_columns 100)
        (compile_plan (compile_struct post) result_columns).assignments
compile_plan-IsBound_example = compile_plan-IsBound (compile_struct post) result_columns 100

compile_plan-compile_struct_example :
    All (IsAimed post 100) (compile_plan (compile_struct post) result_columns).assignments
compile_plan-compile_struct_example = compile_plan-compile_struct post result_columns 100

-- The embedded author stands at offset 8; its pointer is at 0, where the id is.
wrong_place :
    targets post_plan 0
    ≡ record { to = scalar string_type; address = 0 }
      ∷ record { to = scalar int64_type; address = 0 }
      ∷ []
unfolding targets target compile_plan Scanner.assign_from Scanner.assignment_of Scanner.classify
    Scanner.assigner_for compile_struct Walk.walk_fields Walk.add_field Walk.column_of
    Walk.detect_relation_kind Tags.parse_tag Tags.read_options Tags.read_option Tags.to_snake_case
    Tags.separate Retry.to_lower Compiled.index_columns Compiled.find_name Compiled.pk_indices
    Compiled.set_pk lit Text.bytes_eq Text.split Text.push_front Text.trim_space Text.trim_left
    Text.trim_right Text.has_prefix
wrong_place = refl

-- Rows are numbers, and a value is the sum of a row and the number of pointers.
abbrev add_row : List Pointer → ℕ → ℕ → Answer ℕ ℕ
add_row ts v zero = Answer.refused 5
add_row ts v (suc r) = Answer.ok (r + length ts)

abbrev rows : RowsSource (Cursor ℕ ℕ) ℕ ℕ
rows = list_rows 9 add_row

abbrev IsClosed : Cursor ℕ ℕ → Type 0
IsClosed c = c.closed ≡ true

abbrev two_rows : Cursor ℕ ℕ
two_rows = before_rows none none false (3 ∷ 4 ∷ [])

scan_one-scan_all_hint_example :
    IsClosed (scan_one rows post_plan 0 two_rows).1
    × IsClosed (scan_one_fast rows (λ v c. (none, 1, c)) 0 two_rows).1
    × ((¬ Ends rows post_plan 0 5 two_rows)
        ⊎ ((a : Answer (ScanError ℕ) (List ℕ)) × (c : Cursor ℕ ℕ) × (scan_all_hint rows 5 post_plan
                0 two_rows
              ≡ some (a, c))
            × IsClosed c))
scan_one-scan_all_hint_example =
    scan_one-scan_all_hint rows post_plan 0 IsClosed (λ c. refl) (λ v c. (none, 1, c)) 5 two_rows

scan_all_hint-decode_all_example :
    (c : Cursor ℕ ℕ) × (scan_all_hint rows 3 post_plan 0 two_rows
      ≡ some (decode_all 9 add_row post_plan 0 none (3 ∷ 4 ∷ []), c))
    × (c.closed ≡ true)
scan_all_hint-decode_all_example =
    scan_all_hint-decode_all 9 add_row post_plan 0 none none false (3 ∷ 4 ∷ []) 3 (omega arith)
