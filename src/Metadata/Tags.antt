-- ===== src/Metadata/Tags.antt =====
-- pkg/metadata/tag.go: the `db` tag of a field; and the names that metadata.go derives.
use breezeorm.Prelude.{
  ℕ, ◌-◌, Bool, true, false, ◌||◌, ◌&&◌, leb, List, [], ◌∷◌, ◌++◌, if◌then◌else◌, length, drop,
  take,
}
use breezeorm.Text.{Bytes, lit, bytes_eq, has_prefix, split, trim_space}
use breezeorm.Retry.{to_lower}
use breezeorm.Metadata.{Tag}

abbrev pub no_tag : Tag
no_tag = record {
  column = [];
  skip = false;
  primary_key = false;
  auto_increment = false;
  nullable = false;
  unique = false;
  generated = false;
  default = [];
  relation = [];
  foreign_key = [];
  references = [];
  join_table = [];
}

-- what `strings.TrimPrefix` leaves, where the prefix is there
abbrev pub after_prefix : Bytes → Bytes → Bytes
after_prefix prefix s = drop (length prefix) s

-- the `switch` on one option of a tag
unfoldable pub read_option : Bytes → Tag → Tag
unfolding lit bytes_eq has_prefix split
read_option p t =
    if bytes_eq p (lit "pk") || bytes_eq p (lit "primarykey")
    then record t { primary_key = true }
    else if bytes_eq p (lit "autoincrement") || bytes_eq p (lit "auto_increment")
    then record t { auto_increment = true }
    else if bytes_eq p (lit "nullable")
    then record t { nullable = true }
    else if bytes_eq p (lit "unique")
    then record t { unique = true }
    else if bytes_eq p (lit "generated")
    then record t { generated = true }
    else if has_prefix (lit "default=") p
    then record t { default = after_prefix (lit "default=") p }
    else if has_prefix (lit "relation=") p
    then record t { relation = after_prefix (lit "relation=") p }
    else if has_prefix (lit "fk=") p
    then record t { foreign_key = split b';' (after_prefix (lit "fk=") p) }
    else if has_prefix (lit "references=") p
    then record t { references = split b';' (after_prefix (lit "references=") p) }
    else if has_prefix (lit "join=") p
    then record t { join_table = after_prefix (lit "join=") p }
    else t

unfoldable pub read_options : List Bytes → Tag → Tag
unfolding read_option trim_space
read_options [] t = t
read_options (p ∷ ps) t = read_options ps (read_option (trim_space p) t)

-- the parts of a tag: the column's name and the options
abbrev pub read_parts : List Bytes → Tag
read_parts [] = no_tag
read_parts (first ∷ rest) = read_options rest (record no_tag { column = trim_space first })

unfoldable pub parse_tag : Bytes → Tag
unfolding read_options
parse_tag raw =
    if bytes_eq raw (lit "-") then record no_tag { skip = true } else read_parts (split b',' raw)

-- the loop of `toSnakeCase`, past the first rune
unfoldable pub separate : Bytes → Bytes
separate [] = []
separate (b ∷ bs) = if leb b'A' b && leb b b'Z' then b'_' ∷ b ∷ separate bs else b ∷ separate bs

unfoldable pub to_snake_case : Bytes → Bytes
unfolding separate to_lower
to_snake_case [] = []
to_snake_case (b ∷ bs) = to_lower (b ∷ separate bs)

-- `strings.HasSuffix` for one byte
unfoldable pub ends_in : ℕ → Bytes → Bool
unfolding bytes_eq
ends_in c [] = false
ends_in c (b ∷ []) = bytes_eq (b ∷ []) (c ∷ [])
ends_in c (b ∷ b' ∷ bs) = ends_in c (b' ∷ bs)

unfoldable pub to_snake_case_plural : Bytes → Bytes
unfolding to_snake_case ends_in lit
to_snake_case_plural s =
    let sc = to_snake_case s in
    if ends_in b's' sc
    then sc ++ lit "es"
    else if ends_in b'y' sc
    then take (length sc - 1) sc ++ lit "ies"
    else sc ++ lit "s"
