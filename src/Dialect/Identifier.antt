-- ===== src/Dialect/Identifier.antt =====
-- What the backends share: the allowlist of identifier characters and the quoting scheme. The
-- source repeats both in each backend, with another quote character.
pub mod Quoting
use breezeorm.Prelude.{ℕ, Bool, true, false, ◌&&◌, ◌||◌, [], ◌∷◌, ◌++◌, map, leb, ◌==◌}
use breezeorm.Text.{Bytes, join, split, double_byte}

unfoldable pub is_identifier_byte : ℕ → Bool
is_identifier_byte r =
    leb b'a' r && leb r b'z'
    || leb b'A' r && leb r b'Z'
    || leb b'0' r && leb r b'9'
    || r == b'_'
    || r == b'.'

unfoldable pub all_identifier_bytes : Bytes → Bool
unfolding is_identifier_byte
all_identifier_bytes [] = true
all_identifier_bytes (r ∷ rs) = is_identifier_byte r && all_identifier_bytes rs

-- `ValidateIdentifier`. A byte of a multi-byte rune is at least 128, and refused as its rune is.
unfoldable pub valid_identifier : Bytes → Bool
unfolding all_identifier_bytes
valid_identifier [] = false
valid_identifier (r ∷ rs) = all_identifier_bytes (r ∷ rs)

-- `left + strings.ReplaceAll(p, right, right+right) + right`
unfoldable pub quote_part : ℕ → ℕ → Bytes → Bytes
unfolding double_byte
quote_part left right p = left ∷ (double_byte right p ++ (right ∷ []))

-- `QuoteIdentifier`: quote each part of a dotted name
unfoldable pub quote_dotted : ℕ → ℕ → Bytes → Bytes
unfolding quote_part split join
quote_dotted left right ident = join (b'.' ∷ []) (map (quote_part left right) (split b'.' ident))
