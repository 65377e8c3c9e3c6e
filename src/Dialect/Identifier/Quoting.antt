-- ===== src/Dialect/Identifier/Quoting.antt =====
-- Reading a quoted identifier back, the way a database's lexer does, and that `QuoteIdentifier`
-- keeps every name inside its quotes, whatever the name is.
use breezeorm.Prelude.{
  ℕ, true, false, ◌≡◌, refl, sym, ap, ◌∙◌, List, [], ◌∷◌, ◌++◌, Option, none, some, map, append-nil,
  append_assoc, ◌==◌, if◌then◌else◌, Bool-cases, inl, inr, arith,
}
use breezeorm.Text.{Bytes, join, split, push_front, double_byte}
use breezeorm.Dialect.Identifier.{quote_part, quote_dotted}
use breezeorm.Dialect.Postgres
use breezeorm.Dialect.Mysql
use breezeorm.Dialect.Sqlite
use breezeorm.Dialect.Sqlserver

-- Where the lexer stands: before a quoted name, in one, or behind a quote that may end it.
pub data Reading : Type 0 where
  outside inside closing : Reading

abbrev keep : ℕ → Option (List Bytes) → Option (List Bytes)
keep b none = none
keep b (some ps) = some (push_front b ps)

abbrev start_part : Option (List Bytes) → Option (List Bytes)
start_part none = none
start_part (some ps) = some ([] ∷ ps)

-- The parts of a dotted chain of quoted names: a doubled closing quote stands for one, and a single
-- one ends the name, which a dot or the end of the text must follow.
unfoldable pub read_quoted : ℕ → ℕ → Reading → Bytes → Option (List Bytes)
read_quoted left right outside [] = none
read_quoted left right outside (b ∷ s) =
    let rest = read_quoted left right inside s in if b == left then rest else none
read_quoted left right inside [] = none
read_quoted left right inside (b ∷ s) =
    let ends = read_quoted left right closing s in
    let rest = read_quoted left right inside s in if b == right then ends else keep b rest
read_quoted left right closing [] = some ([] ∷ [])
read_quoted left right closing (b ∷ s) =
    let rest = read_quoted left right inside s in
    let next = read_quoted left right outside s in
    if b == right then keep b rest else if b == b'.' then start_part next else none

abbrev keep_all : Bytes → Option (List Bytes) → Option (List Bytes)
keep_all [] o = o
keep_all (b ∷ p) o = keep b (keep_all p o)

keep_all-some : (p r : Bytes) (rs : List Bytes) → keep_all p (some (r ∷ rs)) ≡ some ((p ++ r) ∷ rs)
unfolding push_front
keep_all-some [] r rs = refl
keep_all-some (b ∷ p) r rs = ap (keep b) (keep_all-some p r rs)

same_byte : (b : ℕ) → (b == b) ≡ true
same_byte b = ground arith

split_lem : (c : ℕ) (s : Bytes) → (p : Bytes) × (ps : List Bytes) × (split c s ≡ p ∷ ps)
unfolding split push_front
split_lem c [] = ([], [], refl)
split_lem c (b ∷ s) =
    let (p, ps, e) = split_lem c s in
    elim (Bool-cases (b == c)) [ inl h ↦ ([], p ∷ ps, rw (h, e)) | inr h ↦ (b ∷ p, ps, rw (h, e)) ]

module _ (left right : ℕ) (undotted : (b'.' == right) ≡ false) where
  read_quoted-double_byte :
      (p rest : Bytes)
      → read_quoted left right inside (double_byte right p ++ (right ∷ rest))
        ≡ keep_all p (read_quoted left right closing rest)
  unfolding read_quoted double_byte
  read_quoted-double_byte [] rest = rw (same_byte right)
  read_quoted-double_byte (b ∷ p) rest = elim (Bool-cases (b == right)) [
    | inl e ↦ rw (e, e, ap (keep b) (read_quoted-double_byte p rest))
    | inr e ↦ rw (e, e, ap (keep b) (read_quoted-double_byte p rest))
  ]

  read_quoted-quote_part :
      (p rest : Bytes)
      → read_quoted left right outside (quote_part left right p ++ rest)
        ≡ keep_all p (read_quoted left right closing rest)
  unfolding read_quoted quote_part
  read_quoted-quote_part p rest = rw (same_byte left) (
      ap (read_quoted left right inside) (append_assoc (double_byte right p) (right ∷ []) rest)
      ∙ read_quoted-double_byte p rest)

  read_quoted-dot :
      (s : Bytes)
      → read_quoted left right closing (b'.' ∷ s) ≡ start_part (read_quoted left right outside s)
  unfolding read_quoted
  read_quoted-dot s = rw (undotted)

  read_quoted-parts :
      (p : Bytes) (ps : List Bytes)
      → read_quoted left right outside (join (b'.' ∷ []) (map (quote_part left right) (p ∷ ps)))
        ≡ some (p ∷ ps)
  unfolding join read_quoted
  read_quoted-parts p [] =
      ap (read_quoted left right outside) (sym (append-nil (quote_part left right p)))
      ∙ read_quoted-quote_part p []
      ∙ keep_all-some p [] []
      ∙ ap (λ q. some (q ∷ [])) (append-nil p)
  read_quoted-parts p (q ∷ ps) =
      read_quoted-quote_part p _
      ∙ ap (keep_all p) (read_quoted-dot _ ∙ ap start_part (read_quoted-parts q ps))
      ∙ keep_all-some p [] (q ∷ ps)
      ∙ ap (λ r. some (r ∷ q ∷ ps)) (append-nil p)

  read_quoted-quote_dotted :
      (ident : Bytes)
      → read_quoted left right outside (quote_dotted left right ident) ≡ some (split b'.' ident)
  unfolding quote_dotted
  read_quoted-quote_dotted ident =
      let (p, ps, e) = split_lem b'.' ident in rw (e, read_quoted-parts p ps)

-- Whatever a name is, the text that each backend's `QuoteIdentifier` makes of it reads back as the
-- name's dotted parts and nothing more, so that no name ends its own quotes.
pub quote_identifier-read_quoted :
    (ident : Bytes)
    → (read_quoted b'"' b'"' outside (Postgres.quote_identifier ident) ≡ some (split b'.' ident))
      × (read_quoted b'`' b'`' outside (Mysql.quote_identifier ident) ≡ some (split b'.' ident))
      × (read_quoted b'"' b'"' outside (Sqlite.quote_identifier ident) ≡ some (split b'.' ident))
      × (read_quoted b'[' b']' outside (Sqlserver.quote_identifier ident) ≡ some (split b'.' ident))
unfolding Postgres.quote_identifier Mysql.quote_identifier Sqlite.quote_identifier
    Sqlserver.quote_identifier
quote_identifier-read_quoted ident = (
  read_quoted-quote_dotted b'"' b'"' refl ident,
  read_quoted-quote_dotted b'`' b'`' refl ident,
  read_quoted-quote_dotted b'"' b'"' refl ident,
  read_quoted-quote_dotted b'[' b']' refl ident,
)

join-cons :
    (sep : Bytes) (b : ℕ) (p : Bytes) (ps : List Bytes)
    → join sep ((b ∷ p) ∷ ps) ≡ b ∷ join sep (p ∷ ps)
unfolding join
join-cons sep b p [] = refl
join-cons sep b p (q ∷ ps) = refl

-- Splitting a name at its dots loses nothing.
pub join-split : (c : ℕ) (s : Bytes) → join (c ∷ []) (split c s) ≡ s
unfolding split push_front join
join-split c [] = refl
join-split c (b ∷ s) =
    let (p, ps, e) = split_lem c s in
    let ih : join (c ∷ []) (p ∷ ps) ≡ s = ap (join (c ∷ [])) (sym e) ∙ join-split c s in
    elim (Bool-cases (b == c)) [
      | inl h ↦
          let same : c ≡ b = ground arith in
          rw (h, e) (ap (λ x. x ∷ join (c ∷ []) (p ∷ ps)) same ∙ ap (λ t. b ∷ t) ih)
      | inr h ↦ rw (h, e) (join-cons (c ∷ []) b p ps ∙ ap (λ t. b ∷ t) ih)
    ]
