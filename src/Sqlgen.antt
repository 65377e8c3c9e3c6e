-- ===== src/Sqlgen.antt =====
-- pkg/sqlgen/sqlgen.go: the generator of SQL text. `SqlGen` is the struct of that name without its
-- dialect, which is a parameter; a method takes the struct and returns it as it leaves it.
pub mod Expression
pub mod Statement
pub mod Bulk
pub mod Args
pub mod Template
pub mod Runs
pub mod Renders
pub mod Matches
use breezeorm.Prelude.{ℕ, Bool, List, [], ◌∷◌, ◌++◌, Option, none, some, length, if◌then◌else◌}
use breezeorm.Text.{Bytes, lit, contains_byte}
use breezeorm.Query.{Value}
use breezeorm.Dialect.{Dialect}

-- What a call can fail with. `index_out_of_range` is the panic of `le.Children[0]`.
pub data Error : Type 0 where
  empty_plan raw_separator unsupported_expression index_out_of_range : Error
  invalid_identifier : Bytes → Error
  no_bulk_insert no_rows : Error
  row_width : ℕ → Error

pub data Result {ℓ} (A : Type ℓ) : Type ℓ where
  ok : A → Result A
  err : Error → Result A

-- `gen.CacheKey` is set by the executor.
pub record GeneratedSql : Type 0 where
  pub sql : Bytes
  pub params : List Value

pub record SqlGen : Type 0 where
  pub buf : Bytes
  pub params : List Value
  pub failed : Option Error

abbrev pub start : SqlGen
start = record { buf = []; params = []; failed = none }

infixl 5 ◌▷◌
abbrev pub ◌▷◌ {ℓ κ} : {A : Type ℓ} {B : Type κ} → A → (A → B) → B
g ▷ f = f g

abbrev pub fail : Error → SqlGen → SqlGen
fail e g = record g { failed = some e }

-- `g.b.WriteString(s)`
unfoldable pub write : Bytes → SqlGen → SqlGen
write s g = record g { buf = g.buf ++ s }

-- The loops that write a separator before every element but the first.
unfoldable pub separated {ℓ} :
    {A : Type ℓ} → Bytes → (A → SqlGen → SqlGen) → List A → SqlGen → SqlGen
separated sep f [] g = g
separated sep f (x ∷ []) g = f x g
separated sep f (x ∷ y ∷ xs) g = separated sep f (y ∷ xs) (write sep (f x g))

unfoldable pub check_raw_fragment : Bytes → SqlGen → SqlGen
check_raw_fragment s g = elim g.failed [
  | some e ↦ g
  | none ↦ if contains_byte b';' s then fail raw_separator g else g
]

module _ (d : Dialect) where
  -- `bind`: the placeholder, and the generator with one more argument
  unfoldable pub bind : Value → SqlGen → Bytes × SqlGen
  bind v g =
      let params = g.params ++ (v ∷ []) in
      (d.placeholder (length params), record g { params = params })

  unfoldable pub quote_ident : Bytes → SqlGen → Bytes × SqlGen
  quote_ident name g = elim g.failed [
    | some e ↦ ([], g)
    | none ↦
        if d.validate_identifier name
        then (d.quote_identifier name, g)
        else ([], fail (invalid_identifier name) g)
  ]

  unfoldable pub quote_idents : List Bytes → SqlGen → List Bytes × SqlGen
  quote_idents [] g = ([], g)
  quote_idents (n ∷ ns) g =
      let (s, g') = quote_ident n g in let (rest, g'') = quote_idents ns g' in (s ∷ rest, g'')

  -- `g.b.WriteString(g.quoteIdent(name))`
  unfoldable pub write_ident : Bytes → SqlGen → SqlGen
  write_ident name g = let (s, g') = quote_ident name g in write s g'

  -- `g.b.WriteString(g.bind(v))`
  unfoldable pub write_bind : Value → SqlGen → SqlGen
  write_bind v g = let (s, g') = bind v g in write s g'
