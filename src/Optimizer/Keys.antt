-- ===== src/Optimizer/Keys.antt =====
-- `exprKey` and `exprIdentityKey` of pkg/optimizer/optimizer.go. Each returns what it appends.
use breezeorm.Prelude.{◌/◌, ◌%◌, true, false, List, [], ◌∷◌, ◌++◌, length}
use breezeorm.Text.{Bytes, lit, format_int}
use breezeorm.Query.{
  op_text, Scalar, null, int, text, bool, Value, scalar, slice, pair, Predicate, Expr, nil,
  predicate, logical, raw, subquery, Exprs, none_left, cons,
}

-- `fmt.Sprint` of a scalar, and of any value
unfoldable pub sprint : Scalar → Bytes
unfolding format_int
sprint null = lit "<nil>"
sprint (int n) = format_int n
sprint (text s) = s
sprint (bool true) = lit "true"
sprint (bool false) = lit "false"

unfoldable pub sprint_items : List Scalar → Bytes
unfolding sprint
sprint_items [] = []
sprint_items (s ∷ []) = sprint s
sprint_items (s ∷ t ∷ rest) = sprint s ++ (lit " " ++ sprint_items (t ∷ rest))

unfoldable pub sprint_value : Value → Bytes
unfolding sprint sprint_items
sprint_value (scalar s) = sprint s
sprint_value (slice ss) = lit "[" ++ (sprint_items ss ++ lit "]")
sprint_value (pair a b) = lit "[" ++ (sprint_items (a ∷ b ∷ []) ++ lit "]")

-- each item behind the separator 0x1e
unfoldable pub items_key : List Scalar → Bytes
unfolding sprint
items_key [] = []
items_key (s ∷ ss) = sprint s ++ (0x1e ∷ items_key ss)

unfoldable pub params_key : List Value → Bytes
unfolding sprint_value
params_key [] = []
params_key (v ∷ vs) = sprint_value v ++ (0x1e ∷ params_key vs)

unfoldable pub value_identity_key : Value → Bytes
unfolding sprint items_key
value_identity_key (scalar null) = b'N' ∷ []
value_identity_key (slice ss) = b'I' ∷ items_key ss
value_identity_key (pair a b) = b'B' ∷ items_key (a ∷ b ∷ [])
value_identity_key (scalar s) = b'S' ∷ sprint s

-- the tag of the value's kind, with the length of a slice
unfoldable pub value_kind_key : Value → Bytes
value_kind_key (scalar null) = b'N' ∷ []
value_kind_key (slice ss) = b'I' ∷ length ss / 256 % 256 ∷ length ss % 256 ∷ []
value_kind_key (pair a b) = b'B' ∷ []
value_kind_key (scalar s) = b'S' ∷ []

abbrev predicate_head : Predicate → Bytes
predicate_head p = b'p' ∷ (p.column ++ (0x1f ∷ (op_text p.op ++ (0x1f ∷ []))))

-- `fmt.Sprintf("%T", e)` of the one type that has no case of its own
abbrev unknown_key : Bytes
unknown_key = b'u' ∷ (lit "query.SubqueryExpr" ++ (0x1f ∷ []))

unfoldable mutual
  pub expr_identity_key : Expr → Bytes
  expr_identity_key nil = b'n' ∷ []
  expr_identity_key (predicate p) = predicate_head p ++ value_identity_key p.value
  expr_identity_key (logical op es) =
      b'l' ∷ (op_text op ++ (0x1c ∷ (all_identity_keys es ++ (0x1d ∷ []))))
  expr_identity_key (raw sql params) = b'r' ∷ (sql ++ (0x1f ∷ params_key params))
  expr_identity_key (subquery k) = unknown_key

  pub all_identity_keys : Exprs → Bytes
  all_identity_keys none_left = []
  all_identity_keys (cons e es) = expr_identity_key e ++ all_identity_keys es

unfoldable mutual
  pub expr_key : Expr → Bytes
  expr_key nil = b'n' ∷ []
  expr_key (predicate p) = predicate_head p ++ value_kind_key p.value
  expr_key (logical op es) = b'l' ∷ (op_text op ++ (0x1c ∷ (all_keys es ++ (0x1d ∷ []))))
  expr_key (raw sql params) = b'r' ∷ (sql ++ (0x1f ∷ []))
  expr_key (subquery k) = unknown_key

  pub all_keys : Exprs → Bytes
  all_keys none_left = []
  all_keys (cons e es) = expr_key e ++ all_keys es
