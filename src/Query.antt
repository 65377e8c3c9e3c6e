-- ===== src/Query.antt =====
-- pkg/query: the predicate expressions (expr.go), the clauses of a statement (join.go) and the
-- builder's record (builder.go). The builder's methods are in Query/Builder.antt.
pub mod Builder
pub mod Eval
use breezeorm.Prelude.{ℕ, Bool, true, false, List, [], ◌∷◌, Option}
use breezeorm.Prelude.Int.{ℤ}
use breezeorm.Text.{Bytes, lit}

pub data Op : Type 0 where
  op_eq op_neq op_lt op_lte op_gt op_gte op_like op_ilike op_in op_not_in op_is_null : Op
  op_is_not_null op_between op_and op_or op_not op_raw : Op

-- `string(op)`
unfoldable pub op_text : Op → Bytes
unfolding lit
op_text op_eq = lit "="
op_text op_neq = lit "<>"
op_text op_lt = lit "<"
op_text op_lte = lit "<="
op_text op_gt = lit ">"
op_text op_gte = lit ">="
op_text op_like = lit "LIKE"
op_text op_ilike = lit "ILIKE"
op_text op_in = lit "IN"
op_text op_not_in = lit "NOT IN"
op_text op_is_null = lit "IS NULL"
op_text op_is_not_null = lit "IS NOT NULL"
op_text op_between = lit "BETWEEN"
op_text op_and = lit "AND"
op_text op_or = lit "OR"
op_text op_not = lit "NOT"
op_text op_raw = lit "RAW"

abbrev pub is_and : Op → Bool
is_and op_and = true
is_and _ = false

abbrev pub is_and_or : Op → Bool
is_and_or op_and = true
is_and_or op_or = true
is_and_or _ = false

-- The dynamic values that a predicate binds: Go's `any`, with `[]any` and `[2]any` over scalars.
pub data Scalar : Type 0 where
  null : Scalar
  int : ℤ → Scalar
  text : Bytes → Scalar
  bool : Bool → Scalar

pub data Value : Type 0 where
  scalar : Scalar → Value
  slice : List Scalar → Value
  pair : Scalar → Scalar → Value

pub record Predicate : Type 0 where
  pub column : Bytes
  pub op : Op
  pub value : Value

pub data SubqueryKind : Type 0 where
  subquery_exists subquery_not_exists subquery_in subquery_scalar : SubqueryKind

-- `nil` is the nil interface. A subquery's builder is opaque to every function modelled here.
mutual
  pub data Expr : Type 0 where
    nil : Expr
    predicate : Predicate → Expr
    logical : Op → Exprs → Expr
    raw : Bytes → List Value → Expr
    subquery : SubqueryKind → Expr

  pub data Exprs : Type 0 where
    none_left : Exprs
    cons : Expr → Exprs → Exprs

abbrev pub is_nil : Expr → Bool
is_nil nil = true
is_nil _ = false

abbrev pub to_list : Exprs → List Expr
to_list none_left = []
to_list (cons e es) = e ∷ to_list es

abbrev pub of_list : List Expr → Exprs
of_list [] = none_left
of_list (e ∷ es) = cons e (of_list es)

-- `And(exprs...)`; nested groups stay nested
unfoldable pub and_expr : List Expr → Expr
and_expr (e ∷ []) = e
and_expr es = logical op_and (of_list es)

unfoldable pub or_expr : List Expr → Expr
or_expr (e ∷ []) = e
or_expr es = logical op_or (of_list es)

unfoldable pub not_expr : Expr → Expr
not_expr e = logical op_not (cons e none_left)

unfoldable pub raw_expr : Bytes → List Value → Expr
raw_expr sql params = raw sql params

pub data JoinKind : Type 0 where
  join_inner join_left join_right join_full join_cross : JoinKind

unfoldable pub join_text : JoinKind → Bytes
unfolding lit
join_text join_inner = lit "INNER JOIN"
join_text join_left = lit "LEFT JOIN"
join_text join_right = lit "RIGHT JOIN"
join_text join_full = lit "FULL JOIN"
join_text join_cross = lit "CROSS JOIN"

pub record Join : Type 0 where
  pub kind : JoinKind
  pub table : Bytes
  pub alias : Bytes
  pub condition : Expr

pub data NullsOrder : Type 0 where
  nulls_default nulls_first nulls_last : NullsOrder

pub record OrderTerm : Type 0 where
  pub column : Bytes
  pub desc : Bool
  pub nulls : NullsOrder

pub record WindowSpec : Type 0 where
  pub partition_by : List Bytes
  pub order_by : List OrderTerm
  pub frame : Bytes

pub record SelectExpr : Type 0 where
  pub expr : Bytes
  pub alias : Bytes
  pub window : Option WindowSpec

-- `Query`, a builder held as `any`, is opaque and left out.
pub record Cte : Type 0 where
  pub name : Bytes
  pub columns : List Bytes
  pub recursive : Bool

-- `dialect.LockMode`
pub data LockMode : Type 0 where
  lock_none lock_for_update lock_for_share lock_for_no_key_update : LockMode
  lock_for_update_skip_locked lock_for_update_no_wait : LockMode

-- `dialect.UpsertConflictTarget`
pub record UpsertConflictTarget : Type 0 where
  pub columns : List Bytes
  pub constraint : Bytes

pub record PreloadSpec : Type 0 where
  pub path : Bytes
  pub filter : Expr
  pub limit : Option ℤ
  pub batch : Bool

pub data Kind : Type 0 where
  kind_select kind_insert kind_update kind_delete kind_upsert : Kind

pub record Assignment : Type 0 where
  pub column : Bytes
  pub value : Value
