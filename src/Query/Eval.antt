-- ===== src/Query/Eval.antt =====
-- What a predicate means: its truth value in SQL's three-valued logic, given the truth of the
-- leaves (a comparison or a raw fragment on the row at hand). The reference for the optimizer.
use breezeorm.Prelude.{List}
use breezeorm.Text.{Bytes}
use breezeorm.Query.{
  Expr, Exprs, nil, predicate, logical, raw, subquery, none_left, cons, op_or, op_not, Predicate,
  Value, SubqueryKind,
}

pub data Truth : Type 0 where
  yes_t unknown no_t : Truth

abbrev pub both : Truth → Truth → Truth
both no_t b = no_t
both unknown no_t = no_t
both unknown b = unknown
both yes_t b = b

abbrev pub negate : Truth → Truth
negate yes_t = no_t
negate unknown = unknown
negate no_t = yes_t

abbrev pub either : Truth → Truth → Truth
either a b = negate (both (negate a) (negate b))

-- The truth of the leaves.
pub record Leaves : Type 0 where
  pub of_predicate : Predicate → Truth
  pub of_raw : Bytes → List Value → Truth
  pub of_subquery : SubqueryKind → Truth

-- An absent condition keeps every row; NOT reads its first operand.
unfoldable mutual
  pub eval : Leaves → Expr → Truth
  eval v nil = yes_t
  eval v (predicate p) = v.of_predicate p
  eval v (logical op_not es) = negate (eval_first v es)
  eval v (logical op_or es) = eval_any v es
  eval v (logical op es) = eval_all v es
  eval v (raw sql params) = v.of_raw sql params
  eval v (subquery k) = v.of_subquery k

  pub eval_first : Leaves → Exprs → Truth
  eval_first v none_left = yes_t
  eval_first v (cons e es) = eval v e

  pub eval_any : Leaves → Exprs → Truth
  eval_any v none_left = no_t
  eval_any v (cons e es) = either (eval v e) (eval_any v es)

  pub eval_all : Leaves → Exprs → Truth
  eval_all v none_left = yes_t
  eval_all v (cons e es) = both (eval v e) (eval_all v es)
