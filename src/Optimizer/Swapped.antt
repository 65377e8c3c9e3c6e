-- ===== src/Optimizer/Swapped.antt =====
-- Two conditions whose keys stand the other way round: the compiled statement and the query give
-- their arguments in different orders.
use breezeorm.Prelude.{true, false, ◌≡◌, refl, ap, ◌∙◌, [], ◌∷◌}
use breezeorm.Text.{Bytes, bytes_eq, bytes_lt}
use breezeorm.Query.{op_and, op_eq, Expr, predicate, logical, none_left, cons, Value, and_expr}
use breezeorm.Query.Builder.{Builder, new, filter}
use breezeorm.Dialect.{Dialect}
use breezeorm.Planner.{build}
use breezeorm.Planner.Physical.{plan_physical}
use breezeorm.Sqlgen.{ok}
use breezeorm.Sqlgen.Args.{
  fresh, bind, collect_expr, collect_children, collect_by_op, collect_joins, collected,
  extract_args, extract_args_from_builder,
}
use breezeorm.Optimizer.{
  simplify_expr, simplify_all, collapse, dedupe, dedupe_and, has_key, canonical_and, sort_exprs,
  sort_from, sift, optimize, default_pipeline,
}
use breezeorm.Optimizer.Keys.{expr_key, expr_identity_key}
use breezeorm.Optimizer.Binds.{extract_args-optimize}

-- `Eq(column, value)`
abbrev pub equals : Bytes → Value → Expr
equals column value = predicate (record { column = column; op = op_eq; value = value })

-- `New(table).Where(first).Where(second)`
abbrev pub where_both : Bytes → Expr → Expr → Builder
where_both table e f = filter (filter (new table) e) f

module _ (table c1 c2 : Bytes) (v1 v2 : Value)
    (less : bytes_lt (expr_key (equals c2 v2)) (expr_key (equals c1 v1)) ≡ true)
    (differ : bytes_eq (expr_identity_key (equals c2 v2)) (expr_identity_key (equals c1 v1))
      ≡ false) where
  swapped :
      canonical_and
        (dedupe_and (simplify_expr (where_both table (equals c1 v1) (equals c2 v2)).filter))
      ≡ logical op_and (cons (equals c2 v2) (cons (equals c1 v1) none_left))
  unfolding canonical_and dedupe_and dedupe has_key simplify_expr simplify_all collapse new filter
      sort_exprs sort_from sift and_expr
  swapped = rw (differ, less)

  -- `New(t).Where(Eq(c1, v1)).Where(Eq(c2, v2))`, where the key of the second condition is less than
  -- that of the first and their identity keys differ: the statement that the default pipeline makes
  -- binds v2 and then v1, but `ExtractArgsFromBuilder` gives v1 and then v2.
  pub extract_args-swapped :
      (d : Dialect)
      → (extract_args (
            plan_physical
              (optimize (build (where_both table (equals c1 v1) (equals c2 v2))) default_pipeline)
              d)
          ≡ ok (v2 ∷ v1 ∷ []))
        × (extract_args_from_builder (where_both table (equals c1 v1) (equals c2 v2))
            ≡ ok (v1 ∷ v2 ∷ []))
  unfolding new filter extract_args_from_builder collect_expr collect_children collect_by_op bind
      collect_joins simplify_expr and_expr
  extract_args-swapped d = (
    extract_args-optimize (where_both table (equals c1 v1) (equals c2 v2)) d refl
        ∙ ap (λ e. collected (collect_expr e fresh)) swapped,
    refl,
  )
