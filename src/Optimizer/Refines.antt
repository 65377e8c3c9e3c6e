-- ===== src/Optimizer/Refines.antt =====
-- The default pipeline on a whole SELECT: the rows that its WHERE and HAVING keep are those that
-- the query asked for.
use breezeorm.Prelude.{◌≡◌, refl, ap, ◌∙◌}
use breezeorm.Query.{
  op_and, Expr, nil, predicate, logical, raw, subquery, Exprs, none_left, kind_select,
}
use breezeorm.Query.Eval.{Leaves, eval}
use breezeorm.Query.Builder.{Builder}
use breezeorm.Planner.{build}
use breezeorm.Planner.Flatten.{flatten, no_parts}
use breezeorm.Optimizer.{simplify_expr, dedupe_and, optimize, default_pipeline}
use breezeorm.Optimizer.Meaning.{KeysTell, eval-simplify_expr, eval-dedupe_and, eval-canonical_and}
use breezeorm.Optimizer.Plan.{flatten-optimize-parts}

-- The operands of a top-level AND.
abbrev pub operands : Expr → Exprs
operands (logical op_and es) = es
operands e = none_left

eval-dedupe_and-operands :
    (v : Leaves) (e : Expr) → KeysTell v (operands e) → eval v (dedupe_and e) ≡ eval v e
unfolding dedupe_and
eval-dedupe_and-operands v (logical op_and es) k = eval-dedupe_and v es k
eval-dedupe_and-operands v (logical op es) k = refl
eval-dedupe_and-operands v nil k = refl
eval-dedupe_and-operands v (predicate p) k = refl
eval-dedupe_and-operands v (raw sql params) k = refl
eval-dedupe_and-operands v (subquery s) k = refl

-- The WHERE and the HAVING that the default pipeline leaves in the plan of a SELECT have the truth
-- values of the query's own on every row, where operands of the WHERE with equal identity keys have
-- equal truth values.
pub eval-optimize :
    (v : Leaves) (b : Builder)
    → b.kind ≡ kind_select
    → KeysTell v (operands (simplify_expr b.filter))
    → (eval v (flatten (optimize (build b) default_pipeline) no_parts).filter ≡ eval v b.filter)
      × (eval v (flatten (optimize (build b) default_pipeline) no_parts).having ≡ eval v b.having)
eval-optimize v b h k =
    let parts = flatten-optimize-parts b h in
    (
      ap (λ p. eval v p.filter) parts
          ∙ eval-canonical_and v (dedupe_and (simplify_expr b.filter))
          ∙ eval-dedupe_and-operands v (simplify_expr b.filter) k
          ∙ eval-simplify_expr v b.filter,
      ap (λ p. eval v p.having) parts ∙ eval-simplify_expr v b.having,
    )
