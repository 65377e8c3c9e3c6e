-- ===== src/Sqlgen/Args.antt =====
-- The argument collector of pkg/sqlgen/sqlgen.go, which mirrors the generator's binding order, and
-- the two functions that run it: on the query of this call, and on a plan.
use breezeorm.Prelude.{ℕ, ◌+◌, List, [], ◌∷◌, ◌++◌, Option, none, some, length}
use breezeorm.Query.{
  Op, op_in, op_not_in, op_is_null, op_is_not_null, op_between, Value, Expr, nil, predicate,
  logical, raw, subquery, Exprs, none_left, cons, Join, Assignment, kind_select, kind_insert,
  kind_update, kind_delete, kind_upsert,
}
use breezeorm.Query.Builder.{Builder}
use breezeorm.Planner.{Node, no_node, node, node_insert, node_update, node_delete, node_upsert}
use breezeorm.Planner.Flatten.{SelectParts, no_parts, flatten}
use breezeorm.Planner.Physical.{PhysicalPlan}
use breezeorm.Sqlgen.{Error, Result, ok, err, empty_plan, unsupported_expression}
use breezeorm.Sqlgen.Expression.{slice_of, pair_first, pair_second}

pub record ArgCollector : Type 0 where
  pub params : List Value
  pub failed : Option Error

abbrev pub fresh : ArgCollector
fresh = record { params = []; failed = none }

unfoldable pub bind : Value → ArgCollector → ArgCollector
bind v c = record c { params = c.params ++ (v ∷ []) }

unfoldable pub bind_all : List Value → ArgCollector → ArgCollector
bind_all [] c = c
bind_all (v ∷ vs) c = bind_all vs (bind v c)

unfoldable pub collect_assignments : List Assignment → ArgCollector → ArgCollector
collect_assignments [] c = c
collect_assignments (a ∷ s) c = collect_assignments s (bind a.value c)

unfoldable pub collect_by_op : Op → Value → ArgCollector → ArgCollector
collect_by_op op_is_null v c = c
collect_by_op op_is_not_null v c = c
collect_by_op op_in v c = bind_all (slice_of v) c
collect_by_op op_not_in v c = bind_all (slice_of v) c
collect_by_op op_between v c = bind (pair_second v) (bind (pair_first v) c)
collect_by_op _ v c = bind v c

unfoldable mutual
  pub collect_expr : Expr → ArgCollector → ArgCollector
  collect_expr nil c = c
  collect_expr (predicate p) c = elim c.failed [ some e ↦ c | none ↦ collect_by_op p.op p.value c ]
  collect_expr (logical op es) c = elim c.failed [ some e ↦ c | none ↦ collect_children es c ]
  collect_expr (raw sql params) c = elim c.failed [
    | some e ↦ c
    | none ↦ record c { params = c.params ++ params }
  ]
  collect_expr (subquery k) c = elim c.failed [
    | some e ↦ c
    | none ↦ record c { failed = some unsupported_expression }
  ]

  pub collect_children : Exprs → ArgCollector → ArgCollector
  collect_children none_left c = c
  collect_children (cons e es) c = collect_children es (collect_expr e c)

unfoldable pub collect_joins : List Join → ArgCollector → ArgCollector
collect_joins [] c = c
collect_joins (j ∷ js) c = collect_joins js (collect_expr j.condition c)

-- `return c.args, c.err`
abbrev pub collected : ArgCollector → Result (List Value)
collected c = elim c.failed [ some e ↦ err e | none ↦ ok c.params ]

unfoldable pub extract_args_from_builder : Builder → Result (List Value)
extract_args_from_builder b = elim b.kind [
  | kind_insert ↦ collected (collect_assignments b.assignments fresh)
  | kind_upsert ↦ collected (collect_assignments b.assignments fresh)
  | kind_update ↦ collected (collect_expr b.filter (collect_assignments b.assignments fresh))
  | kind_delete ↦ collected (collect_expr b.filter fresh)
  | kind_select ↦
      collected (collect_expr b.having (collect_expr b.filter (collect_joins b.joins fresh)))
]

abbrev pub collect_parts : SelectParts → ArgCollector → ArgCollector
collect_parts p c = collect_expr p.having (collect_expr p.filter (collect_joins p.joins c))

abbrev pub collect_root : Node → ArgCollector → ArgCollector
collect_root (node node_insert f i is) c = collect_assignments f.assignments c
collect_root (node node_upsert f i is) c = collect_assignments f.assignments c
collect_root (node node_update f i is) c =
    collect_expr f.predicate (collect_assignments f.assignments c)
collect_root (node node_delete f i is) c = collect_expr f.predicate c
collect_root n c = collect_parts (flatten n no_parts) c

abbrev pub extract_from : Node → Result (List Value)
extract_from no_node = err empty_plan
extract_from (node k f i is) = collected (collect_root (node k f i is) fresh)

unfoldable pub extract_args : PhysicalPlan → Result (List Value)
extract_args pp = extract_from pp.root

abbrev pub op_arg_count : Op → Value → ℕ
op_arg_count op_is_null v = 0
op_arg_count op_is_not_null v = 0
op_arg_count op_in v = length (slice_of v)
op_arg_count op_not_in v = length (slice_of v)
op_arg_count op_between v = 2
op_arg_count _ v = 1

-- The counts by which `ExtractArgs` sizes its result in advance.
unfoldable mutual
  pub expr_arg_count : Expr → ℕ
  expr_arg_count nil = 0
  expr_arg_count (predicate p) = op_arg_count p.op p.value
  expr_arg_count (logical op es) = children_arg_count es
  expr_arg_count (raw sql params) = length params
  expr_arg_count (subquery k) = 0

  pub children_arg_count : Exprs → ℕ
  children_arg_count none_left = 0
  children_arg_count (cons e es) = expr_arg_count e + children_arg_count es

unfoldable pub join_arg_count : List Join → ℕ
join_arg_count [] = 0
join_arg_count (j ∷ js) = expr_arg_count j.condition + join_arg_count js
