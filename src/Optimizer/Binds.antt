-- ===== src/Optimizer/Binds.antt =====
-- The arguments of a SELECT: those that `ExtractArgsFromBuilder` takes from the query, against those
-- of the compiled statement, whose plan went through the passes.
pub mod Simplify
use breezeorm.Prelude.{
  Bool, true, false, ◌&&◌, ◌≡◌, refl, sym, ap, ◌∙◌, List, [], ◌∷◌, Option-cases, inl, inr, none,
  some, arith, Bool-cases, if◌then◌else◌,
}
use breezeorm.Query.{
  Op, op_and, op_or, op_not, Expr, nil, predicate, logical, raw, subquery, Exprs, none_left, cons,
  kind_select, to_list, of_list, Join, LockMode, Value, Predicate,
}
use breezeorm.Query.Builder.{Builder}
use breezeorm.Dialect.{Dialect}
use breezeorm.Planner.{
  Node, Fields, no_node, node, node_insert, node_update, node_delete, node_upsert, node_scan,
  node_limit, build, build_select, build_joins, build_filter, build_aggregate, build_project,
  build_distinct, build_sort, build_limit, build_cte, set_lock, leaf, over, NodeKind, zero_fields,
}
use breezeorm.Planner.Physical.{plan_physical}
use breezeorm.Planner.Flatten.{SelectParts, flatten, no_parts}
use breezeorm.Planner.Flatten.Build.{parts_of}
use breezeorm.Sqlgen.{GeneratedSql, Result, ok}
use breezeorm.Sqlgen.Statement.{generate_sql}
use breezeorm.Sqlgen.Args.{
  ArgCollector, fresh, collect_expr, collect_children, collect_joins, collect_parts, collected,
  collect_root, extract_from, extract_args, extract_args_from_builder,
}
use breezeorm.Sqlgen.Matches.{unary_nots, all_unary_nots}
use breezeorm.Sqlgen.Matches.Root.{parts_unary, joins_unary, root_unary, extract_args-generate_sql}
use breezeorm.Optimizer.{
  walk, sort_exprs, simplify_expr, simplify_all, collapse, dedupe_and, canonical_and, optimize,
  default_pipeline, predicate_simplification, duplicate_predicate_removal, order_by_optimization,
  limit_optimization, canonical_ordering, constant_folding, join_optimization, projection_pruning,
}
use breezeorm.Optimizer.Meaning.{of_list-to_list}
use breezeorm.Optimizer.Order.{IsSorted, HasNewKeys, sort_exprs_lem, dedupe_lem}
use breezeorm.Optimizer.Plan.{
  optimized_parts, flatten-optimize-parts, optimize_lem, is_nested_limit-build,
}
use breezeorm.Optimizer.Refines.{operands}
use breezeorm.Optimizer.Binds.Simplify.{collect_expr-simplified, unary_nots-simplified}

-- Operands that the passes leave as they are: in the order of their keys, each key once.
abbrev pub IsCanonical : Expr → Type 0
IsCanonical e = IsSorted (to_list (operands e)) × HasNewKeys [] (operands e)

canonical_and_lem : (e : Expr) → IsCanonical e → canonical_and (dedupe_and e) ≡ e
unfolding canonical_and dedupe_and
canonical_and_lem (logical op_and es) (s, k) =
    ap (λ fs. logical op_and (of_list (sort_exprs (to_list fs)))) (dedupe_lem [] es k)
    ∙ ap (λ xs. logical op_and (of_list xs)) (sort_exprs_lem (to_list es) s)
    ∙ ap (logical op_and) (of_list-to_list es)
canonical_and_lem (logical op es) h = refl
canonical_and_lem nil h = refl
canonical_and_lem (predicate p) h = refl
canonical_and_lem (raw t ps) h = refl
canonical_and_lem (subquery k) h = refl

-- A plan whose root is no INSERT, UPDATE, DELETE or UPSERT.
abbrev is_query : Node → Bool
is_query no_node = false
is_query (node node_insert f i is) = false
is_query (node node_update f i is) = false
is_query (node node_delete f i is) = false
is_query (node node_upsert f i is) = false
is_query n = true

extract_from-is_query :
    (n : Node)
    → is_query n ≡ true
    → extract_from n ≡ collected (collect_parts (flatten n no_parts) fresh)
extract_from-is_query no_node h = absurd (cc)
extract_from-is_query (node node_insert f i is) h = absurd (cc)
extract_from-is_query (node node_update f i is) h = absurd (cc)
extract_from-is_query (node node_delete f i is) h = absurd (cc)
extract_from-is_query (node node_upsert f i is) h = absurd (cc)
extract_from-is_query (node k f i is) h = refl

root_unary-is_query :
    (n : Node) → is_query n ≡ true → root_unary n ≡ parts_unary (flatten n no_parts)
root_unary-is_query no_node h = absurd (cc)
root_unary-is_query (node node_insert f i is) h = absurd (cc)
root_unary-is_query (node node_update f i is) h = absurd (cc)
root_unary-is_query (node node_delete f i is) h = absurd (cc)
root_unary-is_query (node node_upsert f i is) h = absurd (cc)
root_unary-is_query (node k f i is) h = refl

is_query-walk : (fn : Fields → Fields) (n : Node) → is_query (walk fn n) ≡ is_query n
unfolding walk
is_query-walk fn no_node = refl
is_query-walk fn (node node_insert f i is) = refl
is_query-walk fn (node node_update f i is) = refl
is_query-walk fn (node node_delete f i is) = refl
is_query-walk fn (node node_upsert f i is) = refl
is_query-walk fn (node k f i is) = refl

is_query-set_lock : (l : LockMode) (n : Node) → is_query n ≡ true → is_query (set_lock l n) ≡ true
is_query-set_lock l no_node h = h
is_query-set_lock l (node node_insert f i is) h = h
is_query-set_lock l (node node_update f i is) h = h
is_query-set_lock l (node node_delete f i is) h = h
is_query-set_lock l (node node_upsert f i is) h = h
is_query-set_lock l (node k f i is) h = refl

is_query-build_joins :
    (n : Node) (js : List Join) → is_query n ≡ true → is_query (build_joins n js) ≡ true
unfolding build_joins
is_query-build_joins n [] h = h
is_query-build_joins n (j ∷ js) h = is_query-build_joins _ js refl

is_query-over :
    (c : Bool) (k : NodeKind) (f : Fields) (n : Node)
    → is_query (over k f n) ≡ true
    → is_query n ≡ true
    → is_query (if c then over k f n else n) ≡ true
is_query-over true k f n g h = g
is_query-over false k f n g h = h

is_query-under :
    (c : Bool) (k : NodeKind) (f : Fields) (n : Node)
    → is_query (over k f n) ≡ true
    → is_query n ≡ true
    → is_query (if c then n else over k f n) ≡ true
is_query-under true k f n g h = h
is_query-under false k f n g h = g

is_query-build : (b : Builder) → b.kind ≡ kind_select → is_query (build b) ≡ true
unfolding build build_select build_filter build_aggregate build_project build_distinct build_sort
    build_limit build_cte
is_query-build b h =
    let e : build b ≡ build_select b = ground arith in
    let h0 =
      is_query-build_joins (leaf node_scan (record zero_fields { table = b.table })) b.joins refl in
    let h1 : is_query (build_filter b _) ≡ true = is_query-under _ _ _ _ refl h0 in
    let h2 : is_query (build_aggregate b _) ≡ true = is_query-over _ _ _ _ refl h1 in
    let h3 : is_query (build_project b _) ≡ true = is_query-under _ _ _ _ refl h2 in
    let h4 : is_query (build_distinct b _) ≡ true = is_query-over _ _ _ _ refl h3 in
    let h5 : is_query (build_sort b _) ≡ true = is_query-under _ _ _ _ refl h4 in
    let h6 : is_query (build_limit b _) ≡ true = is_query-over _ _ _ _ refl h5 in
    let h7 : is_query (build_cte b _) ≡ true = is_query-under _ _ _ _ refl h6 in
    ap is_query e ∙ is_query-set_lock b.lock _ h7

is_query-optimize :
    (b : Builder) → b.kind ≡ kind_select → is_query (optimize (build b) default_pipeline) ≡ true
unfolding canonical_ordering order_by_optimization duplicate_predicate_removal
    predicate_simplification
is_query-optimize b h =
    let n1 = predicate_simplification (build b) in
    let n2 = duplicate_predicate_removal n1 in
    ap is_query (optimize_lem (build b) (is_nested_limit-build b h))
    ∙ is_query-walk _ (order_by_optimization n2)
    ∙ is_query-walk _ n2
    ∙ is_query-walk _ n1
    ∙ is_query-walk _ (build b)
    ∙ is_query-build b h

pub extract_args-optimize :
    (b : Builder) (d : Dialect)
    → b.kind ≡ kind_select
    → extract_args (plan_physical (optimize (build b) default_pipeline) d)
      ≡ collected (collect_parts (optimized_parts (parts_of b)) fresh)
unfolding extract_args plan_physical
extract_args-optimize b d h =
    extract_from-is_query _ (is_query-optimize b h)
    ∙ ap (λ p. collected (collect_parts p fresh)) (flatten-optimize-parts b h)

-- The predicate of a SELECT, where the passes leave its simplified form as it is.
module _ (b : Builder) (h : b.kind ≡ kind_select) (k : IsCanonical (simplify_expr b.filter)) where
  collect_parts-optimized :
      collected (collect_parts (optimized_parts (parts_of b)) fresh) ≡ extract_args_from_builder b
  unfolding extract_args_from_builder
  collect_parts-optimized =
      let c0 = collect_joins b.joins fresh in
      let wheres : collect_expr (canonical_and (dedupe_and (simplify_expr b.filter))) c0
          ≡ collect_expr b.filter c0 =
        ap (λ e. collect_expr e c0) (canonical_and_lem (simplify_expr b.filter) k)
        ∙ collect_expr-simplified b.filter c0 in
      ap (λ c. collected (collect_expr (simplify_expr b.having) c)) wheres
      ∙ ap collected (collect_expr-simplified b.having (collect_expr b.filter c0))
      ∙ rw (h)

  parts_unary-optimized : parts_unary (optimized_parts (parts_of b)) ≡ parts_unary (parts_of b)
  parts_unary-optimized =
      ap (λ u. joins_unary b.joins && (u && unary_nots (simplify_expr b.having)))
        (ap unary_nots (canonical_and_lem (simplify_expr b.filter) k)
          ∙ unary_nots-simplified b.filter)
      ∙ ap (λ u. joins_unary b.joins && (unary_nots b.filter && u)) (unary_nots-simplified b.having)

-- A SELECT that is compiled through the default pipeline binds exactly the arguments that
-- `ExtractArgsFromBuilder` takes from the query, where the operands of its simplified WHERE are in
-- the order of their keys without a repeated key and every NOT has one operand.
pub extract_args_from_builder-generate_sql :
    (b : Builder) (d : Dialect) (gen : GeneratedSql)
    → b.kind ≡ kind_select
    → IsCanonical (simplify_expr b.filter)
    → parts_unary (parts_of b) ≡ true
    → generate_sql (plan_physical (optimize (build b) default_pipeline) d) ≡ ok gen
    → extract_args_from_builder b ≡ ok gen.params
unfolding plan_physical
extract_args_from_builder-generate_sql b d gen h k u g =
    let n = optimize (build b) default_pipeline in
    let unary : root_unary n ≡ true =
      root_unary-is_query n (is_query-optimize b h)
      ∙ ap parts_unary (flatten-optimize-parts b h)
      ∙ parts_unary-optimized b h k
      ∙ u in
    sym (extract_args-optimize b d h ∙ collect_parts-optimized b h k)
    ∙ extract_args-generate_sql (plan_physical n d) gen g unary
