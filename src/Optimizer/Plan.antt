-- ===== src/Optimizer/Plan.antt =====
-- What the passes do to a plan, as the generator reads it back: flattening a rewritten plan gives
-- the parts of the plan with their predicates and order terms rewritten.
use breezeorm.Prelude.{
  Bool, true, false, ◌≡◌, refl, sym, ap, ◌∙◌, subst, List, [], ◌∷◌, is_empty, ◌||◌, Bool-cases, inl,
  inr, arith,
}
use breezeorm.Query.{Expr, OrderTerm, Join, kind_select, LockMode, lock_none}
use breezeorm.Query.Builder.{Builder}
use breezeorm.Planner.{
  Node, Nodes, Fields, no_node, node, no_nodes, also, node_scan, node_filter, node_project,
  node_join, node_aggregate, node_sort, node_limit, node_distinct, node_cte, node_union,
  node_insert, node_update, node_delete, node_upsert, build, build_select, build_joins,
  build_filter, build_aggregate, build_project, build_distinct, build_sort, build_limit, build_cte,
  set_lock, leaf, zero_fields,
}
use breezeorm.Planner.Flatten.{SelectParts, no_parts, keep_lock, as_join, flatten, flatten_first}
use breezeorm.Planner.Flatten.Build.{parts_of, flatten-build}
use breezeorm.Optimizer.Terms.{IsFirstOfEach, distinct_terms-IsFirstOfEach}
use breezeorm.Optimizer.{
  walk, walk_all, simplify_expr, dedupe_and, canonical_and, distinct_terms,
  predicate_simplification, duplicate_predicate_removal, order_by_optimization, limit_optimization,
  merge_limits, canonical_ordering, optimize, default_pipeline, constant_folding, join_optimization,
  projection_pruning,
}

-- A pass that rewrites predicates, HAVING conditions and order terms where they stand.
module _ (s h : Expr → Expr) (o : List OrderTerm → List OrderTerm) where
  abbrev on_fields : Fields → Fields
  on_fields f = record f { predicate = s f.predicate; having = h f.having; order_by = o f.order_by }

  abbrev on_parts : SelectParts → SelectParts
  on_parts p = record p { filter = s p.filter; having = h p.having; order_by = o p.order_by }

  keep_lock-on_parts :
      (l : LockMode) (p : SelectParts) → keep_lock l (on_parts p) ≡ on_parts (keep_lock l p)
  keep_lock-on_parts lock_none p = refl
  keep_lock-on_parts l p = refl

  mutual
    unfolding flatten walk flatten_first walk_all

    flatten-walk :
        (n : Node) (p : SelectParts)
        → flatten (walk on_fields n) (on_parts p) ≡ on_parts (flatten n p)
    flatten-walk no_node p = refl
    flatten-walk (node node_cte f i is) p =
        ap (λ q. flatten (walk on_fields i) (record q { ctes = f.ctes }))
          (keep_lock-on_parts f.lock p)
        ∙ flatten-walk i _
    flatten-walk (node node_limit f i is) p =
        ap (λ q. flatten (walk on_fields i) (record q { limit = f.limit; offset = f.offset }))
          (keep_lock-on_parts f.lock p)
        ∙ flatten-walk i _
    flatten-walk (node node_sort f i is) p =
        ap (λ q. flatten (walk on_fields i) (record q { order_by = o f.order_by }))
          (keep_lock-on_parts f.lock p)
        ∙ flatten-walk i (record (keep_lock f.lock p) { order_by = f.order_by })
    flatten-walk (node node_distinct f i is) p =
        ap (λ q. flatten (walk on_fields i) (record q { distinct = true }))
          (keep_lock-on_parts f.lock p)
        ∙ flatten-walk i _
    flatten-walk (node node_project f i is) p =
        ap (λ q. flatten (walk on_fields i) (record q { projections = f.projections }))
          (keep_lock-on_parts f.lock p)
        ∙ flatten-walk i _
    flatten-walk (node node_aggregate f i is) p =
        ap
          (λ q.
            flatten (walk on_fields i) (record q { group_by = f.group_by; having = h f.having }))
          (keep_lock-on_parts f.lock p)
        ∙ flatten-walk i (record (keep_lock f.lock p) { group_by = f.group_by; having = f.having })
    flatten-walk (node node_filter f i is) p =
        ap (λ q. flatten (walk on_fields i) (record q { filter = s f.predicate }))
          (keep_lock-on_parts f.lock p)
        ∙ flatten-walk i (record (keep_lock f.lock p) { filter = f.predicate })
    flatten-walk (node node_join f i is) p =
        ap (λ q. flatten_first (walk_all on_fields is) (record q { joins = as_join f ∷ q.joins }))
          (keep_lock-on_parts f.lock p)
        ∙ flatten_first-walk_all is _
    flatten-walk (node node_scan f i is) p =
        ap {A = SelectParts} {B = SelectParts}
          (λ q. record q { base_table = f.table; base_alias = f.alias })
          (keep_lock-on_parts f.lock p)
    flatten-walk (node node_union f i is) p = keep_lock-on_parts f.lock p
    flatten-walk (node node_insert f i is) p = keep_lock-on_parts f.lock p
    flatten-walk (node node_update f i is) p = keep_lock-on_parts f.lock p
    flatten-walk (node node_delete f i is) p = keep_lock-on_parts f.lock p
    flatten-walk (node node_upsert f i is) p = keep_lock-on_parts f.lock p

    flatten_first-walk_all :
        (ns : Nodes) (p : SelectParts)
        → flatten_first (walk_all on_fields ns) (on_parts p) ≡ on_parts (flatten_first ns p)
    flatten_first-walk_all no_nodes p = refl
    flatten_first-walk_all (also n ns) p = flatten-walk n p

-- The clauses of a plan that the pipeline leaves, given those it starts from.
abbrev pub optimized_parts : SelectParts → SelectParts
optimized_parts p = record p {
  filter = canonical_and (dedupe_and (simplify_expr p.filter));
  having = simplify_expr p.having;
  order_by = distinct_terms p.order_by;
}

module _ (n : Node) where
  flatten-predicate_simplification :
      flatten (predicate_simplification n) no_parts
      ≡ on_parts simplify_expr simplify_expr (λ ts. ts) (flatten n no_parts)
  unfolding predicate_simplification simplify_expr
  flatten-predicate_simplification = flatten-walk simplify_expr simplify_expr (λ ts. ts) n no_parts

  flatten-duplicate_predicate_removal :
      flatten (duplicate_predicate_removal n) no_parts
      ≡ on_parts dedupe_and (λ e. e) (λ ts. ts) (flatten n no_parts)
  unfolding duplicate_predicate_removal dedupe_and
  flatten-duplicate_predicate_removal = flatten-walk dedupe_and (λ e. e) (λ ts. ts) n no_parts

  flatten-order_by_optimization :
      flatten (order_by_optimization n) no_parts
      ≡ on_parts (λ e. e) (λ e. e) distinct_terms (flatten n no_parts)
  unfolding order_by_optimization distinct_terms
  flatten-order_by_optimization = flatten-walk (λ e. e) (λ e. e) distinct_terms n no_parts

  flatten-canonical_ordering :
      flatten (canonical_ordering n) no_parts
      ≡ on_parts canonical_and (λ e. e) (λ ts. ts) (flatten n no_parts)
  unfolding canonical_ordering canonical_and
  flatten-canonical_ordering = flatten-walk canonical_and (λ e. e) (λ ts. ts) n no_parts

-- A LIMIT node, and one over another.
abbrev is_limit : Node → Bool
is_limit (node node_limit f i is) = true
is_limit _ = false

abbrev pub is_nested_limit : Node → Bool
is_nested_limit (node node_limit f i is) = is_limit i
is_nested_limit _ = false

limit_optimization_lem : (n : Node) → is_nested_limit n ≡ false → limit_optimization n ≡ n
unfolding limit_optimization merge_limits
limit_optimization_lem no_node h = refl
limit_optimization_lem (node node_limit f no_node is) h = refl
limit_optimization_lem (node node_limit f (node node_limit g i js) is) h = absurd (cc)
limit_optimization_lem (node node_limit f (node k g i js) is) h = refl
limit_optimization_lem (node k f i is) h = refl

is_limit-walk : (fn : Fields → Fields) (n : Node) → is_limit (walk fn n) ≡ is_limit n
unfolding walk
is_limit-walk fn no_node = refl
is_limit-walk fn (node node_limit f i is) = refl
is_limit-walk fn (node k f i is) = refl

is_nested_limit-walk :
    (fn : Fields → Fields) (n : Node) → is_nested_limit (walk fn n) ≡ is_nested_limit n
unfolding walk
is_nested_limit-walk fn no_node = refl
is_nested_limit-walk fn (node node_limit f i is) = is_limit-walk fn i
is_nested_limit-walk fn (node k f i is) = refl

is_limit-build_joins :
    (n : Node) (js : List Join) → is_limit n ≡ false → is_limit (build_joins n js) ≡ false
unfolding build_joins
is_limit-build_joins n [] h = h
is_limit-build_joins n (j ∷ js) h = is_limit-build_joins _ js refl

module _ (b : Builder) (n : Node) (h : is_limit n ≡ false) where
  is_limit-build_filter : is_limit (build_filter b n) ≡ false
  unfolding build_filter
  is_limit-build_filter = ground arith

  is_limit-build_aggregate : is_limit (build_aggregate b n) ≡ false
  unfolding build_aggregate
  is_limit-build_aggregate = ground arith

  is_limit-build_project : is_limit (build_project b n) ≡ false
  unfolding build_project
  is_limit-build_project = ground arith

  is_limit-build_distinct : is_limit (build_distinct b n) ≡ false
  unfolding build_distinct
  is_limit-build_distinct = ground arith

  is_limit-build_sort : is_limit (build_sort b n) ≡ false
  unfolding build_sort
  is_limit-build_sort = ground arith

is_limit-is_nested_limit : (n : Node) → is_limit n ≡ false → is_nested_limit n ≡ false
is_limit-is_nested_limit no_node h = refl
is_limit-is_nested_limit (node node_limit f i is) h = absurd (cc)
is_limit-is_nested_limit (node k f i is) h = refl

is_nested_limit-build_limit :
    (b : Builder) (n : Node) → is_limit n ≡ false → is_nested_limit (build_limit b n) ≡ false
unfolding build_limit
is_nested_limit-build_limit b n h =
    let g = is_limit-is_nested_limit n h in
    elim (Bool-cases (b.has_limit || b.has_offset)) [ inl e ↦ rw (e, h) | inr e ↦ rw (e, g) ]

is_nested_limit-build_cte :
    (b : Builder) (n : Node) → is_nested_limit n ≡ false → is_nested_limit (build_cte b n) ≡ false
unfolding build_cte
is_nested_limit-build_cte b n h = elim (Bool-cases (is_empty b.ctes)) [
  | inl e ↦ rw (e, h)
  | inr e ↦ rw (e)
]

is_nested_limit-set_lock :
    (l : LockMode) (n : Node) → is_nested_limit (set_lock l n) ≡ is_nested_limit n
is_nested_limit-set_lock l no_node = refl
is_nested_limit-set_lock l (node node_limit f i is) = refl
is_nested_limit-set_lock l (node k f i is) = refl

pub is_nested_limit-build : (b : Builder) → b.kind ≡ kind_select → is_nested_limit (build b) ≡ false
unfolding build build_select
is_nested_limit-build b h =
    let e : build b ≡ build_select b = ground arith in
    let n0 = build_joins (leaf node_scan (record zero_fields { table = b.table })) b.joins in
    let h1 = is_limit-build_filter b n0 (is_limit-build_joins _ b.joins refl) in
    let h2 = is_limit-build_aggregate b (build_filter b n0) h1 in
    let h3 = is_limit-build_project b _ h2 in
    let h4 = is_limit-build_distinct b _ h3 in
    let h5 = is_limit-build_sort b _ h4 in
    ap is_nested_limit e
    ∙ is_nested_limit-set_lock b.lock _
    ∙ is_nested_limit-build_cte b _ (is_nested_limit-build_limit b _ h5)

is_nested_limit-rewrite :
    (n : Node)
    → is_nested_limit
        (order_by_optimization (duplicate_predicate_removal (predicate_simplification n)))
      ≡ is_nested_limit n
unfolding order_by_optimization duplicate_predicate_removal predicate_simplification
is_nested_limit-rewrite n =
    is_nested_limit-walk _ (duplicate_predicate_removal (predicate_simplification n))
    ∙ is_nested_limit-walk _ (predicate_simplification n)
    ∙ is_nested_limit-walk _ n

-- Without a LIMIT directly under a LIMIT, four of the eight passes leave the plan as it is.
pub optimize_lem :
    (n : Node)
    → is_nested_limit n ≡ false
    → optimize n default_pipeline
      ≡ canonical_ordering
          (order_by_optimization (duplicate_predicate_removal (predicate_simplification n)))
unfolding optimize default_pipeline constant_folding join_optimization projection_pruning
optimize_lem n h = ap canonical_ordering (limit_optimization_lem _ (is_nested_limit-rewrite n ∙ h))

-- The whole pipeline on a plan that has no LIMIT directly under its LIMIT rewrites the predicate,
-- the HAVING condition and the order terms that the generator reads back, and nothing else.
pub flatten-optimize :
    (n : Node)
    → is_nested_limit n ≡ false
    → flatten (optimize n default_pipeline) no_parts ≡ optimized_parts (flatten n no_parts)
flatten-optimize n h =
    let n1 = predicate_simplification n in
    let n2 = duplicate_predicate_removal n1 in
    let n3 = order_by_optimization n2 in
    ap (λ m. flatten m no_parts) (optimize_lem n h)
    ∙ flatten-canonical_ordering n3
    ∙ ap (on_parts canonical_and (λ e. e) (λ ts. ts)) (flatten-order_by_optimization n2)
    ∙ ap
        (λ p.
          on_parts canonical_and (λ e. e) (λ ts. ts) (on_parts (λ e. e) (λ e. e) distinct_terms p))
        (flatten-duplicate_predicate_removal n1)
    ∙ ap
        (λ p.
          on_parts canonical_and (λ e. e) (λ ts. ts)
            (on_parts (λ e. e) (λ e. e) distinct_terms (on_parts dedupe_and (λ e. e) (λ ts. ts) p)))
        (flatten-predicate_simplification n)

pub flatten-optimize-parts :
    (b : Builder)
    → b.kind ≡ kind_select
    → flatten (optimize (build b) default_pipeline) no_parts ≡ optimized_parts (parts_of b)
flatten-optimize-parts b h =
    flatten-optimize (build b) (is_nested_limit-build b h) ∙ ap optimized_parts (flatten-build b h)

-- A SELECT that goes through the default pipeline keeps every clause of the query but three: WHERE
-- is simplified, freed of duplicates and put in order, HAVING is simplified, and of the order terms
-- there stay, in order, exactly those on a column that no earlier term is on.
pub flatten-optimize-build :
    (b : Builder)
    → b.kind ≡ kind_select
    → (flatten (optimize (build b) default_pipeline) no_parts ≡ optimized_parts (parts_of b))
      × IsFirstOfEach []
          (parts_of b).order_by
          (flatten (optimize (build b) default_pipeline) no_parts).order_by
flatten-optimize-build b h = (
  flatten-optimize-parts b h,
  subst (IsFirstOfEach [] (parts_of b).order_by)
      (ap (λ p. p.order_by) (sym (flatten-optimize-parts b h)))
      (distinct_terms-IsFirstOfEach (parts_of b).order_by),
)
