-- ===== src/Planner/Flatten/Build.antt =====
-- Flattening the plan that `build` makes gives back the clauses of the query.
use breezeorm.Prelude.{◌≡◌, refl, ap, ◌∙◌, arith, List, [], ◌∷◌, ◌++◌, none, append-nil, false}
use breezeorm.Query.{Join, LockMode, lock_none, kind_select, nil}
use breezeorm.Query.Builder.{Builder, limit_val, offset_val}
use breezeorm.Planner.{
  Node, node, no_node, zero_fields, leaf, node_scan, build_joins, build_filter, build_aggregate,
  build_project, build_distinct, build_sort, build_limit, build_cte, build_select, build, set_lock,
}
use breezeorm.Planner.Flatten.{SelectParts, no_parts, keep_lock, flatten}

-- What a query says, as the parts that the generator reads.
abbrev pub parts_of : Builder → SelectParts
parts_of b = record {
  ctes = b.ctes;
  distinct = b.distinct;
  projections = b.selects;
  joins = b.joins;
  filter = b.filter;
  group_by = b.group_by;
  having = b.having;
  order_by = b.order_by;
  limit = limit_val b;
  offset = offset_val b;
  base_table = b.table;
  base_alias = [];
  lock = b.lock;
}

flatten-build_joins :
    (root : Node) (js : List Join) (p : SelectParts)
    → flatten (build_joins root js) p ≡ flatten root (record p { joins = js ++ p.joins })
unfolding build_joins flatten
flatten-build_joins root [] p = refl
flatten-build_joins root (j ∷ js) p = flatten-build_joins _ js p

module _ (b : Builder) (root : Node) (p : SelectParts) where
  flatten-build_filter :
      flatten (build_filter b root) (record p { filter = nil })
      ≡ flatten root (record p { filter = b.filter })
  unfolding build_filter flatten
  flatten-build_filter = ground arith

  flatten-build_aggregate :
      flatten (build_aggregate b root) (record p { group_by = []; having = nil })
      ≡ flatten root (record p { group_by = b.group_by; having = b.having })
  unfolding build_aggregate flatten
  flatten-build_aggregate = ground arith

  flatten-build_project :
      flatten (build_project b root) (record p { projections = [] })
      ≡ flatten root (record p { projections = b.selects })
  unfolding build_project flatten
  flatten-build_project = ground arith

  flatten-build_distinct :
      flatten (build_distinct b root) (record p { distinct = false })
      ≡ flatten root (record p { distinct = b.distinct })
  unfolding build_distinct flatten
  flatten-build_distinct = ground arith

  flatten-build_sort :
      flatten (build_sort b root) (record p { order_by = [] })
      ≡ flatten root (record p { order_by = b.order_by })
  unfolding build_sort flatten
  flatten-build_sort = ground arith

  flatten-build_limit :
      flatten (build_limit b root) (record p { limit = none; offset = none })
      ≡ flatten root (record p { limit = limit_val b; offset = offset_val b })
  unfolding build_limit flatten
  flatten-build_limit = ground arith

  flatten-build_cte :
      flatten (build_cte b root) (record p { ctes = [] })
      ≡ flatten root (record p { ctes = b.ctes })
  unfolding build_cte flatten
  flatten-build_cte = ground arith

-- A node with no lock of its own.
abbrev IsUnlocked : Node → Type 0
IsUnlocked no_node = ⊥
IsUnlocked (node k f i is) = f.lock ≡ lock_none

build_joins-IsUnlocked :
    (root : Node) (js : List Join) → IsUnlocked root → IsUnlocked (build_joins root js)
unfolding build_joins
build_joins-IsUnlocked root [] h = h
build_joins-IsUnlocked root (j ∷ js) h = build_joins-IsUnlocked _ js refl

module _ (b : Builder) (root : Node) (h : IsUnlocked root) where
  build_filter-IsUnlocked : IsUnlocked (build_filter b root)
  unfolding build_filter
  build_filter-IsUnlocked = ground arith

  build_aggregate-IsUnlocked : IsUnlocked (build_aggregate b root)
  unfolding build_aggregate
  build_aggregate-IsUnlocked = ground arith

  build_project-IsUnlocked : IsUnlocked (build_project b root)
  unfolding build_project
  build_project-IsUnlocked = ground arith

  build_distinct-IsUnlocked : IsUnlocked (build_distinct b root)
  unfolding build_distinct
  build_distinct-IsUnlocked = ground arith

  build_sort-IsUnlocked : IsUnlocked (build_sort b root)
  unfolding build_sort
  build_sort-IsUnlocked = ground arith

  build_limit-IsUnlocked : IsUnlocked (build_limit b root)
  unfolding build_limit
  build_limit-IsUnlocked = ground arith

  build_cte-IsUnlocked : IsUnlocked (build_cte b root)
  unfolding build_cte
  build_cte-IsUnlocked = ground arith

keep_lock-no_parts : (l : LockMode) → keep_lock l no_parts ≡ record no_parts { lock = l }
keep_lock-no_parts l = ground arith

flatten-set_lock :
    (l : LockMode) (n : Node) (p : SelectParts)
    → IsUnlocked n
    → flatten (set_lock l n) p ≡ flatten n (keep_lock l p)
unfolding flatten
flatten-set_lock l no_node p h = elim h [ ]
flatten-set_lock l (node node_scan f i is) p h = ground arith
flatten-set_lock l (node k f i is) p h = rw (h, flatten)

flatten-build_select : (b : Builder) → flatten (build_select b) no_parts ≡ parts_of b
unfolding build_select flatten
flatten-build_select b =
    let n0 = build_joins (leaf node_scan (record zero_fields { table = b.table })) b.joins in
    let n1 = build_filter b n0 in
    let n2 = build_aggregate b n1 in
    let n3 = build_project b n2 in
    let n4 = build_distinct b n3 in
    let n5 = build_sort b n4 in
    let n6 = build_limit b n5 in
    let u1 = build_filter-IsUnlocked b n0 (build_joins-IsUnlocked _ b.joins refl) in
    let u3 = build_project-IsUnlocked b n2 (build_aggregate-IsUnlocked b n1 u1) in
    let u5 = build_sort-IsUnlocked b n4 (build_distinct-IsUnlocked b n3 u3) in
    let u7 = build_cte-IsUnlocked b n6 (build_limit-IsUnlocked b n5 u5) in
    let p0 : SelectParts = record no_parts { lock = b.lock } in
    let p1 : SelectParts = record p0 { ctes = b.ctes } in
    let p2 : SelectParts = record p1 { limit = limit_val b; offset = offset_val b } in
    let p3 : SelectParts = record p2 { order_by = b.order_by } in
    let p4 : SelectParts = record p3 { distinct = b.distinct } in
    let p5 : SelectParts = record p4 { projections = b.selects } in
    let p6 : SelectParts = record p5 { group_by = b.group_by; having = b.having } in
    let p7 : SelectParts = record p6 { filter = b.filter } in
    flatten-set_lock b.lock (build_cte b n6) no_parts u7
    ∙ ap (flatten (build_cte b n6)) (keep_lock-no_parts b.lock)
    ∙ flatten-build_cte b n6 p0
    ∙ flatten-build_limit b n5 p1
    ∙ flatten-build_sort b n4 p2
    ∙ flatten-build_distinct b n3 p3
    ∙ flatten-build_project b n2 p4
    ∙ flatten-build_aggregate b n1 p5
    ∙ flatten-build_filter b n0 p6
    ∙ flatten-build_joins _ b.joins p7
    ∙ ap (λ js. record (parts_of b) { joins = js }) (append-nil b.joins)

-- No clause of a SELECT is lost, changed or reordered between the query and the generator.
pub flatten-build : (b : Builder) → b.kind ≡ kind_select → flatten (build b) no_parts ≡ parts_of b
unfolding build
flatten-build b h =
    let e : build b ≡ build_select b = ground arith in
    ap (λ n. flatten n no_parts) e ∙ flatten-build_select b
