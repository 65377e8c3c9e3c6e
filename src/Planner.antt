-- ===== src/Planner.antt =====
-- pkg/planner: the logical plan (logical.go) that is built from a query, and the physical plan
-- (physical.go). A `*LogicalNode` is `no_node` or a node with its `Input` and its `Inputs`; the
-- other fields of the struct are the record `Fields`.
pub mod Physical
pub mod Flatten
use breezeorm.Prelude.{
  ℕ, Bool, true, false, ◌&&◌, ◌||◌, not, List, [], ◌∷◌, Option, none, some, if◌then◌else◌, is_empty,
}
use breezeorm.Prelude.Int.{ℤ}
use breezeorm.Text.{Bytes}
use breezeorm.Query.{
  Expr, nil, is_nil, SelectExpr, Join, JoinKind, join_inner, OrderTerm, Cte, Assignment, LockMode,
  lock_none, kind_select, kind_insert, kind_update, kind_delete, kind_upsert,
}
use breezeorm.Query.Builder.{Builder, limit_val, offset_val}

pub data NodeKind : Type 0 where
  node_scan node_filter node_project node_join node_aggregate node_sort node_limit : NodeKind
  node_distinct node_union node_cte node_insert node_update node_delete node_upsert : NodeKind

-- `byte(n.Kind)`: the constants count up from zero
unfoldable pub kind_code : NodeKind → ℕ
kind_code node_scan = 0
kind_code node_filter = 1
kind_code node_project = 2
kind_code node_join = 3
kind_code node_aggregate = 4
kind_code node_sort = 5
kind_code node_limit = 6
kind_code node_distinct = 7
kind_code node_union = 8
kind_code node_cte = 9
kind_code node_insert = 10
kind_code node_update = 11
kind_code node_delete = 12
kind_code node_upsert = 13

-- The zero value of `JoinKind` is the empty string, which no node but a join ever shows.
pub record Fields : Type 0 where
  pub table : Bytes
  pub alias : Bytes
  pub predicate : Expr
  pub projections : List SelectExpr
  pub join_kind : JoinKind
  pub join_on : Expr
  pub group_by : List Bytes
  pub having : Expr
  pub order_by : List OrderTerm
  pub limit : Option ℤ
  pub offset : Option ℤ
  pub ctes : List Cte
  pub assignments : List Assignment
  pub lock : LockMode

mutual
  pub data Node : Type 0 where
    no_node : Node
    node : NodeKind → Fields → Node → Nodes → Node

  pub data Nodes : Type 0 where
    no_nodes : Nodes
    also : Node → Nodes → Nodes

-- `&LogicalNode{}`: the zero value of every field
abbrev pub zero_fields : Fields
zero_fields = record {
  table = [];
  alias = [];
  predicate = nil;
  projections = [];
  join_kind = join_inner;
  join_on = nil;
  group_by = [];
  having = nil;
  order_by = [];
  limit = none;
  offset = none;
  ctes = [];
  assignments = [];
  lock = lock_none;
}

abbrev pub leaf : NodeKind → Fields → Node
leaf k f = node k f no_node no_nodes

-- An operator over one input.
abbrev pub over : NodeKind → Fields → Node → Node
over k f n = node k f n no_nodes

-- the loop over `b.Joins()`
unfoldable pub build_joins : Node → List Join → Node
build_joins root [] = root
build_joins root (j ∷ js) =
    build_joins
      (node node_join
        (record zero_fields {
          join_kind = j.kind;
          join_on = j.condition;
          table = j.table;
          alias = j.alias;
        })
        no_node (also root no_nodes))
      js

abbrev pub set_lock : LockMode → Node → Node
set_lock l no_node = no_node
set_lock l (node k f i is) = node k (record f { lock = l }) i is

-- One function for each `if` of the SELECT case of `Build`, in its order.
unfoldable pub build_filter : Builder → Node → Node
build_filter b root =
    if is_nil b.filter
    then root
    else over node_filter (record zero_fields { predicate = b.filter }) root

unfoldable pub build_aggregate : Builder → Node → Node
build_aggregate b root =
    if not (is_empty b.group_by) || not (is_nil b.having)
    then over node_aggregate (record zero_fields { group_by = b.group_by; having = b.having }) root
    else root

unfoldable pub build_project : Builder → Node → Node
build_project b root =
    if is_empty b.selects
    then root
    else over node_project (record zero_fields { projections = b.selects }) root

unfoldable pub build_distinct : Builder → Node → Node
build_distinct b root = if b.distinct then over node_distinct zero_fields root else root

unfoldable pub build_sort : Builder → Node → Node
build_sort b root =
    if is_empty b.order_by
    then root
    else over node_sort (record zero_fields { order_by = b.order_by }) root

unfoldable pub build_limit : Builder → Node → Node
unfolding limit_val offset_val
build_limit b root =
    if b.has_limit || b.has_offset
    then over node_limit (record zero_fields { limit = limit_val b; offset = offset_val b }) root
    else root

unfoldable pub build_cte : Builder → Node → Node
build_cte b root =
    if is_empty b.ctes then root else over node_cte (record zero_fields { ctes = b.ctes }) root

unfoldable pub build_select : Builder → Node
unfolding build_joins build_filter build_aggregate build_project build_distinct build_sort
    build_limit build_cte
build_select b =
    let scan = build_joins (leaf node_scan (record zero_fields { table = b.table })) b.joins in
    let rows = build_project b (build_aggregate b (build_filter b scan)) in
    set_lock b.lock (build_cte b (build_limit b (build_sort b (build_distinct b rows))))

-- `Build`
unfoldable pub build : Builder → Node
build b = elim b.kind [
  | kind_insert ↦
      leaf node_insert (record zero_fields { table = b.table; assignments = b.assignments })
  | kind_update ↦
      leaf node_update
        (record zero_fields { table = b.table; assignments = b.assignments; predicate = b.filter })
  | kind_delete ↦ leaf node_delete (record zero_fields { table = b.table; predicate = b.filter })
  | kind_upsert ↦
      leaf node_upsert (record zero_fields { table = b.table; assignments = b.assignments })
  | kind_select ↦ build_select b
]
