-- ===== src/Planner/Flatten.antt =====
-- `selectParts` and `flatten` of pkg/sqlgen/sqlgen.go: the clauses of a SELECT read back from the
-- plan. A node of the `joins` list is held by the four fields that the generator reads of it.
pub mod Build
use breezeorm.Prelude.{Bool, true, false, List, [], ◌∷◌, Option, none}
use breezeorm.Prelude.Int.{ℤ}
use breezeorm.Text.{Bytes}
use breezeorm.Query.{Join, Expr, nil, SelectExpr, OrderTerm, Cte, LockMode, lock_none}
use breezeorm.Planner.{
  Node, Nodes, no_node, node, no_nodes, also, Fields, NodeKind, node_scan, node_filter,
  node_project, node_join, node_aggregate, node_sort, node_limit, node_distinct, node_cte,
}

pub record SelectParts : Type 0 where
  pub ctes : List Cte
  pub distinct : Bool
  pub projections : List SelectExpr
  pub joins : List Join
  pub filter : Expr
  pub group_by : List Bytes
  pub having : Expr
  pub order_by : List OrderTerm
  pub limit : Option ℤ
  pub offset : Option ℤ
  pub base_table : Bytes
  pub base_alias : Bytes
  pub lock : LockMode

abbrev pub no_parts : SelectParts
no_parts = record {
  ctes = [];
  distinct = false;
  projections = [];
  joins = [];
  filter = nil;
  group_by = [];
  having = nil;
  order_by = [];
  limit = none;
  offset = none;
  base_table = [];
  base_alias = [];
  lock = lock_none;
}

-- `if n.Lock != LockNone { p.lock = n.Lock }`
abbrev pub keep_lock : LockMode → SelectParts → SelectParts
keep_lock lock_none p = p
keep_lock l p = record p { lock = l }

abbrev pub as_join : Fields → Join
as_join f = record { kind = f.join_kind; table = f.table; alias = f.alias; condition = f.join_on }

unfoldable mutual
  pub flatten : Node → SelectParts → SelectParts
  flatten no_node p = p
  flatten (node node_cte f i is) p = flatten i (record (keep_lock f.lock p) { ctes = f.ctes })
  flatten (node node_limit f i is) p =
      flatten i (record (keep_lock f.lock p) { limit = f.limit; offset = f.offset })
  flatten (node node_sort f i is) p =
      flatten i (record (keep_lock f.lock p) { order_by = f.order_by })
  flatten (node node_distinct f i is) p =
      flatten i (record (keep_lock f.lock p) { distinct = true })
  flatten (node node_project f i is) p =
      flatten i (record (keep_lock f.lock p) { projections = f.projections })
  flatten (node node_aggregate f i is) p =
      flatten i (record (keep_lock f.lock p) { group_by = f.group_by; having = f.having })
  flatten (node node_filter f i is) p =
      flatten i (record (keep_lock f.lock p) { filter = f.predicate })
  flatten (node node_join f i is) p =
      flatten_first is
        (record (keep_lock f.lock p) { joins = as_join f ∷ (keep_lock f.lock p).joins })
  flatten (node node_scan f i is) p = record (keep_lock f.lock p) {
    base_table = f.table;
    base_alias = f.alias;
  }
  flatten (node _ f i is) p = keep_lock f.lock p

  -- `flatten(n.Inputs[0], p)` where there is one
  pub flatten_first : Nodes → SelectParts → SelectParts
  flatten_first no_nodes p = p
  flatten_first (also n ns) p = flatten n p
