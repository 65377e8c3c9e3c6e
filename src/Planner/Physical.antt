-- ===== src/Planner/Physical.antt =====
-- pkg/planner/physical.go: the decisions that depend on the dialect.
use breezeorm.Prelude.{Bool, true, false, ◌&&◌, ◌||◌, not, ◌==◌}
use breezeorm.Text.{lit, bytes_eq}
use breezeorm.Dialect.{Dialect}
use breezeorm.Planner.{
  Node, Nodes, no_node, node, no_nodes, also, NodeKind, node_limit, node_sort, node_insert,
  node_update, node_upsert, kind_code,
}

pub record PhysicalPlan : Type 0 where
  pub root : Node
  pub dialect : Dialect
  pub use_returning : Bool
  pub needs_synthetic_order_by : Bool

unfoldable mutual
  unfolding kind_code

  pub contains_kind : Node → NodeKind → Bool
  contains_kind no_node k = false
  contains_kind (node k' f input inputs) k =
      kind_code k' == kind_code k || contains_kind input k || contains_kind_any inputs k

  pub contains_kind_any : Nodes → NodeKind → Bool
  contains_kind_any no_nodes k = false
  contains_kind_any (also n ns) k = contains_kind n k || contains_kind_any ns k

-- a write that reports what it wrote
abbrev returns_rows : Node → Bool
returns_rows (node node_insert f i is) = true
returns_rows (node node_update f i is) = true
returns_rows (node node_upsert f i is) = true
returns_rows _ = false

unfoldable pub plan_physical : Node → Dialect → PhysicalPlan
unfolding contains_kind bytes_eq lit
plan_physical root d = record {
  root = root;
  dialect = d;
  use_returning = returns_rows root && d.supports_returning;
  needs_synthetic_order_by =
      bytes_eq d.name (lit "sqlserver")
      && contains_kind root node_limit
      && not (contains_kind root node_sort);
}
