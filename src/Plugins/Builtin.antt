-- ===== src/Plugins/Builtin.antt =====
-- The plan hooks of the plugins that come with the library (pkg/plugins/softdelete.go, builtin.go).
use breezeorm.Prelude.{
  Bool, true, false, List, [], ◌∷◌, ◌≡◌, refl, ap, ◌∙◌, if◌then◌else◌, is_empty, Option, some,
}
use breezeorm.Text.{Bytes, bytes_eq}
use breezeorm.Query.{Predicate, op_is_null, scalar, null, Value}
use breezeorm.Planner.{Node, Nodes, no_node, node, no_nodes, also, Fields, NodeKind, node_scan}
use breezeorm.Plugins.{Plugin, ok, run_before_plan}

pub record SoftDelete : Type 0 where
  pub column : Bytes
  pub tables : List Bytes

abbrev has_table : Bytes → List Bytes → Bool
has_table t [] = false
has_table t (u ∷ us) = let rest = has_table t us in if bytes_eq t u then true else rest

unfoldable pub applies : SoftDelete → Bytes → Bool
applies s table = if is_empty s.tables then true else has_table table s.tables

-- The condition that the walk makes for a table that the plugin applies to, and then drops: the
-- source assigns it to `_`.
unfoldable pub scan_condition : SoftDelete → NodeKind → Fields → Option Predicate
unfolding applies
scan_condition s node_scan f =
    if applies s f.table
    then some (record { column = s.column; op = op_is_null; value = scalar null })
    else Option.none
scan_condition s k f = Option.none

-- `let pred = …` stands for the assignment to `_`.
unfoldable mutual
  unfolding scan_condition

  pub inject_soft_delete_filter : SoftDelete → Node → Node
  inject_soft_delete_filter s no_node = no_node
  inject_soft_delete_filter s (node k f input inputs) =
      let pred = scan_condition s k f in
      node k f (inject_soft_delete_filter s input) (inject_soft_delete_filters s inputs)

  pub inject_soft_delete_filters : SoftDelete → Nodes → Nodes
  inject_soft_delete_filters s no_nodes = no_nodes
  inject_soft_delete_filters s (also n ns) =
      also (inject_soft_delete_filter s n) (inject_soft_delete_filters s ns)

module _ {Ctx E Report : Type 0} where
  -- the hooks of `NoopPlugin`
  abbrev pub noop : Plugin Ctx E Report
  noop = record {
    before_plan = λ ctx lp. ok lp;
    before_execute = λ ctx sql params. ok ctx;
    after_execute = λ ctx sql nanos e. [];
    request_scoped = false;
  }

  unfoldable pub soft_delete : SoftDelete → Plugin Ctx E Report
  unfolding inject_soft_delete_filter
  soft_delete s = record noop { before_plan = λ ctx lp. ok (inject_soft_delete_filter s lp) }

  -- `MultiTenancy`, whose `TenantIDFunc` is called and its answer dropped
  unfoldable pub multi_tenancy : (Ctx → Option Value) → Plugin Ctx E Report
  multi_tenancy tenant = record noop {
    before_plan = λ ctx lp. let id = tenant ctx in ok lp;
    request_scoped = true;
  }

mutual
  unfolding inject_soft_delete_filter inject_soft_delete_filters

  inject_lem : (s : SoftDelete) (n : Node) → inject_soft_delete_filter s n ≡ n
  inject_lem s no_node = refl
  inject_lem s (node k f input inputs) =
      ap (λ i. node k f i (inject_soft_delete_filters s inputs)) (inject_lem s input)
      ∙ ap (node k f input) (inject_all_lem s inputs)

  inject_all_lem : (s : SoftDelete) (ns : Nodes) → inject_soft_delete_filters s ns ≡ ns
  inject_all_lem s no_nodes = refl
  inject_all_lem s (also n ns) =
      ap (λ m. also m (inject_soft_delete_filters s ns)) (inject_lem s n)
      ∙ ap (also n) (inject_all_lem s ns)

-- `SoftDelete` and `MultiTenancy`, alone or in either order, leave every plan as it is: no condition
-- on deleted rows or on a tenant reaches the query.
pub soft_delete-multi_tenancy :
    {Ctx E Report : Type 0} (s : SoftDelete) (tenant : Ctx → Option Value) (ctx : Ctx) (lp : Node)
    (chain : List (Plugin Ctx E Report))
    → (run_before_plan (soft_delete s ∷ multi_tenancy tenant ∷ chain) ctx lp
        ≡ run_before_plan chain ctx lp)
      × (run_before_plan (multi_tenancy tenant ∷ soft_delete s ∷ chain) ctx lp
          ≡ run_before_plan chain ctx lp)
unfolding soft_delete multi_tenancy run_before_plan
soft_delete-multi_tenancy s tenant ctx lp chain = (
  ap (run_before_plan chain ctx) (inject_lem s lp),
  ap (run_before_plan chain ctx) (inject_lem s lp),
)
