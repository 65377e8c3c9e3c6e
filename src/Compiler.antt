-- ===== src/Compiler.antt =====
-- pkg/compiler/compiler.go: the pipeline from a query to a compiled query. The text of `SQL()` is
-- made once and kept, which changes nothing of what it is. `hash` is `maphash` under the process's
-- seed, a function from the bytes written to `uint64`.
pub mod Keys
pub mod Shape
use breezeorm.Prelude.{ℕ, List, Option, none, some}
use breezeorm.Prelude.Int.{ℤ, pos}
use breezeorm.Text.{Bytes}
use breezeorm.Query.Builder.{Builder}
use breezeorm.Dialect.{Dialect}
use breezeorm.Planner.{Node, no_node, node, node_limit, build}
use breezeorm.Planner.Physical.{PhysicalPlan, plan_physical}
use breezeorm.Sqlgen.{Result, GeneratedSql}
use breezeorm.Sqlgen.Statement.{generate_sql}
use breezeorm.Optimizer.{Pass, optimize}
use breezeorm.Plugins.{Plugin, Answer, ok, refused, run_before_plan}
use breezeorm.Compiler.Keys.{structural_stream}

pub record CompiledQuery : Type 0 where
  pub physical : PhysicalPlan
  pub cache_key : ℕ
  pub limit_hint : ℤ

-- `SQL()`, with the arguments that the plan itself holds
unfoldable pub compiled_sql : CompiledQuery → Result GeneratedSql
compiled_sql cq = generate_sql cq.physical

-- `extractLimitHint`: the first LIMIT node with a limit, down the inputs
unfoldable pub limit_hint_of : Node → ℤ
limit_hint_of no_node = pos 0
limit_hint_of (node node_limit f input inputs) =
    let below = limit_hint_of input in elim f.limit [ some n ↦ n | none ↦ below ]
limit_hint_of (node k f input inputs) = limit_hint_of input

module _ (hash : Bytes → ℕ) where
  unfoldable pub compiled : Dialect → Node → CompiledQuery
  compiled d lp = record {
    physical = plan_physical lp d;
    cache_key = hash (structural_stream lp d.name);
    limit_hint = limit_hint_of lp;
  }

  -- `Compile`
  unfoldable pub compile :
      {Ctx E Report : Type 0}
      → Ctx
      → Builder
      → Dialect
      → List Pass
      → List (Plugin Ctx E Report)
      → Answer E CompiledQuery
  unfolding compiled
  compile ctx b d passes chain = elim (run_before_plan chain ctx (build b)) [
    | refused e ↦ refused e
    | ok lp ↦ ok (compiled d (optimize lp passes))
  ]
