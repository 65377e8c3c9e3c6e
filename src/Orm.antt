-- ===== src/Orm.antt =====
-- pkg/orm/query.go and db.go: how a query is compiled through the cache and run.
pub mod Stale
pub mod Sends
pub mod Values
pub mod Writes
pub mod Batch
pub mod Chunks
pub mod Opening
pub mod Reads
pub mod Held
pub mod Closing
use breezeorm.Prelude.{ℕ, Bool, true, false, List, Option, none, some, if◌then◌else◌}
use mathlib.Core.Option
use breezeorm.Query.{Value}
use native.Mathlib.Decide.{ℕ_discrete}
use breezeorm.Text.{Bytes}
use breezeorm.Query.Builder.{Builder}
use breezeorm.Dialect.{Dialect}
use breezeorm.Optimizer.{Pass}
use breezeorm.Plugins.{Plugin, Answer, is_cache_safe}
use breezeorm.Cache.Calls.{
  World, Outcome, value, failed, Reply, returned, refused, get_or_compute_no_touch,
}
use breezeorm.Sqlgen.{Error, Result, ok, err, GeneratedSql}
use breezeorm.Sqlgen.Args.{extract_args_from_builder}
use breezeorm.Compiler.{CompiledQuery, compile, compiled_sql}
use breezeorm.Compiler.Keys.{pre_stream}

-- What `DB` is opened with. `compiledCache` is passed along: of it, the shard of the query's key.
pub record Db (Ctx E Report : Type 0) : Type 0 where
  pub dialect : Dialect
  pub passes : List Pass
  pub plugins : List (Plugin Ctx E Report)
  pub plugins_cache_safe : Bool

abbrev pub outcome_of {ℓ} : {E A : Type ℓ} → Answer E A → Outcome A E
outcome_of (Answer.ok a) = value a
outcome_of (Answer.refused e) = failed e

abbrev pub reply_of {ℓ} : {E A : Type ℓ} → Answer E A → Reply A E
reply_of (Answer.ok a) = returned (some a)
reply_of (Answer.refused e) = refused e

-- `compiler.PreHash`
unfoldable pub pre_hash : (Bytes → ℕ) → Builder → Dialect → ℕ
pre_hash hash b d = hash (pre_stream b d.name)

module _ {Ctx E Report : Type 0} where
  -- the part of `Open` that reads the plugins
  unfoldable pub open_db : Dialect → List Pass → List (Plugin Ctx E Report) → Db Ctx E Report
  unfolding is_cache_safe
  open_db d passes chain = record {
    dialect = d;
    passes = passes;
    plugins = chain;
    plugins_cache_safe = is_cache_safe chain;
  }

  unfoldable pub compile_cached :
      (Bytes → ℕ)
      → Ctx
      → Db Ctx E Report
      → Builder
      → World ℕ CompiledQuery E
      → World ℕ CompiledQuery E × Option (Reply CompiledQuery E)
  unfolding get_or_compute_no_touch pre_hash
  compile_cached hash ctx db b w =
      let answer = compile hash ctx b db.dialect db.passes db.plugins in
      if db.plugins_cache_safe
      then get_or_compute_no_touch ℕ_discrete (pre_hash hash b db.dialect) (outcome_of answer) w
      else (w, some (reply_of answer))

-- `Executor.Resolve`: the text of the compiled query with the arguments of this call
unfoldable pub resolve : CompiledQuery → List Value → Result GeneratedSql
unfolding compiled_sql
resolve cq args = elim (compiled_sql cq) [
  | err e ↦ err e
  | ok gen ↦ ok (record { sql = gen.sql; params = args })
]

-- What a query comes to before the database sees it. `crashed` is a panic: the compiler's own, or a nil
-- `*CompiledQuery` that is used.
pub data Sent (E : Type 0) : Type 0 where
  statement : GeneratedSql → Sent E
  compile_failed : E → Sent E
  args_failed sql_failed : Error → Sent E
  crashed : Sent E

module _ {E : Type 0} where
  abbrev pub sent_resolved : Result GeneratedSql → Sent E
  sent_resolved (err e) = sql_failed e
  sent_resolved (ok gen) = statement gen

  abbrev pub sent_with : CompiledQuery → Result (List Value) → Sent E
  sent_with cq (err e) = args_failed e
  sent_with cq (ok args) = sent_resolved (resolve cq args)

  unfoldable pub sent : Builder → Reply CompiledQuery E → Sent E
  unfolding resolve
  sent b (Reply.refused e) = compile_failed e
  sent b Reply.rethrown = crashed
  sent b (returned none) = elim (extract_args_from_builder b) [
    | err e ↦ args_failed e
    | ok args ↦ crashed
  ]
  sent b (returned (some cq)) = sent_with cq (extract_args_from_builder b)

-- `queryAndPlanBuilder` up to the plugins; `none` is a wait for another caller's compilation.
unfoldable pub prepare_query :
    {Ctx E Report : Type 0}
    → (Bytes → ℕ)
    → Ctx
    → Db Ctx E Report
    → Builder
    → World ℕ CompiledQuery E
    → World ℕ CompiledQuery E × Option (Sent E)
unfolding compile_cached sent
prepare_query hash ctx db b w =
    let (w', reply) = compile_cached hash ctx db b w in (w', Option.map (sent b) reply)
