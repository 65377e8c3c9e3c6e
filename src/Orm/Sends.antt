-- ===== src/Orm/Sends.antt =====
-- What the database is sent for queries that are compiled through the cache.
use native.Mathlib.Decide.{ℕ_discrete}
use breezeorm.Prelude.{ℕ, ◌≡◌, ap, ◌∙◌, true, List, some, arith}
use mathlib.Core.Option
use breezeorm.Text.{Bytes}
use breezeorm.Query.{kind_select, Value}
use breezeorm.Query.Builder.{Builder}
use breezeorm.Dialect.{Dialect}
use breezeorm.Planner.{build}
use breezeorm.Planner.Flatten.Build.{parts_of}
use breezeorm.Planner.Physical.{plan_physical}
use breezeorm.Sqlgen.{GeneratedSql, ok}
use breezeorm.Sqlgen.Statement.{generate_sql}
use breezeorm.Sqlgen.Args.{extract_args_from_builder}
use breezeorm.Sqlgen.Matches.Root.{parts_unary}
use breezeorm.Optimizer.{optimize, default_pipeline, simplify_expr}
use breezeorm.Optimizer.Binds.{IsCanonical, extract_args_from_builder-generate_sql}
use breezeorm.Cache.Calls.{World, returned}
use breezeorm.Cache.Calls.Alone.{get_or_compute_no_touch_miss}
use breezeorm.Compiler.{CompiledQuery, compiled, compiled_sql}
use breezeorm.Compiler.Keys.{pre_stream}
use breezeorm.Orm.{
  Db, pre_hash, compile_cached, resolve, statement, sent, sent_with, sent_resolved, prepare_query,
}
use breezeorm.Orm.Stale.{plan_of, plain, IsCold, compile_cached-plain, compile_cached-twice}

resolve-plan_of :
    (hash : Bytes → ℕ) (d : Dialect) (b : Builder) (gen : GeneratedSql) (args : List Value)
    → generate_sql (plan_physical (optimize (build b) default_pipeline) d) ≡ ok gen
    → resolve (plan_of hash d b) args ≡ ok (record { sql = gen.sql; params = args })
unfolding resolve compiled compiled_sql plan_physical
resolve-plan_of hash d b gen args g = ground (arith, g)

sent-plan_of :
    {E : Type 0} (hash : Bytes → ℕ) (d : Dialect) (b b' : Builder) (gen : GeneratedSql)
    (args : List Value)
    → generate_sql (plan_physical (optimize (build b) default_pipeline) d) ≡ ok gen
    → extract_args_from_builder b' ≡ ok args
    → sent {E = E} b' (returned (some (plan_of hash d b)))
      ≡ statement (record { sql = gen.sql; params = args })
unfolding sent
sent-plan_of hash d b b' gen args g a =
    ap (sent_with (plan_of hash d b)) a ∙ ap sent_resolved (resolve-plan_of hash d b gen args g)

module _ (Ctx E Report : Type 0) where
  prepare_query-sent :
      (hash : Bytes → ℕ) (ctx : Ctx) (db : Db Ctx E Report) (b : Builder)
      (w : World ℕ CompiledQuery E) (cq : CompiledQuery)
      → (compile_cached hash ctx db b w).1 ≡ some (returned (some cq))
      → (prepare_query hash ctx db b w).1 ≡ some (sent b (returned (some cq)))
  unfolding prepare_query
  prepare_query-sent hash ctx db b w cq h = ap (Option.map (sent b)) h

  -- On a database with the default passes and no plugins, two queries are prepared through a cold cache, one
  -- after the other. The first is a SELECT that is generated and has one operand in every NOT and, in its
  -- simplified WHERE, operands in the order of their keys without a repeated key; the second has the same
  -- key, and its arguments can be collected. Then the first is sent as the text and the arguments that
  -- were generated, and the second as the text of the first with its own arguments.
  pub prepare_query-statement :
      (hash : Bytes → ℕ) (ctx : Ctx) (d : Dialect) (b b' : Builder) (gen : GeneratedSql)
      (args : List Value) (w : World ℕ CompiledQuery E)
      → b.kind ≡ kind_select
      → IsCanonical (simplify_expr b.filter)
      → parts_unary (parts_of b) ≡ true
      → generate_sql (plan_physical (optimize (build b) default_pipeline) d) ≡ ok gen
      → pre_stream b' d.name ≡ pre_stream b d.name
      → extract_args_from_builder b' ≡ ok args
      → IsCold (pre_hash hash b d) w
      → ((prepare_query hash ctx (plain Ctx E Report d) b w).1 ≡ some (statement gen))
        × ((prepare_query hash ctx
              (plain Ctx E Report d)
              b'
              (prepare_query hash ctx (plain Ctx E Report d) b w).0).1
            ≡ some (statement (record { sql = gen.sql; params = args })))
  unfolding prepare_query
  prepare_query-statement hash ctx d b b' gen args w select canonical unary g same own cold =
      let (valid, absent, idle) = cold in
      let answered =
        (get_or_compute_no_touch_miss ℕ_discrete (pre_hash hash b d) w (plan_of hash d b) valid
          absent idle).0 in
      let first = ap (λ r. r.1) (compile_cached-plain Ctx E Report hash ctx d b w) ∙ answered in
      let binds = extract_args_from_builder-generate_sql b d gen select canonical unary g in
      (
        prepare_query-sent hash ctx (plain Ctx E Report d) b w (plan_of hash d b) first
            ∙ ap some (sent-plan_of hash d b b gen gen.params g binds),
        prepare_query-sent hash ctx (plain Ctx E Report d) b' _ (plan_of hash d b)
              (compile_cached-twice Ctx E Report hash ctx d b b' w same cold)
            ∙ ap some (sent-plan_of hash d b b' gen args g own),
      )
