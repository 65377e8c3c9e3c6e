-- ===== src/Orm/Stale.antt =====
-- What the plan cache answers for a query that shares its key with one that was compiled before.
use native.Mathlib.Decide.{ℕ_discrete}
use breezeorm.Prelude.{
  ℕ, ◌≡◌, refl, sym, ap, ◌∙◌, List, [], ◌∷◌, ◌++◌, Option, none, some, map, append-nil,
  append_assoc,
}
use breezeorm.Prelude.Int.{ℤ}
use breezeorm.Text.{Bytes}
use breezeorm.Query.{nil, kind_select, op_in, predicate, slice, scalar, Scalar, Value}
use breezeorm.Query.Builder.{Builder, limit, limit_val, new, filter}
use breezeorm.Dialect.{Dialect}
use breezeorm.Planner.{build}
use breezeorm.Planner.Physical.{plan_physical}
use breezeorm.Sqlgen.{ok}
use breezeorm.Sqlgen.Args.{
  ArgCollector, fresh, bind, bind_all, collect_expr, collect_joins, collect_by_op, collected,
  extract_args, extract_args_from_builder,
}
use breezeorm.Optimizer.Binds.{extract_args-optimize}
use breezeorm.Planner.Flatten.{flatten, no_parts}
use breezeorm.Optimizer.{optimize, default_pipeline, simplify_expr, canonical_and, dedupe_and}
use breezeorm.Optimizer.Plan.{flatten-optimize-parts}
use breezeorm.Plugins.{is_cache_safe, run_before_plan}
use breezeorm.Cache.Lru.{peek, find_item}
use breezeorm.Cache.Lru.Refines.{IsValid}
use breezeorm.Cache.Calls.{World, value, Reply, returned, get_or_compute_no_touch}
use breezeorm.Cache.Calls.Alone.{get_or_compute_no_touch_hit, get_or_compute_no_touch_miss}
use breezeorm.Compiler.{CompiledQuery, compile, compiled}
use breezeorm.Compiler.Keys.{pre_stream, upsert_stream, expr_stream}
use breezeorm.Orm.{Db, open_db, pre_hash, compile_cached}

abbrev pub plan_of : (Bytes → ℕ) → Dialect → Builder → CompiledQuery
plan_of hash d b = compiled hash d (optimize (build b) default_pipeline)

-- A shard of the plan cache that is valid and has neither a plan nor a compilation for a key.
abbrev pub IsCold : {E : Type 0} → ℕ → World ℕ CompiledQuery E → Type 0
IsCold key w =
    IsValid ℕ_discrete w.lru
    × (peek ℕ_discrete key w.lru ≡ none)
    × (find_item ℕ_discrete key w.inflight ≡ none)

limit-pre_stream :
    (b : Builder) (m n : ℤ) (name : Bytes)
    → pre_stream (limit b n) name ≡ pre_stream (limit b m) name
unfolding pre_stream limit upsert_stream
limit-pre_stream b m n name = refl

-- `New(table).Where(In(column, vs))`
abbrev pub where_in : Bytes → Bytes → List Scalar → Builder
where_in table column vs =
    filter (new table) (predicate (record { column = column; op = op_in; value = slice vs }))

in-pre_stream :
    (table column : Bytes) (vs ws : List Scalar) (name : Bytes)
    → pre_stream (where_in table column ws) name ≡ pre_stream (where_in table column vs) name
unfolding pre_stream new filter upsert_stream expr_stream
in-pre_stream table column vs ws name = refl

bind_all_lem :
    (vs : List Value) (c : ArgCollector) → bind_all vs c ≡ record c { params = c.params ++ vs }
unfolding bind_all bind
bind_all_lem [] c = ap (λ ps. record c { params = ps }) (sym (append-nil c.params))
bind_all_lem (v ∷ vs) c =
    bind_all_lem vs _ ∙ ap (λ ps. record c { params = ps }) (append_assoc c.params (v ∷ []) vs)

in-extract_args_from_builder :
    (table column : Bytes) (vs : List Scalar)
    → extract_args_from_builder (where_in table column vs) ≡ ok (map scalar vs)
unfolding extract_args_from_builder new filter collect_expr collect_joins collect_by_op
in-extract_args_from_builder table column vs =
    ap (λ c. collected (collect_expr nil c)) (bind_all_lem (map scalar vs) fresh)

in-extract_args :
    (d : Dialect) (table column : Bytes) (vs : List Scalar)
    → extract_args (plan_physical (optimize (build (where_in table column vs)) default_pipeline) d)
      ≡ ok (map scalar vs)
unfolding new filter collect_expr collect_joins collect_by_op simplify_expr canonical_and dedupe_and
in-extract_args d table column vs =
    extract_args-optimize (where_in table column vs) d refl
    ∙ ap (λ c. collected (collect_expr nil c)) (bind_all_lem (map scalar vs) fresh)

module _ (Ctx E Report : Type 0) where
  -- A database with the default passes and no plugins.
  abbrev pub plain : Dialect → Db Ctx E Report
  plain d = open_db d default_pipeline []

  pub compile_cached-plain :
      (hash : Bytes → ℕ) (ctx : Ctx) (d : Dialect) (b : Builder) (w : World ℕ CompiledQuery E)
      → compile_cached hash ctx (plain d) b w
        ≡ get_or_compute_no_touch ℕ_discrete (pre_hash hash b d) (value (plan_of hash d b)) w
  unfolding compile_cached open_db compile run_before_plan is_cache_safe
  compile_cached-plain hash ctx d b w = refl

  -- Of two queries with one key, the second is answered with the plan of the first.
  pub compile_cached-twice :
      (hash : Bytes → ℕ) (ctx : Ctx) (d : Dialect) (b b' : Builder) (w : World ℕ CompiledQuery E)
      → pre_stream b' d.name ≡ pre_stream b d.name
      → IsCold (pre_hash hash b d) w
      → (compile_cached hash ctx (plain d) b' (compile_cached hash ctx (plain d) b w).0).1
        ≡ some (returned (some (plan_of hash d b)))
  unfolding pre_hash
  compile_cached-twice hash ctx d b b' w same (valid, absent, idle) =
      let (answered, cached) =
        get_or_compute_no_touch_miss ℕ_discrete (pre_hash hash b d) w (plan_of hash d b) valid
          absent idle in
      let w' = (compile_cached hash ctx (plain d) b w).0 in
      let there : peek ℕ_discrete (pre_hash hash b' d) w'.lru ≡ some (plan_of hash d b) =
        ap (λ s. peek ℕ_discrete (hash s) w'.lru) same
        ∙ ap
            (λ (r : World ℕ CompiledQuery E × Option (Reply CompiledQuery E)).
              peek ℕ_discrete (pre_hash hash b d) r.0.lru)
            (compile_cached-plain hash ctx d b w)
        ∙ cached in
      ap (λ r. r.1) (compile_cached-plain hash ctx d b' w')
      ∙ get_or_compute_no_touch_hit ℕ_discrete (pre_hash hash b' d) w' (value (plan_of hash d b'))
          (plan_of hash d b) there

  -- A SELECT with the limit m is compiled through a cold cache, and then the same query with the
  -- limit n: the second is answered with a plan whose LIMIT is m.
  pub compile_cached-limit :
      (hash : Bytes → ℕ) (ctx : Ctx) (d : Dialect) (b : Builder) (m n : ℤ)
      (w : World ℕ CompiledQuery E)
      → b.kind ≡ kind_select
      → IsCold (pre_hash hash (limit b m) d) w
      → (cq : CompiledQuery) × ((compile_cached hash ctx
            (plain d)
            (limit b n)
            (compile_cached hash ctx (plain d) (limit b m) w).0).1
          ≡ some (returned (some cq)))
        × ((flatten cq.physical.root no_parts).limit ≡ some m)
  unfolding compiled plan_physical limit limit_val
  compile_cached-limit hash ctx d b m n w h cold = (
    plan_of hash d (limit b m),
    compile_cached-twice hash ctx d (limit b m) (limit b n) w (limit-pre_stream b m n d.name) cold,
    ap (λ p. p.limit) (flatten-optimize-parts (limit b m) h),
  )

  -- A SELECT with WHERE c IN (vs…) is compiled through a cold cache, and then one with (ws…): the
  -- second is answered with a plan that binds vs, while its own arguments are ws.
  pub compile_cached-in :
      (hash : Bytes → ℕ) (ctx : Ctx) (d : Dialect) (table column : Bytes) (vs ws : List Scalar)
      (w : World ℕ CompiledQuery E)
      → IsCold (pre_hash hash (where_in table column vs) d) w
      → (cq : CompiledQuery) × ((compile_cached hash ctx
            (plain d)
            (where_in table column ws)
            (compile_cached hash ctx (plain d) (where_in table column vs) w).0).1
          ≡ some (returned (some cq)))
        × (extract_args cq.physical ≡ ok (map scalar vs))
        × (extract_args_from_builder (where_in table column ws) ≡ ok (map scalar ws))
  unfolding compiled plan_physical
  compile_cached-in hash ctx d table column vs ws w cold = (
    plan_of hash d (where_in table column vs),
    compile_cached-twice hash ctx d (where_in table column vs) (where_in table column ws) w
        (in-pre_stream table column vs ws d.name) cold,
    in-extract_args d table column vs,
    in-extract_args_from_builder table column ws,
  )
