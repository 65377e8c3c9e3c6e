-- ===== src/Tests/Orm.antt =====
-- The compiler's keys and the plan cache on small queries.
use native.Mathlib.Decide.{ℕ_discrete}
use breezeorm.Prelude.{ℕ, ◌≡◌, refl, List, [], ◌∷◌, none, some, length, map}
use breezeorm.Prelude.Int.{pos}
use breezeorm.Text.{lit}
use breezeorm.Query.{scalar, Scalar, int}
use breezeorm.Query.Builder.{Builder, limit, new}
use breezeorm.Dialect.Postgres.{postgres}
use breezeorm.Planner.{build}
use breezeorm.Planner.Flatten.{flatten, no_parts}
use breezeorm.Plugins.{Plugin, run_before_plan}
use breezeorm.Plugins.Builtin.{SoftDelete, soft_delete, multi_tenancy, soft_delete-multi_tenancy}
use breezeorm.Sqlgen.{ok}
use breezeorm.Sqlgen.Args.{extract_args, extract_args_from_builder}
use breezeorm.Cache.Lru
use breezeorm.Cache.Lru.{new_lru}
use breezeorm.Cache.Lru.Operations.{new_lru-IsValid}
use breezeorm.Cache.Calls.{World, returned}
use breezeorm.Cache.Calls.SingleFlight.{start}
use breezeorm.Compiler.{CompiledQuery}
use breezeorm.Compiler.Keys.{pre_stream}
use breezeorm.Compiler.Shape.{blank, pre_stream-blank}
use breezeorm.Orm.{compile_cached}
use breezeorm.Orm.Stale.{plain, IsCold, where_in, compile_cached-limit, compile_cached-in}
use breezeorm.Tests.Data.{people}

pre_stream-blank_example :
    pre_stream (blank people) (lit "postgres") ≡ pre_stream people (lit "postgres")
pre_stream-blank_example = pre_stream-blank people (lit "postgres")

abbrev pub cold : World ℕ CompiledQuery ℕ
cold = start ℕ_discrete (pos 4)

pub cold-IsCold : (key : ℕ) → IsCold key cold
unfolding start new_lru Lru.peek Lru.find_item
cold-IsCold key = ((new_lru-IsValid ℕ_discrete (pos 4)).0, refl, refl)

abbrev items : Builder
items = new (lit "items")

compile_cached-limit_example :
    (cq : CompiledQuery) × ((compile_cached length 0
        (plain ℕ ℕ ℕ postgres)
        (limit items (pos 10))
        (compile_cached length 0 (plain ℕ ℕ ℕ postgres) (limit items (pos 5)) cold).0).1
      ≡ some (returned (some cq)))
    × ((flatten cq.physical.root no_parts).limit ≡ some (pos 5))
unfolding new
compile_cached-limit_example =
    compile_cached-limit ℕ ℕ ℕ length 0 postgres items (pos 5) (pos 10) cold refl (cold-IsCold _)

abbrev two_ids : List Scalar
two_ids = int (pos 1) ∷ int (pos 2) ∷ []

abbrev three_ids : List Scalar
three_ids = int (pos 1) ∷ int (pos 2) ∷ int (pos 3) ∷ []

compile_cached-in_example :
    (cq : CompiledQuery) × ((compile_cached length 0
        (plain ℕ ℕ ℕ postgres)
        (where_in (lit "items") (lit "id") three_ids)
        (compile_cached length 0
          (plain ℕ ℕ ℕ postgres)
          (where_in (lit "items") (lit "id") two_ids)
          cold).0).1
      ≡ some (returned (some cq)))
    × (extract_args cq.physical ≡ ok (map scalar two_ids))
    × (extract_args_from_builder (where_in (lit "items") (lit "id") three_ids)
        ≡ ok (map scalar three_ids))
compile_cached-in_example =
    compile_cached-in ℕ ℕ ℕ length 0 postgres (lit "items") (lit "id") two_ids three_ids cold
      (cold-IsCold _)

abbrev deleted_at : SoftDelete
deleted_at = record { column = lit "deleted_at"; tables = [] }

abbrev no_plugins : List (Plugin ℕ ℕ ℕ)
no_plugins = []

soft_delete-multi_tenancy_example :
    (run_before_plan
        (soft_delete deleted_at ∷ multi_tenancy (λ ctx. none) ∷ no_plugins)
        0
        (build items)
      ≡ run_before_plan no_plugins 0 (build items))
    × (run_before_plan
          (multi_tenancy (λ ctx. none) ∷ soft_delete deleted_at ∷ no_plugins)
          0
          (build items)
        ≡ run_before_plan no_plugins 0 (build items))
soft_delete-multi_tenancy_example =
    soft_delete-multi_tenancy deleted_at (λ ctx. none) 0 (build items) no_plugins
