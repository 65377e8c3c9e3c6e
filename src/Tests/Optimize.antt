-- ===== src/Tests/Optimize.antt =====
-- The optimizer's theorems on small queries.
use breezeorm.Prelude.{ℕ, ◌≡◌, refl, List, [], ◌∷◌, some, length}
use breezeorm.Prelude.Int.{pos}
use breezeorm.Text.{lit, split}
use breezeorm.Query.{Value, scalar, int, text}
use breezeorm.Query.Eval.{Leaves, eval, unknown, no_t}
use breezeorm.Query.Builder.{Builder, new, filter}
use breezeorm.Dialect.Postgres
use breezeorm.Dialect.Postgres.{postgres}
use breezeorm.Dialect.Mysql
use breezeorm.Dialect.Sqlite
use breezeorm.Dialect.Sqlserver
use breezeorm.Dialect.Identifier.Quoting.{read_quoted, outside, quote_identifier-read_quoted}
use breezeorm.Planner.{build}
use breezeorm.Planner.Physical.{plan_physical}
use breezeorm.Planner.Flatten.{flatten, no_parts}
use breezeorm.Planner.Flatten.Build.{parts_of}
use breezeorm.Sqlgen.{ok, GeneratedSql}
use breezeorm.Sqlgen.Statement.{generate_sql}
use breezeorm.Sqlgen.Args.{extract_args, extract_args_from_builder}
use breezeorm.Optimizer
use breezeorm.Optimizer.{optimize, default_pipeline, simplify_expr, sort_exprs}
use breezeorm.Optimizer.Keys
use breezeorm.Optimizer.Order.{IsSorted, sort_exprs-IsSorted}
use mathlib.Core.List.{Permᴰ}
use breezeorm.Optimizer.Terms.{IsFirstOfEach}
use breezeorm.Optimizer.Plan.{optimized_parts, flatten-optimize-build}
use breezeorm.Optimizer.Refines.{eval-optimize}
use breezeorm.Optimizer.Binds.{extract_args_from_builder-generate_sql}
use breezeorm.Optimizer.Swapped.{equals, where_both, extract_args-swapped}
use breezeorm.Query.{predicate, op_gt}
use breezeorm.Compiler.{CompiledQuery}
use breezeorm.Compiler.Keys.{pre_stream}
use breezeorm.Orm.{prepare_query, statement}
use breezeorm.Orm.Stale.{plain}
use breezeorm.Orm.Sends.{prepare_query-statement}
use breezeorm.Tests.Orm.{cold, cold-IsCold}
use breezeorm.Tests.Data.{age_test, name_test, people, people_sql, opened}

-- The passes, on top of what a run of the generator computes with.
opened_passes : Unit {0}
unfolding opened Keys.sprint Keys.sprint_items Keys.sprint_value Keys.items_key Keys.params_key
    Keys.value_identity_key Keys.value_kind_key Keys.expr_identity_key Keys.expr_key Optimizer.walk
    Optimizer.collapse Optimizer.simplify_expr Optimizer.predicate_simplification
    Optimizer.constant_folding Optimizer.join_optimization Optimizer.projection_pruning
    Optimizer.has_key Optimizer.dedupe Optimizer.dedupe_and Optimizer.duplicate_predicate_removal
    Optimizer.dedupe_terms Optimizer.distinct_terms Optimizer.order_by_optimization
    Optimizer.tighter Optimizer.merge_limits Optimizer.limit_optimization Optimizer.sift
    Optimizer.sort_from Optimizer.sort_exprs Optimizer.canonical_and Optimizer.canonical_ordering
    Optimizer.default_pipeline Optimizer.optimize Optimizer.simplify_all
opened_passes = tt

-- `New("people").Where(age > 30).Where(age > 30)`
abbrev twice : Builder
twice = filter (filter (new (lit "people")) age_test) age_test

-- On a row whose age is NULL.
abbrev null_age : Leaves
null_age = record {
  of_predicate = λ p. unknown;
  of_raw = λ sql params. no_t;
  of_subquery = λ k. no_t;
}

eval-optimize_example :
    (eval null_age (flatten (optimize (build twice) default_pipeline) no_parts).filter
      ≡ eval null_age twice.filter)
    × (eval null_age (flatten (optimize (build twice) default_pipeline) no_parts).having
        ≡ eval null_age twice.having)
unfolding opened_passes eval
eval-optimize_example = eval-optimize null_age twice refl (((λ h. refl), tt), (tt, tt))

flatten-optimize-build_example :
    (flatten (optimize (build people) default_pipeline) no_parts
      ≡ optimized_parts (parts_of people))
    × IsFirstOfEach []
        (parts_of people).order_by
        (flatten (optimize (build people) default_pipeline) no_parts).order_by
unfolding opened
flatten-optimize-build_example = flatten-optimize-build people refl

sort_exprs-IsSorted_example :
    IsSorted (sort_exprs (name_test ∷ age_test ∷ []))
    × Permᴰ (sort_exprs (name_test ∷ age_test ∷ [])) (name_test ∷ age_test ∷ [])
sort_exprs-IsSorted_example = sort_exprs-IsSorted (name_test ∷ age_test ∷ [])

generate_sql_optimized :
    generate_sql (plan_physical (optimize (build people) default_pipeline) postgres) ≡ ok people_sql
unfolding opened_passes
generate_sql_optimized = refl

extract_args_from_builder-generate_sql_example :
    extract_args_from_builder people ≡ ok people_sql.params
unfolding opened_passes breezeorm.Sqlgen.Matches.unary_nots
extract_args_from_builder-generate_sql_example =
    extract_args_from_builder-generate_sql people postgres people_sql refl
      ((refl, (tt, tt)), (refl, (refl, tt))) refl generate_sql_optimized

abbrev first_value : Value
first_value = scalar (int (pos 2))

abbrev second_value : Value
second_value = scalar (int (pos 1))

extract_args-swapped_example :
    (extract_args (
        plan_physical
          (optimize
            (build
              (where_both (lit "t") (equals (lit "b") first_value) (equals (lit "a") second_value)))
            default_pipeline)
          postgres)
      ≡ ok (second_value ∷ first_value ∷ []))
    × (extract_args_from_builder
          (where_both (lit "t") (equals (lit "b") first_value) (equals (lit "a") second_value))
        ≡ ok (first_value ∷ second_value ∷ []))
unfolding opened_passes
extract_args-swapped_example =
    extract_args-swapped (lit "t") (lit "b") (lit "a") first_value second_value refl refl postgres

quote_identifier-read_quoted_example :
    (read_quoted b'"' b'"' outside (Postgres.quote_identifier (lit "a\"b.c"))
      ≡ some (split b'.' (lit "a\"b.c")))
    × (read_quoted b'`' b'`' outside (Mysql.quote_identifier (lit "a\"b.c"))
        ≡ some (split b'.' (lit "a\"b.c")))
    × (read_quoted b'"' b'"' outside (Sqlite.quote_identifier (lit "a\"b.c"))
        ≡ some (split b'.' (lit "a\"b.c")))
    × (read_quoted b'[' b']' outside (Sqlserver.quote_identifier (lit "a\"b.c"))
        ≡ some (split b'.' (lit "a\"b.c")))
quote_identifier-read_quoted_example = quote_identifier-read_quoted (lit "a\"b.c")

-- `people`, for another age
abbrev older_people : Builder
older_people = record people {
  filter =
      (filter
        (filter (new (lit "people"))
          (predicate (record { column = lit "age"; op = op_gt; value = scalar (int (pos 60)) })))
        name_test).filter;
}

abbrev older_args : List Value
older_args =
    scalar (int (pos 7))
    ∷ scalar (int (pos 60))
    ∷ scalar (text (lit "a"))
    ∷ scalar (text (lit "b"))
    ∷ []

prepare_query-statement_example :
    ((prepare_query length 0 (plain ℕ ℕ ℕ postgres) people cold).1 ≡ some (statement people_sql))
    × ((prepare_query length 0
          (plain ℕ ℕ ℕ postgres)
          older_people
          (prepare_query length 0 (plain ℕ ℕ ℕ postgres) people cold).0).1
        ≡ some (statement (record { sql = people_sql.sql; params = older_args })))
unfolding opened_passes breezeorm.Sqlgen.Matches.unary_nots pre_stream
    breezeorm.Compiler.Keys.expr_stream breezeorm.Compiler.Keys.upsert_stream
    extract_args_from_builder breezeorm.Sqlgen.Args.collect_expr breezeorm.Sqlgen.Args.collect_joins
    breezeorm.Sqlgen.Args.collect_by_op breezeorm.Sqlgen.Args.bind breezeorm.Sqlgen.Args.bind_all
prepare_query-statement_example =
    prepare_query-statement ℕ ℕ ℕ length 0 postgres people older_people people_sql older_args cold
      refl ((refl, (tt, tt)), (refl, (refl, tt))) refl generate_sql_optimized refl refl
      (cold-IsCold _)
