-- ===== src/Tests/Compile.antt =====
-- A query through the planner and the SQL generator, and a bulk insert.
use breezeorm.Prelude.{true, ◌≡◌, refl}
use breezeorm.Text.{lit}
use breezeorm.Query.Builder.{
  new, filter, inner_join, add_join, order_by, limit, limit_val, offset_val,
}
use breezeorm.Dialect.Postgres.{postgres}
use breezeorm.Planner
use breezeorm.Planner.{build}
use breezeorm.Planner.Physical
use breezeorm.Planner.Physical.{PhysicalPlan, plan_physical}
use breezeorm.Planner.Flatten
use breezeorm.Planner.Flatten.{flatten, no_parts}
use breezeorm.Planner.Flatten.Build.{parts_of, flatten-build}
use breezeorm.Sqlgen
use breezeorm.Sqlgen.{ok, GeneratedSql}
use breezeorm.Sqlgen.Statement.{generate_sql}
use breezeorm.Sqlgen.Template.{fill, values, intact}
use breezeorm.Sqlgen.Template.Statement.{root_template, rows_template}
use breezeorm.Sqlgen.Renders.Statement.{generate_sql-fill, generate_bulk_insert-fill}
use breezeorm.Sqlgen.Args.{extract_args}
use breezeorm.Sqlgen.Matches.Root.{root_unary, extract_args-generate_sql}
use breezeorm.Sqlgen.Bulk.{generate_bulk_insert}
use breezeorm.Tests.Data.{people, people_plan, people_sql, tag_columns, tag_rows, tags_sql, opened}

flatten-build_example : flatten (build people) no_parts ≡ parts_of people
unfolding limit order_by filter inner_join add_join new
flatten-build_example = flatten-build people refl

generate_sql_people : generate_sql people_plan ≡ ok people_sql
unfolding opened
generate_sql_people = refl

people_unary : root_unary people_plan.root ≡ true
unfolding limit order_by filter inner_join add_join new limit_val offset_val Planner.build_joins
    Planner.build_filter Planner.build_aggregate Planner.build_project Planner.build_distinct
    Planner.build_sort Planner.build_limit Planner.build_cte Planner.build_select Planner.build
    Physical.plan_physical Flatten.flatten Flatten.flatten_first breezeorm.Sqlgen.Matches.unary_nots
people_unary = refl

generate_sql-fill_example :
    (people_sql.sql
      ≡ fill postgres 0
          (root_template postgres people_plan.root people_plan.needs_synthetic_order_by))
    × (people_sql.params
        ≡ values (root_template postgres people_plan.root people_plan.needs_synthetic_order_by))
    × (intact postgres
          (root_template postgres people_plan.root people_plan.needs_synthetic_order_by)
        ≡ true)
unfolding Physical.plan_physical
generate_sql-fill_example = generate_sql-fill people_plan people_sql generate_sql_people

extract_args-generate_sql_example : extract_args people_plan ≡ ok people_sql.params
extract_args-generate_sql_example =
    extract_args-generate_sql people_plan people_sql generate_sql_people people_unary

generate_bulk_insert_tags :
    generate_bulk_insert postgres (lit "tags") tag_columns tag_rows ≡ ok tags_sql
unfolding opened
generate_bulk_insert_tags = refl

generate_bulk_insert-fill_example :
    (tags_sql.sql ≡ fill postgres 0 (rows_template postgres (lit "tags") tag_columns tag_rows))
    × (tags_sql.params ≡ values (rows_template postgres (lit "tags") tag_columns tag_rows))
    × (intact postgres (rows_template postgres (lit "tags") tag_columns tag_rows) ≡ true)
generate_bulk_insert-fill_example =
    generate_bulk_insert-fill postgres (lit "tags") tag_columns tag_rows tags_sql
      generate_bulk_insert_tags
