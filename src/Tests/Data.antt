-- ===== src/Tests/Data.antt =====
-- The query and the rows that the tests run on, and the definitions that a run computes with.
use breezeorm.Prelude.{true, List, [], ◌∷◌}
use breezeorm.Prelude.Int.{pos}
use breezeorm.Text
use breezeorm.Text.{Bytes, lit}
use breezeorm.Query.{
  Expr, Value, predicate, op_gt, op_in, op_eq, op_text, join_text, scalar, slice, int, text,
  nulls_default,
}
use breezeorm.Query.Builder.{
  Builder, new, filter, inner_join, add_join, order_by, limit, limit_val, offset_val,
}
use breezeorm.Dialect.Identifier
use breezeorm.Dialect.Postgres
use breezeorm.Dialect.Postgres.{postgres}
use breezeorm.Planner
use breezeorm.Planner.{build}
use breezeorm.Planner.Physical
use breezeorm.Planner.Physical.{PhysicalPlan, plan_physical}
use breezeorm.Planner.Flatten
use breezeorm.Planner.Flatten.{flatten, no_parts}
use breezeorm.Sqlgen
use breezeorm.Sqlgen.{ok, GeneratedSql}
use breezeorm.Sqlgen.Expression
use breezeorm.Sqlgen.Statement
use breezeorm.Sqlgen.Statement.{generate_sql}
use breezeorm.Sqlgen.Bulk
use breezeorm.Sqlgen.Bulk.{generate_bulk_insert}

abbrev pub age_test : Expr
age_test = predicate (record { column = lit "age"; op = op_gt; value = scalar (int (pos 30)) })

abbrev pub name_test : Expr
name_test = predicate (record {
  column = lit "u.name";
  op = op_in;
  value = slice (text (lit "a") ∷ text (lit "b") ∷ []);
})

abbrev pub on_test : Expr
on_test = predicate (record { column = lit "o.kind"; op = op_eq; value = scalar (int (pos 7)) })

abbrev pub people : Builder
people =
    let joined = inner_join (new (lit "people")) (lit "orders") (lit "o") on_test in
    let filtered = filter (filter joined age_test) name_test in
    limit
      (order_by filtered (record { column = lit "age"; desc = true; nulls = nulls_default } ∷ []))
      (pos 5)

abbrev pub people_plan : PhysicalPlan
people_plan = plan_physical (build people) postgres

abbrev pub people_sql : GeneratedSql
people_sql = record {
  sql =
      lit
        "SELECT * FROM \"people\" INNER JOIN \"orders\" AS \"o\" ON \"o\".\"kind\" = $1 WHERE (\"age\" > $2 AND \"u\".\"name\" IN ($3, $4)) ORDER BY \"age\" DESC LIMIT 5";
  params =
      scalar (int (pos 7))
      ∷ scalar (int (pos 30))
      ∷ scalar (text (lit "a"))
      ∷ scalar (text (lit "b"))
      ∷ [];
}

abbrev pub tag_columns : List Bytes
tag_columns = lit "id" ∷ lit "tag" ∷ []

abbrev pub tag_rows : List (List Value)
tag_rows =
    (scalar (int (pos 1)) ∷ scalar (text (lit "x")) ∷ [])
    ∷ (scalar (int (pos 2)) ∷ scalar (text (lit "y")) ∷ [])
    ∷ []

abbrev pub tags_sql : GeneratedSql
tags_sql = record {
  sql = lit "INSERT INTO \"tags\" (\"id\", \"tag\") VALUES ($1, $2), ($3, $4) RETURNING *";
  params =
      scalar (int (pos 1))
      ∷ scalar (text (lit "x"))
      ∷ scalar (int (pos 2))
      ∷ scalar (text (lit "y"))
      ∷ [];
}

-- What a run of the generator computes with.
unfoldable pub opened : Unit {0}
unfolding limit order_by filter inner_join add_join new limit_val offset_val Text.lit Text.bytes_eq
    Text.bytes_lt Text.contains_byte Text.join Text.push_front Text.split Text.double_byte
    Text.trim_left Text.trim_right Text.trim_space Text.decimal Text.itoa Text.format_int
    Planner.kind_code Planner.build_joins Planner.build_filter Planner.build_aggregate
    Planner.build_project Planner.build_distinct Planner.build_sort Planner.build_limit
    Planner.build_cte Planner.build_select Planner.build Physical.plan_physical
    Physical.contains_kind Physical.contains_kind_any Flatten.flatten Flatten.flatten_first
    Sqlgen.write Sqlgen.separated Sqlgen.check_raw_fragment Sqlgen.bind Sqlgen.quote_ident
    Sqlgen.quote_idents Sqlgen.write_ident Sqlgen.write_bind Expression.write_predicate
    Expression.write_expr Expression.write_first Expression.write_children Expression.write_more
    Statement.write_idents Statement.write_cte Statement.write_ctes Statement.write_projection
    Statement.write_projections Statement.write_join Statement.write_joins
    Statement.write_order_term Statement.write_group_by Statement.write_order_by Statement.gen_parts
    Statement.gen_select Statement.gen_insert Statement.write_assignment Statement.gen_update
    Statement.gen_delete Statement.gen_upsert Statement.gen_root Statement.generate_sql Bulk.bad_row
    Bulk.write_row Bulk.gen_rows Bulk.generate_bulk_insert Postgres.placeholder
    Postgres.quote_identifier Postgres.returning_column Postgres.returning_clause
    Postgres.limit_offset Postgres.lock_clause Postgres.conflict_target Postgres.upsert_set
    Postgres.upsert_clause Identifier.is_identifier_byte Identifier.all_identifier_bytes
    Identifier.valid_identifier Identifier.quote_part Identifier.quote_dotted op_text join_text
opened = tt
