-- ===== src/Sqlgen/Statement.antt =====
-- `GenerateSQL` of pkg/sqlgen/sqlgen.go and the five statements that it renders.
use breezeorm.Prelude.{
  Bool, true, false, List, [], ◌∷◌, ◌++◌, none, some, map, if◌then◌else◌, is_empty,
}
use breezeorm.Text.{Bytes, lit, join}
use breezeorm.Query.{
  Expr, is_nil, Cte, SelectExpr, Join, join_text, OrderTerm, NullsOrder, nulls_default, nulls_first,
  nulls_last, Assignment,
}
use breezeorm.Dialect.{Dialect}
use breezeorm.Planner.{
  Node, no_node, node, Fields, node_insert, node_update, node_delete, node_upsert,
}
use breezeorm.Planner.Flatten.{SelectParts, no_parts, flatten}
use breezeorm.Planner.Physical.{PhysicalPlan}
use breezeorm.Sqlgen.{
  SqlGen, ◌▷◌, start, write, separated, check_raw_fragment, write_ident, write_bind, quote_idents,
  Result, ok, err, GeneratedSql, empty_plan,
}
use breezeorm.Sqlgen.Expression.{write_expr}

-- `if s != "" { write(" "); write(s) }`
abbrev pub write_suffix : Bytes → SqlGen → SqlGen
write_suffix s g = if is_empty s then g else g ▷ write (lit " ") ▷ write s

-- `NULLS FIRST` and `NULLS LAST`
abbrev pub nulls_text : NullsOrder → Bytes
nulls_text nulls_default = []
nulls_text nulls_first = lit " NULLS FIRST"
nulls_text nulls_last = lit " NULLS LAST"

-- `WITH` or `WITH RECURSIVE`, as the first entry says
abbrev pub with_text : List Cte → Bytes
with_text [] = []
with_text (c ∷ cs) = if c.recursive then lit "WITH " ++ lit "RECURSIVE " else lit "WITH "

module _ (d : Dialect) where
  -- `g.b.WriteString(strings.Join(g.quoteIdents(names), ", "))`
  unfoldable pub write_idents : List Bytes → SqlGen → SqlGen
  write_idents names g = let (ss, g') = quote_idents d names g in write (join (lit ", ") ss) g'

  unfoldable pub write_cte : Cte → SqlGen → SqlGen
  write_cte c g =
      let g' = write_ident d c.name g in
      (if is_empty c.columns
        then g'
        else g' ▷ write (lit " (") ▷ write_idents c.columns ▷ write (lit ")"))
      ▷ write (lit " AS (...)")

  unfoldable pub write_ctes : List Cte → SqlGen → SqlGen
  write_ctes cs g =
      if is_empty cs
      then g
      else g ▷ write (with_text cs) ▷ separated (lit ", ") write_cte cs ▷ write (lit " ")

  unfoldable pub write_projection : SelectExpr → SqlGen → SqlGen
  write_projection p g =
      let g' = g ▷ check_raw_fragment p.expr ▷ write p.expr in
      if is_empty p.alias then g' else g' ▷ write (lit " AS ") ▷ write_ident d p.alias

  unfoldable pub write_projections : List SelectExpr → SqlGen → SqlGen
  write_projections ps g =
      if is_empty ps then write (lit "*") g else separated (lit ", ") write_projection ps g

  abbrev pub write_clause : Bytes → Expr → SqlGen → SqlGen
  write_clause keyword e g = if is_nil e then g else g ▷ write keyword ▷ write_expr d e

  unfoldable pub write_join : Join → SqlGen → SqlGen
  write_join j g =
      let g' =
        g ▷ write (lit " ") ▷ write (join_text j.kind) ▷ write (lit " ") ▷ write_ident d j.table in
      (if is_empty j.alias then g' else g' ▷ write (lit " AS ") ▷ write_ident d j.alias)
      ▷ write_clause (lit " ON ") j.condition

  unfoldable pub write_joins : List Join → SqlGen → SqlGen
  write_joins [] g = g
  write_joins (j ∷ js) g = write_joins js (write_join j g)

  unfoldable pub write_order_term : OrderTerm → SqlGen → SqlGen
  write_order_term t g =
      g
      ▷ write_ident d t.column
      ▷ write (if t.desc then lit " DESC" else [])
      ▷ write (nulls_text t.nulls)

  unfoldable pub write_group_by : List Bytes → SqlGen → SqlGen
  write_group_by cols g =
      if is_empty cols then g else g ▷ write (lit " GROUP BY ") ▷ write_idents cols

  unfoldable pub write_order_by : List OrderTerm → Bool → SqlGen → SqlGen
  write_order_by ts synthetic g =
      if is_empty ts
      then if synthetic then write (lit " ORDER BY (SELECT NULL)") g else g
      else g ▷ write (lit " ORDER BY ") ▷ separated (lit ", ") write_order_term ts

  unfoldable pub gen_parts : SelectParts → Bool → SqlGen → SqlGen
  gen_parts p synthetic g =
      g
      ▷ write_ctes p.ctes
      ▷ write (lit "SELECT ")
      ▷ write (if p.distinct then lit "DISTINCT " else [])
      ▷ write_projections p.projections
      ▷ write (lit " FROM ")
      ▷ write_ident d p.base_table
      ▷ write_joins p.joins
      ▷ write_clause (lit " WHERE ") p.filter
      ▷ write_group_by p.group_by
      ▷ write_clause (lit " HAVING ") p.having
      ▷ write_order_by p.order_by synthetic
      ▷ write_suffix (d.limit_offset p.limit p.offset)
      ▷ write_suffix (d.lock_clause p.lock)

  unfoldable pub gen_select : Node → Bool → SqlGen → SqlGen
  gen_select root synthetic g = gen_parts (flatten root no_parts) synthetic g

  abbrev pub write_value : Assignment → SqlGen → SqlGen
  write_value a g = write_bind d a.value g

  unfoldable pub gen_insert : Fields → SqlGen → SqlGen
  gen_insert n g =
      g
      ▷ write (lit "INSERT INTO ")
      ▷ write_ident d n.table
      ▷ write (lit " (")
      ▷ write_idents (map (λ a. a.column) n.assignments)
      ▷ write (lit ") VALUES (")
      ▷ separated (lit ", ") write_value n.assignments
      ▷ write (lit ")")
      ▷ write_suffix (d.returning_clause (lit "*" ∷ []))

  unfoldable pub write_assignment : Assignment → SqlGen → SqlGen
  write_assignment a g = g ▷ write_ident d a.column ▷ write (lit " = ") ▷ write_bind d a.value

  unfoldable pub gen_update : Fields → SqlGen → SqlGen
  gen_update n g =
      g
      ▷ write (lit "UPDATE ")
      ▷ write_ident d n.table
      ▷ write (lit " SET ")
      ▷ separated (lit ", ") write_assignment n.assignments
      ▷ write_clause (lit " WHERE ") n.predicate
      ▷ write_suffix (d.returning_clause (lit "*" ∷ []))

  unfoldable pub gen_delete : Fields → SqlGen → SqlGen
  gen_delete n g =
      g
      ▷ write (lit "DELETE FROM ")
      ▷ write_ident d n.table
      ▷ write_clause (lit " WHERE ") n.predicate

  -- The conflict clause is left to a caller that does not exist.
  unfoldable pub gen_upsert : Fields → SqlGen → SqlGen
  gen_upsert n g = gen_insert n g

  -- the `switch root.Kind`
  unfoldable pub gen_root : Node → Bool → SqlGen → SqlGen
  gen_root (node node_insert f i is) synthetic = gen_insert f
  gen_root (node node_update f i is) synthetic = gen_update f
  gen_root (node node_delete f i is) synthetic = gen_delete f
  gen_root (node node_upsert f i is) synthetic = gen_upsert f
  gen_root n synthetic = gen_select n synthetic

-- `if g.err != nil { return nil, g.err }`
abbrev pub finish : SqlGen → Result GeneratedSql
finish g = elim g.failed [ some e ↦ err e | none ↦ ok (record { sql = g.buf; params = g.params }) ]

abbrev pub is_no_node : Node → Bool
is_no_node no_node = true
is_no_node _ = false

unfoldable pub generate_sql : PhysicalPlan → Result GeneratedSql
generate_sql pp =
    if is_no_node pp.root
    then err empty_plan
    else finish (gen_root pp.dialect pp.root pp.needs_synthetic_order_by start)
