-- ===== src/Sqlgen/Renders/Statement.antt =====
-- The generator refines the template: statements.
use breezeorm.Prelude.{
  ◌≡◌, refl, none, List, [], ◌∷◌, ◌++◌, Bool, true, ◌&&◌, map, is_empty, if◌then◌else◌, arith, sym,
  append-nil,
}
use breezeorm.Text.{Bytes, lit, join}
use breezeorm.Query.{Value, Expr, is_nil, Cte, SelectExpr, Join, join_text, OrderTerm, Assignment}
use breezeorm.Dialect.{Dialect}
use breezeorm.Planner.{
  Node, no_node, node, Fields, node_insert, node_update, node_delete, node_upsert,
}
use breezeorm.Planner.Flatten.{SelectParts, no_parts, flatten}
use breezeorm.Planner.Physical.{PhysicalPlan}
use breezeorm.Sqlgen.{SqlGen, start, write, quote_ident, quote_idents, ok, GeneratedSql}
use breezeorm.Sqlgen.Statement.{
  write_idents, write_cte, write_ctes, write_projection, write_projections, write_clause,
  write_join, write_joins, write_order_term, write_group_by, write_order_by, write_suffix,
  gen_parts, gen_select, gen_insert, write_assignment, gen_update, gen_delete, gen_upsert, gen_root,
  nulls_text, with_text, generate_sql, finish,
}
use breezeorm.Sqlgen.Bulk.{write_row, gen_rows, generate_bulk_insert}
use breezeorm.Sqlgen.Template.{Template, slot, words, values, fill, intact, ident}
use breezeorm.Sqlgen.Template.Statement.{
  suffix, idents, clause, cte_template, ctes_template, projection_template, projections_template,
  join_template, joins_template, order_template, order_by_template, parts_template, insert_template,
  update_template, delete_template, root_template, rows_template,
}
use breezeorm.Sqlgen.Runs.{
  Runs, skip-Runs, ◌▸◌, when-Runs, if-Runs, write-Runs, write_bind-Runs, write_ident-Runs,
  separated-Runs, quote_ident-accepted, write_name-Runs, raw_text-Runs, write_append-Runs,
}
use breezeorm.Sqlgen.Renders.{write_expr-Runs}

write_suffix-Runs : {d : Dialect} (s : Bytes) → Runs d (suffix s) (write_suffix s)
write_suffix-Runs s = when-Runs (is_empty s) (write-Runs (lit " ") ▸ write-Runs s)

abbrev all_valid : Dialect → List Bytes → Bool
all_valid d [] = true
all_valid d (n ∷ ns) = d.validate_identifier n && all_valid d ns

module _ (d : Dialect) where
  -- The text of a list of accepted names is their join, quoted.
  names-Runs :
      (ns : List Bytes)
      → all_valid d ns ≡ true
      → Runs d (idents ns) (write (join (lit ", ") (map d.quote_identifier ns)))
  unfolding join
  names-Runs [] h =
      unfold write in record { at = λ g e. (e, refl, sym (append-nil g.params), refl) }
  names-Runs (n ∷ []) h = write_name-Runs n (ground arith)
  names-Runs (n ∷ m ∷ ns) h =
      write_append-Runs _ _ (write_name-Runs n (ground arith))
        (write_append-Runs _ _ (write-Runs (lit ", ")) (names-Runs (m ∷ ns) (ground arith)))

  quote_idents-accepted :
      (ns : List Bytes) (g : SqlGen)
      → (quote_idents d ns g).1.failed ≡ none
      → (g.failed ≡ none)
        × (quote_idents d ns g ≡ (map d.quote_identifier ns, g))
        × (all_valid d ns ≡ true)
  unfolding quote_idents
  quote_idents-accepted [] g h = (h, refl, refl)
  quote_idents-accepted (n ∷ ns) g h =
      let (e, q, v) = quote_idents-accepted ns (quote_ident d n g).1 h in
      let (e', q', valid) = quote_ident-accepted d n g e in (e', rw (q, q'), rw (valid, v))

  write_idents-Runs : (ns : List Bytes) → Runs d (idents ns) (write_idents d ns)
  unfolding write_idents write
  write_idents-Runs ns = record {
    at = λ g e. let (e', q, v) = quote_idents-accepted ns g e in rw q ((names-Runs ns v).at g e');
  }

  write_clause-Runs : (k : Bytes) (e : Expr) → Runs d (clause k e) (write_clause d k e)
  write_clause-Runs k e = when-Runs (is_nil e) (write-Runs k ▸ write_expr-Runs d e)

  write_cte-Runs : (c : Cte) → Runs d (cte_template c) (write_cte d c)
  unfolding write_cte
  write_cte-Runs c =
      write_ident-Runs c.name
      ▸ when-Runs (is_empty c.columns)
          (write-Runs (lit " (") ▸ write_idents-Runs c.columns ▸ write-Runs (lit ")"))
      ▸ write-Runs (lit " AS (...)")

  write_ctes-Runs : (cs : List Cte) → Runs d (ctes_template cs) (write_ctes d cs)
  unfolding write_ctes
  write_ctes-Runs cs =
      when-Runs (is_empty cs)
        (write-Runs (with_text cs) ▸ separated-Runs _ _ _ write_cte-Runs cs ▸ write-Runs (lit " "))

  write_projection-Runs : (p : SelectExpr) → Runs d (projection_template p) (write_projection d p)
  unfolding write_projection
  write_projection-Runs p =
      raw_text-Runs p.expr
      ▸ when-Runs (is_empty p.alias) (write-Runs (lit " AS ") ▸ write_ident-Runs p.alias)

  write_projections-Runs :
      (ps : List SelectExpr) → Runs d (projections_template ps) (write_projections d ps)
  unfolding write_projections
  write_projections-Runs ps =
      if-Runs (is_empty ps) (write-Runs (lit "*")) (separated-Runs _ _ _ write_projection-Runs ps)

  write_join-Runs : (j : Join) → Runs d (join_template j) (write_join d j)
  unfolding write_join
  write_join-Runs j =
      write-Runs (lit " ")
      ▸ write-Runs (join_text j.kind)
      ▸ write-Runs (lit " ")
      ▸ write_ident-Runs j.table
      ▸ when-Runs (is_empty j.alias) (write-Runs (lit " AS ") ▸ write_ident-Runs j.alias)
      ▸ write_clause-Runs (lit " ON ") j.condition

  write_joins-Runs : (js : List Join) → Runs d (joins_template js) (write_joins d js)
  unfolding write_joins
  write_joins-Runs [] = skip-Runs
  write_joins-Runs (j ∷ js) = write_join-Runs j ▸ write_joins-Runs js

  write_order_term-Runs : (t : OrderTerm) → Runs d (order_template t) (write_order_term d t)
  unfolding write_order_term
  write_order_term-Runs t =
      write_ident-Runs t.column
      ▸ write-Runs (if t.desc then lit " DESC" else [])
      ▸ write-Runs (nulls_text t.nulls)

  write_group_by-Runs :
      (cols : List Bytes)
      → Runs d
          (if is_empty cols then [] else words (lit " GROUP BY ") ++ idents cols)
          (write_group_by d cols)
  unfolding write_group_by
  write_group_by-Runs cols =
      when-Runs (is_empty cols) (write-Runs (lit " GROUP BY ") ▸ write_idents-Runs cols)

  write_order_by-Runs :
      (ts : List OrderTerm) (synthetic : Bool)
      → Runs d (order_by_template ts synthetic) (write_order_by d ts synthetic)
  unfolding write_order_by
  write_order_by-Runs ts synthetic =
      if-Runs (is_empty ts)
        (if-Runs synthetic (write-Runs (lit " ORDER BY (SELECT NULL)")) skip-Runs)
        (write-Runs (lit " ORDER BY ") ▸ separated-Runs _ _ _ write_order_term-Runs ts)

  gen_parts-Runs :
      (p : SelectParts) (synthetic : Bool)
      → Runs d (parts_template d p synthetic) (gen_parts d p synthetic)
  unfolding gen_parts parts_template
  gen_parts-Runs p synthetic =
      write_ctes-Runs p.ctes
      ▸ write-Runs (lit "SELECT ")
      ▸ write-Runs (if p.distinct then lit "DISTINCT " else [])
      ▸ write_projections-Runs p.projections
      ▸ write-Runs (lit " FROM ")
      ▸ write_ident-Runs p.base_table
      ▸ write_joins-Runs p.joins
      ▸ write_clause-Runs (lit " WHERE ") p.filter
      ▸ write_group_by-Runs p.group_by
      ▸ write_clause-Runs (lit " HAVING ") p.having
      ▸ write_order_by-Runs p.order_by synthetic
      ▸ write_suffix-Runs (d.limit_offset p.limit p.offset)
      ▸ write_suffix-Runs (d.lock_clause p.lock)

  gen_insert-Runs : (n : Fields) → Runs d (insert_template d n) (gen_insert d n)
  unfolding gen_insert insert_template
  gen_insert-Runs n =
      write-Runs (lit "INSERT INTO ")
      ▸ write_ident-Runs n.table
      ▸ write-Runs (lit " (")
      ▸ write_idents-Runs (map (λ a. a.column) n.assignments)
      ▸ write-Runs (lit ") VALUES (")
      ▸ separated-Runs _ _ _ (λ (a : Assignment). write_bind-Runs a.value) n.assignments
      ▸ write-Runs (lit ")")
      ▸ write_suffix-Runs (d.returning_clause (lit "*" ∷ []))

  write_assignment-Runs :
      (a : Assignment)
      → Runs d (ident a.column ++ words (lit " = ") ++ (slot a.value ∷ [])) (write_assignment d a)
  unfolding write_assignment
  write_assignment-Runs a =
      write_ident-Runs a.column ▸ write-Runs (lit " = ") ▸ write_bind-Runs a.value

  gen_update-Runs : (n : Fields) → Runs d (update_template d n) (gen_update d n)
  unfolding gen_update update_template
  gen_update-Runs n =
      write-Runs (lit "UPDATE ")
      ▸ write_ident-Runs n.table
      ▸ write-Runs (lit " SET ")
      ▸ separated-Runs _ _ _ write_assignment-Runs n.assignments
      ▸ write_clause-Runs (lit " WHERE ") n.predicate
      ▸ write_suffix-Runs (d.returning_clause (lit "*" ∷ []))

  gen_delete-Runs : (n : Fields) → Runs d (delete_template n) (gen_delete d n)
  unfolding gen_delete delete_template
  gen_delete-Runs n =
      write-Runs (lit "DELETE FROM ")
      ▸ write_ident-Runs n.table
      ▸ write_clause-Runs (lit " WHERE ") n.predicate

  gen_root-Runs : (n : Node) (s : Bool) → Runs d (root_template d n s) (gen_root d n s)
  unfolding gen_root root_template gen_upsert gen_select
  gen_root-Runs no_node s = gen_parts-Runs (flatten no_node no_parts) s
  gen_root-Runs (node node_insert f i is) s = gen_insert-Runs f
  gen_root-Runs (node node_update f i is) s = gen_update-Runs f
  gen_root-Runs (node node_delete f i is) s = gen_delete-Runs f
  gen_root-Runs (node node_upsert f i is) s = gen_insert-Runs f
  gen_root-Runs (node k f i is) s = gen_parts-Runs (flatten (node k f i is) no_parts) s

  gen_rows-Runs :
      (table : Bytes) (columns : List Bytes) (rows : List (List Value))
      → Runs d (rows_template d table columns rows) (gen_rows d table columns rows)
  unfolding gen_rows rows_template write_row
  gen_rows-Runs table columns rows =
      write-Runs (lit "INSERT INTO ")
      ▸ write_ident-Runs table
      ▸ write-Runs (lit " (")
      ▸ write_idents-Runs columns
      ▸ write-Runs (lit ") VALUES ")
      ▸ separated-Runs _ _ _
          (λ row.
            write-Runs (lit "(") ▸ separated-Runs _ _ _ write_bind-Runs row ▸ write-Runs (lit ")"))
          rows
      ▸ write_suffix-Runs (d.returning_clause (lit "*" ∷ []))

  -- What a finished run returns.
  finish-Runs :
      (t : Template) (f : SqlGen → SqlGen) (gen : GeneratedSql)
      → Runs d t f
      → finish (f start) ≡ ok gen
      → (gen.sql ≡ fill d 0 t) × (gen.params ≡ values t) × (intact d t ≡ true)
  finish-Runs t f gen p h =
      let ran : (f start).failed ≡ none = ground arith in
      let (e, b, a, i) = p.at start ran in (ground arith, ground arith, i)

-- A statement that is generated is its template with the placeholders 1, 2, 3, … in the slots, in
-- order, and its arguments are the values of those slots, in the same order; a raw fragment's
-- arguments stand where the fragment stands.
pub generate_sql-fill :
    (pp : PhysicalPlan) (gen : GeneratedSql)
    → generate_sql pp ≡ ok gen
    → (gen.sql ≡ fill pp.dialect 0 (root_template pp.dialect pp.root pp.needs_synthetic_order_by))
      × (gen.params ≡ values (root_template pp.dialect pp.root pp.needs_synthetic_order_by))
      × (intact pp.dialect (root_template pp.dialect pp.root pp.needs_synthetic_order_by) ≡ true)
unfolding generate_sql
generate_sql-fill pp gen h =
    finish-Runs pp.dialect _ _ gen (gen_root-Runs pp.dialect pp.root pp.needs_synthetic_order_by)
      (ground arith)

-- The same of a bulk insert.
pub generate_bulk_insert-fill :
    (d : Dialect) (table : Bytes) (columns : List Bytes) (rows : List (List Value))
    (gen : GeneratedSql)
    → generate_bulk_insert d table columns rows ≡ ok gen
    → (gen.sql ≡ fill d 0 (rows_template d table columns rows))
      × (gen.params ≡ values (rows_template d table columns rows))
      × (intact d (rows_template d table columns rows) ≡ true)
unfolding generate_bulk_insert
generate_bulk_insert-fill d table columns rows gen h =
    finish-Runs d _ _ gen (gen_rows-Runs d table columns rows) (ground arith)
