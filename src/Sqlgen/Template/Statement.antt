-- ===== src/Sqlgen/Template/Statement.antt =====
-- The templates of the five statements and of a bulk insert.
use breezeorm.Prelude.{Bool, List, [], ◌∷◌, ◌++◌, map, if◌then◌else◌, is_empty}
use breezeorm.Text.{Bytes, lit}
use breezeorm.Query.{Value, Expr, is_nil, Cte, SelectExpr, Join, join_text, OrderTerm, Assignment}
use breezeorm.Dialect.{Dialect}
use breezeorm.Planner.{Node, node, Fields, node_insert, node_update, node_delete, node_upsert}
use breezeorm.Planner.Flatten.{SelectParts, no_parts, flatten}
use breezeorm.Sqlgen.Statement.{nulls_text, with_text}
use breezeorm.Sqlgen.Template.{
  Template, slot, inline, separated_template, words, ident, slots, expr_template,
}

abbrev pub suffix : Bytes → Template
suffix s = if is_empty s then [] else words (lit " ") ++ words s

abbrev pub idents : List Bytes → Template
idents names = separated_template (lit ", ") ident names

abbrev pub clause : Bytes → Expr → Template
clause keyword e = if is_nil e then [] else words keyword ++ expr_template e

abbrev pub cte_template : Cte → Template
cte_template c =
    ident c.name
    ++ (if is_empty c.columns then [] else words (lit " (") ++ idents c.columns ++ words (lit ")"))
    ++ words (lit " AS (...)")

abbrev pub ctes_template : List Cte → Template
ctes_template cs =
    if is_empty cs
    then []
    else words (with_text cs) ++ separated_template (lit ", ") cte_template cs ++ words (lit " ")

abbrev pub projection_template : SelectExpr → Template
projection_template p =
    (inline p.expr [] ∷ [])
    ++ (if is_empty p.alias then [] else words (lit " AS ") ++ ident p.alias)

abbrev pub projections_template : List SelectExpr → Template
projections_template ps =
    if is_empty ps then words (lit "*") else separated_template (lit ", ") projection_template ps

abbrev pub join_template : Join → Template
join_template j =
    words (lit " ")
    ++ words (join_text j.kind)
    ++ words (lit " ")
    ++ ident j.table
    ++ (if is_empty j.alias then [] else words (lit " AS ") ++ ident j.alias)
    ++ clause (lit " ON ") j.condition

abbrev pub joins_template : List Join → Template
joins_template [] = []
joins_template (j ∷ js) = join_template j ++ joins_template js

abbrev pub order_template : OrderTerm → Template
order_template t =
    ident t.column ++ words (if t.desc then lit " DESC" else []) ++ words (nulls_text t.nulls)

abbrev pub order_by_template : List OrderTerm → Bool → Template
order_by_template ts synthetic =
    if is_empty ts
    then if synthetic then words (lit " ORDER BY (SELECT NULL)") else []
    else words (lit " ORDER BY ") ++ separated_template (lit ", ") order_template ts

unfoldable pub parts_template : Dialect → SelectParts → Bool → Template
parts_template d p synthetic =
    ctes_template p.ctes
    ++ words (lit "SELECT ")
    ++ words (if p.distinct then lit "DISTINCT " else [])
    ++ projections_template p.projections
    ++ words (lit " FROM ")
    ++ ident p.base_table
    ++ joins_template p.joins
    ++ clause (lit " WHERE ") p.filter
    ++ (if is_empty p.group_by then [] else words (lit " GROUP BY ") ++ idents p.group_by)
    ++ clause (lit " HAVING ") p.having
    ++ order_by_template p.order_by synthetic
    ++ suffix (d.limit_offset p.limit p.offset)
    ++ suffix (d.lock_clause p.lock)

abbrev pub value_template : Assignment → Template
value_template a = slot a.value ∷ []

unfoldable pub insert_template : Dialect → Fields → Template
insert_template d n =
    words (lit "INSERT INTO ")
    ++ ident n.table
    ++ words (lit " (")
    ++ idents (map (λ a. a.column) n.assignments)
    ++ words (lit ") VALUES (")
    ++ separated_template (lit ", ") value_template n.assignments
    ++ words (lit ")")
    ++ suffix (d.returning_clause (lit "*" ∷ []))

abbrev pub assignment_template : Assignment → Template
assignment_template a = ident a.column ++ words (lit " = ") ++ (slot a.value ∷ [])

unfoldable pub update_template : Dialect → Fields → Template
update_template d n =
    words (lit "UPDATE ")
    ++ ident n.table
    ++ words (lit " SET ")
    ++ separated_template (lit ", ") assignment_template n.assignments
    ++ clause (lit " WHERE ") n.predicate
    ++ suffix (d.returning_clause (lit "*" ∷ []))

unfoldable pub delete_template : Fields → Template
delete_template n =
    words (lit "DELETE FROM ") ++ ident n.table ++ clause (lit " WHERE ") n.predicate

unfoldable pub root_template : Dialect → Node → Bool → Template
root_template d (node node_insert f i is) synthetic = insert_template d f
root_template d (node node_update f i is) synthetic = update_template d f
root_template d (node node_delete f i is) synthetic = delete_template f
root_template d (node node_upsert f i is) synthetic = insert_template d f
root_template d n synthetic = parts_template d (flatten n no_parts) synthetic

abbrev pub row_template : List Value → Template
row_template row = words (lit "(") ++ slots row ++ words (lit ")")

unfoldable pub rows_template : Dialect → Bytes → List Bytes → List (List Value) → Template
rows_template d table columns rows =
    words (lit "INSERT INTO ")
    ++ ident table
    ++ words (lit " (")
    ++ idents columns
    ++ words (lit ") VALUES ")
    ++ separated_template (lit ", ") row_template rows
    ++ suffix (d.returning_clause (lit "*" ∷ []))
