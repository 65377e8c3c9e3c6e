-- ===== src/Sqlgen/Matches/Root.antt =====
-- The argument collector agrees with the generator: statements.
use breezeorm.Prelude.{
  Bool, true, false, ◌&&◌, List, [], ◌∷◌, ◌++◌, map, Bool-cases, inl, inr, &&_true, ◌≡◌, refl, sym,
  ap, ◌∙◌, append_assoc, append-nil,
}
use breezeorm.Text.{Bytes, lit}
use breezeorm.Query.{Value, Expr, nil, predicate, logical, raw, subquery, Join, Assignment}
use breezeorm.Dialect.{Dialect}
use breezeorm.Planner.{
  Node, no_node, node, Fields, node_insert, node_update, node_delete, node_upsert,
}
use breezeorm.Planner.Flatten.{SelectParts, no_parts, flatten}
use breezeorm.Planner.Physical.{PhysicalPlan}
use breezeorm.Sqlgen.{ok, GeneratedSql}
use breezeorm.Sqlgen.Statement.{generate_sql, is_no_node}
use breezeorm.Sqlgen.Args.{
  fresh, bind, collect_assignments, collect_expr, collect_joins, collect_parts, collect_root,
  collected, extract_args, extract_from,
}
use breezeorm.Sqlgen.Template.{
  values, intact, values-append, expr_template, separated_template, words, ident,
}
use breezeorm.Sqlgen.Template.Statement.{
  root_template, parts_template, insert_template, update_template, delete_template,
  assignment_template, value_template, clause, joins_template, join_template, suffix, idents,
}
use breezeorm.Sqlgen.Renders.Statement.{generate_sql-fill}
use breezeorm.Sqlgen.Matches.{unary_nots, holding, intact-split, collect_expr_lem}
use breezeorm.Sqlgen.Matches.Clauses.{
  IsSilent-suffix, IsSilent-idents, quiet, Binds, first_silent, ◌▹◌, ◌▹▹◌, parts-Binds, join-Binds,
}

abbrev pub joins_unary : List Join → Bool
joins_unary [] = true
joins_unary (j ∷ js) = unary_nots j.condition && joins_unary js

-- Every NOT of a statement's expressions has one operand.
abbrev pub parts_unary : SelectParts → Bool
parts_unary p = joins_unary p.joins && (unary_nots p.filter && unary_nots p.having)

abbrev pub root_unary : Node → Bool
root_unary (node node_insert f i is) = true
root_unary (node node_upsert f i is) = true
root_unary (node node_update f i is) = unary_nots f.predicate
root_unary (node node_delete f i is) = unary_nots f.predicate
root_unary n = parts_unary (flatten n no_parts)

abbrev value_of : Assignment → Value
value_of a = a.value

collect_assignments_lem :
    (s : List Assignment) (vs : List Value)
    → collect_assignments s (holding vs) ≡ holding (vs ++ map value_of s)
unfolding collect_assignments bind
collect_assignments_lem [] vs = rw (append-nil vs)
collect_assignments_lem (a ∷ s) vs = rw (collect_assignments_lem s, append_assoc)

values-value_template :
    (s : List Assignment) → values (separated_template (lit ", ") value_template s) ≡ map value_of s
values-value_template [] = refl
values-value_template (a ∷ []) = refl
values-value_template (a ∷ b ∷ s) = ap (◌∷◌ a.value) (values-value_template (b ∷ s))

values-assignment_template :
    (s : List Assignment)
    → values (separated_template (lit ", ") assignment_template s) ≡ map value_of s
values-assignment_template [] = refl
values-assignment_template (a ∷ []) = refl
values-assignment_template (a ∷ b ∷ s) = ap (◌∷◌ a.value) (values-assignment_template (b ∷ s))

insert-Binds :
    (d : Dialect) (f : Fields)
    → Binds d
        (insert_template d f)
        (values (separated_template (lit ", ") value_template f.assignments))
        (Unit × (intact d (separated_template (lit ", ") value_template f.assignments) ≡ true))
unfolding insert_template
insert-Binds d f =
    first_silent (words _) refl
    ▹ quiet (ident f.table) refl
    ▹ quiet (words _) refl
    ▹ quiet (idents (map (λ a. a.column) f.assignments))
        (IsSilent-idents (map (λ a. a.column) f.assignments))
    ▹ quiet (words _) refl
    ▹▹ separated_template (lit ", ") value_template f.assignments
    ▹ quiet (words _) refl
    ▹ quiet (suffix (d.returning_clause (lit "*" ∷ []))) (IsSilent-suffix _)

update-Binds :
    (d : Dialect) (f : Fields)
    → Binds d
        (update_template d f)
        (values (separated_template (lit ", ") assignment_template f.assignments)
          ++ values (clause (lit " WHERE ") f.predicate))
        ((Unit
            × (intact d (separated_template (lit ", ") assignment_template f.assignments) ≡ true))
          × (intact d (clause (lit " WHERE ") f.predicate) ≡ true))
unfolding update_template
update-Binds d f =
    first_silent (words _) refl
    ▹ quiet (ident f.table) refl
    ▹ quiet (words _) refl
    ▹▹ separated_template (lit ", ") assignment_template f.assignments
    ▹▹ clause (lit " WHERE ") f.predicate
    ▹ quiet (suffix (d.returning_clause (lit "*" ∷ []))) (IsSilent-suffix _)

delete-Binds :
    (d : Dialect) (f : Fields)
    → Binds d
        (delete_template f)
        (values (clause (lit " WHERE ") f.predicate))
        (Unit × (intact d (clause (lit " WHERE ") f.predicate) ≡ true))
unfolding delete_template
delete-Binds d f =
    first_silent (words _) refl ▹ quiet (ident f.table) refl ▹▹ clause (lit " WHERE ") f.predicate

module _ (d : Dialect) where
  -- A clause that may be absent.
  collect_clause :
      (k : Bytes) (e : Expr) (vs : List Value)
      → intact d (clause k e) ≡ true
      → unary_nots e ≡ true
      → collect_expr e (holding vs) ≡ holding (vs ++ values (clause k e))
  collect_clause k nil vs h u = unfold collect_expr in rw (append-nil vs)
  collect_clause k (predicate p) vs h u = collect_expr_lem d (predicate p) vs h u
  collect_clause k (logical op es) vs h u = collect_expr_lem d (logical op es) vs h u
  collect_clause k (raw sql params) vs h u = collect_expr_lem d (raw sql params) vs h u
  collect_clause k (subquery q) vs h u = absurd (unfold expr_template in cc h)

  collect_joins_lem :
      (js : List Join) (vs : List Value)
      → intact d (joins_template js) ≡ true
      → joins_unary js ≡ true
      → collect_joins js (holding vs) ≡ holding (vs ++ values (joins_template js))
  unfolding collect_joins
  collect_joins_lem [] vs h u = rw (append-nil vs)
  collect_joins_lem (j ∷ js) vs h u =
      let i = intact-split d (join_template j) (joins_template js) h in
      let w = &&_true (unary_nots j.condition) (joins_unary js) u in
      let b = join-Binds d j in
      let one : collect_expr j.condition (holding vs) ≡ holding (vs ++ values (join_template j)) =
        rw b.same (collect_clause (lit " ON ") j.condition vs (b.parts i.0).1 w.0) in
      let e : vs ++ values (join_template j) ++ values (joins_template js)
          ≡ vs ++ values (join_template j ++ joins_template js) =
        rw (values-append (join_template j), append_assoc) in
      ap (collect_joins js) one ∙ collect_joins_lem js _ i.1 w.1 ∙ ap holding e

  collect_parts_lem :
      (p : SelectParts) (s : Bool)
      → intact d (parts_template d p s) ≡ true
      → parts_unary p ≡ true
      → collect_parts p fresh ≡ holding (values (parts_template d p s))
  collect_parts_lem p s h u =
      let b = parts-Binds d p s in
      let ((i, j), k) = b.parts h in
      let w = &&_true (joins_unary p.joins) (unary_nots p.filter && unary_nots p.having) u in
      let w' = &&_true (unary_nots p.filter) (unary_nots p.having) w.1 in
      ap (λ c. collect_expr p.having (collect_expr p.filter c))
        (collect_joins_lem p.joins [] i.1 w.0)
      ∙ ap (collect_expr p.having) (collect_clause (lit " WHERE ") p.filter _ j w'.0)
      ∙ collect_clause (lit " HAVING ") p.having _ k w'.1
      ∙ ap holding (sym b.same)

  collect_insert :
      (f : Fields)
      → collect_assignments f.assignments fresh ≡ holding (values (insert_template d f))
  collect_insert f =
      collect_assignments_lem f.assignments []
      ∙ ap holding (sym ((insert-Binds d f).same ∙ values-value_template f.assignments))

  collect_update :
      (f : Fields)
      → intact d (update_template d f) ≡ true
      → unary_nots f.predicate ≡ true
      → collect_expr f.predicate (collect_assignments f.assignments fresh)
        ≡ holding (values (update_template d f))
  collect_update f h u =
      let b = update-Binds d f in
      ap (collect_expr f.predicate) (
        collect_assignments_lem f.assignments []
        ∙ ap holding (sym (values-assignment_template f.assignments)))
      ∙ collect_clause (lit " WHERE ") f.predicate _ (b.parts h).1 u
      ∙ ap holding (sym b.same)

  collect_delete :
      (f : Fields)
      → intact d (delete_template f) ≡ true
      → unary_nots f.predicate ≡ true
      → collect_expr f.predicate fresh ≡ holding (values (delete_template f))
  collect_delete f h u =
      let b = delete-Binds d f in
      collect_clause (lit " WHERE ") f.predicate [] (b.parts h).1 u ∙ ap holding (sym b.same)

  collect_root_lem :
      (n : Node) (s : Bool)
      → intact d (root_template d n s) ≡ true
      → root_unary n ≡ true
      → collect_root n fresh ≡ holding (values (root_template d n s))
  unfolding root_template
  collect_root_lem no_node s h u = collect_parts_lem (flatten no_node no_parts) s h u
  collect_root_lem (node node_insert f i is) s h u = collect_insert f
  collect_root_lem (node node_upsert f i is) s h u = collect_insert f
  collect_root_lem (node node_update f i is) s h u = collect_update f h u
  collect_root_lem (node node_delete f i is) s h u = collect_delete f h u
  collect_root_lem (node k f i is) s h u =
      collect_parts_lem (flatten (node k f i is) no_parts) s h u

extract_from_lem :
    (n : Node) → is_no_node n ≡ false → extract_from n ≡ collected (collect_root n fresh)
extract_from_lem no_node h = absurd (cc)
extract_from_lem (node k f i is) h = refl

is_node :
    (pp : PhysicalPlan) (gen : GeneratedSql) → generate_sql pp ≡ ok gen → is_no_node pp.root ≡ false
unfolding generate_sql
is_node pp gen h = elim (Bool-cases (is_no_node pp.root)) [
  | inl e ↦ absurd (cc (rw e at h))
  | inr e ↦ e
]

-- The arguments that the collector finds in a plan are those that the generator bound.
pub extract_args-generate_sql :
    (pp : PhysicalPlan) (gen : GeneratedSql)
    → generate_sql pp ≡ ok gen
    → root_unary pp.root ≡ true
    → extract_args pp ≡ ok gen.params
unfolding extract_args
extract_args-generate_sql pp gen h u =
    let (text, params, i) = generate_sql-fill pp gen h in
    extract_from_lem pp.root (is_node pp gen h)
    ∙ ap collected (collect_root_lem pp.dialect pp.root pp.needs_synthetic_order_by i u)
    ∙ ap ok (sym params)
