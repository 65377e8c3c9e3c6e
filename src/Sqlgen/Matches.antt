-- ===== src/Sqlgen/Matches.antt =====
-- The argument collector agrees with the generator: what it collects are the values of the
-- template, wherever the template is intact and no NOT has more than one operand.
pub mod Clauses
pub mod Root
use breezeorm.Prelude.{
  &&_true, ℕ, ◌+◌, Bool, true, false, ◌&&◌, List, [], ◌∷◌, ◌++◌, none, some, map, is_empty, length,
  if◌then◌else◌, ◌≡◌, refl, sym, ap, ◌∙◌, arith, append_assoc, append-nil, length-append, subst,
}
use breezeorm.Text.{Bytes, lit}
use breezeorm.Query.{
  Op, op_in, op_not_in, op_is_null, op_is_not_null, op_between, op_not, op_or, op_text, Scalar,
  scalar, Value, slice, Predicate, Expr, nil, predicate, logical, raw, subquery, Exprs, none_left,
  cons, is_nil, Join, Assignment,
}
use breezeorm.Dialect.{Dialect}
use breezeorm.Planner.{
  Node, no_node, node, Fields, node_insert, node_update, node_delete, node_upsert,
}
use breezeorm.Planner.Flatten.{SelectParts, no_parts, flatten}
use breezeorm.Planner.Physical.{PhysicalPlan}
use breezeorm.Sqlgen.{Result, ok, err, GeneratedSql}
use breezeorm.Sqlgen.Statement.{generate_sql}
use breezeorm.Sqlgen.Expression.{slice_of}
use breezeorm.Sqlgen.Args.{
  ArgCollector, fresh, bind, bind_all, collect_assignments, collect_by_op, collect_expr,
  collect_children, collect_joins, collect_parts, collect_root, collected, extract_args,
  expr_arg_count, children_arg_count, op_arg_count,
}
use breezeorm.Sqlgen.Template.{
  Template, Chunk, name, slot, inline, values, intact, intact-append, values-append, op_template,
  expr_template, first_template, children_template, more_template, separated_template, slots, words,
}
use breezeorm.Sqlgen.Template.Statement.{
  root_template, parts_template, insert_template, update_template, delete_template,
  assignment_template, value_template, clause, joins_template, join_template,
}
use breezeorm.Sqlgen.Renders.Statement.{generate_sql-fill}

-- No NOT has more than one operand, as `Not` builds them.
unfoldable mutual
  pub unary_nots : Expr → Bool
  unary_nots (logical op_not none_left) = true
  unary_nots (logical op_not (cons e none_left)) = unary_nots e
  unary_nots (logical op_not (cons e (cons e' es))) = false
  unary_nots (logical op es) = all_unary_nots es
  unary_nots _ = true

  pub all_unary_nots : Exprs → Bool
  all_unary_nots none_left = true
  all_unary_nots (cons e es) = unary_nots e && all_unary_nots es

-- A collector that met no error.
abbrev pub holding : List Value → ArgCollector
holding vs = record { params = vs; failed = none }

pub values-slots : (vs : List Value) → values (slots vs) ≡ vs
values-slots [] = refl
values-slots (v ∷ []) = refl
values-slots (v ∷ w ∷ vs) = ap (◌∷◌ v) (values-slots (w ∷ vs))

values-slots-append : (vs : List Value) (t : Template) → values (slots vs ++ t) ≡ vs ++ values t
values-slots-append vs t = rw (values-append (slots vs) t, values-slots vs)

bind_all_lem : (ws vs : List Value) → bind_all ws (holding vs) ≡ holding (vs ++ ws)
unfolding bind_all bind
bind_all_lem [] vs = rw (append-nil vs)
bind_all_lem (w ∷ ws) vs = rw (bind_all_lem ws, append_assoc)

collect_by_op_lem :
    (op : Op) (head : Bytes) (op' : Op) (v : Value) (vs : List Value)
    → collect_by_op op v (holding vs) ≡ holding (vs ++ values (op_template op (name head) op' v))
unfolding collect_by_op bind op_template
collect_by_op_lem op_is_null head op' v vs = rw (append-nil vs)
collect_by_op_lem op_is_not_null head op' v vs = rw (append-nil vs)
collect_by_op_lem op_in head op' v vs =
    rw (bind_all_lem, values-slots-append (slice_of v), append-nil)
collect_by_op_lem op_not_in head op' v vs =
    rw (bind_all_lem, values-slots-append (slice_of v), append-nil)
collect_by_op_lem op_between head op' v vs = rw append_assoc
collect_by_op_lem _ head op' v vs = refl

-- The children behind an operator bind what the children alone bind, and are intact as they are.
values-framed : (t : Template) (s : Bytes) → values (t ++ words s) ≡ values t
values-framed t s = rw (values-append t (words s), append-nil)

pub intact-split :
    (d : Dialect) (t u : Template)
    → intact d (t ++ u) ≡ true
    → (intact d t ≡ true) × (intact d u ≡ true)
intact-split d t u h = ground (arith, intact-append d t u)

intact-framed :
    (d : Dialect) (t : Template) (s : Bytes) → intact d (t ++ words s) ≡ true → intact d t ≡ true
intact-framed d t s h = ground (arith, intact-append d t (words s))

module _ (d : Dialect) where
  mutual
    unfolding collect_expr expr_template unary_nots

    pub collect_expr_lem :
        (e : Expr) (vs : List Value)
        → intact d (expr_template e) ≡ true
        → unary_nots e ≡ true
        → collect_expr e (holding vs) ≡ holding (vs ++ values (expr_template e))
    collect_expr_lem nil vs h u = absurd (cc)
    collect_expr_lem (subquery k) vs h u = absurd (cc)
    collect_expr_lem (predicate p) vs h u = collect_by_op_lem p.op p.column p.op p.value vs
    collect_expr_lem (raw sql params) vs h u = rw (append-nil params)
    collect_expr_lem (logical op_not none_left) vs h u = absurd (cc)
    collect_expr_lem (logical op_not (cons e none_left)) vs h u =
        rw (values-framed (expr_template e) (lit ")"))
          (collect_expr_lem e vs (intact-framed d (expr_template e) (lit ")") h) u)
    collect_expr_lem (logical op_not (cons e (cons e' es))) vs h u = absurd (cc)
    collect_expr_lem (logical op_or es) vs h u =
        rw (values-framed (children_template op_or es) (lit ")")) (
          collect_children_lem op_or es vs
            (intact-framed d (children_template op_or es) (lit ")") h) u)
    collect_expr_lem (logical op es) vs h u =
        rw (values-framed (children_template op es) (lit ")"))
          (collect_children_lem op es vs (intact-framed d (children_template op es) (lit ")") h) u)

    collect_children_lem :
        (op : Op) (es : Exprs) (vs : List Value)
        → intact d (children_template op es) ≡ true
        → all_unary_nots es ≡ true
        → collect_children es (holding vs) ≡ holding (vs ++ values (children_template op es))
    collect_children_lem op none_left vs h u = rw (append-nil vs)
    collect_children_lem op (cons e es) vs h u =
        let i = intact-split d (expr_template e) (more_template op es) h in
        let w = &&_true (unary_nots e) (all_unary_nots es) u in
        rw (collect_expr_lem e vs i.0 w.0, values-append (expr_template e), ← append_assoc)
          (collect_more_lem op es (vs ++ values (expr_template e)) i.1 w.1)

    collect_more_lem :
        (op : Op) (es : Exprs) (vs : List Value)
        → intact d (more_template op es) ≡ true
        → all_unary_nots es ≡ true
        → collect_children es (holding vs) ≡ holding (vs ++ values (more_template op es))
    collect_more_lem op none_left vs h u = rw (append-nil vs)
    collect_more_lem op (cons e es) vs h u =
        let i = intact-split d (expr_template e) (more_template op es) h in
        let w = &&_true (unary_nots e) (all_unary_nots es) u in
        rw (collect_expr_lem e vs i.0 w.0, values-append (expr_template e), ← append_assoc)
          (collect_more_lem op es (vs ++ values (expr_template e)) i.1 w.1)
