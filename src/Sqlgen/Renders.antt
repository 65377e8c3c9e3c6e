-- ===== src/Sqlgen/Renders.antt =====
-- The generator refines the template: expressions.
pub mod Statement
use breezeorm.Prelude.{
  ◌≡◌, refl, none, some, List, [], ◌∷◌, ◌++◌, append-nil, arith, subst, sym, ap, ◌∙◌,
}
use breezeorm.Text.{Bytes, lit}
use breezeorm.Query.{
  Op, op_in, op_not_in, op_is_null, op_is_not_null, op_between, op_not, op_or, op_text, Predicate,
  Expr, nil, predicate, logical, raw, subquery, Exprs, none_left, cons, Value, is_nil,
}
use breezeorm.Dialect.{Dialect}
use breezeorm.Sqlgen.{Error, fail, SqlGen, write, check_raw_fragment, write_bind, quote_ident}
use breezeorm.Sqlgen.Expression.{
  slice_of, write_by_op, write_predicate, write_expr, write_first, write_children, write_more,
}
use breezeorm.Sqlgen.Template.{
  Template, Chunk, name, slot, inline, values, fill, op_template, expr_template, first_template,
  children_template, more_template,
}
use breezeorm.Sqlgen.Runs.{
  Runs, skip-Runs, ◌▸◌, write-Runs, write_bind-Runs, separated-Runs, quote_ident-accepted,
  write_name-Runs, raw_text-Runs,
}

module _ (d : Dialect) where
  write_by_op-Runs :
      (op : Op) {head : Chunk} (col : Bytes) (p : Predicate)
      → Runs d (head ∷ []) (write col)
      → Runs d (op_template op head p.op p.value) (write_by_op d op col p)
  unfolding op_template
  write_by_op-Runs op_is_null col p r = r ▸ write-Runs (lit " ") ▸ write-Runs _
  write_by_op-Runs op_is_not_null col p r = r ▸ write-Runs (lit " ") ▸ write-Runs _
  write_by_op-Runs op_in col p r =
      r
      ▸ write-Runs (lit " ")
      ▸ write-Runs _
      ▸ write-Runs (lit " (")
      ▸ separated-Runs _ _ _ write_bind-Runs (slice_of p.value)
      ▸ write-Runs (lit ")")
  write_by_op-Runs op_not_in col p r =
      r
      ▸ write-Runs (lit " ")
      ▸ write-Runs _
      ▸ write-Runs (lit " (")
      ▸ separated-Runs _ _ _ write_bind-Runs (slice_of p.value)
      ▸ write-Runs (lit ")")
  write_by_op-Runs op_between col p r =
      r
      ▸ write-Runs (lit " BETWEEN ")
      ▸ write_bind-Runs _
      ▸ write-Runs (lit " AND ")
      ▸ write_bind-Runs _
  write_by_op-Runs _ col p r =
      r ▸ write-Runs (lit " ") ▸ write-Runs _ ▸ write-Runs (lit " ") ▸ write_bind-Runs _

  pub write_predicate-Runs :
      (p : Predicate) → Runs d (op_template p.op (name p.column) p.op p.value) (write_predicate d p)
  unfolding write_predicate
  write_predicate-Runs p = record {
    at = λ g e.
        let col = (quote_ident d p.column g).0 in
        let back =
          (write_by_op-Runs p.op col p (write-Runs col)).at (quote_ident d p.column g).1 e in
        let (e', q, valid) = quote_ident-accepted d p.column g back.0 in
        rw q (
          (write_by_op-Runs p.op (d.quote_identifier p.column) p
              (write_name-Runs p.column valid)).at
            g (subst (λ r. (write_by_op d p.op r.0 p r.1).failed ≡ none) q e));
  }

  -- A guarded step: it does nothing once an error is set.
  guarded-Runs :
      (t : Template) (f h : SqlGen → SqlGen)
      → ((g : SqlGen) → f g ≡ elim g.failed [ some e ↦ g | none ↦ h g ])
      → Runs d t h
      → Runs d t f
  guarded-Runs t f h split p = record {
    at = λ g e.
        let ran : g.failed ≡ none = ground (arith, split g) in
        let same : f g ≡ h g = ground (arith, split g) in
        rw same (p.at g (ap (λ x. x.failed) (sym same) ∙ e));
  }

  fail-Runs : (t : Template) (x : Error) → Runs d t (fail x)
  fail-Runs t x = record { at = λ g e. absurd (cc) }

  append_params : List Value → SqlGen → SqlGen
  append_params vs g = record g { params = g.params ++ vs }

  raw-Runs :
      (sql : Bytes) (vs : List Value)
      → Runs d (inline sql vs ∷ []) (λ g. append_params vs (write sql (check_raw_fragment sql g)))
  unfolding append_params
  raw-Runs sql vs = record {
    at = λ g e.
        let (e', b, a, i) = (raw_text-Runs {d = d} sql).at g e in
        (e', b, rw (a, append-nil g.params, append-nil vs), i);
  }

  mutual
    unfolding write_expr expr_template append_params

    pub write_expr-Runs : (x : Expr) → Runs d (expr_template x) (write_expr d x)
    write_expr-Runs nil = guarded-Runs _ _ _ (λ g. refl) (fail-Runs _ _)
    write_expr-Runs (subquery k) = guarded-Runs _ _ _ (λ g. refl) (fail-Runs _ _)
    write_expr-Runs (predicate p) = guarded-Runs _ _ _ (λ g. refl) (write_predicate-Runs p)
    write_expr-Runs (raw sql params) = guarded-Runs _ _ _ (λ g. refl) (raw-Runs sql params)
    write_expr-Runs (logical op_not es) =
        guarded-Runs _ _ _ (λ g. refl)
          (write-Runs (lit "NOT (") ▸ write_first-Runs es ▸ write-Runs (lit ")"))
    write_expr-Runs (logical op_or es) =
        guarded-Runs _ _ _ (λ g. refl)
          (write-Runs (lit "(") ▸ write_children-Runs op_or es ▸ write-Runs (lit ")"))
    write_expr-Runs (logical op es) =
        guarded-Runs _ _ _ (λ g. refl)
          (write-Runs (lit "(") ▸ write_children-Runs op es ▸ write-Runs (lit ")"))

    write_first-Runs : (es : Exprs) → Runs d (first_template es) (write_first d es)
    write_first-Runs none_left = fail-Runs _ _
    write_first-Runs (cons e es) = write_expr-Runs e

    write_children-Runs :
        (op : Op) (es : Exprs) → Runs d (children_template op es) (write_children d op es)
    write_children-Runs op none_left = skip-Runs
    write_children-Runs op (cons e es) = write_expr-Runs e ▸ write_more-Runs op es

    write_more-Runs : (op : Op) (es : Exprs) → Runs d (more_template op es) (write_more d op es)
    write_more-Runs op none_left = skip-Runs
    write_more-Runs op (cons e es) =
        write-Runs (lit " ")
        ▸ write-Runs (op_text op)
        ▸ write-Runs (lit " ")
        ▸ write_expr-Runs e
        ▸ write_more-Runs op es
