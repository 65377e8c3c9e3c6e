-- ===== src/Optimizer/Binds/Simplify.antt =====
-- Simplifying a predicate changes neither what it binds nor the operands of its NOTs.
use breezeorm.Prelude.{
  Bool, true, false, ◌&&◌, ◌≡◌, refl, sym, ap, ◌∙◌, Option-cases, inl, inr, none, some,
}
use breezeorm.Query.{
  Op, op_and, op_or, op_not, Expr, nil, predicate, logical, raw, subquery, Exprs, none_left, cons,
}
use breezeorm.Sqlgen.Args.{ArgCollector, collect_expr, collect_children}
use breezeorm.Sqlgen.Matches.{unary_nots, all_unary_nots}
use breezeorm.Optimizer.{simplify_expr, simplify_all, collapse}

-- A group of one binds what its member binds.
collect_expr-group :
    (op : Op) (e : Expr) (c : ArgCollector)
    → collect_expr (logical op (cons e none_left)) c ≡ collect_expr e c
unfolding collect_expr collect_children
collect_expr-group op nil c = elim (Option-cases c.failed) [ inl h ↦ rw (h) | inr (x, h) ↦ rw (h) ]
collect_expr-group op (predicate p) c = elim (Option-cases c.failed) [
  | inl h ↦ rw (h)
  | inr (x, h) ↦ rw (h)
]
collect_expr-group op (logical o es) c = elim (Option-cases c.failed) [
  | inl h ↦ rw (h)
  | inr (x, h) ↦ rw (h)
]
collect_expr-group op (raw s ps) c = elim (Option-cases c.failed) [
  | inl h ↦ rw (h)
  | inr (x, h) ↦ rw (h)
]
collect_expr-group op (subquery k) c = elim (Option-cases c.failed) [
  | inl h ↦ rw (h)
  | inr (x, h) ↦ rw (h)
]

collect_expr-collapse :
    (op : Op) (es : Exprs) (c : ArgCollector)
    → collect_expr (collapse op es) c ≡ collect_expr (logical op es) c
unfolding collapse
collect_expr-collapse op_and (cons e none_left) c = sym (collect_expr-group op_and e c)
collect_expr-collapse op_or (cons e none_left) c = sym (collect_expr-group op_or e c)
collect_expr-collapse op none_left c = refl
collect_expr-collapse op (cons e (cons e2 es)) c = refl
collect_expr-collapse op (cons e none_left) c = refl

collect_expr-logical :
    (op : Op) (es fs : Exprs) (c : ArgCollector)
    → collect_children es c ≡ collect_children fs c
    → collect_expr (logical op es) c ≡ collect_expr (logical op fs) c
unfolding collect_expr
collect_expr-logical op es fs c h = ap (λ d. elim c.failed [ some e ↦ c | none ↦ d ]) h

mutual
  unfolding simplify_expr simplify_all collect_children

  pub collect_expr-simplified :
      (e : Expr) (c : ArgCollector) → collect_expr (simplify_expr e) c ≡ collect_expr e c
  collect_expr-simplified nil c = refl
  collect_expr-simplified (predicate p) c = refl
  collect_expr-simplified (raw s ps) c = refl
  collect_expr-simplified (subquery k) c = refl
  collect_expr-simplified (logical op es) c =
      collect_expr-collapse op (simplify_all es) c
      ∙ collect_expr-logical op (simplify_all es) es c (collect_children-simplified es c)

  collect_children-simplified :
      (es : Exprs) (c : ArgCollector) → collect_children (simplify_all es) c ≡ collect_children es c
  collect_children-simplified none_left c = refl
  collect_children-simplified (cons e es) c =
      ap (collect_children (simplify_all es)) (collect_expr-simplified e c)
      ∙ collect_children-simplified es (collect_expr e c)

&&_true_right : (b : Bool) → (b && true) ≡ b
&&_true_right true = refl
&&_true_right false = refl

unary_nots-collapse :
    (op : Op) (es : Exprs) → unary_nots (collapse op es) ≡ unary_nots (logical op es)
unfolding collapse unary_nots all_unary_nots
unary_nots-collapse op_and (cons e none_left) = sym (&&_true_right (unary_nots e))
unary_nots-collapse op_or (cons e none_left) = sym (&&_true_right (unary_nots e))
unary_nots-collapse op none_left = refl
unary_nots-collapse op (cons e (cons e2 es)) = refl
unary_nots-collapse op (cons e none_left) = refl

mutual
  unfolding simplify_expr simplify_all collapse unary_nots all_unary_nots

  pub unary_nots-simplified : (e : Expr) → unary_nots (simplify_expr e) ≡ unary_nots e
  unary_nots-simplified nil = refl
  unary_nots-simplified (predicate p) = refl
  unary_nots-simplified (raw s ps) = refl
  unary_nots-simplified (subquery k) = refl
  unary_nots-simplified (logical op_not none_left) = refl
  unary_nots-simplified (logical op_not (cons e none_left)) = unary_nots-simplified e
  unary_nots-simplified (logical op_not (cons e (cons f es))) = refl
  unary_nots-simplified (logical op es) =
      unary_nots-collapse op (simplify_all es) ∙ all_unary_nots-simplified es

  all_unary_nots-simplified : (es : Exprs) → all_unary_nots (simplify_all es) ≡ all_unary_nots es
  all_unary_nots-simplified none_left = refl
  all_unary_nots-simplified (cons e es) =
      ap (λ b. b && all_unary_nots (simplify_all es)) (unary_nots-simplified e)
      ∙ ap (λ b. unary_nots e && b) (all_unary_nots-simplified es)
