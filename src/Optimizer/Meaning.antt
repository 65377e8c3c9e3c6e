-- ===== src/Optimizer/Meaning.antt =====
-- The passes on predicates keep the meaning: the truth value of a condition on every row.
use breezeorm.Prelude.{
  true, ◌≡◌, refl, sym, ap, ◌∙◌, List, [], ◌∷◌, reverse_aux, Bool-cases, inl, inr,
}
use breezeorm.Text.{Bytes, bytes_eq, bytes_lt, bytes_eq_lem}
use breezeorm.Query.{
  Op, op_and, op_or, op_not, Expr, nil, predicate, logical, raw, subquery, Exprs, none_left, cons,
  to_list, of_list,
}
use breezeorm.Query.Eval.{
  Truth, yes_t, unknown, no_t, both, either, negate, Leaves, eval, eval_first, eval_any, eval_all,
}
use breezeorm.Optimizer.{
  simplify_expr, simplify_all, collapse, dedupe, dedupe_and, has_key, canonical_and, sort_exprs,
  sort_from, sift,
}
use breezeorm.Optimizer.Keys.{expr_key, expr_identity_key}

both_yes_t : (a : Truth) → both a yes_t ≡ a
both_yes_t yes_t = refl
both_yes_t unknown = refl
both_yes_t no_t = refl

either_no_t : (a : Truth) → either a no_t ≡ a
either_no_t yes_t = refl
either_no_t unknown = refl
either_no_t no_t = refl

both_comm : (a b : Truth) → both a b ≡ both b a
both_comm yes_t yes_t = refl
both_comm yes_t unknown = refl
both_comm yes_t no_t = refl
both_comm unknown yes_t = refl
both_comm unknown unknown = refl
both_comm unknown no_t = refl
both_comm no_t yes_t = refl
both_comm no_t unknown = refl
both_comm no_t no_t = refl

both_assoc : (a b c : Truth) → both (both a b) c ≡ both a (both b c)
both_assoc yes_t b c = refl
both_assoc no_t b c = refl
both_assoc unknown yes_t c = refl
both_assoc unknown no_t c = refl
both_assoc unknown unknown yes_t = refl
both_assoc unknown unknown unknown = refl
both_assoc unknown unknown no_t = refl

both_idem : (a : Truth) → both a a ≡ a
both_idem yes_t = refl
both_idem unknown = refl
both_idem no_t = refl

-- A group is worth the same whether a member alone is unwrapped or not.
eval-collapse :
    (v : Leaves) (op : Op) (es : Exprs) → eval v (collapse op es) ≡ eval v (logical op es)
unfolding collapse eval
eval-collapse v op_and (cons e none_left) = sym (both_yes_t (eval v e))
eval-collapse v op_or (cons e none_left) = sym (either_no_t (eval v e))
eval-collapse v op none_left = refl
eval-collapse v op (cons e (cons e2 es)) = refl
eval-collapse v op (cons e none_left) = refl

-- An operator reads its operands through their values only.
eval-logical :
    (v : Leaves) (op : Op) (es fs : Exprs)
    → eval_first v es ≡ eval_first v fs
    → eval_any v es ≡ eval_any v fs
    → eval_all v es ≡ eval_all v fs
    → eval v (logical op es) ≡ eval v (logical op fs)
unfolding eval
eval-logical v op_not es fs p q r = ap negate p
eval-logical v op_or es fs p q r = q
eval-logical v op es fs p q r = r

mutual
  unfolding eval eval_first eval_any eval_all simplify_expr simplify_all

  eval-simplified : (v : Leaves) (e : Expr) → eval v (simplify_expr e) ≡ eval v e
  eval-simplified v nil = refl
  eval-simplified v (predicate p) = refl
  eval-simplified v (raw sql params) = refl
  eval-simplified v (subquery k) = refl
  eval-simplified v (logical op es) =
      eval-collapse v op (simplify_all es)
      ∙ eval-logical v op _ es (first-simplified v es) (any-simplified v es) (all-simplified v es)

  first-simplified : (v : Leaves) (es : Exprs) → eval_first v (simplify_all es) ≡ eval_first v es
  first-simplified v none_left = refl
  first-simplified v (cons e es) = eval-simplified v e

  any-simplified : (v : Leaves) (es : Exprs) → eval_any v (simplify_all es) ≡ eval_any v es
  any-simplified v none_left = refl
  any-simplified v (cons e es) =
      ap (λ t. either t (eval_any v (simplify_all es))) (eval-simplified v e)
      ∙ ap (either (eval v e)) (any-simplified v es)

  all-simplified : (v : Leaves) (es : Exprs) → eval_all v (simplify_all es) ≡ eval_all v es
  all-simplified v none_left = refl
  all-simplified v (cons e es) =
      ap (λ t. both t (eval_all v (simplify_all es))) (eval-simplified v e)
      ∙ ap (both (eval v e)) (all-simplified v es)

-- Simplifying a predicate keeps its truth value, whatever the leaves are worth.
pub eval-simplify_expr : (v : Leaves) (e : Expr) → eval v (simplify_expr e) ≡ eval v e
eval-simplify_expr v e = eval-simplified v e

eval_all-sift :
    (v : Leaves) (x : Expr) (ps : List Expr)
    → eval_all v (of_list (sift x ps)) ≡ both (eval v x) (eval_all v (of_list ps))
unfolding sift eval_all
eval_all-sift v x [] = refl
eval_all-sift v x (p ∷ ps) =
    let swap : both (eval v p) (eval_all v (of_list (sift x ps)))
        ≡ both (eval v x) (both (eval v p) (eval_all v (of_list ps))) =
      ap (both (eval v p)) (eval_all-sift v x ps)
      ∙ sym (both_assoc (eval v p) (eval v x) _)
      ∙ ap (λ t. both t (eval_all v (of_list ps))) (both_comm (eval v p) (eval v x))
      ∙ both_assoc (eval v x) (eval v p) _ in
    elim (Bool-cases (bytes_lt (expr_key x) (expr_key p))) [ inl e ↦ rw (e, swap) | inr e ↦ rw (e) ]

eval_all-reverse_aux :
    (v : Leaves) (xs acc : List Expr)
    → eval_all v (of_list (reverse_aux xs acc))
      ≡ both (eval_all v (of_list xs)) (eval_all v (of_list acc))
unfolding eval_all
eval_all-reverse_aux v [] acc = refl
eval_all-reverse_aux v (x ∷ xs) acc =
    eval_all-reverse_aux v xs (x ∷ acc)
    ∙ sym (both_assoc (eval_all v (of_list xs)) (eval v x) _)
    ∙ ap (λ t. both t (eval_all v (of_list acc))) (both_comm (eval_all v (of_list xs)) (eval v x))

eval_all-sort_from :
    (v : Leaves) (prefix xs : List Expr)
    → eval_all v (of_list (sort_from prefix xs))
      ≡ both (eval_all v (of_list prefix)) (eval_all v (of_list xs))
unfolding sort_from eval_all
eval_all-sort_from v prefix [] = eval_all-reverse_aux v prefix []
eval_all-sort_from v prefix (x ∷ xs) =
    eval_all-sort_from v (sift x prefix) xs
    ∙ ap (λ t. both t (eval_all v (of_list xs))) (eval_all-sift v x prefix ∙ both_comm (eval v x) _)
    ∙ both_assoc (eval_all v (of_list prefix)) (eval v x) _

pub of_list-to_list : (es : Exprs) → of_list (to_list es) ≡ es
of_list-to_list none_left = refl
of_list-to_list (cons e es) = ap (cons e) (of_list-to_list es)

-- Putting the operands of a top-level AND in the order of their keys keeps its truth value.
pub eval-canonical_and : (v : Leaves) (e : Expr) → eval v (canonical_and e) ≡ eval v e
unfolding canonical_and sort_exprs eval eval_all
eval-canonical_and v (logical op_and es) =
    eval_all-sort_from v [] (to_list es) ∙ ap (eval_all v) (of_list-to_list es)
eval-canonical_and v (logical op es) = refl
eval-canonical_and v nil = refl
eval-canonical_and v (predicate p) = refl
eval-canonical_and v (raw sql params) = refl
eval-canonical_and v (subquery k) = refl

-- An operand that has the key of `c` has the truth value of `c`, and so for every operand and
-- those behind it.
abbrev pub Alike : Leaves → Expr → Exprs → Type 0
Alike v c none_left = Unit
Alike v c (cons e es) =
    (expr_identity_key c ≡ expr_identity_key e → eval v c ≡ eval v e) × Alike v c es

abbrev pub KeysTell : Leaves → Exprs → Type 0
KeysTell v none_left = Unit
KeysTell v (cons c cs) = Alike v c cs × KeysTell v cs

-- The operands whose key was seen add nothing to `t`.
abbrev Absorbed : Leaves → List Bytes → Truth → Exprs → Type 0
Absorbed v seen t none_left = Unit
Absorbed v seen t (cons c cs) =
    (has_key (expr_identity_key c) seen ≡ true → both t (eval v c) ≡ t) × Absorbed v seen t cs

Absorbed-nil : (v : Leaves) (cs : Exprs) → Absorbed v [] yes_t cs
unfolding has_key
Absorbed-nil v none_left = tt
Absorbed-nil v (cons c cs) = ((λ h. absurd (cc)), Absorbed-nil v cs)

Absorbed-cons :
    (v : Leaves) (seen : List Bytes) (t : Truth) (c : Expr) (cs : Exprs)
    → Absorbed v seen t cs
    → Alike v c cs
    → Absorbed v (expr_identity_key c ∷ seen) (both t (eval v c)) cs
unfolding has_key
Absorbed-cons v seen t c none_left a k = tt
Absorbed-cons v seen t c (cons e es) (a, rest) (k, ks) =
    let old : has_key (expr_identity_key e) seen ≡ true
        → both (both t (eval v c)) (eval v e) ≡ both t (eval v c) =
      λ h.
        both_assoc t (eval v c) (eval v e)
        ∙ ap (both t) (both_comm (eval v c) (eval v e))
        ∙ sym (both_assoc t (eval v e) (eval v c))
        ∙ ap (λ u. both u (eval v c)) (a h) in
    let new : bytes_eq (expr_identity_key e) (expr_identity_key c) ≡ true
        → both (both t (eval v c)) (eval v e) ≡ both t (eval v c) =
      λ h.
        both_assoc t (eval v c) (eval v e)
        ∙ ap (both t)
            (ap (both (eval v c)) (sym (k (sym (bytes_eq_lem _ _ h)))) ∙ both_idem (eval v c)) in
    (
      (λ h. elim (Bool-cases (bytes_eq (expr_identity_key e) (expr_identity_key c))) [
        | inl s ↦ new s
        | inr s ↦ old (sym (rw (s)) ∙ h)
      ]),
      Absorbed-cons v seen t c es rest ks,
    )

eval_all-dedupe :
    (v : Leaves) (seen : List Bytes) (t : Truth) (cs : Exprs)
    → Absorbed v seen t cs
    → KeysTell v cs
    → both t (eval_all v (dedupe seen cs)) ≡ both t (eval_all v cs)
unfolding dedupe eval_all
eval_all-dedupe v seen t none_left a k = refl
eval_all-dedupe v seen t (cons c cs) (a, rest) (k, ks) =
    elim (Bool-cases (has_key (expr_identity_key c) seen)) [
      | inl h ↦ rw (
        h,
        eval_all-dedupe v seen t cs rest ks
            ∙ ap (λ u. both u (eval_all v cs)) (sym (a h))
            ∙ both_assoc t (eval v c) (eval_all v cs),
      )
      | inr h ↦ rw (
        h,
        sym (both_assoc t (eval v c) _)
            ∙ eval_all-dedupe v (expr_identity_key c ∷ seen) (both t (eval v c)) cs
                (Absorbed-cons v seen t c cs rest k) ks
            ∙ both_assoc t (eval v c) _,
      )
    ]

-- Dropping the operands of a top-level AND whose identity key an earlier one has keeps its truth
-- value, where operands with equal keys have equal truth values.
pub eval-dedupe_and :
    (v : Leaves) (es : Exprs)
    → KeysTell v es
    → eval v (dedupe_and (logical op_and es)) ≡ eval v (logical op_and es)
unfolding dedupe_and eval
eval-dedupe_and v es k = eval_all-dedupe v [] yes_t es (Absorbed-nil v es) k
