-- ===== src/Compiler/Shape.antt =====
-- The key of a query does not depend on the values that it binds.
use breezeorm.Prelude.{◌≡◌, refl, List, [], ◌∷◌, map, Option, none, some}
use breezeorm.Prelude.Int.{pos}
use breezeorm.Text.{Bytes}
use breezeorm.Query.{
  Expr, nil, predicate, logical, raw, subquery, Exprs, none_left, cons, scalar, null, Value, Join,
  Assignment,
}
use breezeorm.Query.Builder.{Builder}
use breezeorm.Compiler.Keys.{
  expr_stream, exprs_stream, each, join_stream, name_stream, pre_stream, is_set, upsert_stream,
}

-- A query with every value that it binds made NULL, however many a condition or a fragment binds.
unfoldable mutual
  pub blank_expr : Expr → Expr
  blank_expr nil = nil
  blank_expr (predicate p) = predicate (record p { value = scalar null })
  blank_expr (logical op es) = logical op (blank_exprs es)
  blank_expr (raw sql params) = raw sql []
  blank_expr (subquery k) = subquery k

  pub blank_exprs : Exprs → Exprs
  blank_exprs none_left = none_left
  blank_exprs (cons e es) = cons (blank_expr e) (blank_exprs es)

abbrev pub blank_join : Join → Join
blank_join j = record j { condition = blank_expr j.condition }

abbrev pub blank_assignment : Assignment → Assignment
blank_assignment a = record a { value = scalar null }

abbrev pub blank_cursor : Option Value → Option Value
blank_cursor none = none
blank_cursor (some v) = some (scalar null)

abbrev pub blank : Builder → Builder
blank b = record b {
  joins = map blank_join b.joins;
  filter = blank_expr b.filter;
  having = blank_expr b.having;
  limit_n = pos 0;
  offset_n = pos 0;
  assignments = map blank_assignment b.assignments;
  cursor_after = blank_cursor b.cursor_after;
}

mutual
  unfolding expr_stream exprs_stream blank_expr blank_exprs

  expr_stream-blank_expr : (e : Expr) → expr_stream (blank_expr e) ≡ expr_stream e
  expr_stream-blank_expr nil = refl
  expr_stream-blank_expr (predicate p) = refl
  expr_stream-blank_expr (logical op es) = rw (exprs_stream-blank_exprs es)
  expr_stream-blank_expr (raw sql params) = refl
  expr_stream-blank_expr (subquery k) = refl

  exprs_stream-blank_exprs :
      (es : Exprs) (rest : Bytes) → exprs_stream (blank_exprs es) rest ≡ exprs_stream es rest
  exprs_stream-blank_exprs none_left rest = refl
  exprs_stream-blank_exprs (cons e es) rest =
      rw (expr_stream-blank_expr e, exprs_stream-blank_exprs es rest)

each-map {ℓ} :
    {A : Type ℓ} (f : A → Bytes) (g : A → A)
    → ((x : A) → f (g x) ≡ f x)
    → (xs : List A) → each f (map g xs) ≡ each f xs
unfolding each
each-map f g h [] = refl
each-map f g h (x ∷ xs) = rw (h x, each-map f g h xs)

join_stream-blank_join : (j : Join) → join_stream (blank_join j) ≡ join_stream j
join_stream-blank_join j = rw (expr_stream-blank_expr j.condition)

is_set-blank_cursor : (c : Option Value) → is_set (blank_cursor c) ≡ is_set c
is_set-blank_cursor none = refl
is_set-blank_cursor (some v) = refl

-- `PreHash` hashes the same bytes for a query and for the query with every bound value made NULL,
-- limit and offset made zero, and lists and fragments left without their values: queries that agree
-- but for these share one key.
pub pre_stream-blank :
    (b : Builder) (dialect_name : Bytes)
    → pre_stream (blank b) dialect_name ≡ pre_stream b dialect_name
unfolding pre_stream upsert_stream
pre_stream-blank b dialect_name = rw (
  each-map join_stream blank_join join_stream-blank_join b.joins,
  expr_stream-blank_expr b.filter,
  expr_stream-blank_expr b.having,
  each-map (λ (a : Assignment). name_stream a.column) blank_assignment (λ a. refl) b.assignments,
  is_set-blank_cursor b.cursor_after,
)
