-- ===== src/Sqlgen/Template.antt =====
-- The specification of the generator: a statement as a list of chunks, with no state, no counter
-- and no errors. A slot is where a placeholder stands, with the value that belongs to it.
pub mod Statement
use breezeorm.Prelude.{
  ℕ, zero, suc, ◌+◌, Bool, List, [], ◌∷◌, ◌++◌, map, length, if◌then◌else◌, is_empty, ◌≡◌, refl, ap,
  arith, true, false, not, ◌&&◌, length-append, append_assoc, append-nil,
}
use breezeorm.Text.{Bytes, lit, contains_byte}
use breezeorm.Query.{
  Op, op_in, op_not_in, op_is_null, op_is_not_null, op_between, op_not, op_text, Value, Predicate,
  Expr, nil, predicate, logical, raw, subquery, Exprs, none_left, cons, is_nil, Cte, SelectExpr,
  Join, join_text, OrderTerm, Assignment,
}
use breezeorm.Dialect.{Dialect}
use breezeorm.Planner.{
  Node, no_node, node, Fields, node_insert, node_update, node_delete, node_upsert,
}
use breezeorm.Planner.Flatten.{SelectParts, no_parts, flatten}
use breezeorm.Sqlgen.Expression.{slice_of, pair_first, pair_second}
use breezeorm.Sqlgen.Statement.{nulls_text, with_text}

-- `name` is an identifier, written quoted; `inline` is a raw fragment, which brings values and
-- writes no placeholder of its own; `broken` is an expression that cannot be rendered.
pub data Chunk : Type 0 where
  plain : Bytes → Chunk
  name : Bytes → Chunk
  broken : Chunk
  slot : Value → Chunk
  inline : Bytes → List Value → Chunk

abbrev pub Template : Type 0
Template = List Chunk

-- The values that a template binds, in order.
abbrev pub values : Template → List Value
values [] = []
values (plain s ∷ t) = values t
values (name s ∷ t) = values t
values (broken ∷ t) = values t
values (slot v ∷ t) = v ∷ values t
values (inline s vs ∷ t) = vs ++ values t

-- The text of a template behind `n` bound values: slot number k of the statement is placeholder k.
abbrev pub fill : Dialect → ℕ → Template → Bytes
fill d n [] = []
fill d n (plain s ∷ t) = s ++ fill d n t
fill d n (name s ∷ t) = d.quote_identifier s ++ fill d n t
fill d n (broken ∷ t) = fill d n t
fill d n (slot v ∷ t) = d.placeholder (suc n) ++ fill d (suc n) t
fill d n (inline s vs ∷ t) = s ++ fill d (n + length vs) t

-- Every identifier is one that the dialect accepts, no raw fragment holds a statement separator,
-- and nothing is broken.
abbrev pub intact : Dialect → Template → Bool
intact d [] = true
intact d (plain s ∷ t) = intact d t
intact d (name s ∷ t) = d.validate_identifier s && intact d t
intact d (broken ∷ t) = false
intact d (slot v ∷ t) = intact d t
intact d (inline s vs ∷ t) = not (contains_byte b';' s) && intact d t

pub intact-append : (d : Dialect) (t u : Template) → intact d (t ++ u) ≡ (intact d t && intact d u)
intact-append d [] u = refl
intact-append d (plain s ∷ t) u = intact-append d t u
intact-append d (name s ∷ t) u = ground (arith, intact-append d t u)
intact-append d (broken ∷ t) u = refl
intact-append d (slot v ∷ t) u = intact-append d t u
intact-append d (inline s vs ∷ t) u = ground (arith, intact-append d t u)

pub values-append : (t u : Template) → values (t ++ u) ≡ values t ++ values u
values-append [] u = refl
values-append (plain s ∷ t) u = values-append t u
values-append (name s ∷ t) u = values-append t u
values-append (broken ∷ t) u = values-append t u
values-append (slot v ∷ t) u = ap (◌∷◌ v) (values-append t u)
values-append (inline s vs ∷ t) u = rw (values-append t u, append_assoc)

pub fill-append :
    (d : Dialect) (n : ℕ) (t u : Template)
    → fill d n (t ++ u) ≡ fill d n t ++ fill d (n + length (values t)) u
fill-append d n [] u = ap (λ k. fill d k u) (omega arith)
fill-append d n (plain s ∷ t) u = rw (fill-append d n t u, append_assoc)
fill-append d n (name s ∷ t) u = rw (fill-append d n t u, append_assoc)
fill-append d n (broken ∷ t) u = fill-append d n t u
fill-append d n (slot v ∷ t) u =
    let e : suc n + length (values t) ≡ n + suc (length (values t)) = omega arith in
    rw (fill-append d (suc n) t u, e, append_assoc)
fill-append d n (inline s vs ∷ t) u =
    let e : n + length vs + length (values t) ≡ n + length (vs ++ values t) =
      omega (arith, length-append vs (values t)) in
    rw (fill-append d (n + length vs) t u, e, append_assoc)

-- The elements' templates, with a separator before each but the first.
abbrev pub separated_template {ℓ} : {A : Type ℓ} → Bytes → (A → Template) → List A → Template
separated_template sep f [] = []
separated_template sep f (x ∷ []) = f x
separated_template sep f (x ∷ y ∷ xs) = f x ++ (plain sep ∷ []) ++ separated_template sep f (y ∷ xs)

abbrev pub words : Bytes → Template
words s = plain s ∷ []

abbrev pub ident : Bytes → Template
ident s = name s ∷ []

abbrev pub slots : List Value → Template
slots vs = separated_template (lit ", ") (λ v. slot v ∷ []) vs

unfoldable pub op_template : Op → Chunk → Op → Value → Template
op_template op_is_null col op v = (col ∷ []) ++ words (lit " ") ++ words (op_text op)
op_template op_is_not_null col op v = (col ∷ []) ++ words (lit " ") ++ words (op_text op)
op_template op_in col op v =
    (col ∷ [])
    ++ words (lit " ")
    ++ words (op_text op)
    ++ words (lit " (")
    ++ slots (slice_of v)
    ++ words (lit ")")
op_template op_not_in col op v =
    (col ∷ [])
    ++ words (lit " ")
    ++ words (op_text op)
    ++ words (lit " (")
    ++ slots (slice_of v)
    ++ words (lit ")")
op_template op_between col op v =
    (col ∷ [])
    ++ words (lit " BETWEEN ")
    ++ (slot (pair_first v) ∷ [])
    ++ words (lit " AND ")
    ++ (slot (pair_second v) ∷ [])
op_template _ col op v =
    (col ∷ []) ++ words (lit " ") ++ words (op_text op) ++ words (lit " ") ++ (slot v ∷ [])

unfoldable mutual
  pub expr_template : Expr → Template
  expr_template nil = broken ∷ []
  expr_template (subquery k) = broken ∷ []
  expr_template (predicate p) = op_template p.op (name p.column) p.op p.value
  expr_template (raw sql params) = inline sql params ∷ []
  expr_template (logical op_not es) = words (lit "NOT (") ++ first_template es ++ words (lit ")")
  expr_template (logical op es) = words (lit "(") ++ children_template op es ++ words (lit ")")

  pub first_template : Exprs → Template
  first_template none_left = broken ∷ []
  first_template (cons e es) = expr_template e

  pub children_template : Op → Exprs → Template
  children_template op none_left = []
  children_template op (cons e es) = expr_template e ++ more_template op es

  pub more_template : Op → Exprs → Template
  more_template op none_left = []
  more_template op (cons e es) =
      words (lit " ")
      ++ words (op_text op)
      ++ words (lit " ")
      ++ expr_template e
      ++ more_template op es
