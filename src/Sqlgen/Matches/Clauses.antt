-- ===== src/Sqlgen/Matches/Clauses.antt =====
-- What the clauses of a SELECT bind: the silent ones nothing, the others their values.
use breezeorm.Prelude.{
  Bool, true, false, List, [], ◌∷◌, ◌++◌, is_empty, Bool-cases, inl, inr, if◌then◌else◌, ◌≡◌, refl,
  arith, append-nil,
}
use breezeorm.Text.{Bytes, lit}
use breezeorm.Query.{Value, join_text, Cte, SelectExpr, Join, OrderTerm}
use breezeorm.Dialect.{Dialect}
use breezeorm.Planner.Flatten.{SelectParts}
use breezeorm.Sqlgen.Template.{
  Template, values, intact, values-append, separated_template, words, ident,
}
use breezeorm.Sqlgen.Template.Statement.{
  parts_template, clause, joins_template, join_template, suffix, idents, ctes_template,
  cte_template, projections_template, projection_template, order_by_template, order_template,
}
use breezeorm.Sqlgen.Matches.{intact-split}

-- A template that binds nothing.
abbrev pub IsSilent : Template → Type 0
IsSilent t = values t ≡ []

IsSilent-append : (t u : Template) → IsSilent t → IsSilent u → IsSilent (t ++ u)
IsSilent-append t u h k = rw (values-append t u, h, k)

IsSilent-separated {ℓ} :
    {A : Type ℓ} (sep : Bytes) (f : A → Template) (xs : List A)
    → ((x : A) → IsSilent (f x))
    → IsSilent (separated_template sep f xs)
IsSilent-separated sep f [] h = refl
IsSilent-separated sep f (x ∷ []) h = h x
IsSilent-separated sep f (x ∷ y ∷ xs) h =
    IsSilent-append (f x ++ words sep) _ (IsSilent-append (f x) (words sep) (h x) refl)
      (IsSilent-separated sep f (y ∷ xs) h)

pub IsSilent-suffix : (s : Bytes) → IsSilent (suffix s)
IsSilent-suffix [] = refl
IsSilent-suffix (b ∷ s) = refl

pub IsSilent-idents : (ns : List Bytes) → IsSilent (idents ns)
IsSilent-idents ns = IsSilent-separated (lit ", ") ident ns (λ n. refl)

IsSilent-cte : (c : Cte) → IsSilent (cte_template c)
IsSilent-cte c = elim (Bool-cases (is_empty c.columns)) [
  | inl e ↦ rw e
  | inr e ↦ rw e (
      IsSilent-append (separated_template (lit ", ") ident c.columns ++ words (lit ")")) _
        (IsSilent-append (separated_template (lit ", ") ident c.columns) _
          (IsSilent-idents c.columns) refl)
        refl)
]

IsSilent-ctes : (cs : List Cte) → IsSilent (ctes_template cs)
IsSilent-ctes [] = refl
IsSilent-ctes (c ∷ cs) =
    IsSilent-append (separated_template (lit ", ") cte_template (c ∷ cs)) (words (lit " "))
      (IsSilent-separated (lit ", ") cte_template (c ∷ cs) IsSilent-cte) refl

IsSilent-projection : (p : SelectExpr) → IsSilent (projection_template p)
IsSilent-projection p = ground arith

IsSilent-projections : (ps : List SelectExpr) → IsSilent (projections_template ps)
IsSilent-projections [] = refl
IsSilent-projections (p ∷ ps) =
    IsSilent-separated (lit ", ") projection_template (p ∷ ps) IsSilent-projection

IsSilent-order_by : (ts : List OrderTerm) (s : Bool) → IsSilent (order_by_template ts s)
IsSilent-order_by [] true = refl
IsSilent-order_by [] false = refl
IsSilent-order_by (t ∷ ts) s = IsSilent-separated (lit ", ") order_template (t ∷ ts) (λ t. refl)

IsSilent-group_by :
    (cols : List Bytes)
    → IsSilent (if is_empty cols then [] else words (lit " GROUP BY ") ++ idents cols)
IsSilent-group_by [] = refl
IsSilent-group_by (c ∷ cols) = IsSilent-idents (c ∷ cols)

pub record Quiet (t : Template) : Type 0 where
  pub bound : IsSilent t

pub quiet : (t : Template) → IsSilent t → Quiet t
quiet t h = record { bound = h }

-- A template binds `a`; and if it is intact, then so are those of its parts that `P` names.
pub record Binds (d : Dialect) (t : Template) (a : List Value) (P : Type 0) : Type 0 where
  pub same : values t ≡ a
  pub parts : intact d t ≡ true → P

pub first_silent : {d : Dialect} (t : Template) → IsSilent t → Binds d t [] Unit
first_silent t h = record { same = h; parts = λ i. tt }

infixl 20 ◌▹◌ ◌▹▹◌
-- A silent template behind another, and one that binds.
pub ◌▹◌ :
    {d : Dialect} {t u : Template} {a : List Value} {P : Type 0}
    → Binds d t a P
    → Quiet u
    → Binds d (t ++ u) a P
◌▹◌ {d} {t} {u} {a} b k = record {
  same = rw (values-append t u, b.same, k.bound) (append-nil a);
  parts = λ i. b.parts (intact-split d t u i).0;
}

pub ◌▹▹◌ :
    {d : Dialect} {t : Template} {a : List Value} {P : Type 0}
    → Binds d t a P
    → (u : Template) → Binds d (t ++ u) (a ++ values u) (P × (intact d u ≡ true))
◌▹▹◌ {d} {t} b u = record {
  same = rw (values-append t u, b.same);
  parts = λ i. (b.parts (intact-split d t u i).0, (intact-split d t u i).1);
}

-- The values of a SELECT are those of its joins, then WHERE, then HAVING.
pub parts-Binds :
    (d : Dialect) (p : SelectParts) (s : Bool)
    → Binds d
        (parts_template d p s)
        (values (joins_template p.joins)
          ++ values (clause (lit " WHERE ") p.filter)
          ++ values (clause (lit " HAVING ") p.having))
        (((Unit × (intact d (joins_template p.joins) ≡ true))
            × (intact d (clause (lit " WHERE ") p.filter) ≡ true))
          × (intact d (clause (lit " HAVING ") p.having) ≡ true))
unfolding parts_template
parts-Binds d p s =
    first_silent (ctes_template p.ctes) (IsSilent-ctes p.ctes)
    ▹ quiet (words _) refl
    ▹ quiet (words _) refl
    ▹ quiet (projections_template p.projections) (IsSilent-projections p.projections)
    ▹ quiet (words _) refl
    ▹ quiet (ident p.base_table) refl
    ▹▹ joins_template p.joins
    ▹▹ clause (lit " WHERE ") p.filter
    ▹ quiet _ (IsSilent-group_by p.group_by)
    ▹▹ clause (lit " HAVING ") p.having
    ▹ quiet (order_by_template p.order_by s) (IsSilent-order_by p.order_by s)
    ▹ quiet (suffix (d.limit_offset p.limit p.offset)) (IsSilent-suffix _)
    ▹ quiet (suffix (d.lock_clause p.lock)) (IsSilent-suffix _)

IsSilent-alias : (a : Bytes) → IsSilent (if is_empty a then [] else words (lit " AS ") ++ ident a)
IsSilent-alias [] = refl
IsSilent-alias (b ∷ a) = refl

pub join-Binds :
    (d : Dialect) (j : Join)
    → Binds d
        (join_template j)
        (values (clause (lit " ON ") j.condition))
        (Unit × (intact d (clause (lit " ON ") j.condition) ≡ true))
join-Binds d j =
    first_silent (words (lit " ")) refl
    ▹ quiet (words (join_text j.kind)) refl
    ▹ quiet (words (lit " ")) refl
    ▹ quiet (ident j.table) refl
    ▹ quiet (if is_empty j.alias then [] else words (lit " AS ") ++ ident j.alias)
        (IsSilent-alias j.alias)
    ▹▹ clause (lit " ON ") j.condition
