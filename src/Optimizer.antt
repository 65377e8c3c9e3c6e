-- ===== src/Optimizer.antt =====
-- pkg/optimizer/optimizer.go: the rewrite passes over a logical plan, run in a fixed order. A pass
-- mutates the plan in place and returns it; here it returns the new plan.
pub mod Keys
pub mod Order
pub mod Meaning
pub mod Terms
pub mod Plan
pub mod Refines
pub mod Binds
pub mod Swapped
use breezeorm.Prelude.{
  ℕ, zero, suc, Bool, true, false, ◌&&◌, ◌||◌, List, [], ◌∷◌, reverse, foldl, Option, none, some,
  length, ltb, if◌then◌else◌,
}
use breezeorm.Prelude.Int.{ℤ, ltb_ℤ}
use breezeorm.Text.{Bytes, bytes_eq, bytes_lt}
use breezeorm.Query.{
  Op, op_and, is_and_or, Expr, nil, predicate, logical, raw, subquery, Exprs, none_left, cons,
  to_list, of_list, OrderTerm,
}
use breezeorm.Planner.{Node, Nodes, no_node, node, no_nodes, also, Fields, node_limit}
use breezeorm.Optimizer.Keys.{expr_key, expr_identity_key}

-- `walk`: every node of the tree, through `Input` and `Inputs`
unfoldable mutual
  pub walk : (Fields → Fields) → Node → Node
  walk fn no_node = no_node
  walk fn (node k f input inputs) = node k (fn f) (walk fn input) (walk_all fn inputs)

  pub walk_all : (Fields → Fields) → Nodes → Nodes
  walk_all fn no_nodes = no_nodes
  walk_all fn (also n ns) = also (walk fn n) (walk_all fn ns)

-- The end of `simplifyExpr`: a group of one is its only member.
unfoldable pub collapse : Op → Exprs → Expr
collapse op (cons e none_left) = if is_and_or op then e else logical op (cons e none_left)
collapse op es = logical op es

unfoldable mutual
  pub simplify_expr : Expr → Expr
  simplify_expr (logical op es) = collapse op (simplify_all es)
  simplify_expr (predicate p) = predicate p
  simplify_expr (raw sql params) = raw sql params
  simplify_expr (subquery k) = subquery k
  simplify_expr nil = nil

  pub simplify_all : Exprs → Exprs
  simplify_all none_left = none_left
  simplify_all (cons e es) = cons (simplify_expr e) (simplify_all es)

abbrev pub simplify_fields : Fields → Fields
simplify_fields f = record f {
  predicate = simplify_expr f.predicate;
  having = simplify_expr f.having;
}

unfoldable pub predicate_simplification : Node → Node
predicate_simplification root = walk simplify_fields root

-- The passes that are scaffolded as no-ops.
unfoldable pub constant_folding : Node → Node
constant_folding root = root

unfoldable pub join_optimization : Node → Node
join_optimization root = root

unfoldable pub projection_pruning : Node → Node
projection_pruning root = root

-- membership in the map `seen`
unfoldable pub has_key : Bytes → List Bytes → Bool
has_key k [] = false
has_key k (j ∷ js) = bytes_eq k j || has_key k js

-- the loop of `dedupeAnd`
unfoldable pub dedupe : List Bytes → Exprs → Exprs
dedupe seen none_left = none_left
dedupe seen (cons c cs) =
    let key = expr_identity_key c in
    let dropped = dedupe seen cs in
    let kept = cons c (dedupe (key ∷ seen) cs) in if has_key key seen then dropped else kept

-- A rewrite of the operands of a top-level AND.
abbrev pub on_and : (Exprs → Exprs) → Expr → Expr
on_and f (logical op_and es) = logical op_and (f es)
on_and f e = e

unfoldable pub dedupe_and : Expr → Expr
dedupe_and = on_and (dedupe [])

unfoldable pub duplicate_predicate_removal : Node → Node
duplicate_predicate_removal root = walk (λ f. record f { predicate = dedupe_and f.predicate }) root

-- the loop over `n.OrderBy`
unfoldable pub dedupe_terms : List Bytes → List OrderTerm → List OrderTerm
dedupe_terms seen [] = []
dedupe_terms seen (t ∷ ts) =
    let dropped = dedupe_terms seen ts in
    let kept = t ∷ dedupe_terms (t.column ∷ seen) ts in
    if has_key t.column seen then dropped else kept

unfoldable pub distinct_terms : List OrderTerm → List OrderTerm
distinct_terms ts = if ltb (length ts) 2 then ts else dedupe_terms [] ts

unfoldable pub order_by_optimization : Node → Node
order_by_optimization root = walk (λ f. record f { order_by = distinct_terms f.order_by }) root

-- The tighter of two limits, where no limit is the loosest.
unfoldable pub tighter : Option ℤ → Option ℤ → Option ℤ
tighter outer none = outer
tighter none (some m) = some m
tighter (some n) (some m) = if ltb_ℤ m n then some m else some n

-- the loop of `limitOptimization`, on the input of a LIMIT node
unfoldable pub merge_limits : Fields → Node → Nodes → Node
merge_limits f (node node_limit g input js) inputs =
    merge_limits (record f { limit = tighter f.limit g.limit }) input inputs
merge_limits f input inputs = node node_limit f input inputs

unfoldable pub limit_optimization : Node → Node
limit_optimization (node node_limit f input inputs) = merge_limits f input inputs
limit_optimization root = root

-- The inner loop of `sortExprs`: exchange `x` with its left neighbours while its key is smaller.
-- The sorted prefix is held from its right end.
unfoldable pub sift : Expr → List Expr → List Expr
sift x [] = x ∷ []
sift x (p ∷ ps) =
    let rest = sift x ps in if bytes_lt (expr_key x) (expr_key p) then p ∷ rest else x ∷ p ∷ ps

unfoldable pub sort_from : List Expr → List Expr → List Expr
sort_from prefix [] = reverse prefix
sort_from prefix (x ∷ xs) = sort_from (sift x prefix) xs

unfoldable pub sort_exprs : List Expr → List Expr
sort_exprs xs = sort_from [] xs

unfoldable pub canonical_and : Expr → Expr
canonical_and = on_and (λ es. of_list (sort_exprs (to_list es)))

unfoldable pub canonical_ordering : Node → Node
canonical_ordering root = walk (λ f. record f { predicate = canonical_and f.predicate }) root

abbrev pub Pass : Type 0
Pass = Node → Node

unfoldable pub default_pipeline : List Pass
default_pipeline =
    predicate_simplification ∷ constant_folding ∷ duplicate_predicate_removal ∷ join_optimization
    ∷ projection_pruning ∷ order_by_optimization ∷ limit_optimization ∷ canonical_ordering ∷ []

unfoldable pub optimize : Node → List Pass → Node
optimize root passes = foldl (λ lp p. p lp) root passes
