-- ===== src/Compiler/Keys.antt =====
-- The bytes that the two cache keys hash: `PreHash` of pkg/compiler/prehash.go over the query, and
-- `structuralHash` of pkg/compiler/compiler.go over the plan.
use breezeorm.Prelude.{ℕ, Bool, true, false, not, List, [], ◌∷◌, ◌++◌, Option, none, some}
use breezeorm.Text.{Bytes}
use breezeorm.Query.{
  op_text, Expr, nil, is_nil, predicate, logical, raw, subquery, Exprs, none_left, cons, SelectExpr,
  Join, join_text, OrderTerm, Cte, PreloadSpec, Assignment, Kind, kind_select, kind_insert,
  kind_update, kind_delete, kind_upsert, LockMode, lock_none, lock_for_update, lock_for_share,
  lock_for_no_key_update, lock_for_update_skip_locked, lock_for_update_no_wait,
}
use breezeorm.Query.Builder.{Builder}
use breezeorm.Planner.{Node, Nodes, no_node, node, no_nodes, also, kind_code}

-- `writeBool`
unfoldable pub bool_byte : Bool → Bytes
bool_byte true = 1 ∷ []
bool_byte false = 0 ∷ []

-- a string with the separator behind it
abbrev pub field : Bytes → Bytes → Bytes
field s rest = s ++ (0x1f ∷ rest)

-- `writeExpr`, of which `writeBuilderExpr` is a copy
unfoldable mutual
  pub expr_stream : Expr → Bytes
  expr_stream nil = 0 ∷ []
  expr_stream (predicate p) = b'p' ∷ field p.column (field (op_text p.op) [])
  expr_stream (logical op es) = b'l' ∷ (op_text op ++ (0x1c ∷ exprs_stream es (0x1d ∷ [])))
  expr_stream (raw sql params) = b'r' ∷ field sql []
  expr_stream (subquery k) = b'?' ∷ []

  -- the loop over the children, with what follows it
  pub exprs_stream : Exprs → Bytes → Bytes
  exprs_stream none_left rest = rest
  exprs_stream (cons e es) rest = expr_stream e ++ exprs_stream es rest

unfoldable pub each {ℓ} : {A : Type ℓ} → (A → Bytes) → List A → Bytes
each f [] = []
each f (x ∷ xs) = f x ++ each f xs

abbrev pub name_stream : Bytes → Bytes
name_stream s = field s []

abbrev pub select_stream : SelectExpr → Bytes
select_stream s = field s.expr (field s.alias [])

abbrev pub join_stream : Join → Bytes
join_stream j = field (join_text j.kind) (field j.table (field j.alias (expr_stream j.condition)))

abbrev pub order_stream : OrderTerm → Bytes
order_stream o = o.column ++ bool_byte o.desc

abbrev pub cte_stream : Cte → Bytes
cte_stream c = 0x1f ∷ field c.name (bool_byte c.recursive ++ each name_stream c.columns)

abbrev pub is_set {ℓ} : {A : Type ℓ} → Option A → Bool
is_set none = false
is_set (some a) = true

abbrev pub preload_stream : PreloadSpec → Bytes
preload_stream p =
    0x1f
    ∷ field p.path
        (bool_byte (not (is_nil p.filter)) ++ (bool_byte (is_set p.limit) ++ bool_byte p.batch))

-- `byte(b.StmtKind())` and `byte(b.LockMode())`: the constants count up from zero
unfoldable pub statement_code : Kind → ℕ
statement_code kind_select = 0
statement_code kind_insert = 1
statement_code kind_update = 2
statement_code kind_delete = 3
statement_code kind_upsert = 4

unfoldable pub lock_code : LockMode → ℕ
lock_code lock_none = 0
lock_code lock_for_update = 1
lock_code lock_for_share = 2
lock_code lock_for_no_key_update = 3
lock_code lock_for_update_skip_locked = 4
lock_code lock_for_update_no_wait = 5

unfoldable pub upsert_stream : Builder → Bytes
upsert_stream b = elim b.kind [
  | kind_upsert ↦
      0x1f
      ∷ field b.upsert_conflict.constraint
          (each name_stream b.upsert_conflict.columns ++ each name_stream b.upsert_update_cols)
  | _ ↦ []
]

-- the clauses of `PreHash` up to HAVING, and those behind it
unfoldable pub head_stream : Builder → Bytes
head_stream b = field b.table (
    statement_code b.kind
    ∷ (bool_byte b.distinct
        ++ (each select_stream b.selects
            ++ (each join_stream b.joins
                ++ (expr_stream b.filter
                    ++ (each name_stream b.group_by ++ expr_stream b.having))))))

unfoldable pub tail_stream : Builder → Bytes
tail_stream b =
    each order_stream b.order_by
    ++ (bool_byte b.has_limit
        ++ (bool_byte b.has_offset
            ++ (each (λ (a : Assignment). name_stream a.column) b.assignments
                ++ (lock_code b.lock
                    ∷ (upsert_stream b
                        ++ (each cte_stream b.ctes
                            ++ (each preload_stream b.preloads
                                ++ bool_byte (is_set b.cursor_after))))))))

unfoldable pub pre_stream : Builder → Bytes → Bytes
unfolding head_stream tail_stream
pre_stream b dialect_name = field dialect_name (head_stream b ++ tail_stream b)

-- `writeNode`
unfoldable mutual
  unfolding kind_code

  pub node_stream : Node → Bytes
  node_stream no_node = 0 ∷ []
  node_stream (node k f input inputs) =
      kind_code k
      ∷ 0x1f
      ∷ field f.table (
          field f.alias (
            expr_stream f.predicate
            ++ (expr_stream f.having
                ++ (each name_stream f.group_by
                    ++ (each order_stream f.order_by
                        ++ (bool_byte (is_set f.limit)
                            ++ (bool_byte (is_set f.offset)
                                ++ (each select_stream f.projections
                                    ++ (node_stream input ++ nodes_stream inputs)))))))))

  pub nodes_stream : Nodes → Bytes
  nodes_stream no_nodes = []
  nodes_stream (also n ns) = node_stream n ++ nodes_stream ns

unfoldable pub structural_stream : Node → Bytes → Bytes
unfolding node_stream
structural_stream n dialect_name = field dialect_name (node_stream n)
