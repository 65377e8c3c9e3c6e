-- ===== src/Sqlgen/Expression.antt =====
-- `writeExpr`, `writePredicate` and `writeLogical` of pkg/sqlgen/sqlgen.go.
use breezeorm.Prelude.{List, [], ◌++◌, none, some, map}
use breezeorm.Text.{Bytes, lit}
use breezeorm.Query.{
  Op, op_in, op_not_in, op_is_null, op_is_not_null, op_between, op_not, op_text, null, Value,
  scalar, slice, pair, Predicate, Expr, nil, predicate, logical, raw, subquery, Exprs, none_left,
  cons,
}
use breezeorm.Dialect.{Dialect}
use breezeorm.Sqlgen.{
  SqlGen, ◌▷◌, fail, write, separated, check_raw_fragment, write_bind, quote_ident,
  unsupported_expression, index_out_of_range,
}

-- `vals, _ := p.Value.([]any)`: no elements where the value is no slice
abbrev pub slice_of : Value → List Value
slice_of (slice vs) = map scalar vs
slice_of _ = []

-- `pair, _ := p.Value.([2]any)`: two nil values where the value is no pair
abbrev pub pair_first : Value → Value
pair_first (pair a b) = scalar a
pair_first _ = scalar null

abbrev pub pair_second : Value → Value
pair_second (pair a b) = scalar b
pair_second _ = scalar null

module _ (d : Dialect) where
  abbrev pub write_null_test : Bytes → Predicate → SqlGen → SqlGen
  write_null_test col p g = g ▷ write col ▷ write (lit " ") ▷ write (op_text p.op)

  abbrev pub write_membership : Bytes → Predicate → SqlGen → SqlGen
  write_membership col p g =
      g
      ▷ write col
      ▷ write (lit " ")
      ▷ write (op_text p.op)
      ▷ write (lit " (")
      ▷ separated (lit ", ") (write_bind d) (slice_of p.value)
      ▷ write (lit ")")

  abbrev pub write_between : Bytes → Predicate → SqlGen → SqlGen
  write_between col p g =
      g
      ▷ write col
      ▷ write (lit " BETWEEN ")
      ▷ write_bind d (pair_first p.value)
      ▷ write (lit " AND ")
      ▷ write_bind d (pair_second p.value)

  abbrev pub write_comparison : Bytes → Predicate → SqlGen → SqlGen
  write_comparison col p g =
      g
      ▷ write col
      ▷ write (lit " ")
      ▷ write (op_text p.op)
      ▷ write (lit " ")
      ▷ write_bind d p.value

  -- the `switch p.Op`
  abbrev pub write_by_op : Op → Bytes → Predicate → SqlGen → SqlGen
  write_by_op op_is_null = write_null_test
  write_by_op op_is_not_null = write_null_test
  write_by_op op_in = write_membership
  write_by_op op_not_in = write_membership
  write_by_op op_between = write_between
  write_by_op _ = write_comparison

  unfoldable pub write_predicate : Predicate → SqlGen → SqlGen
  write_predicate p g = let (col, g') = quote_ident d p.column g in write_by_op p.op col p g'

  -- `write_expr` returns at once where an error is set; `write_node` is its switch.
  unfoldable mutual
    pub write_expr : Expr → SqlGen → SqlGen
    write_expr nil g = elim g.failed [ some e ↦ g | none ↦ fail unsupported_expression g ]
    write_expr (subquery k) g = elim g.failed [ some e ↦ g | none ↦ fail unsupported_expression g ]
    write_expr (predicate p) g = elim g.failed [ some e ↦ g | none ↦ write_predicate p g ]
    write_expr (raw sql params) g = elim g.failed [
      | some e ↦ g
      | none ↦
          let g' = write sql (check_raw_fragment sql g) in
          record g' { params = g'.params ++ params }
    ]
    write_expr (logical op_not es) g = elim g.failed [
      | some e ↦ g
      | none ↦ write (lit ")") (write_first es (write (lit "NOT (") g))
    ]
    write_expr (logical op es) g = elim g.failed [
      | some e ↦ g
      | none ↦ write (lit ")") (write_children op es (write (lit "(") g))
    ]

    -- `g.writeExpr(le.Children[0])`
    pub write_first : Exprs → SqlGen → SqlGen
    write_first none_left g = fail index_out_of_range g
    write_first (cons e es) g = write_expr e g

    pub write_children : Op → Exprs → SqlGen → SqlGen
    write_children op none_left g = g
    write_children op (cons e es) g = write_more op es (write_expr e g)

    -- the children after the first, each behind the operator
    pub write_more : Op → Exprs → SqlGen → SqlGen
    write_more op none_left g = g
    write_more op (cons e es) g =
        write_more op es (write_expr e (write (lit " ") (write (op_text op) (write (lit " ") g))))
