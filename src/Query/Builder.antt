-- ===== src/Query/Builder.antt =====
-- pkg/query/builder.go: the immutable builder. Every method returns a new value. `namedParams` is
-- never read or written, and left out; so is the other builder of a union, which is held as `any`
-- and never looked into.
use breezeorm.Prelude.{Bool, true, false, List, [], ◌∷◌, ◌++◌, Option, none, some, foldl}
use breezeorm.Prelude.{if◌then◌else◌, is_empty}
use breezeorm.Prelude.Int.{ℤ, pos, ltb_ℤ, sub64, mul64}
use breezeorm.Text.{Bytes}
use breezeorm.Query.{
  Expr, nil, is_nil, and_expr, join_inner, join_left, join_right, join_full, join_cross, Join,
  OrderTerm, SelectExpr, Cte, LockMode, lock_none, UpsertConflictTarget, PreloadSpec, Kind,
  kind_select, kind_insert, kind_update, kind_delete, kind_upsert, Assignment, Value,
}

pub record UnionClause : Type 0 where
  pub all : Bool

pub record Builder : Type 0 where
  pub kind : Kind
  pub table : Bytes
  pub distinct : Bool
  pub selects : List SelectExpr
  pub joins : List Join
  pub filter : Expr
  pub group_by : List Bytes
  pub having : Expr
  pub order_by : List OrderTerm
  pub has_limit : Bool
  pub limit_n : ℤ
  pub has_offset : Bool
  pub offset_n : ℤ
  pub ctes : List Cte
  pub unions : List UnionClause
  pub preloads : List PreloadSpec
  pub lock : LockMode
  pub assignments : List Assignment
  pub upsert_conflict : UpsertConflictTarget
  pub upsert_update_cols : List Bytes
  pub cursor_after : Option Value

unfoldable pub new : Bytes → Builder
new table = record {
  kind = kind_select;
  table = table;
  distinct = false;
  selects = [];
  joins = [];
  filter = nil;
  group_by = [];
  having = nil;
  order_by = [];
  has_limit = false;
  limit_n = pos 0;
  has_offset = false;
  offset_n = pos 0;
  ctes = [];
  unions = [];
  preloads = [];
  lock = lock_none;
  assignments = [];
  upsert_conflict = record { columns = []; constraint = [] };
  upsert_update_cols = [];
  cursor_after = none;
}

unfoldable pub select : Builder → List SelectExpr → Builder
select b exprs = if is_empty exprs then b else record b { selects = b.selects ++ exprs }

unfoldable pub distinct : Builder → Builder
distinct b = record b { distinct = true }

unfoldable pub add_join : Builder → Join → Builder
add_join b j = record b { joins = b.joins ++ (j ∷ []) }

unfoldable pub inner_join : Builder → Bytes → Bytes → Expr → Builder
unfolding add_join
inner_join b table alias on =
    add_join b (record { kind = join_inner; table = table; alias = alias; condition = on })

unfoldable pub left_join : Builder → Bytes → Bytes → Expr → Builder
unfolding add_join
left_join b table alias on =
    add_join b (record { kind = join_left; table = table; alias = alias; condition = on })

unfoldable pub right_join : Builder → Bytes → Bytes → Expr → Builder
unfolding add_join
right_join b table alias on =
    add_join b (record { kind = join_right; table = table; alias = alias; condition = on })

unfoldable pub full_join : Builder → Bytes → Bytes → Expr → Builder
unfolding add_join
full_join b table alias on =
    add_join b (record { kind = join_full; table = table; alias = alias; condition = on })

unfoldable pub cross_join : Builder → Bytes → Bytes → Builder
unfolding add_join
cross_join b table alias =
    add_join b (record { kind = join_cross; table = table; alias = alias; condition = nil })

-- The branch of `Where` and `Having`: the first expression stands alone, a later one is joined on.
abbrev pub conjoin : Expr → Expr → Expr
conjoin old e = if is_nil old then e else and_expr (old ∷ e ∷ [])

-- `Where`
unfoldable pub filter : Builder → Expr → Builder
unfolding and_expr
filter b e = record b { filter = conjoin b.filter e }

unfoldable pub group_by : Builder → List Bytes → Builder
group_by b cols = if is_empty cols then b else record b { group_by = b.group_by ++ cols }

unfoldable pub having : Builder → Expr → Builder
unfolding and_expr
having b e = record b { having = conjoin b.having e }

unfoldable pub order_by : Builder → List OrderTerm → Builder
order_by b terms = if is_empty terms then b else record b { order_by = b.order_by ++ terms }

unfoldable pub limit : Builder → ℤ → Builder
limit b n = record b { has_limit = true; limit_n = n }

unfoldable pub offset : Builder → ℤ → Builder
offset b n = record b { has_offset = true; offset_n = n }

unfoldable pub page : Builder → ℤ → ℤ → Builder
unfolding limit offset sub64 mul64
page b page_num page_size =
    let p = if ltb_ℤ page_num (pos 1) then pos 1 else page_num in
    offset (limit b page_size) (mul64 (sub64 p (pos 1)) page_size)

unfoldable pub after : Builder → Value → Builder
after b cursor = record b { cursor_after = some cursor }

unfoldable pub lock : Builder → LockMode → Builder
lock b mode = record b { lock = mode }

unfoldable pub with_cte : Builder → Cte → Builder
with_cte b cte = record b { ctes = b.ctes ++ (cte ∷ []) }

unfoldable pub union : Builder → Builder
union b = record b { unions = b.unions ++ (record { all = false } ∷ []) }

unfoldable pub union_all : Builder → Builder
union_all b = record b { unions = b.unions ++ (record { all = true } ∷ []) }

unfoldable pub preload : Builder → Bytes → List (PreloadSpec → PreloadSpec) → Builder
preload b path opts =
    let spec : PreloadSpec = record { path = path; filter = nil; limit = none; batch = false } in
    record b { preloads = b.preloads ++ (foldl (λ s o. o s) spec opts ∷ []) }

unfoldable pub insert : Builder → List Assignment → Builder
insert b assignments = record b { kind = kind_insert; assignments = assignments }

unfoldable pub update : Builder → List Assignment → Builder
update b assignments = record b { kind = kind_update; assignments = assignments }

unfoldable pub delete : Builder → Builder
delete b = record b { kind = kind_delete }

unfoldable pub upsert : Builder → List Assignment → UpsertConflictTarget → List Bytes → Builder
upsert b assignments conflict update_cols = record b {
  kind = kind_upsert;
  assignments = assignments;
  upsert_conflict = conflict;
  upsert_update_cols = update_cols;
}

unfoldable pub limit_val : Builder → Option ℤ
limit_val b = if b.has_limit then some b.limit_n else none

unfoldable pub offset_val : Builder → Option ℤ
offset_val b = if b.has_offset then some b.offset_n else none
