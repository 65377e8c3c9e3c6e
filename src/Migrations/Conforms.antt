-- ===== src/Migrations/Conforms.antt =====
-- When `Diff` finds nothing to do.
use breezeorm.Prelude.{
  ◌≡◌, refl, sym, ap, ◌∙◌, subst, ◌↔◌, true, List, [], ◌∷◌, ◌++◌, map, All, Any, Option, none, some,
  arith,
}
use breezeorm.Text.{Bytes}
use breezeorm.Migrations.Named.{IsLast, table_named-IsLast, IsLast-table_named, has_name-Any}
use breezeorm.Migrations.Diff.{
  WantedTable, ColumnInfo, IndexInfo, TableInfo, SchemaDiff, no_diff, table_named, has_name,
  missing, column_names, index_names, diff_found, diff_table, diff_from, diff,
}

-- Nothing to create or to add.
abbrev pub IsNothing : SchemaDiff → Type 0
IsNothing d = (d.create_tables ≡ []) × (d.add_columns ≡ []) × (d.add_indexes ≡ [])

abbrev AreIn : List Bytes → List Bytes → Type 0
AreIn wanted there = All (λ n. has_name n there ≡ true) wanted

-- A wanted table is there, with its columns and its indexes.
abbrev IsFound : WantedTable → Option TableInfo → Type 0
IsFound want none = ⊥
IsFound want (some got) =
    AreIn want.columns (column_names got) × AreIn want.indexes (index_names got)

nothing_missing : (ns there : List Bytes) → (missing ns there ≡ []) ↔ AreIn ns there
unfolding missing
nothing_missing [] there = ((λ h. tt), (λ h. refl))
nothing_missing (n ∷ ns) there = ground (arith, nothing_missing ns there)

append_nothing {ℓ} : {A : Type ℓ} (xs ys : List A) → ((xs ++ ys) ≡ []) ↔ ((xs ≡ []) × (ys ≡ []))
append_nothing [] ys = ((λ h. (refl, h)), (λ h. h.1))
append_nothing (x ∷ xs) ys = ground arith

map_nothing {ℓ κ} :
    {A : Type ℓ} {B : Type κ} (f : A → B) (xs : List A) → (map f xs ≡ []) ↔ (xs ≡ [])
map_nothing f [] = ((λ h. refl), (λ h. refl))
map_nothing f (x ∷ xs) = ground arith

more_nothing {ℓ κ} :
    {A : Type ℓ} {B : Type κ} (f : A → B) (xs : List B) (ys : List A)
    → ((xs ++ map f ys) ≡ []) ↔ ((xs ≡ []) × (ys ≡ []))
more_nothing f xs ys = (
  λ h. let (a, b) = (append_nothing xs (map f ys)).0 h in (a, (map_nothing f ys).0 b),
  λ (a, b). (append_nothing xs (map f ys)).1 (a, (map_nothing f ys).1 b),
)

diff_table-IsNothing :
    (want : WantedTable) (o : Option TableInfo) (d : SchemaDiff)
    → IsNothing (diff_table want o d) ↔ (IsNothing d × IsFound want o)
unfolding diff_table diff_found
diff_table-IsNothing want none d = (
  λ (c, a, i). absurd (ground (arith, (append_nothing d.create_tables (want.name ∷ [])).0 c)),
  λ (h, lost). absurd lost,
)
diff_table-IsNothing want (some got) d = (
  λ (c, a, i).
      let (a', cols) =
        (more_nothing _ d.add_columns (missing want.columns (column_names got))).0 a in
      let (i', ixs) = (more_nothing _ d.add_indexes (missing want.indexes (index_names got))).0 i in
      (
        (c, a', i'),
        (
          (nothing_missing want.columns (column_names got)).0 cols,
          (nothing_missing want.indexes (index_names got)).0 ixs,
        ),
      ),
  λ ((c, a, i), (cols, ixs)). (
    c,
    (more_nothing _ d.add_columns (missing want.columns (column_names got))).1
        (a, (nothing_missing want.columns (column_names got)).1 cols),
    (more_nothing _ d.add_indexes (missing want.indexes (index_names got))).1
        (i, (nothing_missing want.indexes (index_names got)).1 ixs),
  ),
)

abbrev AreFound : List TableInfo → List WantedTable → Type 0
AreFound actual wants = All (λ want. IsFound want (table_named want.name actual)) wants

diff_from-IsNothing :
    (actual : List TableInfo) (wants : List WantedTable) (d : SchemaDiff)
    → IsNothing (diff_from actual wants d) ↔ (IsNothing d × AreFound actual wants)
unfolding diff_from
diff_from-IsNothing actual [] d = ((λ h. (h, tt)), (λ h. h.0))
diff_from-IsNothing actual (want ∷ wants) d =
    let later =
      diff_from-IsNothing actual wants (diff_table want (table_named want.name actual) d) in
    let now = diff_table-IsNothing want (table_named want.name actual) d in
    (
      λ h. let (one, rest) = later.0 h in let (n, f) = now.0 one in (n, (f, rest)),
      λ (n, (f, rest)). later.1 (now.1 (n, f), rest),
    )

diff_table-drops :
    (want : WantedTable) (o : Option TableInfo) (d : SchemaDiff)
    → ((diff_table want o d).drop_columns ≡ d.drop_columns)
      × ((diff_table want o d).drop_indexes ≡ d.drop_indexes)
unfolding diff_table diff_found
diff_table-drops want none d = (refl, refl)
diff_table-drops want (some got) d = (refl, refl)

diff_from-drops :
    (actual : List TableInfo) (wants : List WantedTable) (d : SchemaDiff)
    → ((diff_from actual wants d).drop_columns ≡ d.drop_columns)
      × ((diff_from actual wants d).drop_indexes ≡ d.drop_indexes)
unfolding diff_from
diff_from-drops actual [] d = (refl, refl)
diff_from-drops actual (want ∷ wants) d =
    let (c, i) = diff_table-drops want (table_named want.name actual) d in
    let (c', i') =
      diff_from-drops actual wants (diff_table want (table_named want.name actual) d) in
    (c' ∙ c, i' ∙ i)

-- The last table of a wanted name has a column and an index of every wanted name.
abbrev pub IsThere : List TableInfo → WantedTable → Type 0
IsThere actual want =
    (t : TableInfo) × IsLast want.name actual t
    × All (λ n. Any (λ (c : ColumnInfo). c.name ≡ n) t.columns) want.columns
    × All (λ n. Any (λ (i : IndexInfo). i.name ≡ n) t.indexes) want.indexes

All-iff {ℓ} :
    {A : Type ℓ} (P Q : A → Type 0) (xs : List A) → ((x : A) → P x ↔ Q x) → All P xs ↔ All Q xs
All-iff P Q [] h = ((λ a. a), (λ a. a))
All-iff P Q (x ∷ xs) h =
    let rest = All-iff P Q xs h in
    ((λ (p, ps). ((h x).0 p, rest.0 ps)), (λ (p, ps). ((h x).1 p, rest.1 ps)))

AreIn-Any {ℓ} :
    {A : Type ℓ} (name_of : A → Bytes) (ns : List Bytes) (xs : List A)
    → AreIn ns (map name_of xs) ↔ All (λ n. Any (λ x. name_of x ≡ n) xs) ns
AreIn-Any name_of ns xs =
    All-iff (λ n. has_name n (map name_of xs) ≡ true) (λ n. Any (λ x. name_of x ≡ n) xs) ns
      (λ n. has_name-Any name_of n xs)

IsFound-IsThere :
    (actual : List TableInfo) (want : WantedTable)
    → IsFound want (table_named want.name actual) ↔ IsThere actual want
IsFound-IsThere actual want = (to (table_named want.name actual) refl, from)
  where
    to :
        (o : Option TableInfo)
        → table_named want.name actual ≡ o
        → IsFound want o
        → IsThere actual want
    to none e h = absurd h
    to (some t) e (cols, ixs) = (
      t,
      table_named-IsLast want.name actual t e,
      (AreIn-Any (λ (c : ColumnInfo). c.name) want.columns t.columns).0 cols,
      (AreIn-Any (λ (i : IndexInfo). i.name) want.indexes t.indexes).0 ixs,
    )

    from : IsThere actual want → IsFound want (table_named want.name actual)
    from (t, (before, after, e, named, rest), cols, ixs) =
        let found : table_named want.name actual ≡ some t =
          ap (table_named want.name) e ∙ IsLast-table_named want.name before after t named rest in
        subst (IsFound want) (sym found) (
          (AreIn-Any (λ (c : ColumnInfo). c.name) want.columns t.columns).1 cols,
          (AreIn-Any (λ (i : IndexInfo). i.name) want.indexes t.indexes).1 ixs,
        )

-- `Diff` creates and adds nothing exactly if for each wanted table the last table of its name in the
-- database has a column and an index of every wanted name, and whatever the two schemas are it drops
-- nothing.
pub diff-IsNothing :
    (desired : List WantedTable) (actual : List TableInfo)
    → (IsNothing (diff desired actual) ↔ All (IsThere actual) desired)
      × ((diff desired actual).drop_columns ≡ [])
      × ((diff desired actual).drop_indexes ≡ [])
unfolding diff
diff-IsNothing desired actual =
    let found = diff_from-IsNothing actual desired no_diff in
    let there =
      All-iff (λ want. IsFound want (table_named want.name actual)) (IsThere actual) desired
        (IsFound-IsThere actual) in
    let (c, i) = diff_from-drops actual desired no_diff in
    ((λ h. there.0 (found.0 h).1, λ h. found.1 ((refl, refl, refl), there.1 h)), c, i)
