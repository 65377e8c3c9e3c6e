-- ===== src/Migrations/Named.antt =====
-- The table and the names that `Diff` looks up.
use breezeorm.Prelude.{
  ◌≡◌, ◌≢◌, refl, sym, ap, ◌∙◌, ◌↔◌, inl, inr, true, false, List, [], ◌∷◌, ◌++◌, map, All, Any,
  none, some, arith, Bool-cases, Option-cases,
}
use breezeorm.Text.{Bytes, bytes_eq, bytes_eq_lem, bytes_eq_refl, bytes_eq_sides}
use breezeorm.Migrations.Diff.{TableInfo, table_named, has_name}

-- The table of a name: the last one that has it.
abbrev pub IsLast : Bytes → List TableInfo → TableInfo → Type 0
IsLast name ts t =
    (before : List TableInfo) × (after : List TableInfo) × (ts ≡ before ++ (t ∷ after))
    × (t.name ≡ name)
    × All (λ (u : TableInfo). u.name ≢ name) after

table_named-none :
    (name : Bytes) (ts : List TableInfo)
    → table_named name ts ≡ none
    → All (λ (u : TableInfo). u.name ≢ name) ts
unfolding table_named
table_named-none name [] h = tt
table_named-none name (t ∷ ts) h =
    let later : table_named name ts ≡ none = ground arith in
    let other : bytes_eq t.name name ≡ false = ground arith in
    (bytes_eq_sides t.name name other, table_named-none name ts later)

table_named-absent :
    (name : Bytes) (ts : List TableInfo)
    → All (λ (u : TableInfo). u.name ≢ name) ts
    → table_named name ts ≡ none
unfolding table_named
table_named-absent name [] h = refl
table_named-absent name (t ∷ ts) (h, hs) =
    let later = table_named-absent name ts hs in
    elim (Bool-cases (bytes_eq t.name name)) [
      | inl e ↦ absurd (h (bytes_eq_lem t.name name e))
      | inr e ↦ ground arith
    ]

pub table_named-IsLast :
    (name : Bytes) (ts : List TableInfo) (t : TableInfo)
    → table_named name ts ≡ some t
    → IsLast name ts t
unfolding table_named
table_named-IsLast name [] t h = absurd (cc)
table_named-IsLast name (u ∷ ts) t h = elim (Option-cases (table_named name ts)) [
  | inl none_later ↦
      let this : bytes_eq u.name name ≡ true = ground arith in
      let same : u ≡ t = ground arith in
      (
        [],
        ts,
        ap (λ x. x ∷ ts) same,
        ap (λ x. x.name) (sym same) ∙ bytes_eq_lem u.name name this,
        table_named-none name ts none_later,
      )
  | inr (v, later) ↦
      let same : table_named name ts ≡ some t = ground arith in
      let (before, after, e, named, rest) = table_named-IsLast name ts t same in
      (u ∷ before, after, ap (◌∷◌ u) e, named, rest)
]

pub IsLast-table_named :
    (name : Bytes) (before after : List TableInfo) (t : TableInfo)
    → t.name ≡ name
    → All (λ (u : TableInfo). u.name ≢ name) after
    → table_named name (before ++ (t ∷ after)) ≡ some t
unfolding table_named
IsLast-table_named name [] after t e h =
    let later = table_named-absent name after h in
    let this : bytes_eq t.name name ≡ true = ap (bytes_eq t.name) (sym e) ∙ bytes_eq_refl t.name in
    ground arith
IsLast-table_named name (b ∷ bs) after t e h =
    let later = IsLast-table_named name bs after t e h in ground arith

pub has_name-Any {ℓ} :
    {A : Type ℓ} (name_of : A → Bytes) (n : Bytes) (xs : List A)
    → (has_name n (map name_of xs) ≡ true) ↔ Any (λ x. name_of x ≡ n) xs
has_name-Any name_of n [] = ((λ h. absurd (cc)), (λ h. absurd h))
has_name-Any name_of n (x ∷ xs) =
    let later = has_name-Any name_of n xs in
    elim (Bool-cases (bytes_eq (name_of x) n)) [
      | inl e ↦ ((λ h. inl (bytes_eq_lem (name_of x) n e)), (λ h. ground arith))
      | inr e ↦ (
        λ h. inr (later.0 (ground arith)),
        λ h. elim h [
          | inl same ↦ absurd (bytes_eq_sides (name_of x) n e same)
          | inr others ↦ let there = later.1 others in ground arith
        ],
      )
    ]
