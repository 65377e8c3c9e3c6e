-- ===== src/Optimizer/Order.antt =====
-- The order of a top-level AND's operands (`sortExprs`), and the operands that stay (`dedupeAnd`).
use breezeorm.Prelude.{
  true, false, ◌≡◌, refl, ap, ◌∙◌, List, [], ◌∷◌, ◌++◌, reverse_aux, Bool-cases, inl, inr, arith,
}
use mathlib.Core.List.Permᴰ
use mathlib.Core.List.{Permᴰ}
use breezeorm.Text.{Bytes, bytes_lt}
use breezeorm.Query.{Expr, Exprs, none_left, cons}
use breezeorm.Optimizer.{dedupe, has_key, sort_exprs, sort_from, sift}
use breezeorm.Optimizer.Keys.{expr_key, expr_identity_key}

bytes_lt_asymm : (a b : Bytes) → bytes_lt a b ≡ true → bytes_lt b a ≡ false
unfolding bytes_lt
bytes_lt_asymm a [] h = absurd (cc)
bytes_lt_asymm [] (b ∷ t) h = refl
bytes_lt_asymm (a ∷ s) (b ∷ t) h = let rest = bytes_lt_asymm s t in ground arith

-- The sorting moves the operands and loses none.
sift-Permᴰ : (x : Expr) (ps : List Expr) → Permᴰ (sift x ps) (x ∷ ps)
unfolding sift
sift-Permᴰ x [] = Permᴰ.refl (x ∷ [])
sift-Permᴰ x (p ∷ ps) =
    let moved : Permᴰ (p ∷ sift x ps) (x ∷ p ∷ ps) =
      Permᴰ.trans (Permᴰ.cons refl (sift-Permᴰ x ps)) (Permᴰ.swap refl refl) in
    elim (Bool-cases (bytes_lt (expr_key x) (expr_key p))) [
      | inl e ↦ rw e moved
      | inr e ↦ rw e (Permᴰ.refl (x ∷ p ∷ ps))
    ]

sort_from-Permᴰ : (prefix xs : List Expr) → Permᴰ (sort_from prefix xs) (prefix ++ xs)
unfolding sort_from
sort_from-Permᴰ prefix [] = Permᴰ.reverse_aux prefix []
sort_from-Permᴰ prefix (x ∷ xs) = Permᴰ.trans (sort_from-Permᴰ (sift x prefix) xs) (
    Permᴰ.trans (Permᴰ.append_right xs (sift-Permᴰ x prefix))
      (Permᴰ.symm (Permᴰ.middle x prefix xs)))

-- No operand has a smaller key than the one before it.
abbrev NotLess : Expr → List Expr → Type 0
NotLess x [] = Unit
NotLess x (y ∷ ys) = bytes_lt (expr_key y) (expr_key x) ≡ false

abbrev pub IsSorted : List Expr → Type 0
IsSorted [] = Unit
IsSorted (x ∷ xs) = NotLess x xs × IsSorted xs

-- The same of a prefix that is held from its right end.
abbrev Above : Expr → List Expr → Type 0
Above p [] = Unit
Above p (q ∷ qs) = bytes_lt (expr_key p) (expr_key q) ≡ false

abbrev IsDescending : List Expr → Type 0
IsDescending [] = Unit
IsDescending (p ∷ ps) = Above p ps × IsDescending ps

-- The right end of a prefix, and the list behind it.
abbrev Meets : List Expr → List Expr → Type 0
Meets [] xs = Unit
Meets (p ∷ ps) xs = NotLess p xs

Above-sift :
    (p x : Expr) (ps : List Expr)
    → bytes_lt (expr_key p) (expr_key x) ≡ false
    → Above p ps
    → Above p (sift x ps)
unfolding sift
Above-sift p x [] h a = h
Above-sift p x (q ∷ qs) h a = elim (Bool-cases (bytes_lt (expr_key x) (expr_key q))) [
  | inl e ↦ rw (e, a)
  | inr e ↦ rw (e, h)
]

IsDescending-sift : (x : Expr) (ps : List Expr) → IsDescending ps → IsDescending (sift x ps)
unfolding sift
IsDescending-sift x [] d = (tt, tt)
IsDescending-sift x (p ∷ ps) (a, d) = elim (Bool-cases (bytes_lt (expr_key x) (expr_key p))) [
  | inl e ↦ rw e (Above-sift p x ps (bytes_lt_asymm _ _ e) a, IsDescending-sift x ps d)
  | inr e ↦ rw e (e, (a, d))
]

IsSorted-reverse_aux :
    (ps acc : List Expr)
    → IsDescending ps
    → IsSorted acc
    → Meets ps acc
    → IsSorted (reverse_aux ps acc)
IsSorted-reverse_aux [] acc d s m = s
IsSorted-reverse_aux (p ∷ []) acc (a, d) s m = (m, s)
IsSorted-reverse_aux (p ∷ q ∷ ps) acc (a, d) s m =
    IsSorted-reverse_aux (q ∷ ps) (p ∷ acc) d (m, s) a

Meets-nil : (ps : List Expr) → Meets ps []
Meets-nil [] = tt
Meets-nil (p ∷ ps) = tt

sort_from-IsSorted : (prefix xs : List Expr) → IsDescending prefix → IsSorted (sort_from prefix xs)
unfolding sort_from
sort_from-IsSorted prefix [] d = IsSorted-reverse_aux prefix [] d tt (Meets-nil prefix)
sort_from-IsSorted prefix (x ∷ xs) d =
    sort_from-IsSorted (sift x prefix) xs (IsDescending-sift x prefix d)

-- `sortExprs` returns the operands it is given, each as often, in the order of their keys.
pub sort_exprs-IsSorted : (xs : List Expr) → IsSorted (sort_exprs xs) × Permᴰ (sort_exprs xs) xs
unfolding sort_exprs
sort_exprs-IsSorted xs = (sort_from-IsSorted [] xs tt, sort_from-Permᴰ [] xs)

sift-IsSorted : (x : Expr) (ps xs : List Expr) → Meets ps (x ∷ xs) → sift x ps ≡ x ∷ ps
unfolding sift
sift-IsSorted x [] xs m = refl
sift-IsSorted x (p ∷ ps) xs m = rw (m)

sort_from_lem :
    (prefix xs : List Expr)
    → IsSorted xs
    → Meets prefix xs
    → sort_from prefix xs ≡ reverse_aux prefix xs
unfolding sort_from
sort_from_lem prefix [] s m = refl
sort_from_lem prefix (x ∷ xs) (n, s) m =
    ap (λ ps. sort_from ps xs) (sift-IsSorted x prefix xs m) ∙ sort_from_lem (x ∷ prefix) xs s n

-- Operands in the order of their keys stay where they are, equal keys in the query's order.
pub sort_exprs_lem : (xs : List Expr) → IsSorted xs → sort_exprs xs ≡ xs
unfolding sort_exprs
sort_exprs_lem xs s = sort_from_lem [] xs s tt

-- Every operand's key is new: neither among those seen nor an earlier operand's.
abbrev pub HasNewKeys : List Bytes → Exprs → Type 0
HasNewKeys seen none_left = Unit
HasNewKeys seen (cons c cs) =
    (has_key (expr_identity_key c) seen ≡ false) × HasNewKeys (expr_identity_key c ∷ seen) cs

dedupe-HasNewKeys : (seen : List Bytes) (cs : Exprs) → HasNewKeys seen (dedupe seen cs)
unfolding dedupe
dedupe-HasNewKeys seen none_left = tt
dedupe-HasNewKeys seen (cons c cs) = elim (Bool-cases (has_key (expr_identity_key c) seen)) [
  | inl e ↦ rw e (dedupe-HasNewKeys seen cs)
  | inr e ↦ rw e (e, dedupe-HasNewKeys (expr_identity_key c ∷ seen) cs)
]

pub dedupe_lem : (seen : List Bytes) (cs : Exprs) → HasNewKeys seen cs → dedupe seen cs ≡ cs
unfolding dedupe
dedupe_lem seen none_left h = refl
dedupe_lem seen (cons c cs) (n, h) =
    rw (n, ap (cons c) (dedupe_lem (expr_identity_key c ∷ seen) cs h))
