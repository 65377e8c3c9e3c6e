-- ===== src/Text.antt =====
-- Go strings as lists of bytes, with the functions of `strings` and `strconv` that the program
-- calls (pkg/dialect, pkg/sqlgen, pkg/optimizer).
use Prim.Native.Char.{code}
use breezeorm.Prelude.{
  ℕ, zero, suc, ◌+◌, ◌/◌, ◌%◌, String, Bool, true, false, ◌&&◌, ◌||◌, List, [], ◌∷◌, ◌++◌, ltb,
  ◌==◌, ◌≡◌, ◌≢◌, refl, sym, ap, ◌∙◌, &&_true, arith, if◌then◌else◌, is_empty,
}
use breezeorm.Prelude.Int.{ℤ, pos, negsuc}

abbrev pub Bytes : Type 0
Bytes = List ℕ

abbrev codes : String → Bytes
codes String.[] = []
codes (String.◌∷◌ c s) = code c ∷ codes s

-- A text literal of the source; every one is ASCII. Shut, so that proofs do not see its bytes.
unfoldable pub lit : String → Bytes
lit s = codes s

unfoldable pub bytes_eq : Bytes → Bytes → Bool
bytes_eq [] [] = true
bytes_eq (a ∷ s) (b ∷ t) = a == b && bytes_eq s t
bytes_eq _ _ = false

pub bytes_eq_lem : (a b : Bytes) → bytes_eq a b ≡ true → a ≡ b
unfolding bytes_eq
bytes_eq_lem [] [] h = refl
bytes_eq_lem [] (b ∷ t) h = absurd (cc)
bytes_eq_lem (a ∷ s) [] h = absurd (cc)
bytes_eq_lem (a ∷ s) (b ∷ t) h =
    let (p, q) = &&_true (a == b) (bytes_eq s t) h in
    let same : a ≡ b = ground arith in ap (λ x. x ∷ s) same ∙ ap (λ u. b ∷ u) (bytes_eq_lem s t q)

pub bytes_eq_refl : (a : Bytes) → bytes_eq a a ≡ true
unfolding bytes_eq
bytes_eq_refl [] = refl
bytes_eq_refl (a ∷ s) = ground (arith, bytes_eq_refl s)

pub bytes_eq_sides : (a b : Bytes) → bytes_eq a b ≡ false → a ≢ b
bytes_eq_sides a b h e =
    let same : bytes_eq a b ≡ true = ap (bytes_eq a) (sym e) ∙ bytes_eq_refl a in absurd (cc)

-- `a < b` on Go strings: byte by byte
unfoldable pub bytes_lt : Bytes → Bytes → Bool
bytes_lt s [] = false
bytes_lt [] (b ∷ t) = true
bytes_lt (a ∷ s) (b ∷ t) = ltb a b || a == b && bytes_lt s t

-- `strings.HasPrefix(s, prefix)`, the prefix first
unfoldable pub has_prefix : Bytes → Bytes → Bool
has_prefix [] s = true
has_prefix (p ∷ ps) [] = false
has_prefix (p ∷ ps) (b ∷ bs) = p == b && has_prefix ps bs

-- `strings.ContainsRune(s, c)` for an ASCII rune
unfoldable pub contains_byte : ℕ → Bytes → Bool
contains_byte c [] = false
contains_byte c (b ∷ bs) = b == c || contains_byte c bs

-- `strings.Join(parts, sep)`
unfoldable pub join : Bytes → List Bytes → Bytes
join sep [] = []
join sep (p ∷ []) = p
join sep (p ∷ q ∷ ps) = p ++ (sep ++ join sep (q ∷ ps))

-- A byte that ends no part goes to the front of the first part.
unfoldable pub push_front : ℕ → List Bytes → List Bytes
push_front b [] = (b ∷ []) ∷ []
push_front b (p ∷ ps) = (b ∷ p) ∷ ps

-- `strings.Split(s, sep)` for a separator of one byte
unfoldable pub split : ℕ → Bytes → List Bytes
unfolding push_front
split sep [] = [] ∷ []
split sep (b ∷ bs) = let rest = split sep bs in if b == sep then [] ∷ rest else push_front b rest

-- `strings.ReplaceAll(s, c, cc)` for one byte `c`: double every occurrence
unfoldable pub double_byte : ℕ → Bytes → Bytes
double_byte c [] = []
double_byte c (b ∷ bs) = if b == c then b ∷ b ∷ double_byte c bs else b ∷ double_byte c bs

-- The ASCII white space of `strings.TrimSpace`.
abbrev is_space : ℕ → Bool
is_space b = b == 32 || b == 9 || b == 10 || b == 11 || b == 12 || b == 13

unfoldable pub trim_left : Bytes → Bytes
trim_left [] = []
trim_left (b ∷ bs) = let rest = trim_left bs in if is_space b then rest else b ∷ bs

unfoldable pub trim_right : Bytes → Bytes
trim_right [] = []
trim_right (b ∷ bs) =
    let rest = trim_right bs in if is_space b && is_empty rest then [] else b ∷ rest

unfoldable pub trim_space : Bytes → Bytes
unfolding trim_left trim_right
trim_space s = trim_right (trim_left s)

-- Decimal digits, most significant first, in front of `acc`. One unit of fuel makes one digit.
unfoldable pub decimal : ℕ → ℕ → Bytes → Bytes
decimal zero n acc = acc
decimal (suc fuel) n acc =
    let rest = decimal fuel (n / 10) ((48 + n % 10) ∷ acc) in
    if ltb n 10 then (48 + n) ∷ acc else rest

-- `strconv.Itoa` of a number that is not negative; `n + 1` digits are more than enough
unfoldable pub itoa : ℕ → Bytes
unfolding decimal
itoa n = decimal (suc n) n []

-- `strconv.FormatInt(n, 10)`
unfoldable pub format_int : ℤ → Bytes
unfolding itoa
format_int (pos n) = itoa n
format_int (negsuc n) = 45 ∷ itoa (suc n)
