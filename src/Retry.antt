-- ===== src/Retry.antt =====
-- What the two retry loops share (pkg/transaction/transaction.go, pkg/execution/executor.go): the words by
-- which an error is taken as transient, and the bound under which a delay is drawn. `time.Duration` is
-- an `int64` of nanoseconds.
pub mod Delays
use breezeorm.Prelude.{
  ℕ, ◌+◌, ◌-◌, ◌%◌, ◌^◌, ◌≤◌, ◌<◌, ◌≡◌, refl, Bool, true, false, ◌||◌, ◌&&◌, leb, ltb, List, [],
  ◌∷◌, Option, none, some, if◌then◌else◌, arith,
}
use breezeorm.Prelude.Int.{ℤ, pos, negsuc, word_mod, of_word, to_word, mul64, ltb_ℤ}
use breezeorm.Text.{Bytes, lit, has_prefix}

-- `strings.ToLower` on ASCII
unfoldable pub to_lower : Bytes → Bytes
to_lower [] = []
to_lower (b ∷ bs) = (if leb b'A' b && leb b b'Z' then b + 32 else b) ∷ to_lower bs

-- `strings.Contains(s, needle)` for a needle that is not empty
unfoldable pub contains : Bytes → Bytes → Bool
contains [] needle = false
contains (b ∷ bs) needle = has_prefix needle (b ∷ bs) || contains bs needle

unfoldable pub contains_any : Bytes → List Bytes → Bool
unfolding contains
contains_any s [] = false
contains_any s (n ∷ ns) = contains s n || contains_any s ns

abbrev pub needles : List Bytes
needles =
    lit "deadlock"
    ∷ lit "serialization failure"
    ∷ lit "lock wait timeout"
    ∷ lit "could not serialize"
    ∷ lit "database is locked"
    ∷ []

-- the loop over the needles, on the text of an error
unfoldable pub is_transient : Bytes → Bool
unfolding to_lower contains_any
is_transient message = contains_any (to_lower message) needles

-- `time.Duration(1 << uint(n))`
unfoldable pub shift64 : ℕ → ℤ
shift64 n = of_word (2 ^ n % word_mod)

-- The delay before it is drawn: the base doubled, and no more than the most.
unfoldable pub capped_delay : ℤ → ℤ → ℕ → ℤ
unfolding shift64 mul64
capped_delay base most attempt =
    let d = mul64 base (shift64 (attempt - 1)) in if ltb_ℤ most d then most else d

-- `rand.Int63n(int64(d) + 1)`: how many values it draws from, or a panic where that is not positive.
unfoldable pub draw_bound : ℤ → Option ℕ
draw_bound d = elim (of_word ((to_word d + 1) % word_mod)) [
  | pos n ↦ if ltb 0 n then some n else none
  | negsuc n ↦ none
]

-- How the wait before another attempt ends.
pub data Wait (E : Type 0) : Type 0 where
  waited overflowed : Wait E
  given_up : E → Wait E

-- `select` on the context and the timer, on the error of the context if that is what ends it; the delay
-- is drawn before.
abbrev pub wait_for : {E : Type 0} → Option ℕ → Option E → Wait E
wait_for none ctx = overflowed
wait_for (some n) none = waited
wait_for (some n) (some e) = given_up e
