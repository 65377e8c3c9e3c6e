-- ===== src/Retry/Delays.antt =====
-- Which delays can be drawn.
use native.Mathlib.Nat.{mod-eq_of_lt}
use breezeorm.Prelude.{
  ℕ, suc, zero, ◌-◌, ◌*◌, ◌%◌, ◌^◌, ◌≤◌, ◌<◌, ◌≡◌, ap, ◌∙◌, ltb, none, some, if◌then◌else◌, arith,
}
use breezeorm.Prelude.Int.{pos, word_mod, of_word, to_word, mul64, ltb_ℤ}
use breezeorm.Retry.{shift64, capped_delay, draw_bound}

-- A doubled delay and the most, both below 2 ^ 63: the values from zero to the smaller are drawn from.
draw_bound-fits :
    (m p : ℕ)
    → p < 2 ^ 63
    → suc m < 2 ^ 63
    → draw_bound (if ltb_ℤ (pos m) (of_word p) then pos m else of_word p)
      ≡ some (suc (if ltb m p then m else p))
unfolding draw_bound
draw_bound-fits m p h k = ground arith

draw_bound-overflows :
    (m p : ℕ)
    → 2 ^ 63 ≤ p
    → p < 2 ^ 64
    → draw_bound (if ltb_ℤ (pos m) (of_word p) then pos m else of_word p) ≡ none
unfolding draw_bound
draw_bound-overflows m p h k = ground arith

to_word-of_word : (w : ℕ) → w < 2 ^ 64 → to_word (of_word w) ≡ w
to_word-of_word w h = ground arith

pow_pos : (n : ℕ) → 0 < 2 ^ n
pow_pos zero = omega arith
pow_pos (suc n) = omega (arith, pow_pos n)

le_mul : (b x : ℕ) → 0 < b → x ≤ b * x
le_mul b x h = grind arith

-- A product below 2 ^ 64 of numbers that are not zero, through the bit patterns.
product_lem :
    (b x : ℕ)
    → 0 < b
    → 0 < x
    → b * x < 2 ^ 64
    → b % word_mod * to_word (of_word (x % word_mod)) ≡ b * x
product_lem b x h k l =
    let small_x : x < 2 ^ 64 = omega (arith, le_mul b x h) in
    let small_b : b < 2 ^ 64 = grind arith in
    let ex : to_word (of_word (x % word_mod)) ≡ x =
      ap (λ w. to_word (of_word w)) (mod-eq_of_lt small_x) ∙ to_word-of_word x small_x in
    ap (λ w. w * to_word (of_word (x % word_mod))) (mod-eq_of_lt small_b) ∙ ap (λ w. b * w) ex

-- The doubled delay, while it is below 2 ^ 64.
mul64-shift64 :
    (b n : ℕ) → 0 < b → b * 2 ^ n < 2 ^ 64 → mul64 (pos b) (shift64 n) ≡ of_word (b * 2 ^ n)
unfolding mul64 shift64
mul64-shift64 b n h k =
    let below = product_lem b (2 ^ n) h (pow_pos n) k in
    ap (λ w. of_word (w % word_mod)) below ∙ ap of_word (mod-eq_of_lt k)

-- For a positive base and a most that can be counted up by one, before attempt n + 1, while the doubled
-- base is below 2 ^ 64: as long as it is below 2 ^ 63 the delay is drawn from zero to the smaller of it and
-- the most; from there on the loop panics.
pub draw_bound-capped_delay :
    (b m n : ℕ)
    → 0 < b
    → suc m < 2 ^ 63
    → b * 2 ^ n < 2 ^ 64
    → draw_bound (capped_delay (pos b) (pos m) (suc n)) ≡ (
        if ltb (b * 2 ^ n) (2 ^ 63)
        then some (suc (if ltb m (b * 2 ^ n) then m else b * 2 ^ n))
        else none)
unfolding capped_delay
draw_bound-capped_delay b m n h k l =
    let earlier : suc n - 1 ≡ n = omega arith in
    let delay : mul64 (pos b) (shift64 (suc n - 1)) ≡ of_word (b * 2 ^ n) =
      ap (λ i. mul64 (pos b) (shift64 i)) earlier ∙ mul64-shift64 b n h l in
    ap (λ d. draw_bound (if ltb_ℤ (pos m) d then pos m else d)) delay ∙ drawn (b * 2 ^ n) l
  where
    drawn :
        (p : ℕ)
        → p < 2 ^ 64
        → draw_bound (if ltb_ℤ (pos m) (of_word p) then pos m else of_word p)
          ≡ (if ltb p (2 ^ 63) then some (suc (if ltb m p then m else p)) else none)
    drawn p q = ground (arith, draw_bound-fits m p, draw_bound-overflows m p)
