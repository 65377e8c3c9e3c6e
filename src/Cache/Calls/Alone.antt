-- ===== src/Cache/Calls/Alone.antt =====
-- `GetOrComputeNoTouch` of a caller that no other caller meets.
use breezeorm.Prelude.{◌≡◌, refl, sym, ap, subst, ◌∙◌, Option, none, some, arith}
use breezeorm.Cache.Lru.{find_item, peek, count_read}
use breezeorm.Cache.Lru.Refines.{IsValid}
use breezeorm.Cache.Lru.Operations.{count_read_lem}
use breezeorm.Cache.Calls.{
  Outcome, value, World, returned, lead_reply, enter_fast, enter_slow, complete,
  get_or_compute_no_touch,
}
use breezeorm.Cache.Calls.Replies.{complete-wait_reply}

module _ {ℓ} {K V E : Type ℓ} (dec : Discrete K) (k : K) (w : World K V E) where
  peek-count_read : (o : Option V) → peek dec k (count_read o w.lru) ≡ peek dec k w.lru
  unfolding peek
  peek-count_read none = refl
  peek-count_read (some v) = refl

  -- A key that is cached is answered from the cache, whatever the computation would give.
  pub get_or_compute_no_touch_hit :
      (o : Outcome V E) (v : V)
      → peek dec k w.lru ≡ some v
      → (get_or_compute_no_touch dec k o w).1 ≡ some (returned (some v))
  unfolding get_or_compute_no_touch
  get_or_compute_no_touch_hit o v h = ground arith

  -- The world in which the caller leads.
  led : World K V E
  led = (enter_slow dec k (enter_fast dec k w).0).0

  led-lru :
      peek dec k w.lru ≡ none → find_item dec k w.inflight ≡ none → led.lru ≡ count_read none w.lru
  unfolding led enter_slow enter_fast
  led-lru p f = ground (arith, peek-count_read none)

  -- A key that is neither cached nor under way is computed, and then cached.
  pub get_or_compute_no_touch_miss :
      (v : V)
      → IsValid dec w.lru
      → peek dec k w.lru ≡ none
      → find_item dec k w.inflight ≡ none
      → ((get_or_compute_no_touch dec k (value v) w).1 ≡ some (returned (some v)))
        × (peek dec k (get_or_compute_no_touch dec k (value v) w).0.lru ≡ some v)
  unfolding get_or_compute_no_touch lead_reply led
  get_or_compute_no_touch_miss v h p f =
      let again = peek-count_read none in
      let whole : get_or_compute_no_touch dec k (value v) w
          ≡ ((complete dec k w.next_call (value v) led).0, some (returned (some v))) =
        ground arith in
      let valid = subst (IsValid dec) (sym (led-lru p f)) ((count_read_lem dec none w.lru).1 h) in
      (
        ap (λ r. r.1) whole,
        ap (λ r. peek dec k r.0.lru) whole
            ∙ (complete-wait_reply dec k w.next_call (value v) led valid).2,
      )
