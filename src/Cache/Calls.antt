-- ===== src/Cache/Calls.antt =====
-- `GetOrCompute` and `GetOrComputeNoTouch` of pkg/cache/lru.go, as the critical sections that each
-- call runs: callers of one key share a single computation. `leaders` is the computations under way,
-- which Go keeps on the callers' stacks; the rest is the struct `LRU`.
pub mod SingleFlight
pub mod Replies
pub mod Alone
use breezeorm.Prelude.{
  ℕ, suc, Bool, true, false, List, [], ◌∷◌, Option, none, some, ◌==◌, if◌then◌else◌,
}
use breezeorm.Cache.Lru.{
  Lru, bump, find_item, delete_item, put_item, peek, touch, count_read, set_locked,
}

-- How a call of `compute` ends.
pub data Outcome {ℓ} (V E : Type ℓ) : Type ℓ where
  value : V → Outcome V E
  failed : E → Outcome V E
  panicked : Outcome V E

-- `*call[V]`, by its number. A value of `none` is Go's zero value.
pub record Call {ℓ} (V E : Type ℓ) : Type ℓ where
  pub done : Bool
  pub value : Option V
  pub err : Option E

pub record World {ℓ} (K V E : Type ℓ) : Type ℓ where
  pub lru : Lru K V
  pub inflight : List (K × ℕ)
  pub calls : ℕ → Call V E
  pub next_call : ℕ
  pub leaders : List (K × ℕ)

-- What the first critical section decides: the value, a call to wait for, or a call to lead.
pub data Entry {ℓ} (V : Type ℓ) : Type ℓ where
  hit : V → Entry V
  wait : ℕ → Entry V
  lead : ℕ → Entry V

-- What `GetOrCompute` gives its caller.
pub data Reply {ℓ} (V E : Type ℓ) : Type ℓ where
  returned : Option V → Reply V E
  refused : E → Reply V E
  rethrown : Reply V E

module _ {ℓ} {V E : Type ℓ} where
  -- `&call[V]{done: make(chan struct{})}`
  abbrev pub fresh_call : Call V E
  fresh_call = record { done = false; value = none; err = none }

  -- `cl.value, cl.err` as the computation leaves them, with the channel closed
  unfoldable pub closed : Outcome V E → Call V E
  closed (value v) = record { done = true; value = some v; err = none }
  closed (failed e) = record { done = true; value = none; err = some e }
  closed panicked = record { done = true; value = none; err = none }

  unfoldable pub update : (ℕ → Call V E) → ℕ → Call V E → ℕ → Call V E
  update calls i cl j = if j == i then cl else calls j

  -- `return cl.value, cl.err`, once the channel is closed
  unfoldable pub wait_reply : Call V E → Reply V E
  wait_reply cl = elim cl.err [ some e ↦ refused e | none ↦ returned cl.value ]

  -- the end of the call that led
  unfoldable pub lead_reply : Outcome V E → Reply V E
  lead_reply (value v) = returned (some v)
  lead_reply (failed e) = refused e
  lead_reply panicked = rethrown

module _ {ℓ} {K V E : Type ℓ} (dec : Discrete K) where
  -- A miss joins the call under way for the key, or starts one.
  abbrev pub join_or_lead : K → Lru K V → World K V E → World K V E × Entry V
  join_or_lead k c w = elim (find_item dec k w.inflight) [
    | some i ↦ (record w { lru = c }, wait i)
    | none ↦ (
      record w {
        lru = c;
        inflight = put_item dec k w.next_call w.inflight;
        calls = update w.calls w.next_call fresh_call;
        next_call = suc w.next_call;
        leaders = (k, w.next_call) ∷ w.leaders;
      },
      lead w.next_call,
    )
  ]

  -- the first critical section of `GetOrCompute`
  unfoldable pub enter : K → World K V E → World K V E × Entry V
  enter k w = elim (peek dec k w.lru) [
    | some v ↦ (record w { lru = count_read (some v) (touch dec k w.lru) }, hit v)
    | none ↦ join_or_lead k (count_read none w.lru) w
  ]

  -- the read under the read lock of `GetOrComputeNoTouch`
  unfoldable pub enter_fast : K → World K V E → World K V E × Option V
  enter_fast k w = (record w { lru = count_read (peek dec k w.lru) w.lru }, peek dec k w.lru)

  -- its second critical section, which looks again
  unfoldable pub enter_slow : K → World K V E → World K V E × Entry V
  enter_slow k w = elim (peek dec k w.lru) [
    | some v ↦ (record w { lru = count_read (some v) w.lru }, hit v)
    | none ↦ join_or_lead k w.lru w
  ]

  -- what the computation installs: only a value, and only if it did not panic
  abbrev pub install : K → Outcome V E → Lru K V → Lru K V × List (K × V)
  install k (value v) c = set_locked dec k v c
  install k (failed e) c = (c, [])
  install k panicked c = (c, [])

  -- the last critical section, of the call that led; with the entries for `onEvict`
  unfoldable pub complete : K → ℕ → Outcome V E → World K V E → World K V E × List (K × V)
  complete k i o w =
      let (c, evicted) = install k o w.lru in
      (
        record w {
          lru = c;
          inflight = delete_item dec k w.inflight;
          calls = update w.calls i (closed o);
          leaders = delete_item dec k w.leaders;
        },
        evicted,
      )

  -- `GetOrComputeNoTouch` of one caller with no other critical section in between; `none` is a wait
  -- on another caller's channel. `o` is what its `compute` would give.
  unfoldable pub get_or_compute_no_touch :
      K → Outcome V E → World K V E → World K V E × Option (Reply V E)
  unfolding enter_fast enter_slow complete lead_reply
  get_or_compute_no_touch k o w =
      let (w', seen) = enter_fast k w in
      elim seen [
        | some v ↦ (w', some (returned (some v)))
        | none ↦
            let (w'', entry) = enter_slow k w' in
            elim entry [
              | hit v ↦ (w'', some (returned (some v)))
              | wait i ↦ (w'', none)
              | lead i ↦ ((complete k i o w'').0, some (lead_reply o))
            ]
      ]
