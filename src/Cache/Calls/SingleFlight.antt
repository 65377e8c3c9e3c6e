-- ===== src/Cache/Calls/SingleFlight.antt =====
-- Every interleaving of the critical sections keeps one computation per key, and closes every call.
use breezeorm.Prelude.{
  ℕ, suc, ◌<◌, ◌≡◌, refl, sym, ◌∙◌, true, List, [], ◌∷◌, Option, none, some, ◌==◌, arith,
  Bool-cases, Option-cases, inl, inr, ◌⊎◌,
}
use breezeorm.Prelude.Int.{ℤ}
use breezeorm.Cache.Lru.{
  Lru, find_item, delete_item, put_item, peek, touch, get, set, delete, purge, count_read, new_lru,
}
use breezeorm.Cache.Lru.Moves.{find_item-delete_item, find_item-put_item}
use breezeorm.Cache.Lru.Refines.{IsValid, touch-IsValid}
use breezeorm.Cache.Lru.Operations.{
  count_read_lem, delete-IsValid, purge-IsValid, get-get_no_touch, new_lru-IsValid,
}
use breezeorm.Cache.Lru.Writes.{set-Keeps}
use breezeorm.Cache.Calls.{
  Outcome, value, failed, panicked, World, fresh_call, closed, update, join_or_lead, enter,
  enter_fast, enter_slow, install, complete,
}

module _ {ℓ} {K : Type ℓ} (dec : Discrete K) where
  -- No two computations for one key.
  abbrev pub HasUniqueKeys : List (K × ℕ) → Type ℓ
  HasUniqueKeys [] = Unit
  HasUniqueKeys (e ∷ es) = (find_item dec e.0 es ≡ none) × HasUniqueKeys es

  HasUniqueKeys-delete_item :
      (k : K) (l : List (K × ℕ)) → HasUniqueKeys l → HasUniqueKeys (delete_item dec k l)
  unfolding delete_item
  HasUniqueKeys-delete_item k [] u = tt
  HasUniqueKeys-delete_item k ((j, i) ∷ l) (a, u) =
      elim (dec k j)
        as (λ d.
          HasUniqueKeys
            (elim d [ yes p ↦ delete_item dec k l | no p ↦ (j, i) ∷ delete_item dec k l ])) [
              | yes p ↦ HasUniqueKeys-delete_item k l u
              | no p ↦
                  (ground (arith, find_item-delete_item dec k j l), HasUniqueKeys-delete_item k l u)
            ]

  find_item-lead :
      (k q : K) (i : ℕ) (l : List (K × ℕ))
      → find_item dec q ((k, i) ∷ l) ≡ elim (dec q k) [ yes p ↦ some i | no p ↦ find_item dec q l ]
  unfolding find_item
  find_item-lead k q i l = ground arith

module _ {ℓ} {K V E : Type ℓ} (dec : Discrete K) where
  -- One critical section, of any caller, on any key. A computation may end in any way, at any time.
  pub data Step : World K V E → World K V E → Type ℓ where
    enters : (k : K) (w : World K V E) → Step w (enter dec k w).0
    reads : (k : K) (w : World K V E) → Step w (enter_fast dec k w).0
    enters_again : (k : K) (w : World K V E) → Step w (enter_slow dec k w).0
    completes :
        (k : K) (i : ℕ) (o : Outcome V E) (w : World K V E)
        → find_item dec k w.leaders ≡ some i
        → Step w (complete dec k i o w).0
    gets : (k : K) (w : World K V E) → Step w (record w { lru = (get dec k w.lru).1 })
    sets : (k : K) (v : V) (w : World K V E) → Step w (record w { lru = (set dec k v w.lru).0 })
    deletes : (k : K) (w : World K V E) → Step w (record w { lru = (delete dec k w.lru).0 })
    purges :
        (order : List (K × ℕ)) (w : World K V E) → Step w (record w { lru = (purge order w.lru).0 })

  pub data Reach (s : World K V E) : World K V E → Type ℓ where
    here : Reach s s
    next : {t u : World K V E} → Reach s t → Step t u → Reach s u

  unfoldable pub start : ℤ → World K V E
  start capacity = record {
    lru = new_lru capacity;
    inflight = [];
    calls = λ i. fresh_call;
    next_call = 0;
    leaders = [];
  }

  -- `inflight` is the computations under way, each with a call of its own that is open; every other
  -- call is closed.
  pub record IsFlying (w : World K V E) : Type ℓ where
    pub valid : IsValid dec w.lru
    pub single : HasUniqueKeys dec w.leaders
    pub known : (k : K) → find_item dec k w.inflight ≡ find_item dec k w.leaders
    pub given : (k : K) (i : ℕ) → find_item dec k w.leaders ≡ some i → i < w.next_call
    pub apart :
        (k j : K) (i : ℕ)
        → find_item dec k w.leaders ≡ some i
        → find_item dec j w.leaders ≡ some i
        → k ≡ j
    pub pending :
        (i : ℕ)
        → i < w.next_call
        → ((w.calls i).done ≡ true) ⊎ ((k : K) × (find_item dec k w.leaders ≡ some i))

  lru-IsFlying :
      (w : World K V E) (c : Lru K V) → IsFlying w → IsValid dec c → IsFlying (record w { lru = c })
  lru-IsFlying w c f v = record {
    valid = v;
    single = f.single;
    known = f.known;
    given = f.given;
    apart = f.apart;
    pending = f.pending;
  }

  leading-IsFlying :
      (k : K) (c : Lru K V) (w : World K V E)
      → IsFlying w
      → IsValid dec c
      → find_item dec k w.inflight ≡ none
      → IsFlying (record w {
        lru = c;
        inflight = put_item dec k w.next_call w.inflight;
        calls = update w.calls w.next_call fresh_call;
        next_call = suc w.next_call;
        leaders = (k, w.next_call) ∷ w.leaders;
      })
  unfolding update
  leading-IsFlying k c w f v h = record {
    valid = v;
    single = (sym (f.known k) ∙ h, f.single);
    known = λ q. ground (
      arith,
      find_item-put_item dec k q w.next_call w.inflight,
      find_item-lead dec k q w.next_call w.leaders,
      f.known q,
    );
    given = λ q i e. ground (arith, find_item-lead dec k q w.next_call w.leaders, f.given q i);
    apart = λ q j i e g. ground (
      arith,
      find_item-lead dec k q w.next_call w.leaders,
      find_item-lead dec k j w.next_call w.leaders,
      f.apart q j i,
      f.given q i,
      f.given j i,
    );
    pending = λ i b. elim (Bool-cases (i == w.next_call)) [
      | inl e ↦ inr (k, ground (arith, find_item-lead dec k k w.next_call w.leaders))
      | inr e ↦ elim (f.pending i (ground arith)) [
        | inl d ↦ inl (ground arith)
        | inr (q, g) ↦
            inr (q, ground (arith, find_item-lead dec k q w.next_call w.leaders, f.known k))
      ]
    ];
  }

  join_miss :
      (k : K) (c : Lru K V) (w : World K V E)
      → find_item dec k w.inflight ≡ none
      → (join_or_lead dec k c w).0 ≡ record w {
        lru = c;
        inflight = put_item dec k w.next_call w.inflight;
        calls = update w.calls w.next_call fresh_call;
        next_call = suc w.next_call;
        leaders = (k, w.next_call) ∷ w.leaders;
      }
  join_miss k c w h = ground arith

  join_wait :
      (k : K) (c : Lru K V) (w : World K V E) (i : ℕ)
      → find_item dec k w.inflight ≡ some i
      → (join_or_lead dec k c w).0 ≡ record w { lru = c }
  join_wait k c w i h = ground arith

  join_or_lead-IsFlying :
      (k : K) (c : Lru K V) (w : World K V E)
      → IsFlying w
      → IsValid dec c
      → IsFlying (join_or_lead dec k c w).0
  join_or_lead-IsFlying k c w f v = elim (Option-cases (find_item dec k w.inflight)) [
    | inl h ↦ rw (join_miss k c w h) (leading-IsFlying k c w f v h)
    | inr (i, h) ↦ rw (join_wait k c w i h) (lru-IsFlying w c f v)
  ]

  complete-IsFlying :
      (k : K) (i : ℕ) (o : Outcome V E) (w : World K V E)
      → IsFlying w
      → find_item dec k w.leaders ≡ some i
      → IsFlying (complete dec k i o w).0
  unfolding complete update closed set
  complete-IsFlying k i o w f h = record {
    valid = install-IsValid o;
    single = HasUniqueKeys-delete_item dec k w.leaders f.single;
    known = λ q. ground (
      arith,
      find_item-delete_item dec k q w.inflight,
      find_item-delete_item dec k q w.leaders,
      f.known q,
    );
    given = λ q j e. ground (arith, find_item-delete_item dec k q w.leaders, f.given q j);
    apart = λ q p j e g. ground (
      arith,
      find_item-delete_item dec k q w.leaders,
      find_item-delete_item dec k p w.leaders,
      f.apart q p j,
    );
    pending = λ j b. elim (Bool-cases (j == i)) [
      | inl e ↦ inl (ended o j e)
      | inr e ↦ elim (f.pending j b) [
        | inl d ↦ inl (ground arith)
        | inr (q, g) ↦ inr (q, ground (arith, find_item-delete_item dec k q w.leaders))
      ]
    ];
  }
    where
      install-IsValid : (x : Outcome V E) → IsValid dec (install dec k x w.lru).0
      install-IsValid (value v) = (set-Keeps dec w.lru k v f.valid).3
      install-IsValid (failed e) = f.valid
      install-IsValid panicked = f.valid

      ended :
          (x : Outcome V E) (j : ℕ) → (j == i) ≡ true → (update w.calls i (closed x) j).done ≡ true
      ended (value v) j e = rw e
      ended (failed x) j e = rw e
      ended panicked j e = rw e

  count_read-IsFlying :
      (o : Option V) (c : Lru K V) (w : World K V E)
      → IsFlying w
      → IsValid dec c
      → IsFlying (record w { lru = count_read o c })
  count_read-IsFlying o c w f v = lru-IsFlying w (count_read o c) f ((count_read_lem dec o c).1 v)

  -- What a critical section does on a hit and on a miss.
  enter_cases :
      (k : K) (w : World K V E)
      → ((enter dec k w).0 ≡ (join_or_lead dec k (count_read none w.lru) w).0)
        ⊎ ((v : V) × ((enter dec k w).0
              ≡ record w { lru = count_read (some v) (touch dec k w.lru) }))
  unfolding enter
  enter_cases k w = elim (Option-cases (peek dec k w.lru)) [
    | inl h ↦ inl (ground arith)
    | inr (v, h) ↦ inr (v, ground arith)
  ]

  enter_slow_cases :
      (k : K) (w : World K V E)
      → ((enter_slow dec k w).0 ≡ (join_or_lead dec k w.lru w).0)
        ⊎ ((v : V) × ((enter_slow dec k w).0 ≡ record w { lru = count_read (some v) w.lru }))
  unfolding enter_slow
  enter_slow_cases k w = elim (Option-cases (peek dec k w.lru)) [
    | inl h ↦ inl (ground arith)
    | inr (v, h) ↦ inr (v, ground arith)
  ]

  Step-IsFlying : {w u : World K V E} → Step w u → IsFlying w → IsFlying u
  unfolding enter_fast
  Step-IsFlying (enters k w) f = elim (enter_cases k w) [
    | inl h ↦ rw h (join_or_lead-IsFlying k (count_read none w.lru) w f f.valid)
    | inr (v, h) ↦
        rw h
          (count_read-IsFlying (some v) (touch dec k w.lru) w f (touch-IsValid dec w.lru k f.valid))
  ]
  Step-IsFlying (reads k w) f = count_read-IsFlying (peek dec k w.lru) w.lru w f f.valid
  Step-IsFlying (enters_again k w) f = elim (enter_slow_cases k w) [
    | inl h ↦ rw h (join_or_lead-IsFlying k w.lru w f f.valid)
    | inr (v, h) ↦ rw h (count_read-IsFlying (some v) w.lru w f f.valid)
  ]
  Step-IsFlying (completes k i o w h) f = complete-IsFlying k i o w f h
  Step-IsFlying (gets k w) f = lru-IsFlying w _ f (get-get_no_touch dec w.lru k f.valid).2
  Step-IsFlying (sets k v w) f = lru-IsFlying w _ f (set-Keeps dec w.lru k v f.valid).3
  Step-IsFlying (deletes k w) f = lru-IsFlying w _ f (delete-IsValid dec w.lru k f.valid)
  Step-IsFlying (purges order w) f = lru-IsFlying w _ f (purge-IsValid dec order w.lru f.valid)

  start-IsFlying : (n : ℤ) → IsFlying (start n)
  unfolding start find_item
  start-IsFlying n = record {
    valid = (new_lru-IsValid dec n).0;
    single = tt;
    known = λ q. refl;
    given = λ q i e. absurd (cc);
    apart = λ q j i e g. absurd (cc);
    pending = λ i b. absurd (omega arith);
  }

  -- However the callers' critical sections interleave, and however the computations end: the cache
  -- stays valid, no key has two computations under way, and every call that was handed out is closed
  -- or has a computation that will close it.
  pub Reach-IsFlying : (n : ℤ) {w : World K V E} → Reach (start n) w → IsFlying w
  Reach-IsFlying n here = start-IsFlying n
  Reach-IsFlying n (next r st) = Step-IsFlying st (Reach-IsFlying n r)
