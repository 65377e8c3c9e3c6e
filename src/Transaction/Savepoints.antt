-- ===== src/Transaction/Savepoints.antt =====
-- The savepoints of a transaction, read off the commands that the database accepted.
use breezeorm.Prelude.{
  ℕ, suc, ◌-◌, ◌≤◌, ◌<◌, ◌≡◌, refl, sym, ap, ◌∙◌, subst, ◌==◌, List, [], ◌∷◌, ◌++◌, append_assoc,
  Option, none, some, if◌then◌else◌, arith,
}
use breezeorm.Text.{Bytes}
use breezeorm.Transaction.{
  Command, savepoint, rollback_to, release, statement, Failure, savepoint_failed, Ending, finished,
  panicked, failed, Body, ends, sends, nests, Log, Left, issue, run_body, run_nested, begin_nested,
  end_nested,
}

-- The savepoints from the newest to one of a name, which stays.
unfoldable pub back_to : ℕ → List ℕ → List ℕ
back_to n [] = []
back_to n (m ∷ ms) = if m == n then m ∷ ms else back_to n ms

abbrev pub older : List ℕ → List ℕ
older [] = []
older (m ∷ ms) = ms

-- What an accepted command does to the savepoints, as SQL has it.
unfoldable pub applied : Command → List ℕ → List ℕ
unfolding back_to
applied (savepoint n) s = n ∷ s
applied (rollback_to n) s = back_to n s
applied (release n) s = older (back_to n s)
applied (statement t) s = s
applied _ s = []

-- The savepoints that a database has after the commands of a log. A refused command changes nothing.
unfoldable pub savepoints : {E : Type 0} → Log E → List ℕ
unfolding applied
savepoints [] = []
savepoints ((c, none) ∷ log) = applied c (savepoints log)
savepoints ((c, some e) ∷ log) = savepoints log

abbrev pub Has : ℕ → List ℕ → Type 0
Has n s = (ms : List ℕ) × (back_to n s ≡ n ∷ ms)

abbrev pub Lacks : ℕ → List ℕ → Type 0
Lacks n s = back_to n s ≡ []

-- A command makes a savepoint of a new name, or names one that there is.
abbrev pub IsApt : Command → List ℕ → Type 0
IsApt (savepoint n) s = Lacks n s
IsApt (rollback_to n) s = Has n s
IsApt (release n) s = Has n s
IsApt _ s = Unit

abbrev pub IsSound : {E : Type 0} → Log E → Type 0
unfolding savepoints
IsSound [] = Unit
IsSound ((c, r) ∷ log) = IsApt c (savepoints log) × IsSound log

-- Names over lo and up to hi, from the highest down.
abbrev pub Between : ℕ → ℕ → List ℕ → Type 0
Between lo hi [] = lo ≤ hi
Between lo hi (n ∷ ns) = (n ≤ hi) × (lo < n) × Between lo (n - 1) ns

Between-widen : (lo hi hi' : ℕ) (s : List ℕ) → hi ≤ hi' → Between lo hi s → Between lo hi' s
Between-widen lo hi hi' [] h b = omega arith
Between-widen lo hi hi' (n ∷ ns) h (top, low, rest) = (omega arith, low, rest)

Between-le : (lo hi : ℕ) (s : List ℕ) → Between lo hi s → lo ≤ hi
Between-le lo hi [] b = b
Between-le lo hi (n ∷ ns) (top, low, rest) = omega arith

Between-append :
    (lo mid hi : ℕ) (s t : List ℕ) → Between mid hi s → Between lo mid t → Between lo hi (s ++ t)
Between-append lo mid hi [] t b c = Between-widen lo mid hi t b c
Between-append lo mid hi (n ∷ ns) t (top, low, rest) c =
    let low' = Between-le lo mid t c in
    (top, omega arith, Between-append lo mid (n - 1) ns t rest c)

back_to-Lacks : (lo hi n : ℕ) (s : List ℕ) → Between lo hi s → hi < n → Lacks n s
unfolding back_to
back_to-Lacks lo hi n [] b h = refl
back_to-Lacks lo hi n (m ∷ ms) (top, low, rest) h =
    ground (arith, back_to-Lacks lo (m - 1) n ms rest (omega arith))

back_to-append : (n hi : ℕ) (s t : List ℕ) → Between n hi s → back_to n (s ++ (n ∷ t)) ≡ n ∷ t
unfolding back_to
back_to-append n hi [] t b = ground arith
back_to-append n hi (m ∷ ms) t (top, low, rest) = ground (arith, back_to-append n (m - 1) ms t rest)

module _ {E : Type 0} where
  -- What a body that ends without a panic adds to the savepoints: names over the depth it began at.
  abbrev pub Adds : Ending E → ℕ → ℕ → Log E → Log E → Type 0
  Adds panicked d d' log log' = Unit
  Adds _ d d' log log' =
      (added : List ℕ) × (savepoints log' ≡ added ++ savepoints log) × Between d d' added

  abbrev pub IsNested : ℕ → Log E → Left E → Type 0
  IsNested d log out = IsSound out.log × Adds out.ending d out.depth log out.log

  -- A function of a depth and a log that nests well, from wherever it starts.
  abbrev pub Nests : (ℕ → Log E → Left E) → Type 0
  Nests f =
      (d : ℕ) (log : Log E) → IsSound log → Between 0 d (savepoints log) → IsNested d log (f d log)

  Adds-Adds :
      (o : Ending E) (d d1 d2 : ℕ) (log log1 log2 : Log E) (added : List ℕ)
      → savepoints log1 ≡ added ++ savepoints log
      → Between d d1 added
      → Adds o d1 d2 log1 log2
      → Adds o d d2 log log2
  Adds-Adds panicked d d1 d2 log log1 log2 added eq b a = a
  Adds-Adds finished d d1 d2 log log1 log2 added eq b (more, eq', b') = (
    more ++ added,
    eq' ∙ ap (◌++◌ more) eq ∙ sym (append_assoc more added (savepoints log)),
    Between-append d d1 d2 more added b' b,
  )
  Adds-Adds (failed e) d d1 d2 log log1 log2 added eq b (more, eq', b') = (
    more ++ added,
    eq' ∙ ap (◌++◌ more) eq ∙ sym (append_assoc more added (savepoints log)),
    Between-append d d1 d2 more added b' b,
  )

  -- To go on from a log that has some more savepoints.
  Nests-from :
      (f : ℕ → Log E → Left E) (d d1 : ℕ) (log log1 : Log E) (added : List ℕ)
      → Nests f
      → Between 0 d (savepoints log)
      → IsSound log1
      → savepoints log1 ≡ added ++ savepoints log
      → Between d d1 added
      → IsNested d log (f d1 log1)
  Nests-from f d d1 log log1 added nested below sound eq b =
      let (sound', adds) =
        nested d1 log1 sound
          (subst (Between 0 d1) (sym eq) (Between-append 0 d d1 added (savepoints log) b below)) in
      (
        sound',
        Adds-Adds (f d1 log1).ending d d1 (f d1 log1).depth log log1 (f d1 log1).log added eq b
            adds,
      )

  -- A database that can always go back to a savepoint that it has, and release it.
  abbrev pub Returns : (Log E → Command → Option E) → Type 0
  Returns answer =
      (log : Log E) (n : ℕ)
      → Has n (savepoints log)
      → (answer log (rollback_to n) ≡ none) × (answer log (release n) ≡ none)

  savepoints-statement :
      (log : Log E) (s : Bytes) (r : Option E)
      → savepoints ((statement s, r) ∷ log) ≡ savepoints log
  unfolding savepoints applied
  savepoints-statement log s none = refl
  savepoints-statement log s (some e) = refl

  module _ (answer : Log E → Command → Option E) (returns : Returns answer) where
    module _ (fn : ℕ → Log E → Left E) (next : Option (Failure E) → ℕ → Log E → Left E)
        (goes_on : (x : Option (Failure E)) → Nests (next x)) where
      -- The function has ended under the savepoint d + 1, which is still there.
      end_nested-IsNested :
          (d hi : ℕ) (o : Ending E) (log begun log1 : Log E)
          → Between 0 d (savepoints log)
          → savepoints begun ≡ suc d ∷ savepoints log
          → IsSound log1
          → Adds o (suc d) hi begun log1
          → IsNested d log (end_nested answer fn next (suc d) o log1)
      unfolding end_nested issue savepoints applied
      end_nested-IsNested d hi panicked log begun log1 below start sound adds = (sound, tt)
      end_nested-IsNested d hi (failed e) log begun log1 below start sound (added, eq, b) =
          let there =
            ap (back_to (suc d)) (eq ∙ ap (◌++◌ added) start)
            ∙ back_to-append (suc d) hi added (savepoints log) b in
          let kept : savepoints ((rollback_to (suc d), answer log1 (rollback_to (suc d))) ∷ log1)
              ≡ suc d ∷ savepoints log =
            ap (λ r. savepoints ((rollback_to (suc d), r) ∷ log1))
              (returns log1 (suc d) (savepoints log, there)).0
            ∙ there in
          Nests-from _ d (suc d) log _ (suc d ∷ []) (goes_on _) below
            ((savepoints log, there), sound) kept (omega arith, omega arith, omega arith)
      end_nested-IsNested d hi finished log begun log1 below start sound (added, eq, b) =
          let there =
            ap (back_to (suc d)) (eq ∙ ap (◌++◌ added) start)
            ∙ back_to-append (suc d) hi added (savepoints log) b in
          let gone : savepoints ((release (suc d), answer log1 (release (suc d))) ∷ log1)
              ≡ savepoints log =
            ap (λ r. savepoints ((release (suc d), r) ∷ log1))
              (returns log1 (suc d) (savepoints log, there)).1
            ∙ ap older there in
          Nests-from _ d (suc d) log _ [] (goes_on _) below ((savepoints log, there), sound) gone
            (omega arith)

      module _ (nested : Nests fn) where
        begin_nested-IsNested :
            (d : ℕ) (r : Option E) (log : Log E)
            → IsSound log
            → Between 0 d (savepoints log)
            → IsNested d log (begin_nested answer fn next d r ((savepoint (suc d), r) ∷ log))
        unfolding begin_nested savepoints applied
        begin_nested-IsNested d (some e) log sound below =
            Nests-from (next (some (savepoint_failed e))) d d log
              ((savepoint (suc d), some e) ∷ log) [] (goes_on _) below
              (back_to-Lacks 0 d (suc d) (savepoints log) below (omega arith), sound) refl
              (omega arith)
        begin_nested-IsNested d none log sound below =
            let fresh = back_to-Lacks 0 d (suc d) (savepoints log) below (omega arith) in
            let (sound', adds) =
              nested (suc d) ((savepoint (suc d), none) ∷ log) (fresh, sound)
                (
                  omega arith,
                  omega arith,
                  Between-widen 0 d (suc d - 1) (savepoints log) (omega arith) below,
                ) in
            end_nested-IsNested d _ _ log ((savepoint (suc d), none) ∷ log) _ below refl sound' adds

        run_nested-Nests : Nests (run_nested answer fn next)
        unfolding run_nested issue
        run_nested-Nests d log sound below = begin_nested-IsNested d _ log sound below

    run_body-Nests : (fn : Body E) → Nests (run_body answer fn)
    unfolding run_body issue IsSound
    run_body-Nests (ends finished) d log sound below = (sound, ([], refl, omega arith))
    run_body-Nests (ends panicked) d log sound below = (sound, tt)
    run_body-Nests (ends (failed e)) d log sound below = (sound, ([], refl, omega arith))
    run_body-Nests (sends s next) d log sound below =
        Nests-from _ d d log _ [] (run_body-Nests (next _)) below (tt, sound)
          (savepoints-statement log s _) (omega arith)
    run_body-Nests (nests inner next) d log sound below =
        run_nested-Nests (run_body answer inner) (λ x. run_body answer (next x))
          (λ x. run_body-Nests (next x)) (run_body-Nests inner) d log sound below

  -- On a database that can always go back to a savepoint that it has, and release it, and from savepoints
  -- that are numbered in order up to the depth of the transaction: whatever a function does with its
  -- context, each savepoint that it and the functions nested in it make has a name that is not in use,
  -- each one that they go back to or release is there, and unless it panics the savepoints from before it
  -- are all there after it.
  pub run_body-IsNested :
      (answer : Log E → Command → Option E) (fn : Body E) (d : ℕ) (log : Log E)
      → Returns answer
      → IsSound log
      → Between 0 d (savepoints log)
      → IsNested d log (run_body answer fn d log)
  run_body-IsNested answer fn d log returns = run_body-Nests answer returns fn d log
