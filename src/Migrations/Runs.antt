-- ===== src/Migrations/Runs.antt =====
-- What a run of the migrator records.
use breezeorm.Prelude.{
  ◌≡◌, refl, sym, ap, ◌∙◌, Bool, true, false, List, [], ◌∷◌, ◌++◌, All, Option, none, some,
  if◌then◌else◌, reverse_aux, arith, subst,
}
use breezeorm.Text.{Bytes}
use breezeorm.Plugins.{Answer, ok, refused}
use breezeorm.Migrations.{
  Failure, Migration, Database, Migrator, has_version, then_run, end_tx, up_steps, run_one,
  after_one, up_from, up_listed, up_ensured, up_all,
}

module _ {S E : Type 0} where
  -- The versions of the migrations that are not applied, in their order.
  abbrev pub pending : List Bytes → List (Migration S E) → List Bytes
  pending applied [] = []
  pending applied (m ∷ ms) =
      if has_version m.version applied then pending applied ms else m.version ∷ pending applied ms

module _ {S E : Type 0} (recorded : S → List Bytes) where
  -- An answer that, if it is a state, has some versions recorded.
  abbrev pub Leaves : List Bytes → Answer E S → Type 0
  Leaves vs (refused e) = Unit
  Leaves vs (ok s) = recorded s ≡ vs

  -- A migration's own function, which leaves the version table alone.
  abbrev pub IsApart : Option (S → Answer E S) → Type 0
  IsApart none = Unit
  IsApart (some f) = (s : S) → Leaves (recorded s) (f s)

  abbrev pub AreApart : Migration S E → Type 0
  AreApart m = IsApart m.up × IsApart m.seed

  -- The version table: its list is what is recorded, making it again changes nothing, and a version that
  -- is inserted is recorded.
  abbrev pub IsVersionTable : Database S E → Bytes → Type 0
  IsVersionTable db table =
      ((s : S) (vs : List Bytes) → db.versions table s ≡ ok vs → vs ≡ recorded s)
      × ((s : S) → Leaves (recorded s) (db.ensure table s))
      × ((v n : Bytes) (s : S) → Leaves (v ∷ recorded s) (db.insert_version table v n s))

  -- A run over some versions: those up to a point are recorded, the last first, and none is left out
  -- where there was no error.
  abbrev pub Ran : List Bytes → List Bytes → Option (Failure E) × S → Type 0
  Ran versions old (e, s') =
      (done : List Bytes) × (rest : List Bytes) × (versions ≡ done ++ rest)
      × (recorded s' ≡ reverse_aux done old)
      × (e ≡ none → rest ≡ [])

  pub then_run-IsApart :
      (a : Answer E S) (f : Option (S → Answer E S)) (vs : List Bytes)
      → IsApart f
      → Leaves vs a
      → Leaves vs (then_run a f)
  then_run-IsApart (refused e) f vs h l = tt
  then_run-IsApart (ok s) none vs h l = l
  then_run-IsApart (ok s) (some f) vs h l = subst (λ us. Leaves us (f s)) l (h s)

  -- How one transaction ends: with an error nothing is recorded, and without one a version is.
  abbrev pub EndsWith : List Bytes → List Bytes → Option E × S → Type 0
  EndsWith old new (some e, s) = recorded s ≡ old
  EndsWith old new (none, s) = recorded s ≡ new

  module _ (db : Database S E) where
    end_tx-EndsWith :
        (s : S) (a : Answer E S) (new : List Bytes)
        → Leaves new a
        → EndsWith (recorded s) new (end_tx db s a)
    unfolding end_tx
    end_tx-EndsWith s (refused e) new l = refl
    end_tx-EndsWith s (ok s') new l = ground (arith, l)

    pub run_one-EndsWith :
        (steps : S → Answer E S) (s : S) (new : List Bytes)
        → Leaves new (steps s)
        → EndsWith (recorded s) new (run_one db steps s)
    unfolding run_one
    run_one-EndsWith steps s new l = ground (arith, end_tx-EndsWith s (steps s) new l)

  module _ (db : Database S E) (table : Bytes) (right : IsVersionTable db table) where
    insert_Leaves :
        (a : Answer E S) (v n : Bytes) (vs : List Bytes)
        → Leaves vs a
        → Leaves (v ∷ vs) (then_run a (some (db.insert_version table v n)))
    insert_Leaves (refused e) v n vs l = tt
    insert_Leaves (ok s) v n vs l =
        subst (λ us. Leaves (v ∷ us) (db.insert_version table v n s)) l (right.2 v n s)

    up_steps-Leaves :
        (m : Migration S E) (s : S)
        → AreApart m
        → Leaves (m.version ∷ recorded s) (up_steps db table m s)
    unfolding up_steps
    up_steps-Leaves m s (up, seed) = insert_Leaves _ m.version m.name (recorded s) (
        then_run-IsApart _ m.seed (recorded s) seed
          (then_run-IsApart (ok s) m.up (recorded s) up refl))

    after_one-Ran :
        (m : Migration S E) (next : S → Option (Failure E) × S) (s : S) (r : Option E × S)
        (vs : List Bytes)
        → EndsWith (recorded s) (m.version ∷ recorded s) r
        → ((s' : S) → Ran vs (recorded s') (next s'))
        → Ran (m.version ∷ vs) (recorded s) (after_one db m next r)
    after_one-Ran m next s (some e, s') vs h more =
        ([], m.version ∷ vs, refl, h, λ nothing. ground (arith, nothing))
    after_one-Ran m next s (none, s') vs h more =
        let (done, rest, eq, rec, full) = more s' in
        (m.version ∷ done, rest, ap (◌∷◌ m.version) eq, rec ∙ ap (reverse_aux done) h, full)

    if-Ran :
        (b : Bool) (old vs ws : List Bytes) (r t : Option (Failure E) × S)
        → Ran vs old r
        → Ran ws old t
        → Ran (if b then vs else ws) old (if b then r else t)
    if-Ran true old vs ws r t x y = x
    if-Ran false old vs ws r t x y = y

    up_from-Ran :
        (applied : List Bytes) (ms : List (Migration S E)) (s : S)
        → All AreApart ms
        → Ran (pending applied ms) (recorded s) (up_from db table applied ms s)
    unfolding up_from
    up_from-Ran applied [] s h = ([], [], refl, refl, λ nothing. refl)
    up_from-Ran applied (m ∷ ms) s (apart, more) =
        if-Ran (has_version m.version applied) (recorded s) _ _ _ _ (up_from-Ran applied ms s more)
          (after_one-Ran m (up_from db table applied ms) s (run_one db (up_steps db table m) s) _
            (run_one-EndsWith db (up_steps db table m) s _ (up_steps-Leaves m s apart))
            (λ s'. up_from-Ran applied ms s' more))

  module _ (db : Database S E) (sort : List (Migration S E) → List (Migration S E))
      (m : Migrator S E) (right : IsVersionTable db m.version_table)
      (apart : All AreApart (sort m.migrations)) where
    up_listed-Ran :
        (s : S) (a : Answer E (List Bytes))
        → ((vs : List Bytes) → a ≡ ok vs → vs ≡ recorded s)
        → Ran (pending (recorded s) (sort m.migrations)) (recorded s) (up_listed db sort m s a)
    unfolding up_listed
    up_listed-Ran s (refused e) lists = (
      [],
      pending (recorded s) (sort m.migrations),
      refl,
      refl,
      λ nothing. ground (arith, nothing),
    )
    up_listed-Ran s (ok applied) lists =
        subst
          (λ vs.
            Ran (pending vs (sort m.migrations)) (recorded s)
              (up_from db m.version_table applied (sort m.migrations) s))
          (lists applied refl)
          (up_from-Ran db m.version_table right applied (sort m.migrations) s apart)

    up_ensured-Ran :
        (s : S) (a : Answer E S)
        → Leaves (recorded s) a
        → Ran (pending (recorded s) (sort m.migrations)) (recorded s) (up_ensured db sort m s a)
    unfolding up_ensured
    up_ensured-Ran s (refused e) l = (
      [],
      pending (recorded s) (sort m.migrations),
      refl,
      refl,
      λ nothing. ground (arith, nothing),
    )
    up_ensured-Ran s (ok s') l =
        subst
          (λ old.
            Ran (pending old (sort m.migrations)) old
              (up_listed db sort m s' (db.versions m.version_table s')))
          l (up_listed-Ran s' (db.versions m.version_table s') (right.0 s'))

  -- `Up` with a usable table name, on a database that keeps its version table and with migrations whose own
  -- functions leave that table alone: of the versions that are not applied, in the order of the sort, those
  -- up to a point are recorded, each in front of the ones before it; whatever was recorded stays; and if
  -- there is no error, every one of them is.
  pub up_all-Ran :
      (db : Database S E) (sort : List (Migration S E) → List (Migration S E)) (m : Migrator S E)
      (s : S)
      → m.init_err ≡ none
      → IsVersionTable db m.version_table
      → All AreApart (sort m.migrations)
      → Ran (pending (recorded s) (sort m.migrations)) (recorded s) (up_all db sort m s)
  unfolding up_all
  up_all-Ran db sort m s usable right apart =
      subst
        (λ (o : Option (Failure E)).
          Ran (pending (recorded s) (sort m.migrations)) (recorded s) (elim o [
            | some e ↦ (some e, s)
            | none ↦ up_ensured db sort m s (db.ensure m.version_table s)
          ]))
        (sym usable)
        (up_ensured-Ran db sort m right apart s (db.ensure m.version_table s) (right.1 s))
