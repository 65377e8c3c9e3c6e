-- ===== src/Migrations/Rollback.antt =====
-- What a rollback of the migrator takes away.
use breezeorm.Prelude.{
  ◌≡◌, refl, sym, Bool, true, false, List, [], ◌∷◌, All, Option, none, some, if◌then◌else◌, subst,
}
use breezeorm.Text.{Bytes, bytes_eq}
use breezeorm.Plugins.{Answer, ok, refused}
use breezeorm.Migrations.{
  Failure, nothing_to_roll_back, Migration, Database, Migrator, has_version, down_steps, run_one,
  plainly, down_from, down_listed, down_last, then_run,
}
use breezeorm.Migrations.Runs.{Leaves, IsApart, EndsWith, then_run-IsApart, run_one-EndsWith}

-- Every occurrence of a version taken away.
abbrev pub without : Bytes → List Bytes → List Bytes
without v [] = []
without v (u ∷ us) = if bytes_eq u v then without v us else u ∷ without v us

module _ {S E : Type 0} where
  -- The version of the first migration that is applied.
  abbrev pub first_applied : List Bytes → List (Migration S E) → Option Bytes
  first_applied applied [] = none
  first_applied applied (m ∷ ms) =
      if has_version m.version applied then some m.version else first_applied applied ms

module _ {S E : Type 0} (recorded : S → List Bytes) where
  -- What is recorded after a rollback of a version that was the choice, if there was one.
  abbrev pub Undone : Option Bytes → List Bytes → Option (Failure E) × S → Type 0
  Undone none old (e, s) = (e ≡ some nothing_to_roll_back) × (recorded s ≡ old)
  Undone (some v) old (none, s) = recorded s ≡ without v old
  Undone (some v) old (some e, s) = recorded s ≡ old

  -- A database whose version table forgets a version that is deleted.
  abbrev pub Forgets : Database S E → Bytes → Type 0
  Forgets db table =
      (v : Bytes) (s : S) → Leaves recorded (without v (recorded s)) (db.delete_version table v s)

  if-Undone :
      (b : Bool) (v w : Option Bytes) (old : List Bytes) (r t : Option (Failure E) × S)
      → Undone v old r
      → Undone w old t
      → Undone (if b then v else w) old (if b then r else t)
  if-Undone true v w old r t x y = x
  if-Undone false v w old r t x y = y

  plainly-Undone :
      (db : Database S E) (v : Bytes) (old : List Bytes) (r : Option E × S)
      → EndsWith recorded old (without v old) r
      → Undone (some v) old (plainly db r)
  plainly-Undone db v old (none, s) h = h
  plainly-Undone db v old (some e, s) h = h

  module _ (db : Database S E) (table : Bytes) (forgets : Forgets db table) where
    delete_Leaves :
        (a : Answer E S) (v : Bytes) (vs : List Bytes)
        → Leaves recorded vs a
        → Leaves recorded (without v vs) (then_run a (some (db.delete_version table v)))
    delete_Leaves (refused e) v vs l = tt
    delete_Leaves (ok s) v vs l =
        subst (λ us. Leaves recorded (without v us) (db.delete_version table v s)) l (forgets v s)

    down_steps-Leaves :
        (m : Migration S E) (s : S)
        → IsApart recorded m.down
        → Leaves recorded (without m.version (recorded s)) (down_steps db table m s)
    unfolding down_steps
    down_steps-Leaves m s apart =
        delete_Leaves _ m.version (recorded s)
          (then_run-IsApart recorded (ok s) m.down (recorded s) apart refl)

    down_from-Undone :
        (applied : List Bytes) (ms : List (Migration S E)) (s : S)
        → All (λ m. IsApart recorded m.down) ms
        → Undone (first_applied applied ms) (recorded s) (down_from db table applied ms s)
    unfolding down_from
    down_from-Undone applied [] s h = (refl, refl)
    down_from-Undone applied (m ∷ ms) s (apart, more) =
        if-Undone (has_version m.version applied) _ _ (recorded s) _ _
          (plainly-Undone db m.version (recorded s) (run_one db (down_steps db table m) s) (
            run_one-EndsWith recorded db (down_steps db table m) s _ (down_steps-Leaves m s apart)))
          (down_from-Undone applied ms s more)

  -- `Down` with a usable table name, on a database that lists its versions and forgets one that is
  -- deleted, with migrations whose `Down` leaves the version table alone: it takes away the version of the
  -- first migration in the order of the sort that is applied, and that one only, or fails and takes
  -- nothing away; if none is applied it says that there is nothing to roll back.
  pub down_last-Undone :
      (db : Database S E) (sort : List (Migration S E) → List (Migration S E)) (m : Migrator S E)
      (s : S)
      → m.init_err ≡ none
      → db.versions m.version_table s ≡ ok (recorded s)
      → Forgets db m.version_table
      → All (λ x. IsApart recorded x.down) (sort m.migrations)
      → Undone (first_applied (recorded s) (sort m.migrations)) (recorded s) (down_last db sort m s)
  unfolding down_last down_listed
  down_last-Undone db sort m s usable lists forgets apart =
      subst
        (λ (o : Option (Failure E)).
          Undone (first_applied (recorded s) (sort m.migrations)) (recorded s) (elim o [
            | some e ↦ (some e, s)
            | none ↦ down_listed db sort m s (db.versions m.version_table s)
          ]))
        (sym usable)
        (subst
          (λ a.
            Undone (first_applied (recorded s) (sort m.migrations)) (recorded s)
              (down_listed db sort m s a))
          (sym lists)
          (down_from-Undone db m.version_table forgets (recorded s) (sort m.migrations) s apart))
