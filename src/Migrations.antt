-- ===== src/Migrations.antt =====
-- pkg/migrations/migration.go: the migrator. The database is a record of what its commands do to a state
-- `S` of the whole database; a transaction works on a copy, which a commit puts in the state's place.
-- `sort.Slice` is a parameter, one for each of the two orders.
pub mod Runs
pub mod Rollback
pub mod Diff
pub mod Named
pub mod Conforms
use breezeorm.Prelude.{
  ℕ, Bool, true, false, ◌||◌, ◌&&◌, leb, ◌==◌, List, [], ◌∷◌, ◌++◌, Option, none, some,
  if◌then◌else◌, is_empty,
}
use breezeorm.Text.{Bytes, lit, bytes_eq}
use breezeorm.Plugins.{Answer, ok, refused}

pub data Failure (E : Type 0) : Type 0 where
  empty_table nothing_to_roll_back : Failure E
  invalid_table : Bytes → Failure E
  plain ensure_failed : E → Failure E
  up_failed : Bytes → Bytes → E → Failure E

-- `Up`, `Down` and `Seed` are `none` where they are nil.
pub record Migration (S E : Type 0) : Type 0 where
  pub version : Bytes
  pub name : Bytes
  pub up : Option (S → Answer E S)
  pub down : Option (S → Answer E S)
  pub seed : Option (S → Answer E S)

-- What the migrator asks of the database, on the version table of a name. `begin_tx` and `commit_tx` say
-- with what error they fail, if they do.
pub record Database (S E : Type 0) : Type 0 where
  pub ensure : Bytes → S → Answer E S
  pub versions : Bytes → S → Answer E (List Bytes)
  pub begin_tx : S → Option E
  pub commit_tx : S → Option E
  pub insert_version : Bytes → Bytes → Bytes → S → Answer E S
  pub delete_version : Bytes → Bytes → S → Answer E S

pub record Migrator (S E : Type 0) : Type 0 where
  pub version_table : Bytes
  pub migrations : List (Migration S E)
  pub init_err : Option (Failure E)

abbrev pub is_safe_byte : ℕ → Bool
is_safe_byte r =
    (leb b'a' r && leb r b'z')
    || (leb b'A' r && leb r b'Z')
    || (leb b'0' r && leb r b'9')
    || (r == b'_')
    || (r == b'.')

abbrev pub all_safe : Bytes → Bool
all_safe [] = true
all_safe (r ∷ rs) = is_safe_byte r && all_safe rs

-- `map[string]bool` of the versions, as the list that filled it
abbrev pub has_version : Bytes → List Bytes → Bool
has_version v [] = false
has_version v (u ∷ us) = bytes_eq u v || has_version v us

unfoldable pub validate_identifier : {E : Type 0} → Bytes → Option (Failure E)
validate_identifier name =
    if is_empty name
    then some empty_table
    else if all_safe name
    then none
    else some (invalid_table name)

module _ {S E : Type 0} where
  -- `New`
  unfoldable pub new_migrator : Bytes → Migrator S E
  unfolding validate_identifier
  new_migrator name =
      let table = if is_empty name then lit "schema_migrations" else name in
      record { version_table = table; migrations = []; init_err = validate_identifier table }

  unfoldable pub register : List (Migration S E) → Migrator S E → Migrator S E
  register ms m = record m { migrations = m.migrations ++ ms }

  -- `if f != nil { if err := f(ctx, tx); err != nil { return err } }`, on what came before it
  abbrev pub then_run : Answer E S → Option (S → Answer E S) → Answer E S
  then_run (refused e) f = refused e
  then_run (ok s) none = ok s
  then_run (ok s) (some f) = f s

  module _ (db : Database S E) where
    -- `return tx.Commit()`, or the deferred rollback
    unfoldable pub end_tx : S → Answer E S → Option E × S
    end_tx s (refused e) = (some e, s)
    end_tx s (ok s') = elim (db.commit_tx s') [ some e ↦ (some e, s) | none ↦ (none, s') ]

    -- what `runOne` does inside its transaction
    unfoldable pub up_steps : Bytes → Migration S E → S → Answer E S
    up_steps table m s =
        then_run (then_run (then_run (ok s) m.up) m.seed)
          (some (db.insert_version table m.version m.name))

    unfoldable pub down_steps : Bytes → Migration S E → S → Answer E S
    down_steps table m s =
        then_run (then_run (ok s) m.down) (some (db.delete_version table m.version))

    -- `runOne` for one of the two
    unfoldable pub run_one : (S → Answer E S) → S → Option E × S
    unfolding end_tx
    run_one steps s = elim (db.begin_tx s) [ some e ↦ (some e, s) | none ↦ end_tx s (steps s) ]

    -- the loop of `Up`, after one of its rounds
    abbrev pub after_one :
        Migration S E → (S → Option (Failure E) × S) → Option E × S → Option (Failure E) × S
    after_one m rest (some e, s) = (some (up_failed m.version m.name e), s)
    after_one m rest (none, s) = rest s

    unfoldable pub up_from : Bytes → List Bytes → List (Migration S E) → S → Option (Failure E) × S
    unfolding run_one up_steps
    up_from table applied [] s = (none, s)
    up_from table applied (m ∷ ms) s =
        if has_version m.version applied
        then up_from table applied ms s
        else after_one m (up_from table applied ms) (run_one (up_steps table m) s)

    -- `return m.runOne(…)`
    abbrev pub plainly : Option E × S → Option (Failure E) × S
    plainly (some e, s) = (some (plain e), s)
    plainly (none, s) = (none, s)

    unfoldable pub down_from :
        Bytes → List Bytes → List (Migration S E) → S → Option (Failure E) × S
    unfolding run_one down_steps
    down_from table applied [] s = (some nothing_to_roll_back, s)
    down_from table applied (m ∷ ms) s =
        if has_version m.version applied
        then plainly (run_one (down_steps table m) s)
        else down_from table applied ms s

    module _ (sort : List (Migration S E) → List (Migration S E)) where
      -- `Up` from the answer to the query of the versions on, and from the creation of the table on
      unfoldable pub up_listed : Migrator S E → S → Answer E (List Bytes) → Option (Failure E) × S
      unfolding up_from
      up_listed m s (refused e) = (some (plain e), s)
      up_listed m s (ok applied) = up_from m.version_table applied (sort m.migrations) s

      unfoldable pub up_ensured : Migrator S E → S → Answer E S → Option (Failure E) × S
      unfolding up_listed
      up_ensured m s (refused e) = (some (ensure_failed e), s)
      up_ensured m s (ok s') = up_listed m s' (db.versions m.version_table s')

      unfoldable pub up_all : Migrator S E → S → Option (Failure E) × S
      unfolding up_ensured
      up_all m s = elim m.init_err [
        | some e ↦ (some e, s)
        | none ↦ up_ensured m s (db.ensure m.version_table s)
      ]

      -- `Down` from the answer to the query of the versions on
      unfoldable pub down_listed : Migrator S E → S → Answer E (List Bytes) → Option (Failure E) × S
      unfolding down_from
      down_listed m s (refused e) = (some (plain e), s)
      down_listed m s (ok applied) = down_from m.version_table applied (sort m.migrations) s

      unfoldable pub down_last : Migrator S E → S → Option (Failure E) × S
      unfolding down_listed
      down_last m s = elim m.init_err [
        | some e ↦ (some e, s)
        | none ↦ down_listed m s (db.versions m.version_table s)
      ]
