-- ===== src/Tests/Migrating.antt =====
-- The migrator's theorems on a database of table names and versions.
use breezeorm.Prelude.{◌≡◌, ◌↔◌, false, ℕ, refl, sym, ap, List, [], ◌∷◌, All, none, some}
use breezeorm.Text.{Bytes, lit, bytes_eq}
use breezeorm.Plugins.{Answer, ok, refused}
use breezeorm.Migrations.{Migration, Database, Migrator, new_migrator, register, up_all, down_last}
use breezeorm.Migrations.Runs.{Ran, AreApart, pending, up_all-Ran}
use breezeorm.Migrations.Rollback.{without, Undone, down_last-Undone}
use breezeorm.Migrations.Diff.{TableInfo, WantedTable, diff}
use breezeorm.Migrations.Conforms.{IsNothing, IsThere, diff-IsNothing}

-- The tables and the versions.
abbrev Store : Type 0
Store = List Bytes × List Bytes

abbrev versions_of : Store → List Bytes
versions_of s = s.1

abbrev store : Database Store ℕ
store = record {
  ensure = λ table s. ok s;
  versions = λ table s. ok s.1;
  begin_tx = λ s. none;
  commit_tx = λ s. none;
  insert_version = λ table v n s. ok (s.0, v ∷ s.1);
  delete_version = λ table v s. ok (s.0, without v s.1);
}

abbrev create : Bytes → Store → Answer ℕ Store
create table s = ok (table ∷ s.0, s.1)

abbrev first_two : List (Migration Store ℕ)
first_two =
    record {
      version = lit "1";
      name = lit "users";
      up = some (create (lit "users"));
      down = none;
      seed = none;
    }
    ∷ record {
      version = lit "2";
      name = lit "posts";
      up = some (λ s. refused 7);
      down = none;
      seed = none;
    }
    ∷ []

abbrev migrator : Migrator Store ℕ
migrator = register first_two (new_migrator [])

first_two-AreApart : All (AreApart versions_of) first_two
first_two-AreApart = (((λ s. refl), tt), (((λ s. tt), tt), tt))

abbrev listed : Answer ℕ (List Bytes) → List Bytes
listed (ok vs) = vs
listed (refused e) = []

up_all-Ran_example :
    Ran versions_of (pending [] first_two) [] (up_all store (λ ms. ms) migrator ([], []))
unfolding new_migrator register lit
up_all-Ran_example =
    up_all-Ran versions_of store (λ ms. ms) migrator ([], []) refl
      ((λ s vs h. sym (ap listed h)), (λ s. refl), (λ v n s. refl)) first_two-AreApart

down_last-Undone_example :
    Undone versions_of
      (some (lit "1"))
      (lit "1" ∷ [])
      (down_last store (λ ms. ms) migrator ([], lit "1" ∷ []))
unfolding new_migrator register lit down_last bytes_eq
down_last-Undone_example =
    down_last-Undone versions_of store (λ ms. ms) migrator ([], lit "1" ∷ []) refl refl
      (λ v s. refl) (tt, (tt, tt))

abbrev users : TableInfo
users = record {
  name = lit "users";
  columns = record { name = lit "id"; db_type = lit "int"; nullable = false; default = [] } ∷ [];
  indexes = [];
  constraints = [];
}

abbrev wanted_users : WantedTable
wanted_users = record { name = lit "users"; columns = lit "id" ∷ lit "email" ∷ []; indexes = [] }

diff-IsNothing_example :
    (IsNothing (diff (wanted_users ∷ []) (users ∷ []))
      ↔ All (IsThere (users ∷ [])) (wanted_users ∷ []))
    × ((diff (wanted_users ∷ []) (users ∷ [])).drop_columns ≡ [])
    × ((diff (wanted_users ∷ []) (users ∷ [])).drop_indexes ≡ [])
diff-IsNothing_example = diff-IsNothing (wanted_users ∷ []) (users ∷ [])
