-- ===== src/Hooks.antt =====
-- pkg/hooks/hooks.go: what runs around a write. A model's methods are optional functions on its value,
-- which they may change; a type without the method has none.
use breezeorm.Prelude.{List, [], ◌∷◌, Option, none, some}

pub record Hooks (Ctx E V : Type 0) : Type 0 where
  pub before_create : Option (Ctx → V → Option E × V)
  pub after_create : Option (Ctx → V → Option E × V)
  pub before_update : Option (Ctx → V → Option E × V)
  pub after_update : Option (Ctx → V → Option E × V)
  pub before_delete : Option (Ctx → V → Option E × V)
  pub after_delete : Option (Ctx → V → Option E × V)
  pub before_save : Option (Ctx → V → Option E × V)
  pub after_save : Option (Ctx → V → Option E × V)

-- `Chain`: functions on a state, of which some may be nil, up to the first error
module _ {E S : Type 0} where
  abbrev pub unless_failed : (S → Option E × S) → Option E × S → Option E × S
  unless_failed next (some e, s) = (some e, s)
  unless_failed next (none, s) = next s

  unfoldable pub chain : List (Option (S → Option E × S)) → S → Option E × S
  chain [] s = (none, s)
  chain (none ∷ fns) s = chain fns s
  chain (some fn ∷ fns) s = unless_failed (chain fns) (fn s)

module _ {Ctx E V : Type 0} where
  abbrev pub run_hook : Option (Ctx → V → Option E × V) → Ctx → V → Option E × V
  run_hook none ctx model = (none, model)
  run_hook (some h) ctx model = h ctx model

  unfoldable pub run_before_create : Hooks Ctx E V → Ctx → V → Option E × V
  run_before_create hooks ctx model = run_hook hooks.before_create ctx model

  unfoldable pub run_after_create : Hooks Ctx E V → Ctx → V → Option E × V
  run_after_create hooks ctx model = run_hook hooks.after_create ctx model

  unfoldable pub run_before_update : Hooks Ctx E V → Ctx → V → Option E × V
  run_before_update hooks ctx model = run_hook hooks.before_update ctx model

  unfoldable pub run_after_update : Hooks Ctx E V → Ctx → V → Option E × V
  run_after_update hooks ctx model = run_hook hooks.after_update ctx model

  unfoldable pub run_before_delete : Hooks Ctx E V → Ctx → V → Option E × V
  run_before_delete hooks ctx model = run_hook hooks.before_delete ctx model

  unfoldable pub run_after_delete : Hooks Ctx E V → Ctx → V → Option E × V
  run_after_delete hooks ctx model = run_hook hooks.after_delete ctx model

  unfoldable pub run_before_save : Hooks Ctx E V → Ctx → V → Option E × V
  run_before_save hooks ctx model = run_hook hooks.before_save ctx model

  unfoldable pub run_after_save : Hooks Ctx E V → Ctx → V → Option E × V
  run_after_save hooks ctx model = run_hook hooks.after_save ctx model
