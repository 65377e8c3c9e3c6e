-- ===== src/Plugins.antt =====
-- pkg/plugins/plugin.go: the chain of plugins that a database runs on every query. A plugin's own
-- code is not here: it is a record of functions over a context and an error type that stay abstract.
pub mod Builtin
pub mod Observers
use breezeorm.Prelude.{ℕ, Bool, true, false, List, [], ◌∷◌, ◌++◌, if◌then◌else◌, Option}
use breezeorm.Text.{Bytes}
use breezeorm.Query.{Value}
use breezeorm.Planner.{Node}

-- A Go pair `(T, error)` of which one is set.
pub data Answer {ℓ} (E A : Type ℓ) : Type ℓ where
  ok : A → Answer E A
  refused : E → Answer E A

-- `AfterExecute` is seen only by what it reports.
pub record Plugin (Ctx E Report : Type 0) : Type 0 where
  pub before_plan : Ctx → Node → Answer E Node
  pub before_execute : Ctx → Bytes → List Value → Answer E Ctx
  pub after_execute : Ctx → Bytes → ℕ → Option E → List Report
  pub request_scoped : Bool

module _ {Ctx E Report : Type 0} where
  -- A plugin without `IsRequestScoped` has `request_scoped = false`.
  unfoldable pub is_cache_safe : List (Plugin Ctx E Report) → Bool
  is_cache_safe [] = true
  is_cache_safe (p ∷ ps) = let rest = is_cache_safe ps in if p.request_scoped then false else rest

  unfoldable pub run_before_plan : List (Plugin Ctx E Report) → Ctx → Node → Answer E Node
  run_before_plan [] ctx lp = ok lp
  run_before_plan (p ∷ ps) ctx lp = elim (p.before_plan ctx lp) [
    | ok lp' ↦ run_before_plan ps ctx lp'
    | refused e ↦ refused e
  ]

  unfoldable pub run_before_execute :
      List (Plugin Ctx E Report) → Ctx → Bytes → List Value → Answer E Ctx
  run_before_execute [] ctx sql params = ok ctx
  run_before_execute (p ∷ ps) ctx sql params = elim (p.before_execute ctx sql params) [
    | ok ctx' ↦ run_before_execute ps ctx' sql params
    | refused e ↦ refused e
  ]

  -- Every plugin reports, in order.
  unfoldable pub run_after_execute :
      List (Plugin Ctx E Report) → Ctx → Bytes → ℕ → Option E → List Report
  run_after_execute [] ctx sql nanos e = []
  run_after_execute (p ∷ ps) ctx sql nanos e =
      p.after_execute ctx sql nanos e ++ run_after_execute ps ctx sql nanos e
