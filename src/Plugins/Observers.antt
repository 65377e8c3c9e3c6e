-- ===== src/Plugins/Observers.antt =====
-- pkg/plugins/builtin.go: the plugins that watch executions. What they hand to a sink, to their counters or
-- to a logger is a report; the line that `Tracing` logs before an execution is left out. `stamp` puts the
-- time into a context and `now` reads the clock.
use breezeorm.Prelude.{ℕ, ◌+◌, ◌%◌, Bool, true, false, List, [], ◌∷◌, Option, none, some}
use breezeorm.Prelude.Int.{ℤ, pos, word_mod, to_word, of_word}
use breezeorm.Text.{Bytes}
use breezeorm.Query.{Value}
use breezeorm.Plugins.{Plugin, ok}
use breezeorm.Plugins.Builtin.{noop}

pub record AuditEntry (E : Type 0) : Type 0 where
  pub sql : Bytes
  pub params : List Value
  pub duration : ℕ
  pub error : Option E
  pub at : ℕ

pub data Event (E : Type 0) : Type 0 where
  audited : AuditEntry E → Event E
  measured : ℕ → Option E → Event E
  query_done : Bytes → ℕ → Option E → Event E

-- The arguments of the entry are never set.
abbrev pub audit : {E : Type 0} → Bool → ℕ → Bytes → ℕ → Option E → List (Event E)
audit false now sql nanos e = []
audit true now sql nanos e =
    audited (record { sql = sql; params = []; duration = nanos; error = e; at = now }) ∷ []

abbrev pub log_done : {E : Type 0} → Bool → Bytes → ℕ → Option E → List (Event E)
log_done false sql nanos e = []
log_done true sql nanos e = query_done sql nanos e ∷ []

module _ {Ctx E : Type 0} where
  unfoldable pub auditing : Bool → (Ctx → Ctx) → (Ctx → ℕ) → Plugin Ctx E (Event E)
  auditing has_sink stamp now = record noop {
    before_execute = λ ctx sql params. ok (stamp ctx);
    after_execute = λ ctx sql nanos e. audit has_sink (now ctx) sql nanos e;
  }

  unfoldable pub encryption : Plugin Ctx E (Event E)
  encryption = noop

  unfoldable pub query_cache : Plugin Ctx E (Event E)
  query_cache = noop

  unfoldable pub metrics : Plugin Ctx E (Event E)
  metrics = record noop { after_execute = λ ctx sql nanos e. measured nanos e ∷ [] }

  unfoldable pub tracing : Bool → Plugin Ctx E (Event E)
  tracing has_logger = record noop {
    after_execute = λ ctx sql nanos e. log_done has_logger sql nanos e;
  }

-- The counters of `Metrics`, which wrap.
pub record Metrics : Type 0 where
  pub query_count : ℤ
  pub error_count : ℤ
  pub total_duration : ℤ

abbrev pub add_to : ℤ → ℤ → ℤ
add_to counter n = of_word ((to_word counter + to_word n) % word_mod)

abbrev pub error_step : {E : Type 0} → Option E → ℤ
error_step none = pos 0
error_step (some e) = pos 1

unfoldable pub metrics_after : {E : Type 0} → ℕ → Option E → Metrics → Metrics
metrics_after nanos e m = record {
  query_count = add_to m.query_count (pos 1);
  error_count = add_to m.error_count (error_step e);
  total_duration = add_to m.total_duration (pos nanos);
}
