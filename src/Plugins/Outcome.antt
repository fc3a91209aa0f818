-- ===== src/Plugins/Outcome.antt =====
-- internal/monitor/plugins.go: the output of a plugin beside its error, and how a cycle gets it.
use redborder_monitor.Base.{Option, none, some, ◌≡◌}
use redborder_monitor.Base.Text.{Bytes}
use redborder_monitor.Query.{Failure, other_failure, Reply}

-- `(string, error)`, of which the string is also used beside an error
pub record PluginAnswer : Type 0 where
  pub output : Bytes
  pub failure : Option Failure

abbrev pub answer : Bytes → PluginAnswer
answer s = record { output = s; failure = none }

abbrev pub failed : Bytes → Bytes → PluginAnswer
failed output message = record {
  output = output;
  failure = some (record { kind = other_failure; message = message });
}

-- The plugin's answer is what the cycle is told of it.
abbrev pub Replies : {F : Type 0} → PluginAnswer → Reply F → Type 0
Replies a r = (r.output ≡ a.output) × (r.failure ≡ a.failure)
