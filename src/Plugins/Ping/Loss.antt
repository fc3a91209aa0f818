-- ===== src/Plugins/Ping/Loss.antt =====
-- internal/monitor/plugins.go with internal/monitor/processor.go: what is published of a ping that
-- fails.
use redborder_monitor.Base.{
  ◌≡◌, ◌∙◌, refl, Bool, true, false, Option, none, some, if◌then◌else◌, Bool-cases, inl, inr,
}
use redborder_monitor.Base.Text.{Bytes, codes, is_empty}
use redborder_monitor.Base.Float.{Float}
use redborder_monitor.Base.Result.{Result, ok, err}
use redborder_monitor.Model.{Monitor, Sensor}
use redborder_monitor.Values.{parse_raw_output}
use redborder_monitor.Query.{Failure, Reply, other_failure, is_serious, process_plugin_monitor}
use redborder_monitor.Plugins.Outcome.{PluginAnswer, Replies, failed}
use redborder_monitor.Plugins.Ping.{
  Pinger, PingSettings, PingStatistics, default_output, is_latency, ping_at, ping_plugin, ping_run,
  ping_settings,
}

-- An answer is without an error, or it is the output for errors beside one that no test knows.
abbrev IsPlain : Bytes → PluginAnswer → Type 0
IsPlain def a = (f : Failure) → a.failure ≡ some f → (a.output ≡ def) × (f.kind ≡ other_failure)

failed-IsPlain : (def message : Bytes) → IsPlain def (failed def message)
failed-IsPlain def message f e = (refl, cc e)

module _ {F : Type 0} ⦃fl : Float F⦄ where
  ping_run-IsPlain :
      (m : Monitor F) (r : Result Bytes (PingStatistics F))
      → IsPlain (default_output m) (ping_run m r)
  ping_run-IsPlain m (err message) = failed-IsPlain (default_output m) message
  ping_run-IsPlain m (ok st) = λ f e. cc e

  ping_at-IsPlain :
      (p : Pinger F) (m : Monitor F) (settings : PingSettings) (o : Option Bytes)
      → IsPlain (default_output m) (ping_at p m settings o)
  ping_at-IsPlain p m settings none = ping_run-IsPlain m (p.run settings)
  ping_at-IsPlain p m settings (some message) = failed-IsPlain (default_output m) message

  ping_plugin-IsPlain :
      (p : Pinger F) (s : Sensor F) (m : Monitor F) → IsPlain (default_output m) (ping_plugin p s m)
  unfolding ping_plugin
  ping_plugin-IsPlain p s m = elim (Bool-cases (is_empty (ping_settings s m).host)) [
    | inl h ↦ rw h (failed-IsPlain (default_output m) _)
    | inr h ↦ rw h (ping_at-IsPlain p m (ping_settings s m) _)
  ]

  default_output-not_empty : (m : Monitor F) → is_empty (default_output m) ≡ false
  unfolding default_output
  default_output-not_empty m = elim (Bool-cases (is_latency m)) [
    | inl h ↦ rw h refl
    | inr h ↦ rw h refl
  ]

  -- the answer for a registered plugin that failed with an error that no test knows
  plugin_failed :
      (m : Monitor F) (r : Reply F) (registry : Bytes → Option Bool) (f : Failure)
      → registry m.plugin ≡ some false
      → r.failure ≡ some f
      → f.kind ≡ other_failure
      → process_plugin_monitor registry m r ≡ record {
        state = some (parse_raw_output (if is_empty r.output then codes "0" else r.output) m r.now);
        failure = some f;
      }
  unfolding process_plugin_monitor
  plugin_failed m r registry f g e k =
      rw (g, process_plugin_monitor, e, process_plugin_monitor, k) refl

  -- A ping that fails in any way counts as an error of the sensor, and is published all the same: as
  -- a latency of 0.00 where latency is asked for, and as a loss of 100.0 otherwise.
  pub process_plugin_monitor-ping_failed :
      (p : Pinger F) (s : Sensor F) (m : Monitor F) (r : Reply F) (registry : Bytes → Option Bool)
      (f : Failure)
      → registry m.plugin ≡ some false
      → Replies (ping_plugin p s m) r
      → (ping_plugin p s m).failure ≡ some f
      → ((process_plugin_monitor registry m r).state
          ≡ some (parse_raw_output (if is_latency m then codes "0.00" else codes "100.0") m r.now))
        × (is_serious (process_plugin_monitor registry m r).failure ≡ true)
  unfolding default_output
  process_plugin_monitor-ping_failed p s m r registry f g (o, e) h =
      let (q, k) = ping_plugin-IsPlain p s m f h in
      let n = default_output-not_empty m in
      rw (plugin_failed m r registry f g (e ∙ h) k, o ∙ q, n) (refl, rw k refl)
