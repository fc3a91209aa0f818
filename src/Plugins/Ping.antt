-- ===== src/Plugins/Ping.antt =====
-- internal/monitor/plugins.go: `PingPlugin`. The pinger is the argument `Pinger`.
pub mod Loss
use redborder_monitor.Base.{
  ℕ, ◌*◌, Bool, true, false, not, ◌||◌, ◌≡◌, Option, none, some, if◌then◌else◌, Option-cases,
  Bool-cases, inl, inr, refl, ◌⊎◌,
}
use redborder_monitor.Base.Text.{Bytes, codes, same, is_empty, to_lower}
use redborder_monitor.Base.Int.{ℤ, pos, eqb_ℤ}
use redborder_monitor.Base.Map.{lookup}
use redborder_monitor.Base.Float.{Float}
use redborder_monitor.Base.Result.{Result, ok, err}
use redborder_monitor.Model.{Json, bool, number, int, text, Monitor, Sensor}
use redborder_monitor.Params.{get_string_param, get_int_param}
use redborder_monitor.Plugins.Outcome.{PluginAnswer, answer, failed}

-- the fields of the pinger that the plugin sets; times in milliseconds
pub record PingSettings : Type 0 where
  pub host : Bytes
  pub count : ℤ
  pub interval : ℤ
  pub timeout : ℤ
  pub size : ℤ
  pub privileged : Bool

pub record PingStatistics (F : Type 0) : Type 0 where
  -- in nanoseconds
  pub avg_rtt : ℤ
  pub packet_loss : F

-- The pinger: its error for a host, and the end of a run: the error of the context or of the run
-- itself, or the statistics.
pub record Pinger (F : Type 0) : Type 0 where
  pub new_pinger : Bytes → Option Bytes
  pub run : PingSettings → Result Bytes (PingStatistics F)

module _ {F : Type 0} ⦃fl : Float F⦄ where
  abbrev pub is_latency : Monitor F → Bool
  is_latency m =
      let metric = to_lower (get_string_param m.params (codes "metric") (codes "packet_loss")) in
      same metric (codes "latency") || same metric (codes "rtt")

  unfoldable pub default_output : Monitor F → Bytes
  default_output m = if is_latency m then codes "0.00" else codes "100.0"

  abbrev pub flag_of : Option (Json F) → Bool
  flag_of (some (bool b)) = b
  flag_of (some (text s)) = same (to_lower s) (codes "true") || same s (codes "1")
  flag_of (some (number x)) = not (fl.float_eq x fl.zero_value)
  flag_of (some (int i)) = not (eqb_ℤ i (pos 0))
  flag_of _ = false

  unfoldable pub ping_settings : Sensor F → Monitor F → PingSettings
  ping_settings s m = record {
    host = get_string_param m.params (codes "host") s.sensor_ip;
    count = get_int_param m.params (codes "count") (pos 3);
    interval = get_int_param m.params (codes "interval_ms") (pos 100);
    timeout = get_int_param m.params (codes "timeout_ms") s.timeout;
    size = get_int_param m.params (codes "size") (pos 56);
    privileged = flag_of (lookup (codes "privileged") m.params);
  }

  abbrev pub ping_output : Monitor F → PingStatistics F → Bytes
  ping_output m st =
      if is_latency m
      then fl.format_fixed 2 (fl.div (fl.of_ℤ st.avg_rtt) (fl.of_ℕ 1000000))
      else fl.format_fixed 1 st.packet_loss

  abbrev pub ping_run : Monitor F → Result Bytes (PingStatistics F) → PluginAnswer
  ping_run m (err message) = failed (default_output m) message
  ping_run m (ok st) = answer (ping_output m st)

  abbrev pub ping_at : Pinger F → Monitor F → PingSettings → Option Bytes → PluginAnswer
  ping_at p m settings (some message) = failed (default_output m) message
  ping_at p m settings none = ping_run m (p.run settings)

  unfoldable pub ping_plugin : Pinger F → Sensor F → Monitor F → PluginAnswer
  ping_plugin p s m =
      let settings = ping_settings s m in
      if is_empty settings.host
      then failed (default_output m) (codes "missing target host for ping plugin")
      else ping_at p m settings (p.new_pinger settings.host)
