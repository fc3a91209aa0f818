-- ===== src/Stats.antt =====
-- internal/monitor/stats.go: the counters of the process, the report over all sensors and the reset.
-- The figures of the Go runtime in the report are left out, and so are sensors that are nil.
pub mod Survey
mod Tests
use redborder_monitor.Base.{
  ℕ, ◌≡◌, Bool, true, false, not, ◌&&◌, List, [], ◌∷◌, ◌++◌, map, ltb, if◌then◌else◌,
}
use redborder_monitor.Base.Int.{ℤ, pos, is_positive, ltb_ℤ}
use redborder_monitor.Sensor.{SafeSensor, SensorStatus, get_status, reset_stats}

pub record Counts : Type 0 where
  pub total_workers : ℕ
  pub active_workers : ℕ
  pub sensors_processed : ℕ
  pub metrics_generated : ℕ
  pub metrics_sent_stdout : ℕ
  pub metrics_sent_kafka : ℕ
  pub metrics_failed_kafka : ℕ
  pub metrics_sent_http : ℕ
  pub metrics_failed_http : ℕ
  pub sensors_skipped : ℕ

pub record Stats : Type 0 where
  pub counts : Counts
  pub max_sensor_run_duration_ms : ℕ
  pub cycle_budget_ok : Bool
  pub sensors : List SensorStatus

-- a sensor that has run, and took its timeout or longer
abbrev pub is_over_budget : {F : Type 0} → SafeSensor F → Bool
is_over_budget ss =
    is_positive ss.last_run_timestamp && not (ltb_ℤ (pos ss.last_run_duration_ms) ss.sensor.timeout)

module _ {F : Type 0} where
  -- the loop over the sensors
  unfoldable pub survey : List (SafeSensor F) → Stats → Stats
  survey [] r = r
  survey (ss ∷ sensors) r = survey sensors (record r {
    sensors = r.sensors ++ get_status ss ∷ [];
    max_sensor_run_duration_ms =
        if ltb r.max_sensor_run_duration_ms ss.last_run_duration_ms
        then ss.last_run_duration_ms
        else r.max_sensor_run_duration_ms;
    cycle_budget_ok = if is_over_budget ss then false else r.cycle_budget_ok;
  })

  unfoldable pub get_stats : Counts → List (SafeSensor F) → Stats
  get_stats counts sensors = survey sensors (record {
    counts = counts;
    max_sensor_run_duration_ms = 0;
    cycle_budget_ok = true;
    sensors = [];
  })

  -- `ResetStats`: the counters but those of the workers, and each sensor's
  unfoldable pub reset_all : Counts × List (SafeSensor F) → Counts × List (SafeSensor F)
  reset_all (counts, sensors) = (
    record counts {
      sensors_processed = 0;
      metrics_generated = 0;
      metrics_sent_stdout = 0;
      metrics_sent_kafka = 0;
      metrics_failed_kafka = 0;
      metrics_sent_http = 0;
      metrics_failed_http = 0;
      sensors_skipped = 0;
    },
    map reset_stats sensors,
  )
