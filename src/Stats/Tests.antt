-- ===== src/Stats/Tests.antt =====
-- A report over two sensors, one of them over its timeout.
use redborder_monitor.Base.{ℕ, ◌≡◌, refl, false, true, List, [], ◌∷◌}
use redborder_monitor.Base.Int.{pos}
use redborder_monitor.Base.Float.Sample.{Sample}
use redborder_monitor.Model.Sample.{blank_sensor}
use redborder_monitor.Sensor.{SafeSensor, new_safe_sensor, normal_timeout}
use redborder_monitor.Stats.{Counts, survey, get_stats}
use redborder_monitor.Stats.Survey.{Surveys, get_stats-Surveys}

abbrev no_counts : Counts
no_counts = record {
  total_workers = 4;
  active_workers = 1;
  sensors_processed = 9;
  metrics_generated = 0;
  metrics_sent_stdout = 0;
  metrics_sent_kafka = 0;
  metrics_failed_kafka = 0;
  metrics_sent_http = 0;
  metrics_failed_http = 0;
  sensors_skipped = 0;
}

abbrev took : ℕ → SafeSensor Sample
took ms = record (new_safe_sensor blank_sensor) {
  last_run_timestamp = pos 7;
  last_run_duration_ms = ms;
}

abbrev two : List (SafeSensor Sample)
two = took 300 ∷ took 5000 ∷ []

get_stats-Surveys_example :
    Surveys two
      (record {
        counts = no_counts;
        max_sensor_run_duration_ms = 0;
        cycle_budget_ok = true;
        sensors = [];
      })
      (get_stats no_counts two)
get_stats-Surveys_example = get_stats-Surveys no_counts two

exceeded : (get_stats no_counts two).cycle_budget_ok ≡ false
unfolding get_stats survey new_safe_sensor normal_timeout
exceeded = refl
