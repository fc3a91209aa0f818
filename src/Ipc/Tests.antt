-- ===== src/Ipc/Tests.antt =====
-- A reset and a report over two connections.
use redborder_monitor.Base.{◌≡◌, refl, inl, [], ◌∷◌, List}
use redborder_monitor.Base.Text.{codes, trim_space}
use redborder_monitor.Base.Result.{ok}
use redborder_monitor.Base.Float.Sample.{Sample}
use redborder_monitor.Sensor.{SafeSensor}
use redborder_monitor.Stats.{Counts, Stats}
use redborder_monitor.Ipc.{report_text, read_bytes, handle_ipc_connection}
use redborder_monitor.Ipc.Commands.{handle_ipc_connection-reset}

abbrev counts : Counts
counts = record {
  total_workers = 1;
  active_workers = 0;
  sensors_processed = 4;
  metrics_generated = 9;
  metrics_sent_stdout = 9;
  metrics_sent_kafka = 0;
  metrics_failed_kafka = 0;
  metrics_sent_http = 0;
  metrics_failed_http = 0;
  sensors_skipped = 0;
}

abbrev state : Counts × List (SafeSensor Sample)
state = (counts, [])

-- the part of the state behind a reset
abbrev behind_reset : Counts × List (SafeSensor Sample)
behind_reset = (handle_ipc_connection (λ st. ok []) (read_bytes (codes " reset\n")) state).1

handle_ipc_connection-reset_example :
    (st : Stats) × (handle_ipc_connection (λ s. ok []) (read_bytes []) behind_reset
      ≡ (report_text (ok []), behind_reset))
    × (st.max_sensor_run_duration_ms ≡ 0)
    × (st.cycle_budget_ok ≡ redborder_monitor.Base.true)
unfolding trim_space
handle_ipc_connection-reset_example =
    handle_ipc_connection-reset (λ st. ok []) (codes " reset\n") [] state refl (inl refl)
