-- ===== src/Ipc/Commands.antt =====
-- internal/monitor/ipc.go with internal/monitor/stats.go: two connections one behind the other.
use redborder_monitor.Base.{◌≡◌, refl, ◌⊎◌, inl, inr, List, true}
use redborder_monitor.Base.Text.{Bytes, codes, same}
use redborder_monitor.Base.Result.{Result}
use redborder_monitor.Sensor.{SafeSensor}
use redborder_monitor.Stats.{Counts, Stats}
use redborder_monitor.Stats.Survey.{get_stats-reset_all}
use redborder_monitor.Ipc.{command_of, report_text, read_bytes, handle_ipc_connection}

module _ {F : Type 0} (marshal : Stats → Result Bytes Bytes) where
  -- A connection that sends nothing, or `stats` or `status` with white space around it, behind one
  -- that sends `reset`, with white space around it, is answered with a report in which no cycle has
  -- taken any time and the budget is kept, and the report changes no counter.
  pub handle_ipc_connection-reset :
      (first second : Bytes) (state : Counts × List (SafeSensor F))
      → command_of first ≡ codes "reset"
      → (command_of second ≡ codes "stats") ⊎ (command_of second ≡ codes "status")
      → let after = (handle_ipc_connection marshal (read_bytes first) state).1 in
        (st : Stats) × (handle_ipc_connection marshal (read_bytes second) after
          ≡ (report_text (marshal st), after))
        × (st.max_sensor_run_duration_ms ≡ 0)
        × (st.cycle_budget_ok ≡ true)
  unfolding handle_ipc_connection same
  handle_ipc_connection-reset first second (counts, sensors) e (inl f) =
      let k = get_stats-reset_all counts sensors in rw (e, f) (_, refl, k.0, k.1)
  handle_ipc_connection-reset first second (counts, sensors) e (inr f) =
      let k = get_stats-reset_all counts sensors in rw (e, f) (_, refl, k.0, k.1)
