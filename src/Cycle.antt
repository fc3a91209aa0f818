-- ===== src/Cycle.antt =====
-- internal/monitor/processor.go: `ProcessSensor`, one cycle of a sensor: the queries, the loop over
-- the monitors, and the end.
pub mod Cache
pub mod Counted
mod Tests
use redborder_monitor.Base.{
  ◌==◌, ℕ, zero, suc, ◌+◌, ◌≡◌, Bool, true, false, not, ◌||◌, ◌&&◌, Option, none, some, List, [],
  ◌∷◌, ◌++◌, get_elem?, map, is_some, if◌then◌else◌,
}
use redborder_monitor.Base.Text.{Bytes, codes, is_empty}
use redborder_monitor.Base.Int.{ℤ, pos, positive_or}
use redborder_monitor.Base.Map.{Map, lookup, insert}
use redborder_monitor.Base.Float.{Float}
use redborder_monitor.Base.Result.{Result, ok, err}
use redborder_monitor.Model.{Json, Monitor}
use redborder_monitor.Values.{MonitorState, parse_raw_output, parse_raw_output_with_value}
use redborder_monitor.Op.{ParsedGroup, no_gid, parse_group_id, group_key, process_op_monitor}
use redborder_monitor.Output.{Outbox, output_metrics}
use redborder_monitor.Sensor.{
  SafeSensor, CycleEnd, build_monitor_enrichment, inc_skipped_count, increment_64, finish_cycle,
}
use redborder_monitor.Query.{
  Answer, Failure, FailureKind, Gathering, Reply, World, end_query, failed_plugin, failure_line,
  invalid_oid, is_no_sample, is_queried, is_serious, is_unavailable, no_results, no_sample,
  non_numeric_value, object_not_found, other_failure, process_plugin_monitor, process_snmp_monitor,
  process_system_monitor, query, query_prefix, run_queries, store,
}

-- The variables of the loop over the monitors.
pub record Loop (F : Type 0) : Type 0 where
  pub current : Map (MonitorState F)
  pub cache : Map (MonitorState F)
  pub outbox : Outbox F
  pub has_error : Bool
  pub errors : List Bytes

-- The sensor, the channel, and the process's counters of cycles run and skipped.
pub record Run (F : Type 0) : Type 0 where
  pub safe : SafeSensor F
  pub outbox : Outbox F
  pub sensors_processed : ℕ
  pub sensors_skipped : ℕ

abbrev pub state_key : Bytes → ParsedGroup → Bytes
state_key name no_gid = name
state_key name gid = group_key name gid

module _ {F : Type 0} ⦃fl : Float F⦄ where
  -- `currentVals` under the group's key, then under the name
  abbrev pub save_current : Monitor F → MonitorState F → Map (MonitorState F) → Map (MonitorState F)
  save_current m st current =
      insert m.name st (insert (state_key m.name (parse_group_id m.group_id)) st current)

  unfoldable pub publish_state : SafeSensor F → Monitor F → MonitorState F → Loop F → Loop F
  publish_state ss m st l = record l {
    current = save_current m st l.current;
    cache = insert m.name st l.cache;
    outbox = output_metrics m st (lookup m.name l.cache) (build_monitor_enrichment ss m) l.outbox;
  }

  abbrev pub publish_if : SafeSensor F → Monitor F → Option (MonitorState F) → Loop F → Loop F
  publish_if ss m none l = l
  publish_if ss m (some st) l = publish_state ss m st l

  -- The state of a monitor in the loop, and the error of a system command.
  unfoldable pub new_state :
      World F → (ℕ → Option (MonitorState F)) → ℕ → Monitor F → Map (MonitorState F) → Answer F
  new_state w results i m current =
      if is_queried m
      then record { state = results i; failure = none }
      else if not (is_empty m.system)
      then process_system_monitor m (w.reply i)
      else if not (is_empty m.op)
      then record { state = process_op_monitor m current (w.reply i).now; failure = none }
      else record { state = none; failure = none }

  -- an error of a system command, of which each sets `hasError`
  abbrev pub note_failure : Monitor F → Option Failure → Loop F → Loop F
  note_failure m f l = record l {
    has_error = l.has_error || is_some f;
    errors = l.errors ++ failure_line (codes "SYS:") m.name f;
  }

  unfoldable pub process_monitor :
      World F → (ℕ → Option (MonitorState F)) → SafeSensor F → ℕ → Monitor F → Loop F → Loop F
  process_monitor w results ss i m l =
      let a = new_state w results i m l.current in
      publish_if ss m a.state (note_failure m a.failure l)

  unfoldable pub process_monitors :
      World F
      → (ℕ → Option (MonitorState F))
      → SafeSensor F
      → ℕ
      → List (Monitor F)
      → Loop F
      → Loop F
  process_monitors w results ss i [] l = l
  process_monitors w results ss i (m ∷ ms) l =
      process_monitors w results ss (i + 1) ms (process_monitor w results ss i m l)

  unfoldable pub run_cycle : ℤ → World F → Run F → Run F
  run_cycle max_fails w r =
      let ss = r.safe in
      let ms = ss.sensor.monitors in
      let g = run_queries w ms w.order no_results in
      let start : Loop F = record {
        current = ss.cache;
        cache = ss.cache;
        outbox = r.outbox;
        has_error = g.has_error;
        errors = g.errors;
      } in
      let l = process_monitors w g.new_states ss 0 ms start in
      let end : CycleEnd = record {
        start = w.start;
        duration = w.duration;
        has_error = l.has_error;
        errors = l.errors;
      } in
      record {
        safe =
            finish_cycle max_fails (positive_or 5000 ss.sensor.timeout) end
              (record ss { cache = l.cache });
        outbox = l.outbox;
        sensors_processed = increment_64 r.sensors_processed;
        sensors_skipped = r.sensors_skipped;
      }

  -- A sensor whose lock is held is skipped.
  unfoldable pub process_sensor : ℤ → World F → Run F → Run F
  process_sensor max_fails w r =
      if r.safe.locked
      then record r {
        safe = inc_skipped_count r.safe;
        sensors_skipped = increment_64 r.sensors_skipped;
      }
      else run_cycle max_fails w r
