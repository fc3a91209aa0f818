-- ===== src/Query.antt =====
-- internal/monitor/processor.go: the queries of a cycle (`processSNMPMonitor`,
-- `processPluginMonitor`, `processSystemMonitor` and the goroutines of `ProcessSensor`). What the
-- network, the plugins, the commands and the clock answer, and the order in which the queries end,
-- is the argument `World`.
pub mod Gather
use redborder_monitor.Base.{
  ◌==◌, ℕ, zero, suc, ◌+◌, ◌≡◌, Bool, true, false, not, ◌||◌, ◌&&◌, Option, none, some, List, [],
  ◌∷◌, ◌++◌, get_elem?, map, is_some, if◌then◌else◌,
}
use redborder_monitor.Base.Text.{Bytes, codes, is_empty}
use redborder_monitor.Base.Int.{ℤ, pos, positive_or}
use redborder_monitor.Base.Map.{Map, lookup, insert}
use redborder_monitor.Base.Float.{Float}
use redborder_monitor.Base.Result.{Result, ok, err}
use redborder_monitor.Model.{Json, Monitor}
use redborder_monitor.Values.{MonitorState, parse_raw_output, parse_raw_output_with_value}
use redborder_monitor.Op.{ParsedGroup, no_gid, parse_group_id, group_key, process_op_monitor}
use redborder_monitor.Output.{Outbox, output_metrics}
use redborder_monitor.Sensor.{
  SafeSensor, CycleEnd, build_monitor_enrichment, inc_skipped_count, increment_64, finish_cycle,
}

-- what `errors.Is` tells apart
pub data FailureKind : Type 0 where
  object_not_found : FailureKind
  non_numeric_value : FailureKind
  invalid_oid : FailureKind
  no_sample : FailureKind
  other_failure : FailureKind

pub record Failure : Type 0 where
  pub kind : FailureKind
  pub message : Bytes

abbrev pub is_unavailable : FailureKind → Bool
is_unavailable object_not_found = true
is_unavailable non_numeric_value = true
is_unavailable invalid_oid = true
is_unavailable no_sample = false
is_unavailable other_failure = false

abbrev pub is_no_sample : FailureKind → Bool
is_no_sample no_sample = true
is_no_sample _ = false

-- `(*MonitorState, error)`
pub record Answer (F : Type 0) : Type 0 where
  pub state : Option (MonitorState F)
  pub failure : Option Failure

-- What the world answers to one query: none where the context ends before the query gets a place.
pub record Reply (F : Type 0) : Type 0 where
  pub started : Bool
  pub snmp : Result Failure (Bytes × F)
  -- the output of the plugin or of the command, and its error
  pub output : Bytes
  pub failure : Option Failure
  -- the time at which its output is parsed
  pub now : ℤ

pub record World (F : Type 0) : Type 0 where
  -- by the monitor's index
  pub reply : ℕ → Reply F
  -- `PluginsRegistry`: the flag NoValueOnError of a registered plugin
  pub registry : Bytes → Option Bool
  -- the monitors in the order in which their queries end
  pub order : List ℕ
  pub start : ℤ
  pub duration : ℕ

-- The variables that the queries share: their results by index, `hasError` and `errorsList`.
pub record Gathering (F : Type 0) : Type 0 where
  pub new_states : ℕ → Option (MonitorState F)
  pub has_error : Bool
  pub errors : List Bytes

-- `newStates[i] = st`
abbrev pub store :
    {F : Type 0}
    → ℕ
    → Option (MonitorState F)
    → (ℕ → Option (MonitorState F))
    → ℕ
    → Option (MonitorState F)
store i st states j = if i == j then st else states j

abbrev pub is_serious : Option Failure → Bool
is_serious none = false
is_serious (some f) = not (is_unavailable f.kind)

abbrev pub failure_line : Bytes → Bytes → Option Failure → List Bytes
failure_line prefix name none = []
failure_line prefix name (some f) = (prefix ++ (name ++ (codes ": " ++ f.message))) ∷ []

module _ {F : Type 0} ⦃fl : Float F⦄ where
  unfoldable pub process_snmp_monitor : Monitor F → Reply F → Answer F
  process_snmp_monitor m r = elim r.snmp [
    | ok (out, x) ↦ record {
      state = some (parse_raw_output_with_value out x m r.now);
      failure = none;
    }
    | err f ↦ if is_unavailable f.kind then record { state = none; failure = some f } else record {
      state = some (parse_raw_output_with_value (codes "0") fl.zero_value m r.now);
      failure = some f;
    }
  ]

  -- the answer of a registered plugin that failed
  abbrev pub failed_plugin : Bool → Monitor F → Reply F → Failure → Answer F
  failed_plugin no_value_on_error m r f =
      if is_no_sample f.kind
      then record { state = none; failure = none }
      else if no_value_on_error || is_unavailable f.kind
      then record { state = none; failure = some f }
      else record {
        state = some (parse_raw_output (if is_empty r.output then codes "0" else r.output) m r.now);
        failure = some f;
      }

  unfoldable pub process_plugin_monitor : (Bytes → Option Bool) → Monitor F → Reply F → Answer F
  process_plugin_monitor registry m r = elim (registry m.plugin) [
    | none ↦ record {
      state = some (parse_raw_output (codes "0") m r.now);
      failure = some (record {
        kind = other_failure;
        message = codes "plugin '" ++ (m.plugin ++ codes "' not found in registry");
      });
    }
    | some no_value_on_error ↦ elim r.failure [
      | some f ↦ failed_plugin no_value_on_error m r f
      | none ↦ record { state = some (parse_raw_output r.output m r.now); failure = none }
    ]
  ]

  unfoldable pub process_system_monitor : Monitor F → Reply F → Answer F
  process_system_monitor m r = record {
    state = some (parse_raw_output r.output m r.now);
    failure = r.failure;
  }

  -- the monitors that are queried beside each other, before the loop
  abbrev pub is_queried : Monitor F → Bool
  is_queried m = not (is_empty m.oid) || not (is_empty m.plugin)

  unfoldable pub query : World F → ℕ → Monitor F → Answer F
  query w i m =
      if not (is_empty m.oid)
      then process_snmp_monitor m (w.reply i)
      else process_plugin_monitor w.registry m (w.reply i)

  abbrev pub query_prefix : Monitor F → Bytes
  query_prefix m = if not (is_empty m.oid) then codes "SNMP:" else codes "PLUGIN:"

  -- the end of a query: its error, then its state
  unfoldable pub end_query : World F → ℕ → Monitor F → Gathering F → Gathering F
  end_query w i m g =
      let a = query w i m in
      if is_queried m && (w.reply i).started
      then record {
        new_states = store i a.state g.new_states;
        has_error = g.has_error || is_serious a.failure;
        errors = g.errors ++ failure_line (query_prefix m) m.name a.failure;
      }
      else g

  abbrev pub no_results : Gathering F
  no_results = record { new_states = λ i. none; has_error = false; errors = [] }

  -- all queries, in the order in which they end
  unfoldable pub run_queries : World F → List (Monitor F) → List ℕ → Gathering F → Gathering F
  run_queries w ms [] g = g
  run_queries w ms (i ∷ order) g =
      run_queries w ms order (elim (get_elem? ms i) [ none ↦ g | some m ↦ end_query w i m g ])
