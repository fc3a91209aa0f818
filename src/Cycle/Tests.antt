-- ===== src/Cycle/Tests.antt =====
-- Cycles of a sensor with two queries and a formula over them.
use redborder_monitor.Base.{ℕ, zero, arith, ◌≡◌, refl, some, none, [], ◌∷◌, true}
use redborder_monitor.Base.Text.{Bytes, codes}
use redborder_monitor.Base.Int.{pos}
use redborder_monitor.Base.Result.{ok, err}
use redborder_monitor.Base.Float.Sample.{Sample, sample, value}
use redborder_monitor.Model.{Monitor, Sensor}
use redborder_monitor.Model.Sample.{blank_monitor, blank_sensor}
use redborder_monitor.Values.{MonitorState}
use redborder_monitor.Sensor.{new_safe_sensor}
use redborder_monitor.Query.{World, Reply, object_not_found, run_queries, no_results}
use redborder_monitor.Cycle.{Run, process_sensor}
use redborder_monitor.Query.Gather.{among, run_queries_order}
use redborder_monitor.Cycle.Counted.{IsCounted, process_sensor-IsCounted}

abbrev query_of : Bytes → Monitor Sample
query_of name = record blank_monitor { name = name; oid = codes "1.3" }

abbrev ratio : Monitor Sample
ratio = record blank_monitor { name = codes "ratio"; op = codes "in + out" }

abbrev switch : Sensor Sample
switch = record blank_sensor {
  sensor_name = codes "switch";
  monitors = query_of (codes "in") ∷ query_of (codes "out") ∷ ratio ∷ [];
}

abbrev number_reply : Reply Sample
number_reply = record {
  started = true;
  snmp = ok (codes "7", value (pos 7));
  output = [];
  failure = none;
  now = pos 4;
}

abbrev absent : Reply Sample
absent = record number_reply {
  snmp = err (record { kind = object_not_found; message = codes "no such object" });
}

abbrev world : World Sample
world = record {
  reply = λ i. elim i [ zero ↦ absent | _ ↦ number_reply ];
  registry = λ name. none;
  order = 1 ∷ 0 ∷ [];
  start = pos 3;
  duration = 1000;
}

abbrev old_state : MonitorState Sample
old_state = record {
  scalar = some (record { timestamp = pos 1; value = value (pos 5); text = codes "5" });
  children = [];
  split_op = none;
}

abbrev first_run : Run Sample
first_run = record {
  safe = record (new_safe_sensor switch) { cache = (codes "in", old_state) ∷ [] };
  outbox = record { sent = []; generated = 0 };
  sensors_processed = 0;
  sensors_skipped = 0;
}

process_sensor-IsCounted_example : IsCounted (process_sensor (pos 2) world first_run).outbox
process_sensor-IsCounted_example = process_sensor-IsCounted (pos 2) world first_run refl

swapped : (i : ℕ) → among i (0 ∷ 1 ∷ []) ≡ among i (1 ∷ 0 ∷ [])
swapped i = ground arith

run_queries_order_example :
    ((j : ℕ)
      → (run_queries world switch.monitors (0 ∷ 1 ∷ []) no_results).new_states j
        ≡ (run_queries world switch.monitors (1 ∷ 0 ∷ []) no_results).new_states j)
    × ((run_queries world switch.monitors (0 ∷ 1 ∷ []) no_results).has_error
        ≡ (run_queries world switch.monitors (1 ∷ 0 ∷ []) no_results).has_error)
run_queries_order_example =
    run_queries_order world switch.monitors (0 ∷ 1 ∷ []) (1 ∷ 0 ∷ []) swapped
