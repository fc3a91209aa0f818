-- ===== src/Output/Tests.antt =====
-- Metrics of a vector whose times come from the source.
use redborder_monitor.Base.{ℕ, ◌≡◌, refl, some, none, [], ◌∷◌, List}
use redborder_monitor.Base.Text.{codes}
use redborder_monitor.Base.Int.{pos}
use redborder_monitor.Base.Float.Sample.{Sample, sample, value}
use redborder_monitor.Model.{Monitor}
use redborder_monitor.Model.Sample.{blank_monitor}
use redborder_monitor.Values.{MonitorValue, MonitorState}
use redborder_monitor.Output.{Metric, Outbox, output_metrics, output_aggregate}
use redborder_monitor.Output.Sends.{Adds, Publishes, output_metrics-Publishes}
use redborder_monitor.Output.Quiet.{output_metrics_again}

abbrev timed : Monitor Sample
timed = record blank_monitor { name = codes "cpu"; timestamp_given = some (pos 1) }

abbrev at : ℕ → ℕ → MonitorValue Sample
at t n = record { timestamp = pos t; value = value (pos n); text = [] }

abbrev old_state : MonitorState Sample
old_state = record {
  scalar = none;
  children = some (at 5 1) ∷ some (at 5 2) ∷ [];
  split_op = some (at 5 3);
}

abbrev new_state : MonitorState Sample
new_state = record {
  scalar = none;
  children = some (at 5 1) ∷ some (at 6 2) ∷ [];
  split_op = some (at 6 3);
}

abbrev empty_box : Outbox Sample
empty_box = record { sent = []; generated = 0 }

output_metrics-Publishes_example :
    (ms : List (Metric Sample)) × Adds empty_box ms
      (output_metrics timed new_state (some old_state) [] empty_box)
    × Publishes timed [] (some old_state) new_state ms
output_metrics-Publishes_example =
    output_metrics-Publishes timed new_state (some old_state) [] empty_box refl

output_metrics_again_example :
    output_metrics timed old_state (some old_state) [] empty_box
    ≡ output_aggregate timed [] old_state.split_op empty_box
output_metrics_again_example =
    output_metrics_again timed old_state [] empty_box refl refl tt (refl, (refl, tt))
