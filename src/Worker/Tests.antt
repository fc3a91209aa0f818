-- ===== src/Worker/Tests.antt =====
-- cmd/redborder-monitor/main.go: workers on a few sensors.
use redborder_monitor.Base.{◌+◌, ◌≡◌, refl, true, [], ◌∷◌, List}
use redborder_monitor.Schedule.{Queues}
use redborder_monitor.Schedule.Once.{count}
use redborder_monitor.Worker.{worker_turn}
use redborder_monitor.Worker.Fair.{Look, queued, arrivals, run_turns, run_turns-keeps}

abbrev nothing_new : Queues
nothing_new = record { high = []; low = [] }

abbrev some_queues : Queues
some_queues = record { high = 1 ∷ []; low = 2 ∷ 3 ∷ [] }

-- a sensor of high priority that comes while one of low priority is taken goes first
abbrev some_looks : List Look
some_looks =
    record { low_first = true; arrived = nothing_new; later = nothing_new }
    ∷ record {
      low_first = true;
      arrived = nothing_new;
      later = record { high = 4 ∷ []; low = 5 ∷ [] };
    }
    ∷ []

turns_on_some_queues :
    run_turns some_looks some_queues
    ≡ record { processed = 1 ∷ 4 ∷ 2 ∷ []; left = record { high = []; low = 3 ∷ 5 ∷ [] } }
unfolding run_turns worker_turn
turns_on_some_queues = refl

run_turns-keeps_example :
    count 4 (run_turns some_looks some_queues).processed
      + queued 4 (run_turns some_looks some_queues).left
    ≡ queued 4 some_queues + arrivals 4 some_looks
run_turns-keeps_example = run_turns-keeps 4 some_looks some_queues
