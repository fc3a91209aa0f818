-- ===== src/Semaphore/Tests.antt =====
-- A run over three monitors, of which two are queried and one place is there for them: the second
-- gets it, the context ends, and the first gives up.
use redborder_monitor.Base.{◌≤◌, ◌<◌, refl, true, none, List, [], ◌∷◌, arith}
use redborder_monitor.Base.Text.{codes}
use redborder_monitor.Base.Int.{pos}
use redborder_monitor.Base.Result.{ok}
use redborder_monitor.Base.Float.Sample.{Sample, sample, value}
use redborder_monitor.Model.{Monitor}
use redborder_monitor.Model.Sample.{blank_monitor}
use redborder_monitor.Query.{World}
use redborder_monitor.Semaphore.{
  Crew, set_phase, start_crew, take_slot, give_up, finish, Step, acquire, abandon, release, expire,
  Runs, begin, more,
}
use redborder_monitor.Semaphore.Bounded.{Bounded, Runs-Bounded}
use redborder_monitor.Semaphore.Progress.{pending, Runs-progress}

abbrev world : World Sample
world = record {
  reply = λ i. record {
    started = true;
    snmp = ok (codes "7", value (pos 7));
    output = [];
    failure = none;
    now = pos 4;
  };
  registry = λ name. none;
  order = [];
  start = pos 3;
  duration = 1000;
}

abbrev monitors : List (Monitor Sample)
monitors =
    record blank_monitor { name = codes "in"; oid = codes "1.3" }
    ∷ record blank_monitor { name = codes "out"; oid = codes "1.4" }
    ∷ record blank_monitor { name = codes "sum"; op = codes "in + out" }
    ∷ []

abbrev taken : Crew Sample
taken = take_slot 1 (start_crew monitors)

abbrev late : Crew Sample
late = record taken { expired = true }

run_2 : Runs world monitors 1 2 late
unfolding start_crew set_phase
run_2 = more (more begin (acquire (start_crew monitors) 1 refl (omega arith))) (expire taken refl)

run_4 : Runs world monitors 1 4 (finish world monitors 1 (give_up 0 late))
unfolding start_crew set_phase
run_4 = more (more run_2 (abandon late 0 refl refl)) (release (give_up 0 late) 1 refl)

Runs-Bounded_example : Bounded world monitors 1 (finish world monitors 1 (give_up 0 late))
Runs-Bounded_example = Runs-Bounded world monitors 1 run_4

Runs-progress_example :
    (2 ≤ 7) × (0 < pending late → (d : Crew Sample) × Step world monitors 1 late d)
Runs-progress_example = Runs-progress world monitors 1 (omega arith) run_2
