-- ===== src/Worker/Fair.antt =====
-- cmd/redborder-monitor/main.go: turns of the workers keep every sensor that is queued.
use redborder_monitor.Base.{
  ℕ, ◌+◌, ◌≡◌, Bool, true, false, Option, none, some, List, [], ◌∷◌, ◌++◌, arith, if◌then◌else◌,
  ◌==◌,
}
use redborder_monitor.Schedule.{Queues}
use redborder_monitor.Schedule.Once.{count, count-append}
use redborder_monitor.Worker.{Turn, arrive, high_before, second_look, first_look, worker_turn}

-- how often a sensor stands in the queues
abbrev pub queued : ℕ → Queues → ℕ
queued i q = count i q.high + count i q.low

-- What a worker does in a turn: its sensors and the queues behind them. A worker that waits does
-- nothing, and the queues take what arrives.
abbrev pub outcome : Option Turn → Queues → Turn
outcome (some t) q = t
outcome none q = record { processed = []; left = q }

-- a turn of some worker: its choice, and what arrives during it
pub record Look : Type 0 where
  pub low_first : Bool
  pub arrived : Queues
  pub later : Queues

abbrev pub turn_of : Look → Queues → Turn
turn_of k q =
    outcome (worker_turn k.low_first q k.arrived k.later) (arrive (arrive q k.arrived) k.later)

-- the turns of the workers one after the other: the sensors processed, and the queues at the end
unfoldable pub run_turns : List Look → Queues → Turn
run_turns [] q = record { processed = []; left = q }
run_turns (k ∷ ks) q =
    let t = turn_of k q in
    let rest = run_turns ks t.left in
    record { processed = t.processed ++ rest.processed; left = rest.left }

abbrev pub arrivals : ℕ → List Look → ℕ
arrivals i [] = 0
arrivals i (k ∷ ks) = queued i k.arrived + queued i k.later + arrivals i ks

queued-arrive : (i : ℕ) (q a : Queues) → queued i (arrive q a) ≡ queued i q + queued i a
queued-arrive i q a = omega (arith, count-append i q.high a.high, count-append i q.low a.low)

high_before-keeps :
    (i l : ℕ) (high low : List ℕ)
    → count i (high_before l high low).processed + queued i (high_before l high low).left
      ≡ (if l == i then 1 else 0) + (count i high + count i low)
high_before-keeps i l [] low = omega arith
high_before-keeps i l (h ∷ high) low = omega arith

-- what a turn keeps of the sensors in two queues, to which others come
abbrev Keeps : ℕ → List ℕ → List ℕ → Queues → Option Turn → Type 0
Keeps i high low a none = count i high + count i low ≡ 0
Keeps i high low a (some t) =
    count i t.processed + queued i t.left ≡ (count i high + count i low) + queued i a

second_look-Keeps :
    (i : ℕ) (low_first : Bool) (high low : List ℕ) (later : Queues)
    → Keeps i high low later (second_look low_first high low later)
second_look-Keeps i low_first [] [] later = omega arith
second_look-Keeps i low_first [] (l ∷ low) later =
    omega (arith, high_before-keeps i l later.high (low ++ later.low), count-append i low later.low)
second_look-Keeps i low_first (h ∷ high) [] later = omega (arith, count-append i high later.high)
second_look-Keeps i true (h ∷ high) (l ∷ low) later = omega (
  arith,
  high_before-keeps i l (h ∷ (high ++ later.high)) (low ++ later.low),
  count-append i high later.high,
  count-append i low later.low,
)
second_look-Keeps i false (h ∷ high) (l ∷ low) later =
    omega (arith, count-append i high later.high, count-append i (l ∷ low) later.low)

outcome-Keeps :
    (i : ℕ) (o : Option Turn) (high low : List ℕ) (q later : Queues)
    → Keeps i high low later o
    → queued i q ≡ (count i high + count i low) + queued i later
    → count i (outcome o q).processed + queued i (outcome o q).left ≡ queued i q
outcome-Keeps i none high low q later k e = omega arith
outcome-Keeps i (some t) high low q later k e = omega (arith, k, e)

look-keeps :
    (i : ℕ) (low_first : Bool) (high low : List ℕ) (arrived later : Queues)
    → let q = arrive (arrive (record { high = high; low = low }) arrived) later in
      let t = outcome (first_look low_first high low arrived later) q in
      count i t.processed + queued i t.left ≡ queued i q
look-keeps i low_first [] low arrived later =
    outcome-Keeps i (second_look low_first arrived.high (low ++ arrived.low) later) arrived.high
      (low ++ arrived.low) (arrive (arrive (record { high = []; low = low }) arrived) later) later
      (second_look-Keeps i low_first arrived.high (low ++ arrived.low) later)
      (queued-arrive i (arrive (record { high = []; low = low }) arrived) later)
look-keeps i low_first (h ∷ high) low arrived later = omega (
  arith,
  queued-arrive i (arrive (record { high = high; low = low }) arrived) later,
  queued-arrive i (record { high = high; low = low }) arrived,
  queued-arrive i (arrive (record { high = h ∷ high; low = low }) arrived) later,
  queued-arrive i (record { high = h ∷ high; low = low }) arrived,
)

turn_of-keeps :
    (i : ℕ) (k : Look) (q : Queues)
    → count i (turn_of k q).processed + queued i (turn_of k q).left
      ≡ queued i q + queued i k.arrived + queued i k.later
unfolding worker_turn
turn_of-keeps i k q = omega (
  arith,
  look-keeps i k.low_first q.high q.low k.arrived k.later,
  queued-arrive i (arrive q k.arrived) k.later,
  queued-arrive i q k.arrived,
)

-- Over any sequence of turns of the workers, one after the other, whatever a `select` takes and
-- whatever the scheduler adds meanwhile, each sensor is processed as often as it was queued or
-- added, less the times it still stands in a queue.
pub run_turns-keeps :
    (i : ℕ) (ks : List Look) (q : Queues)
    → count i (run_turns ks q).processed + queued i (run_turns ks q).left
      ≡ queued i q + arrivals i ks
unfolding run_turns
run_turns-keeps i [] q = omega arith
run_turns-keeps i (k ∷ ks) q = omega (
  arith,
  run_turns-keeps i ks (turn_of k q).left,
  turn_of-keeps i k q,
  count-append i (turn_of k q).processed (run_turns ks (turn_of k q).left).processed,
)
