-- ===== src/Worker.antt =====
-- cmd/redborder-monitor/main.go: one turn of a worker of the pool, over the two queues of sensors,
-- as if no other worker took from the queues meanwhile.
-- Which of two queues that are both filled a `select` takes is the argument `low_first`, and what
-- the scheduler adds is an argument too: `arrived` between the first and the second look at the
-- queues, and `later` during the rest of the turn.
pub mod Fair
mod Tests
use redborder_monitor.Base.{ℕ, Bool, true, false, Option, none, some, List, [], ◌∷◌, ◌++◌}
use redborder_monitor.Schedule.{Queues}

-- the sensors that the turn processes, in this order, and the queues behind it
pub record Turn : Type 0 where
  pub processed : List ℕ
  pub left : Queues

abbrev pub arrive : Queues → Queues → Queues
arrive q arrived = record { high = q.high ++ arrived.high; low = q.low ++ arrived.low }

-- the last look at the queue of high priority, once a sensor of low priority is taken
abbrev pub high_before : ℕ → List ℕ → List ℕ → Turn
high_before l [] low = record { processed = l ∷ []; left = record { high = []; low = low } }
high_before l (h ∷ high) low = record {
  processed = h ∷ l ∷ [];
  left = record { high = high; low = low };
}

abbrev pub take_low : ℕ → List ℕ → List ℕ → Queues → Turn
take_low l low high later = high_before l (high ++ later.high) (low ++ later.low)

-- a sensor of high priority, which is processed alone
abbrev pub take_high : ℕ → List ℕ → List ℕ → Queues → Turn
take_high h high low later = record {
  processed = h ∷ [];
  left = arrive (record { high = high; low = low }) later;
}

-- the second `select`; none where the worker waits
abbrev pub second_look : Bool → List ℕ → List ℕ → Queues → Option Turn
second_look low_first [] [] later = none
second_look low_first [] (l ∷ low) later = some (take_low l low [] later)
second_look low_first (h ∷ high) [] later = some (take_high h high [] later)
second_look true (h ∷ high) (l ∷ low) later = some (take_low l low (h ∷ high) later)
second_look false (h ∷ high) (l ∷ low) later = some (take_high h high (l ∷ low) later)

abbrev pub look_again : Bool → Queues → Queues → Option Turn
look_again low_first q later = second_look low_first q.high q.low later

abbrev pub first_look : Bool → List ℕ → List ℕ → Queues → Queues → Option Turn
first_look low_first (h ∷ high) low arrived later = some (record {
  processed = h ∷ [];
  left = arrive (arrive (record { high = high; low = low }) arrived) later;
})
first_look low_first [] low arrived later =
    look_again low_first (arrive (record { high = []; low = low }) arrived) later

unfoldable pub worker_turn : Bool → Queues → Queues → Queues → Option Turn
worker_turn low_first q arrived later = first_look low_first q.high q.low arrived later
