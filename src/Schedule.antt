-- ===== src/Schedule.antt =====
-- cmd/redborder-monitor/main.go: one round of the scheduler, which offers the sensors to the queue of
-- the fast or of the slow ones. A sensor is its index; what the scheduler reads of it at that moment
-- (whether it is still active, whether it is slow) is an argument.
pub mod Once
mod Tests
use redborder_monitor.Base.{
  ℕ, ◌≡◌, Bool, true, false, not, ◌&&◌, List, [], ◌∷◌, ◌++◌, length, ltb, if◌then◌else◌,
}

abbrev pub queue_size : ℕ
queue_size = 1000

-- a send that does not wait: a full queue leaves the sensor out
unfoldable pub offer : ℕ → List ℕ → List ℕ
offer i queue = if ltb (length queue) queue_size then queue ++ i ∷ [] else queue

-- a loop over the sensors
unfoldable pub dispatch : (ℕ → Bool) → (ℕ → Bool) → List ℕ → List ℕ → List ℕ
dispatch still_active wanted [] queue = queue
dispatch still_active wanted (i ∷ sensors) queue =
    dispatch still_active wanted sensors
      (if still_active i && wanted i then offer i queue else queue)

pub record Queues : Type 0 where
  pub high : List ℕ
  pub low : List ℕ

-- A round: the fast sensors, then the slow ones. `slow` is read in the first loop, `slow_later` in
-- the second one.
unfoldable pub schedule : (ℕ → Bool) → (ℕ → Bool) → (ℕ → Bool) → List ℕ → Queues → Queues
schedule still_active slow slow_later sensors q = record {
  high = dispatch still_active (λ i. not (slow i)) sensors q.high;
  low = dispatch still_active slow_later sensors q.low;
}
