-- ===== src/Semaphore.antt =====
-- internal/monitor/processor.go: the goroutines of `ProcessSensor` that query the monitors of a
-- sensor, the channel that bounds how many run at a time, and the context that ends the wait. Each
-- step is one goroutine's, in any order.
pub mod Bounded
pub mod Progress
mod Tests
use redborder_monitor.Base.{
  ℕ, zero, suc, ◌+◌, ◌-◌, ◌<◌, ◌≡◌, Bool, true, false, Option, none, some, List, [], ◌∷◌, ◌++◌,
  get_elem?, map, if◌then◌else◌,
}
use redborder_monitor.Base.Int.{ℤ, positive_or}
use redborder_monitor.Base.Float.{Float}
use redborder_monitor.Model.{Monitor}
use redborder_monitor.Query.{World, Gathering, is_queried, end_query, no_results}

-- Where a monitor's goroutine stands; a monitor that is not queried has none.
pub data Phase : Type 0 where
  no_routine : Phase
  waiting : Phase
  running : Phase
  ended : Phase
  given_up : Phase

abbrev pub is_waiting : Phase → Bool
is_waiting waiting = true
is_waiting _ = false

abbrev pub is_running : Phase → Bool
is_running running = true
is_running _ = false

abbrev pub is_ended : Phase → Bool
is_ended ended = true
is_ended _ = false

unfoldable pub set_phase : ℕ → Phase → List Phase → List Phase
set_phase i p [] = []
set_phase zero p (q ∷ qs) = p ∷ qs
set_phase (suc i) p (q ∷ qs) = q ∷ set_phase i p qs

pub record Crew (F : Type 0) : Type 0 where
  pub phases : List Phase
  -- the places of the channel that are taken
  pub slots : ℕ
  -- the sensor's context has ended
  pub expired : Bool
  -- the queries that ran, in the order of their ends
  pub log : List ℕ
  pub gathering : Gathering F

-- `limit`, the size of the channel
abbrev pub slot_limit : ℤ → ℕ
slot_limit max_simultaneous_queries = positive_or 10 max_simultaneous_queries

module _ {F : Type 0} ⦃fl : Float F⦄ where
  abbrev pub end_of : World F → ℕ → Option (Monitor F) → Gathering F → Gathering F
  end_of w i none g = g
  end_of w i (some m) g = end_query w i m g

  -- the answers of the world to queries that have a place
  abbrev pub placed : World F → World F
  placed w = record w { reply = λ i. record (w.reply i) { started = true } }

  abbrev pub first_phase : Monitor F → Phase
  first_phase m = if is_queried m then waiting else no_routine

  unfoldable pub start_crew : List (Monitor F) → Crew F
  start_crew ms = record {
    phases = map first_phase ms;
    slots = 0;
    expired = false;
    log = [];
    gathering = no_results;
  }

  abbrev pub take_slot : ℕ → Crew F → Crew F
  take_slot i c = record c { phases = set_phase i running c.phases; slots = c.slots + 1 }

  abbrev pub give_up : ℕ → Crew F → Crew F
  give_up i c = record c { phases = set_phase i given_up c.phases }

  abbrev pub finish : World F → List (Monitor F) → ℕ → Crew F → Crew F
  finish w ms i c = record c {
    phases = set_phase i ended c.phases;
    slots = c.slots - 1;
    log = c.log ++ i ∷ [];
    gathering = end_of (placed w) i (get_elem? ms i) c.gathering;
  }

  -- A goroutine takes a free place, or gives up once the context has ended, or ends its query.
  pub data Step (w : World F) (ms : List (Monitor F)) (limit : ℕ) : Crew F → Crew F → Type 0 where
    acquire :
        (c : Crew F) (i : ℕ)
        → get_elem? c.phases i ≡ some waiting
        → c.slots < limit
        → Step w ms limit c (take_slot i c)
    abandon :
        (c : Crew F) (i : ℕ)
        → get_elem? c.phases i ≡ some waiting
        → c.expired ≡ true
        → Step w ms limit c (give_up i c)
    release :
        (c : Crew F) (i : ℕ)
        → get_elem? c.phases i ≡ some running
        → Step w ms limit c (finish w ms i c)
    expire : (c : Crew F) → c.expired ≡ false → Step w ms limit c (record c { expired = true })

  -- the runs from the start, with the number of their steps
  pub data Runs (w : World F) (ms : List (Monitor F)) (limit : ℕ) : ℕ → Crew F → Type 0 where
    begin : Runs w ms limit 0 (start_crew ms)
    more :
        {n : ℕ} {c d : Crew F}
        → Runs w ms limit n c
        → Step w ms limit c d
        → Runs w ms limit (suc n) d
