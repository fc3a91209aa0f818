-- ===== src/Schedule/Tests.antt =====
-- A round over three sensors, of which one is slow and one is no longer active.
use redborder_monitor.Base.{ℕ, ◌+◌, ◌≡◌, refl, Bool, List, [], ◌∷◌, not, ◌==◌, arith, if◌then◌else◌}
use redborder_monitor.Schedule.{Queues, offer, dispatch, schedule}
use redborder_monitor.Schedule.Once.{count, count-schedule}

abbrev is_active : ℕ → Bool
is_active i = not (i == 2)

abbrev is_slow : ℕ → Bool
is_slow i = i == 1

abbrev empty : Queues
empty = record { high = []; low = [] }

abbrev three : List ℕ
three = 0 ∷ 1 ∷ 2 ∷ []

two_queues : schedule is_active is_slow is_slow three empty ≡ record { high = 0 ∷ []; low = 1 ∷ [] }
unfolding schedule dispatch offer
two_queues = refl

count-schedule_example :
    count 1 (schedule is_active is_slow is_slow three empty).high
      + count 1 (schedule is_active is_slow is_slow three empty).low
    ≡ count 1 empty.high + count 1 empty.low + (if is_active 1 then count 1 three else 0)
count-schedule_example = count-schedule is_active is_slow 1 three empty (omega arith) (omega arith)
