-- ===== src/Sensor/Tests.antt =====
-- A sensor that fails twice and turns slow.
use redborder_monitor.Base.{◌≡◌, refl, true, false, List, [], ◌∷◌, leb, arith}
use redborder_monitor.Base.Text.{codes}
use redborder_monitor.Base.Int.{pos}
use redborder_monitor.Model.Sample.{blank_sensor}
use redborder_monitor.Sensor.{
  CycleEnd, new_safe_sensor, is_low_priority, fail_limit, update_priority, update_stats,
  finish_cycle, is_slow,
}
use redborder_monitor.Sensor.Priority.{streak, after, after-is_low_priority}

abbrev good : CycleEnd
good = record { start = pos 1; duration = 1000; has_error = false; errors = [] }

abbrev bad : CycleEnd
bad = record { start = pos 2; duration = 1000; has_error = true; errors = codes "no answer" ∷ [] }

abbrev cycles : List CycleEnd
cycles = bad ∷ bad ∷ good ∷ []

after-is_low_priority_example :
    is_low_priority (after (pos 2) 5000 (new_safe_sensor blank_sensor) cycles)
    ≡ leb (fail_limit (pos 2)) (streak 5000 cycles)
after-is_low_priority_example =
    after-is_low_priority (pos 2) 5000 blank_sensor cycles (omega arith) (omega arith) (omega arith)

turned_slow : is_low_priority (after (pos 2) 5000 (new_safe_sensor blank_sensor) cycles) ≡ true
unfolding new_safe_sensor finish_cycle update_priority update_stats is_slow
turned_slow = refl

recovers :
    is_low_priority (after (pos 2) 5000 (new_safe_sensor blank_sensor) (good ∷ cycles)) ≡ false
unfolding new_safe_sensor finish_cycle update_priority update_stats is_slow
recovers = refl
