-- ===== src/Plugins/Command.antt =====
-- internal/monitor/system.go: `SolveSystemCommand`. The shell's run within a number of seconds is
-- the argument `run`.
pub mod Blank
use redborder_monitor.Base.{
  ltb, ℕ, ◌/◌, ◌+◌, ◌%◌, ◌-◌, Option, none, some, List, [], ◌∷◌, if◌then◌else◌,
}
use redborder_monitor.Base.Text.{Bytes, codes, is_empty, trim_space}
use redborder_monitor.Base.Int.{ℤ, pos, negsuc, positive_or}
use redborder_monitor.Base.Result.{Result, ok, err}
use redborder_monitor.Base.Split.{split}
use redborder_monitor.Model.{Monitor, Sensor}
use redborder_monitor.Plugins.Outcome.{PluginAnswer, answer, failed}

-- the first line that is not blank, without the white space around it
unfoldable pub first_line : List Bytes → Bytes
first_line [] = codes "0"
first_line (l ∷ lines) =
    let rest = first_line lines in if is_empty (trim_space l) then rest else trim_space l

unfoldable pub command_output : Bytes → Bytes
command_output s = first_line (split (codes "\n") s)

abbrev pub command_answer : Result Bytes Bytes → PluginAnswer
command_answer (ok s) = answer (command_output s)
command_answer (err message) = failed (codes "0") message

unfoldable pub solve_system_command : (Bytes → ℕ → Result Bytes Bytes) → Bytes → ℤ → PluginAnswer
solve_system_command run command timeout = command_answer (run command (positive_or 5 timeout))

-- Go's division of a time-out in milliseconds, which rounds towards 0
abbrev pub whole_seconds : ℤ → ℤ
whole_seconds (pos n) = pos (n / 1000)
whole_seconds (negsuc n) = if ltb (n + 1) 1000 then pos 0 else negsuc ((n + 1) / 1000 - 1)

-- the call in `processSystemMonitor`
unfoldable pub system_answer :
    {F : Type 0} → (Bytes → ℕ → Result Bytes Bytes) → Sensor F → Monitor F → PluginAnswer
system_answer run s m = solve_system_command run m.system (whole_seconds s.timeout)
