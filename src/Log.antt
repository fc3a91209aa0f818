-- ===== src/Log.antt =====
-- internal/monitor/log.go: the severities and `LogMsg`, for a message that is already formatted. The
-- callers of the other parts are left out of their models.
use redborder_monitor.Base.{Option, none, some, ◌++◌, if◌then◌else◌}
use redborder_monitor.Base.Text.{Bytes, codes}
use redborder_monitor.Base.Int.{ℤ, pos, eqb_ℤ, ltb_ℤ}
use redborder_monitor.Base.Decimal.{format_ℤ}

abbrev pub severity_name : ℤ → Bytes
severity_name severity =
    if eqb_ℤ severity (pos 0)
    then codes "[EMERG]"
    else if eqb_ℤ severity (pos 1)
    then codes "[ALERT]"
    else if eqb_ℤ severity (pos 2)
    then codes "[CRIT]"
    else if eqb_ℤ severity (pos 3)
    then codes "[ERROR]"
    else if eqb_ℤ severity (pos 4)
    then codes "[WARNING]"
    else if eqb_ℤ severity (pos 5)
    then codes "[NOTICE]"
    else if eqb_ℤ severity (pos 6)
    then codes "[INFO]"
    else if eqb_ℤ severity (pos 7)
    then codes "[DEBUG]"
    else codes "[LEVEL-" ++ (format_ℤ severity ++ codes "]")

-- the line that is printed, if one is
unfoldable pub log_msg : ℤ → ℤ → Bytes → Option Bytes
log_msg debug_level severity message =
    if ltb_ℤ debug_level severity
    then none
    else some (severity_name severity ++ (codes " " ++ message))
