-- ===== src/Ipc.antt =====
-- internal/monitor/ipc.go: the addresses of the status socket and the answer to a connection. The
-- file system's part of `DefaultSocketPath` is the argument `can_write`, and json.MarshalIndent of a
-- report is the argument `marshal`.
pub mod Commands
mod Tests
use redborder_monitor.Base.{Bool, ◌||◌, List, [], ◌∷◌, ◌++◌, is_some, if◌then◌else◌}
use redborder_monitor.Base.Text.{
  Bytes, codes, same, is_empty, strip_prefix?, trim_prefix, trim_space, contains,
}
use redborder_monitor.Base.Result.{Result, ok, err}
use redborder_monitor.Sensor.{SafeSensor}
use redborder_monitor.Stats.{Counts, Stats, get_stats, reset_all}

unfoldable pub default_socket_path : Bool → Bytes
default_socket_path can_write =
    if can_write
    then codes "/run/redborder-monitor/redborder-monitor.sock"
    else codes "/tmp/redborder-monitor.sock"

pub data Network : Type 0 where
  unix : Network
  tcp : Network

unfoldable pub parse_ipc_address : Bool → Bytes → Network × Bytes
parse_ipc_address can_write addr =
    if is_empty addr
    then (unix, default_socket_path can_write)
    else if is_some (strip_prefix? (codes "tcp://") addr)
    then (tcp, trim_prefix (codes "tcp://") addr)
    else if contains addr (codes ":")
    then (tcp, addr)
    else (unix, addr)

-- what the first read of a connection gives, of at most 1024 bytes
pub data IpcRead : Type 0 where
  read_error : IpcRead
  read_bytes : Bytes → IpcRead

abbrev pub command_of : Bytes → Bytes
command_of [] = codes "stats"
command_of (c ∷ s) = trim_space (c ∷ s)

abbrev pub report_text : Result Bytes Bytes → Bytes
report_text (ok data_bytes) = data_bytes ++ codes "\n"
report_text (err message) = codes "{\"error\": \"failed to marshal stats\"}"

module _ {F : Type 0} (marshal : Stats → Result Bytes Bytes) where
  abbrev pub run_command :
      Bytes → Counts × List (SafeSensor F) → Bytes × (Counts × List (SafeSensor F))
  run_command command (counts, sensors) =
      if same command (codes "stats") || same command (codes "status")
      then (report_text (marshal (get_stats counts sensors)), (counts, sensors))
      else if same command (codes "reset")
      then (
        codes "{\"status\": \"ok\", \"message\": \"stats reset successfully\"}\n",
        reset_all (counts, sensors),
      )
      else (codes "{\"error\": \"unknown command\"}", (counts, sensors))

  -- what is written to the connection, and the counters afterwards
  unfoldable pub handle_ipc_connection :
      IpcRead → Counts × List (SafeSensor F) → Bytes × (Counts × List (SafeSensor F))
  handle_ipc_connection read_error state = ([], state)
  handle_ipc_connection (read_bytes s) state = run_command (command_of s) state
