-- ===== src/Process/Tests.antt =====
-- A daemon whose new configuration names another socket, and one that cannot be read.
use redborder_monitor.Base.{◌≡◌, refl, some, [], ◌∷◌, List, true}
use redborder_monitor.Base.Text.{Bytes, codes, cut, strip_prefix?}
use redborder_monitor.Base.Int.{pos}
use redborder_monitor.Base.Result.{Result, ok, err}
use redborder_monitor.Base.Float.Sample.{Sample}
use redborder_monitor.Model.{Config}
use redborder_monitor.Model.Sample.{blank_conf}
use redborder_monitor.Ipc.{unix, tcp, parse_ipc_address}
use redborder_monitor.Process.{IpcHost, Process, start_ipc, start_process}
use redborder_monitor.Process.Listener.{reload_all, reload_all-listener}

abbrev host : IpcHost
host = record { can_write = true; can_listen = λ a. true }

abbrev at : Bytes → Config Sample
at path = record { conf = record blank_conf { ipc_socket_path = path }; sensors = [] }

abbrev old_process : Process Sample
old_process = start_process host (pos 100) (at (codes "/tmp/a"))

abbrev loads : List (Result Bytes (Config Sample))
loads = ok (at (codes ":8000")) ∷ err (codes "no such file") ∷ []

first_listener : old_process.listener ≡ some (unix, codes "/tmp/a")
unfolding start_process start_ipc parse_ipc_address strip_prefix? cut
first_listener = refl

other_address : parse_ipc_address true (codes ":8000") ≡ (tcp, codes ":8000")
unfolding parse_ipc_address strip_prefix? cut
other_address = refl

reload_all-listener_example : (reload_all host loads old_process).listener ≡ old_process.listener
reload_all-listener_example = reload_all-listener host loads old_process
