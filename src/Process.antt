-- ===== src/Process.antt =====
-- cmd/redborder-monitor/main.go: the state of the daemon outside its queues: the start, `startIPC`
-- and the whole of `reloadConfig`. The sensors are those of `Reload`, the outputs those of
-- `Producer`; the machine is the argument `IpcHost`.
pub mod Listener
mod Tests
use redborder_monitor.Base.{
  ℕ, ◌+◌, ◌-◌, ◌%◌, ◌^◌, Bool, true, false, not, Option, none, some, ltb, if◌then◌else◌,
}
use redborder_monitor.Base.Text.{Bytes, same, is_empty}
use redborder_monitor.Base.Int.{ℤ, pos, negsuc, is_positive, positive_or}
use redborder_monitor.Base.Result.{Result, ok, err}
use redborder_monitor.Model.{Conf, Config}
use redborder_monitor.Producer.{Producer, new_metric_producer, update_config}
use redborder_monitor.Reload.{Daemon, start_daemon, normal_sensors, reload_sensors}
use redborder_monitor.Ipc.{Network, default_socket_path, parse_ipc_address}

-- Whether the directory of the socket can be written, and whether an address can be listened on.
pub record IpcHost : Type 0 where
  pub can_write : Bool
  pub can_listen : Network × Bytes → Bool

-- `MaxSimultaneousQueries`, `MaxSNMPFails` and `AtomicDebugLevel`
pub record Limits : Type 0 where
  pub max_simultaneous_queries : ℕ
  pub max_snmp_fails : ℕ
  pub debug_level : ℤ

pub record Process (F : Type 0) : Type 0 where
  pub config : Config F
  pub limits : Limits
  pub producer : Producer F
  pub threads : ℕ
  -- `ipcListener`, by its address
  pub listener : Option (Network × Bytes)
  pub daemon : Daemon F

-- `int32(x)` of a positive number
abbrev pub signed_32 : ℕ → ℤ
signed_32 m = if ltb m (2 ^ 31) then pos m else negsuc (2 ^ 32 - m - 1)

abbrev pub int32_or : ℤ → ℤ → ℤ
int32_or other (pos n) = if ltb 0 n then signed_32 (n % 2 ^ 32) else other
int32_or other (negsuc n) = other

abbrev pub listen : IpcHost → Network × Bytes → Option (Network × Bytes)
listen host address = if host.can_listen address then some address else none

-- The old listener is closed, also where the new one fails.
unfoldable pub start_ipc : IpcHost → Bytes → Option (Network × Bytes) → Option (Network × Bytes)
start_ipc host path old = listen host (parse_ipc_address host.can_write path)

abbrev pub path_or : IpcHost → Bytes → Bytes
path_or host path = if is_empty path then default_socket_path host.can_write else path

module _ {F : Type 0} where
  unfoldable pub limits_of : ℤ → Conf F → Limits
  limits_of debug c = record {
    max_simultaneous_queries = positive_or 10 c.max_simultaneous_queries;
    max_snmp_fails = positive_or 2 c.max_snmp_fails;
    debug_level = int32_or debug c.debug;
  }

  -- the configuration once the time-outs of its sensors are in milliseconds
  abbrev pub normalized : Config F → Config F
  normalized c = record c { sensors = normal_sensors c }

  -- with the debug level of the command line
  unfoldable pub start_process : IpcHost → ℤ → Config F → Process F
  start_process host debug config = record {
    config = normalized config;
    limits = limits_of debug config.conf;
    producer = new_metric_producer (normalized config);
    threads = positive_or 10 config.conf.threads;
    listener = start_ipc host (path_or host config.conf.ipc_socket_path) none;
    daemon = start_daemon config;
  }

  -- `config = newConfig`, with the limits and the producer
  abbrev pub take_config : Config F → Process F → Process F
  take_config new p = record p {
    config = new;
    limits = limits_of p.limits.debug_level new.conf;
    producer = update_config new p.producer;
  }

  -- The old path is read from `config`, which is the new configuration already.
  unfoldable pub update_listener : IpcHost → Config F → Process F → Process F
  update_listener host new p =
      let new_path = path_or host new.conf.ipc_socket_path in
      let old_path = path_or host p.config.conf.ipc_socket_path in
      record p {
        listener =
            if not (same new_path old_path) then start_ipc host new_path p.listener else p.listener;
      }

  abbrev pub update_daemon : Config F → Process F → Process F
  update_daemon new p = record p { daemon = reload_sensors new p.daemon }

  -- A file that cannot be loaded leaves everything as it is.
  unfoldable pub reload_config : IpcHost → Result Bytes (Config F) → Process F → Process F
  reload_config host (err message) p = p
  reload_config host (ok new) p =
      update_daemon new (update_listener host new (take_config (normalized new) p))
