-- ===== src/Plugins/Govc/Data.antt =====
-- internal/monitor/plugins.go: what the VMware library answers to `GovcPlugin`. Counts of the API
-- are whole numbers; an absent block is `none`. A machine without a guest or a storage block, which
-- the source does not expect, is left out.
use redborder_monitor.Base.{Bool, Option, List, ◌++◌}
use redborder_monitor.Base.Text.{Bytes, codes}
use redborder_monitor.Base.Int.{ℤ, pos}
use redborder_monitor.Base.Float.{Float}
use redborder_monitor.Base.Result.{Result}
use redborder_monitor.Plugins.Outcome.{PluginAnswer, answer, failed}

pub record Hardware : Type 0 where
  pub cpu_mhz : ℤ
  pub num_cpu_cores : ℤ
  pub memory_size : ℤ

pub record HostProps : Type 0 where
  pub power_state : Bytes
  pub connection_state : Bytes
  pub overall_cpu_usage : ℤ
  pub overall_memory_usage : ℤ
  pub hardware : Option Hardware
  pub datastore : List Bytes

-- capacity and free space of a datastore
pub record DatastoreSummary : Type 0 where
  pub capacity : ℤ
  pub free_space : ℤ

pub record GuestDisk : Type 0 where
  pub disk_path : Bytes
  pub capacity : ℤ
  pub free_space : ℤ

pub record MachineProps : Type 0 where
  pub power_state : Bytes
  pub overall_cpu_usage : ℤ
  pub guest_memory_usage : ℤ
  pub num_cpu : ℤ
  pub memory_size_mb : ℤ
  -- Summary.Runtime.Host and Runtime.Host
  pub summary_host : Option Bytes
  pub runtime_host : Option Bytes
  pub heartbeat_status : Bytes
  pub ip_address : Bytes
  pub disks : List GuestDisk
  pub committed : ℤ
  pub uncommitted : ℤ

pub record NamedMachine : Type 0 where
  pub name : Bytes
  pub moid : Bytes

-- A session's answers: objects by name, within a datacenter where one is set, and their properties.
pub record Vsphere : Type 0 where
  pub is_vc : Bool
  pub datacenter : Bytes → Result Bytes Bytes
  pub default_datacenter : Option Bytes
  pub host_system : Option Bytes → Bytes → Result Bytes Bytes
  pub host_system_list : Option Bytes → Option (List Bytes)
  pub virtual_machine : Option Bytes → Bytes → Result Bytes Bytes
  pub virtual_machine_list : Option Bytes → Bytes → Option (List Bytes)
  -- the machines of the container view
  pub view : Option (List NamedMachine)
  -- the properties, by the list of their names
  pub host_properties : Bytes → List Bytes → Result Bytes HostProps
  pub datastore_summary : Bytes → Option DatastoreSummary
  pub machine_properties : Bytes → List Bytes → Result Bytes MachineProps
  pub host_hardware : Bytes → Result Bytes (Option Hardware)

abbrev pub govc_failure : Bytes → PluginAnswer
govc_failure message = failed (codes "0") message

abbrev pub about : Bytes → Bytes → Bytes → PluginAnswer
about before name behind = govc_failure (before ++ (name ++ behind))

-- `(float64(a) / float64(b)) * 100` with two digits
abbrev pub percent : {F : Type 0} → Float F → F → F → PluginAnswer
percent fl a b = answer (fl.format_fixed 2 (fl.mul (fl.div a b) (fl.of_ℤ (pos 100))))
