-- ===== src/Plugins/Govc/Machine.antt =====
-- internal/monitor/plugins.go: the metrics of a virtual machine in `govcPluginInternal`.
use redborder_monitor.Base.{not, ◌||◌, ◌&&◌, Option, none, some, List, [], ◌∷◌, ◌++◌, if◌then◌else◌}
use redborder_monitor.Base.Text.{Bytes, codes, same, is_empty, to_lower}
use redborder_monitor.Base.Int.{ℤ, pos, eqb_ℤ, is_positive, sub_ℤ, add_ℤ, mul_ℤ, wrap_64}
use redborder_monitor.Base.Decimal.{format_ℤ}
use redborder_monitor.Base.Float.{Float}
use redborder_monitor.Base.Result.{Result, ok, err}
use redborder_monitor.Plugins.Outcome.{PluginAnswer, answer}
use redborder_monitor.Plugins.Ipmi.{equal_fold}
use redborder_monitor.Plugins.Govc.Data.{
  Hardware, MachineProps, GuestDisk, Vsphere, govc_failure, about, percent,
}
use redborder_monitor.Plugins.Govc.Host.{cpu_mhz_of}

abbrev pub machine_properties_of : Bytes → List Bytes
machine_properties_of metric =
    if same metric (codes "heartbeat_status") || same metric (codes "ip")
    then codes "guest" ∷ []
    else if same metric (codes "disk_usage")
    then codes "guest" ∷ codes "summary" ∷ []
    else if same metric (codes "cpu_usage")
    then codes "summary" ∷ codes "runtime" ∷ []
    else codes "summary" ∷ []

abbrev pub host_of : MachineProps → Option Bytes
host_of p = elim p.summary_host [ none ↦ p.runtime_host | some h ↦ some h ]

-- the first disk of that path, or the first disk
unfoldable pub select_disk : Bytes → List GuestDisk → GuestDisk → GuestDisk
select_disk path [] first = first
select_disk path (d ∷ ds) first =
    let rest = select_disk path ds first in
    if not (is_empty path) && equal_fold d.disk_path path then d else rest

module _ {F : Type 0} (fl : Float F) where
  abbrev pub usage_of_host : MachineProps → Result Bytes (Option Hardware) → PluginAnswer
  usage_of_host p (err message) =
      govc_failure (codes "failed to fetch VM host properties: " ++ message)
  usage_of_host p (ok hardware) =
      let mhz = cpu_mhz_of hardware in
      if eqb_ℤ mhz (pos 0)
      then govc_failure (codes "VM host CPU frequency (CpuMhz) is missing or 0")
      else percent fl (fl.of_ℤ p.overall_cpu_usage) (fl.of_ℤ (wrap_64 (mul_ℤ p.num_cpu mhz)))

  abbrev pub usage_on : Vsphere → MachineProps → Option Bytes → PluginAnswer
  usage_on v p none = govc_failure (codes "VM host reference is missing")
  usage_on v p (some host) = usage_of_host p (v.host_hardware host)

  unfoldable pub machine_cpu_usage : Vsphere → MachineProps → PluginAnswer
  machine_cpu_usage v p =
      if not (is_positive p.num_cpu)
      then about (codes "VM CPU count (NumCpu=") (format_ℤ p.num_cpu) (codes ") is missing or 0")
      else usage_on v p (host_of p)

  unfoldable pub machine_memory_usage : MachineProps → PluginAnswer
  machine_memory_usage p =
      if not (is_positive p.memory_size_mb)
      then about (codes "VM memory size (MemorySizeMB=") (format_ℤ p.memory_size_mb)
          (codes ") is missing or 0")
      else percent fl (fl.of_ℤ p.guest_memory_usage) (fl.of_ℤ p.memory_size_mb)

  abbrev pub disk_percent : GuestDisk → PluginAnswer
  disk_percent d =
      if is_positive d.capacity
      then percent fl (fl.of_ℤ (wrap_64 (sub_ℤ d.capacity d.free_space))) (fl.of_ℤ d.capacity)
      else answer (codes "0")

  -- without the tools in the guest, the storage that the hypervisor counts
  abbrev pub storage_usage : ℤ → ℤ → PluginAnswer
  storage_usage committed uncommitted =
      let total = wrap_64 (add_ℤ committed uncommitted) in
      if is_positive total
      then percent fl (fl.of_ℤ committed) (fl.of_ℤ total)
      else govc_failure (
          codes
            "no guest disk information available (VMware Tools not running) and datastore storage info is 0")

  unfoldable pub machine_disk_usage : Bytes → MachineProps → List GuestDisk → PluginAnswer
  machine_disk_usage path p [] = storage_usage p.committed p.uncommitted
  machine_disk_usage path p (d ∷ ds) = disk_percent (select_disk path (d ∷ ds) d)

  unfoldable pub machine_metric : Vsphere → Bytes → Bytes → MachineProps → PluginAnswer
  machine_metric v path given p =
      let metric = to_lower given in
      if same metric (codes "power_state")
      then answer p.power_state
      else if same metric (codes "cpu_usage")
      then machine_cpu_usage v p
      else if same metric (codes "cpu_usage_mhz") || same metric (codes "cpu_mhz")
      then answer (format_ℤ p.overall_cpu_usage)
      else if same metric (codes "memory_usage")
      then machine_memory_usage p
      else if same metric (codes "memory_usage_mb") || same metric (codes "memory_mb")
      then answer (format_ℤ p.guest_memory_usage)
      else if same metric (codes "num_cpu")
      then answer (format_ℤ p.num_cpu)
      else if same metric (codes "memory_size_mb")
      then answer (format_ℤ p.memory_size_mb)
      else if same metric (codes "heartbeat_status")
      then answer p.heartbeat_status
      else if same metric (codes "ip")
      then answer p.ip_address
      else if same metric (codes "disk_usage")
      then machine_disk_usage path p p.disks
      else about (codes "unknown vm metric '") given (codes "'")

  abbrev pub machine_answer : Vsphere → Bytes → Bytes → Result Bytes MachineProps → PluginAnswer
  machine_answer v path metric (err message) =
      govc_failure (codes "failed to fetch vm properties: " ++ message)
  machine_answer v path metric (ok p) = machine_metric v path metric p

  unfoldable pub query_machine : Vsphere → Bytes → Bytes → Bytes → PluginAnswer
  query_machine v path metric machine =
      machine_answer v path metric
        (v.machine_properties machine (machine_properties_of (to_lower metric)))
