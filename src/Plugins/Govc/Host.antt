-- ===== src/Plugins/Govc/Host.antt =====
-- internal/monitor/plugins.go: the metrics of a host in `govcPluginInternal`.
use redborder_monitor.Base.{◌||◌, Option, none, some, List, [], ◌∷◌, ◌++◌, if◌then◌else◌}
use redborder_monitor.Base.Text.{Bytes, codes, same, to_lower}
use redborder_monitor.Base.Int.{ℤ, pos, eqb_ℤ, is_positive, sub_ℤ, add_ℤ, mul_ℤ, wrap_64}
use redborder_monitor.Base.Decimal.{format_ℤ}
use redborder_monitor.Base.Float.{Float}
use redborder_monitor.Base.Result.{Result, ok, err}
use redborder_monitor.Plugins.Outcome.{PluginAnswer, answer}
use redborder_monitor.Plugins.Govc.Data.{
  Hardware, HostProps, DatastoreSummary, Vsphere, govc_failure, about, percent,
}

abbrev pub cpu_mhz_of : Option Hardware → ℤ
cpu_mhz_of none = pos 0
cpu_mhz_of (some h) = h.cpu_mhz

abbrev pub num_cores_of : Option Hardware → ℤ
num_cores_of none = pos 0
num_cores_of (some h) = h.num_cpu_cores

abbrev pub memory_bytes_of : Option Hardware → ℤ
memory_bytes_of none = pos 0
memory_bytes_of (some h) = h.memory_size

abbrev pub memory_size_answer : Option Hardware → PluginAnswer
memory_size_answer none = govc_failure (codes "host hardware summary is missing")
memory_size_answer (some h) = answer (format_ℤ h.memory_size)

-- the sums over the datastores that answer
abbrev pub add_datastore : Option DatastoreSummary → ℤ × ℤ → ℤ × ℤ
add_datastore none total = total
add_datastore (some d) (capacity, free) =
    (wrap_64 (add_ℤ capacity d.capacity), wrap_64 (add_ℤ free d.free_space))

unfoldable pub sum_datastores : (Bytes → Option DatastoreSummary) → List Bytes → ℤ × ℤ → ℤ × ℤ
sum_datastores summary [] total = total
sum_datastores summary (d ∷ ds) total = sum_datastores summary ds (add_datastore (summary d) total)

abbrev pub host_properties_of : Bytes → List Bytes
host_properties_of metric =
    codes "summary" ∷ (if same metric (codes "disk_usage") then codes "datastore" ∷ [] else [])

module _ {F : Type 0} (fl : Float F) where
  unfoldable pub host_cpu_usage : HostProps → PluginAnswer
  host_cpu_usage p =
      let mhz = cpu_mhz_of p.hardware in
      let cores = num_cores_of p.hardware in
      if eqb_ℤ mhz (pos 0) || eqb_ℤ cores (pos 0)
      then govc_failure (
          codes "host CPU specs (CpuMhz="
          ++ (format_ℤ mhz
              ++ (codes ", NumCpuCores=" ++ (format_ℤ cores ++ codes ") are missing or 0"))))
      else percent fl (fl.of_ℤ p.overall_cpu_usage) (fl.of_ℤ (wrap_64 (mul_ℤ mhz cores)))

  unfoldable pub host_memory_usage : HostProps → PluginAnswer
  host_memory_usage p =
      let bytes = memory_bytes_of p.hardware in
      if eqb_ℤ bytes (pos 0)
      then govc_failure (codes "host memory size is missing or 0")
      else percent fl (fl.of_ℤ p.overall_memory_usage)
          (fl.div (fl.of_ℤ bytes) (fl.of_ℤ (pos 1048576)))

  abbrev pub datastore_usage : ℤ × ℤ → PluginAnswer
  datastore_usage (capacity, free) =
      if is_positive capacity
      then percent fl (fl.of_ℤ (wrap_64 (sub_ℤ capacity free))) (fl.of_ℤ capacity)
      else govc_failure (codes "no datastores found or total capacity is 0")

  unfoldable pub host_disk_usage : Vsphere → List Bytes → PluginAnswer
  host_disk_usage v [] = answer (codes "0")
  host_disk_usage v (d ∷ ds) =
      datastore_usage (sum_datastores v.datastore_summary (d ∷ ds) (pos 0, pos 0))

  -- `metric` is in lower case for the tests, as given in the message
  unfoldable pub host_metric : Vsphere → Bytes → HostProps → PluginAnswer
  host_metric v given p =
      let metric = to_lower given in
      if same metric (codes "power_state")
      then answer p.power_state
      else if same metric (codes "connection_state")
      then answer p.connection_state
      else if same metric (codes "cpu_usage")
      then host_cpu_usage p
      else if same metric (codes "cpu_usage_mhz") || same metric (codes "cpu_mhz")
      then answer (format_ℤ p.overall_cpu_usage)
      else if same metric (codes "memory_usage")
      then host_memory_usage p
      else if same metric (codes "memory_usage_mb") || same metric (codes "memory_mb")
      then answer (format_ℤ p.overall_memory_usage)
      else if same metric (codes "memory_size")
      then memory_size_answer p.hardware
      else if same metric (codes "disk_usage")
      then host_disk_usage v p.datastore
      else about (codes "unknown host metric '") given (codes "'")

  abbrev pub host_answer : Vsphere → Bytes → Result Bytes HostProps → PluginAnswer
  host_answer v metric (err message) =
      govc_failure (codes "failed to fetch host properties: " ++ message)
  host_answer v metric (ok p) = host_metric v metric p

  unfoldable pub query_host : Vsphere → Bytes → Bytes → PluginAnswer
  query_host v metric host =
      host_answer v metric (v.host_properties host (host_properties_of (to_lower metric)))
