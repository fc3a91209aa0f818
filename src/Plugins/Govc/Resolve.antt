-- ===== src/Plugins/Govc/Resolve.antt =====
-- internal/monitor/plugins.go: the search of the target in `govcPluginInternal`, with the objects
-- that a session has found before.
use redborder_monitor.Base.{
  ℕ, Bool, true, false, not, ◌||◌, ◌&&◌, Option, none, some, List, [], ◌∷◌, ◌++◌, if◌then◌else◌,
}
use redborder_monitor.Base.Text.{Bytes, codes, same, is_empty, to_lower, contains}
use redborder_monitor.Base.Map.{Map, lookup, insert}
use redborder_monitor.Base.Result.{Result, ok, err, ◌>>=◌}
use redborder_monitor.Model.{Monitor, Sensor}
use redborder_monitor.Params.{get_string_param}
use redborder_monitor.Plugins.Govc.Data.{NamedMachine, Vsphere}

-- the parameters of a query
pub record GovcQuery : Type 0 where
  pub host : Bytes
  pub username : Bytes
  pub password : Bytes
  pub target : Bytes
  pub target_moid : Bytes
  pub metric : Bytes
  pub target_type : Bytes
  pub datacenter : Bytes
  pub disk_path : Bytes
  pub sensor_name : Bytes

-- `resolvedHosts`, `resolvedVMs` and `resolvedDC` of a session
pub record Resolved : Type 0 where
  pub hosts : Map Bytes
  pub machines : Map Bytes
  pub datacenters : Map Bytes

unfoldable pub govc_query :
    {F : Type 0} ⦃fl : redborder_monitor.Base.Float.Float F⦄ → Sensor F → Monitor F → GovcQuery
govc_query s m = record {
  host = get_string_param m.params (codes "host") s.sensor_ip;
  username = get_string_param m.params (codes "username") s.govc_username;
  password = get_string_param m.params (codes "password") s.govc_password;
  target = get_string_param m.params (codes "target") [];
  target_moid =
      get_string_param m.params (codes "target_moid")
        (get_string_param m.params (codes "moid") s.sensor_moid);
  metric = get_string_param m.params (codes "metric") (codes "power_state");
  target_type = get_string_param m.params (codes "target_type") (codes "vm");
  datacenter = get_string_param m.params (codes "datacenter") [];
  disk_path = get_string_param m.params (codes "disk_path") [];
  sensor_name = s.sensor_name;
}

abbrev pub is_type : Bytes → GovcQuery → Bool
is_type t q = same (to_lower q.target_type) t

unfoldable pub choose_target : Vsphere → GovcQuery → Result Bytes Bytes
choose_target v q =
    if not (is_empty q.target)
    then ok q.target
    else if is_type (codes "host") q && not v.is_vc
    then ok (codes "*")
    else if is_type (codes "vm") q
    then ok q.sensor_name
    else err (codes "missing target name for govc plugin")

unfoldable pub choose_datacenter : Vsphere → GovcQuery → Bytes
choose_datacenter v q =
    if not v.is_vc && (is_empty q.datacenter || same q.datacenter (codes "ha-datacenter"))
    then codes "/ha-datacenter"
    else q.datacenter

-- what was found, kept under the key that it was asked by
abbrev pub keep_datacenter : Bytes → Option Bytes → Resolved → Option Bytes × Resolved
keep_datacenter key none r = (none, r)
keep_datacenter key (some d) r = (some d, record r { datacenters = insert key d r.datacenters })

abbrev pub ask_datacenter : Vsphere → Bytes → Result Bytes (Option Bytes)
ask_datacenter v key = if is_empty key then ok v.default_datacenter else elim (v.datacenter key) [
  | ok d ↦ ok (some d)
  | err message ↦ err (codes "datacenter '" ++ (key ++ (codes "' not found: " ++ message)))
]

abbrev pub datacenter_from :
    Option Bytes → Vsphere → Bytes → Resolved → Result Bytes (Option Bytes × Resolved)
datacenter_from (some d) v key r = ok (some d, r)
datacenter_from none v key r = ask_datacenter v key >>= λ d. ok (keep_datacenter key d r)

unfoldable pub find_datacenter : Vsphere → Bytes → Resolved → Result Bytes (Option Bytes × Resolved)
find_datacenter v key r = datacenter_from (lookup key r.datacenters) v key r

-- the one host of a server that is no vCenter
abbrev pub only_host : Option (List Bytes) → Option Bytes
only_host (some (h ∷ [])) = some h
only_host _ = none

abbrev pub host_or_error : Option Bytes → Bytes → Result Bytes Bytes
host_or_error (some h) message = ok h
host_or_error none message = err message

abbrev pub ask_host : Vsphere → Option Bytes → Bytes → Result Bytes Bytes → Result Bytes Bytes
ask_host v dc target (ok h) = ok h
ask_host v dc target (err message) =
    host_or_error (if v.is_vc then none else only_host (v.host_system_list dc))
      (codes "host '" ++ (target ++ (codes "' not found: " ++ message)))

abbrev pub host_from :
    Option Bytes → Vsphere → Option Bytes → Bytes → Resolved → Result Bytes (Bytes × Resolved)
host_from (some h) v dc target r = ok (h, r)
host_from none v dc target r = ask_host v dc target (v.host_system dc target) >>= λ h.
    ok (h, record r { hosts = insert target h r.hosts })

unfoldable pub find_host :
    Vsphere → Option Bytes → Bytes → Resolved → Result Bytes (Bytes × Resolved)
find_host v dc target r = host_from (lookup target r.hosts) v dc target r

-- the first machine of the view whose name is or holds the target, or whose identifier is
unfoldable pub search_view : Bytes → List NamedMachine → Option Bytes
search_view target [] = none
search_view target (m ∷ ms) =
    let name = to_lower m.name in
    let wanted = to_lower target in
    let later = search_view target ms in
    if same name wanted || same m.moid target || contains name wanted then some m.moid else later

abbrev pub search_some_view : Bytes → Option (List NamedMachine) → Option Bytes
search_some_view target none = none
search_some_view target (some ms) = search_view target ms

abbrev pub first_or : Option (List Bytes) → Option Bytes → Option Bytes
first_or (some (m ∷ ms)) other = some m
first_or _ other = other

-- below any folder of the datacenter, then of all, then in the view
abbrev pub ask_machine : Vsphere → Option Bytes → Bytes → Result Bytes Bytes → Result Bytes Bytes
ask_machine v dc target (ok m) = ok m
ask_machine v dc target (err message) =
    let pattern = codes ".../" ++ target in
    host_or_error
      (first_or (v.virtual_machine_list dc pattern)
        (first_or (v.virtual_machine_list none pattern) (search_some_view target v.view)))
      (codes "vm '" ++ (target ++ (codes "' not found: " ++ message)))

abbrev pub machine_key : GovcQuery → Bytes → Bytes
machine_key q target = if is_empty q.target_moid then target else q.target_moid

abbrev pub machine_from :
    Option Bytes
    → Vsphere
    → Option Bytes
    → GovcQuery
    → Bytes
    → Resolved
    → Result Bytes (Bytes × Resolved)
machine_from (some m) v dc q target r = ok (m, r)
machine_from none v dc q target r =
    (if is_empty q.target_moid
      then ask_machine v dc target (v.virtual_machine dc target)
      else ok q.target_moid)
    >>= λ m. ok (m, record r { machines = insert (machine_key q target) m r.machines })

unfoldable pub find_machine :
    Vsphere → Option Bytes → GovcQuery → Bytes → Resolved → Result Bytes (Bytes × Resolved)
find_machine v dc q target r =
    machine_from (lookup (machine_key q target) r.machines) v dc q target r
