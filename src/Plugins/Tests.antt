-- ===== src/Plugins/Tests.antt =====
-- Examples for the plugins: a ping without an answer, a controller's answer without a key, a session
-- that has ended, and a command that prints an empty line first.
use redborder_monitor.Base.{◌≡◌, refl, true, none, some, [], ◌∷◌}
use redborder_monitor.Base.Text.{
  codes, same, is_ascii_space, to_lower, trim_space, trim_left, cut, strip_prefix?,
}
use redborder_monitor.Base.Int.{pos}
use redborder_monitor.Base.Map.{lookup}
use redborder_monitor.Base.Result.{ok, err}
use redborder_monitor.Base.Split.{split, split_loop}
use redborder_monitor.Base.Float.Sample.{Sample, sample}
use redborder_monitor.Model.{text, object, no_field, field, Monitor, Sensor, Fields}
use redborder_monitor.Model.Sample.{blank_monitor, blank_sensor}
use redborder_monitor.Values.{parse_raw_output}
use redborder_monitor.Query.{Failure, Reply, other_failure, is_serious, process_plugin_monitor}
use redborder_monitor.Params.{get_string_param}
use redborder_monitor.Plugins.Outcome.{answer}
use redborder_monitor.Plugins.Registry.{registered}
use redborder_monitor.Plugins.Ping.{Pinger, default_output, ping_plugin, ping_settings}
use redborder_monitor.Plugins.Ping.Loss.{process_plugin_monitor-ping_failed}
use redborder_monitor.Plugins.Redfish.{RestServer, redfish_body, field_at, follow_path, step_into}
use redborder_monitor.Plugins.Redfish.Paths.{redfish_body-missing_key}
use redborder_monitor.Plugins.Command.{command_output, first_line}
use redborder_monitor.Plugins.Govc.Data.{Vsphere}
use redborder_monitor.Plugins.Govc.Host.{query_host}
use redborder_monitor.Plugins.Govc.Resolve.{
  GovcQuery, choose_target, find_datacenter, find_host, choose_datacenter,
}
use redborder_monitor.Plugins.Govc.Session.{
  VmwareWorld, delete, session_key, get_vmware_client, govc_plugin, govc_plugin_internal, run_query,
}
use redborder_monitor.Plugins.Govc.Retry.{HasOnly, UsesOnly, govc_plugin-HasOnly}

abbrev silent : Pinger Sample
silent = record { new_pinger = λ h. none; run = λ settings. err (codes "timeout") }

abbrev gateway : Sensor Sample
gateway = record blank_sensor { sensor_ip = codes "10.0.0.1" }

abbrev loss : Monitor Sample
loss = record blank_monitor { name = codes "loss"; plugin = codes "ping" }

abbrev timed_out : Failure
timed_out = record { kind = other_failure; message = codes "timeout" }

abbrev silence : Reply Sample
silence = record {
  started = true;
  snmp = err timed_out;
  output = codes "100.0";
  failure = some timed_out;
  now = pos 5;
}

process_plugin_monitor-ping_failed_example :
    ((process_plugin_monitor registered loss silence).state
      ≡ some (parse_raw_output (codes "100.0") loss (pos 5)))
    × (is_serious (process_plugin_monitor registered loss silence).failure ≡ true)
unfolding registered lookup same ping_plugin ping_settings default_output get_string_param to_lower
process_plugin_monitor-ping_failed_example =
    process_plugin_monitor-ping_failed silent gateway loss silence registered timed_out refl
      (refl, refl) refl

first_number : command_output (codes " 12 \nignored") ≡ codes "12"
unfolding command_output first_line trim_space trim_left is_ascii_space split split_loop cut
    strip_prefix?
first_number = refl

abbrev thermal : Fields Sample
thermal =
    field (codes "Fan") (object (field (codes "Name") (text (codes "left")) no_field)) no_field

abbrev controller : RestServer Sample
controller = record {
  new_request = λ url. none;
  send = λ r. err (codes "refused");
  decode = λ body. ok thermal;
}

redfish_body-missing_key_example :
    redfish_body controller (codes "Fan.Speed") [] ≡ answer (codes "<nil>")
unfolding split split_loop cut strip_prefix? follow_path step_into field_at same
redfish_body-missing_key_example =
    redfish_body-missing_key controller (codes "Fan.Speed") [] (codes "Speed") (codes "Fan" ∷ []) []
      thermal (field (codes "Name") (text (codes "left")) no_field) refl refl refl refl refl

abbrev host_query : GovcQuery
host_query = record {
  host = codes "esx";
  username = codes "root";
  password = codes "secret";
  target = codes "esx1";
  target_moid = [];
  metric = codes "power_state";
  target_type = codes "host";
  datacenter = [];
  disk_path = [];
  sensor_name = [];
}

-- Nothing is found, and the host's properties end with the session.
abbrev ended : Vsphere
ended = record {
  is_vc = true;
  datacenter = λ d. ok d;
  default_datacenter = none;
  host_system = λ dc h. ok h;
  host_system_list = λ dc. none;
  virtual_machine = λ dc m. ok m;
  virtual_machine_list = λ dc m. none;
  view = none;
  host_properties = λ h ps. err (codes "session ended");
  datastore_summary = λ d. none;
  machine_properties = λ m ps. err (codes "session ended");
  host_hardware = λ h. ok none;
}

-- The log-in of attempt n gives the session n.
abbrev server : VmwareWorld
server = record {
  before = λ attempt cache. cache;
  log_in = λ n h u p. ok n;
  vsphere = λ attempt n. ended;
  meanwhile = λ attempt cache. cache;
}

govc_plugin-HasOnly_example :
    UsesOnly
      (λ n. n ≡ 2)
      host_query
      (get_vmware_client server 2 host_query
        (delete (session_key host_query) (govc_plugin_internal sample server 1 host_query []).1))
    × HasOnly (λ n. n ≡ 2) host_query (govc_plugin sample server host_query []).1
unfolding govc_plugin_internal get_vmware_client run_query choose_target choose_datacenter
    find_datacenter find_host query_host lookup same to_lower cut strip_prefix?
govc_plugin-HasOnly_example =
    govc_plugin-HasOnly (λ n. n ≡ 2) sample server host_query []
      (record { before = λ c h. h; meanwhile = λ c h. h; own = λ n e. cc e }) refl
