-- ===== src/Plugins/Snmp.antt =====
-- internal/monitor/plugins.go: `SNMPPlugin` and `SNMPWalkPlugin`.
use redborder_monitor.Base.{none, some, if◌then◌else◌, []}
use redborder_monitor.Base.Text.{Bytes, codes, is_empty}
use redborder_monitor.Base.Float.{Float}
use redborder_monitor.Base.Result.{Result, ok, err}
use redborder_monitor.Model.{Monitor, Sensor}
use redborder_monitor.Params.{get_string_param}
use redborder_monitor.Query.{Failure}
use redborder_monitor.Snmp.Session.{login_of}
use redborder_monitor.Snmp.Pdu.{Decoded}
use redborder_monitor.Snmp.Client.{SnmpClient, solve_snmp_query, solve_snmp_walk}
use redborder_monitor.Plugins.Outcome.{PluginAnswer, failed}

abbrev pub walk_answer : Result Failure Bytes → PluginAnswer
walk_answer (ok s) = record { output = s; failure = none }
walk_answer (err f) = record { output = []; failure = some f }

module _ {F : Type 0} ⦃fl : Float F⦄ where
  abbrev pub oid_param : Monitor F → Bytes
  oid_param m = get_string_param m.params (codes "oid") m.oid

  abbrev pub query_answer : Decoded F → PluginAnswer
  query_answer d = record { output = d.text; failure = d.failure }

  unfoldable pub snmp_plugin : SnmpClient → Sensor F → Monitor F → PluginAnswer
  snmp_plugin c s m =
      if is_empty (oid_param m)
      then failed (codes "0") (codes "missing OID for SNMP plugin")
      else query_answer (solve_snmp_query c (login_of s) (oid_param m))

  unfoldable pub snmp_walk_plugin : SnmpClient → Sensor F → Monitor F → PluginAnswer
  snmp_walk_plugin c s m =
      if is_empty (oid_param m)
      then failed [] (codes "missing OID for SNMP walk plugin")
      else walk_answer (solve_snmp_walk fl c (login_of s) (oid_param m))
