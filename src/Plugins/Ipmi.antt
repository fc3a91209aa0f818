-- ===== src/Plugins/Ipmi.antt =====
-- internal/monitor/plugins.go: `IpmiPlugin` and `getIPMIClient`. The client is the argument
-- `IpmiClient`.
use redborder_monitor.Base.{
  Bool, true, false, ◌||◌, Option, none, some, List, [], ◌∷◌, ◌++◌, map, if◌then◌else◌,
}
use redborder_monitor.Base.Text.{Bytes, codes, same, is_empty, to_lower}
use redborder_monitor.Base.Int.{ℤ, pos}
use redborder_monitor.Base.Float.{Float}
use redborder_monitor.Base.Result.{Result, ok, err}
use redborder_monitor.Base.Split.{join}
use redborder_monitor.Model.{Monitor, Sensor}
use redborder_monitor.Params.{get_string_param, get_int_param}
use redborder_monitor.Plugins.Outcome.{PluginAnswer, answer, failed}

pub record IpmiSensor (F : Type 0) : Type 0 where
  pub name : Bytes
  pub has_analog_reading : Bool
  pub value : F
  pub reading : Bytes

-- the arguments of `ipmi.NewClient`
pub record IpmiLogin : Type 0 where
  pub host : Bytes
  pub port : ℤ
  pub username : Bytes
  pub password : Bytes

pub record IpmiClient (F : Type 0) : Type 0 where
  -- the error of NewClient or of Connect
  pub connect : IpmiLogin → Option Bytes
  pub power_is_on : IpmiLogin → Result Bytes Bool
  pub sensors : IpmiLogin → Result Bytes (List (IpmiSensor F))

abbrev pub is_power_command : Bytes → Bool
is_power_command c =
    same c (codes "chassis_status")
    || same c (codes "chassis power status")
    || same c (codes "power_status")

abbrev pub is_sensor_command : Bytes → Bool
is_sensor_command c = same c (codes "sdr") || same c (codes "sensors")

abbrev pub power_answer : Result Bytes Bool → PluginAnswer
power_answer (err message) = failed (codes "0") message
power_answer (ok true) = answer (codes "on")
power_answer (ok false) = answer (codes "off")

-- strings.EqualFold on ASCII text
abbrev pub equal_fold : Bytes → Bytes → Bool
equal_fold a b = same (to_lower a) (to_lower b)

module _ {F : Type 0} ⦃fl : Float F⦄ where
  abbrev pub reading_text : IpmiSensor F → Bytes
  reading_text s = if s.has_analog_reading then fl.format_fixed 2 s.value else s.reading

  unfoldable pub find_reading : Bytes → List (IpmiSensor F) → PluginAnswer
  find_reading name [] = failed (codes "0") (codes "sensor '" ++ (name ++ codes "' not found"))
  find_reading name (s ∷ ss) =
      let rest = find_reading name ss in
      if equal_fold s.name name then answer (reading_text s) else rest

  abbrev pub named_reading : IpmiSensor F → Bytes
  named_reading s = s.name ++ (codes ":" ++ reading_text s)

  abbrev pub sensors_answer : Bytes → Result Bytes (List (IpmiSensor F)) → PluginAnswer
  sensors_answer name (err message) = failed (codes "0") message
  sensors_answer name (ok ss) =
      if is_empty name
      then answer (join (codes ";") (map named_reading ss))
      else find_reading name ss

  abbrev pub ipmi_command : IpmiClient F → IpmiLogin → Bytes → Bytes → PluginAnswer
  ipmi_command c l command name =
      if is_power_command command
      then power_answer (c.power_is_on l)
      else if is_sensor_command command
      then sensors_answer name (c.sensors l)
      else answer (codes "ok")

  abbrev pub ipmi_connected : IpmiClient F → IpmiLogin → Monitor F → Option Bytes → PluginAnswer
  ipmi_connected c l m (some message) = failed (codes "0") message
  ipmi_connected c l m none =
      ipmi_command c l
        (to_lower (get_string_param m.params (codes "command") (codes "chassis_status")))
        (get_string_param m.params (codes "sensor_name") [])

  unfoldable pub ipmi_plugin : IpmiClient F → Sensor F → Monitor F → PluginAnswer
  ipmi_plugin c s m =
      let l : IpmiLogin = record {
        host = get_string_param m.params (codes "host") s.sensor_ip;
        port = get_int_param m.params (codes "port") (pos 623);
        username = get_string_param m.params (codes "username") [];
        password = get_string_param m.params (codes "password") [];
      } in
      if is_empty l.host
      then failed (codes "0") (codes "missing host for ipmi plugin")
      else ipmi_connected c l m (c.connect l)
