-- ===== src/Loading.antt =====
-- internal/monitor/config.go: `LoadConfig`, from the bytes of the file to the configuration. The
-- decoder of the whole file is the argument `read_root`; a file names `conf` before `sensors`.
pub mod Decode
pub mod Defaults
mod Tests
use redborder_monitor.Base.{
  Bool, true, false, not, ◌&&◌, Option, none, some, List, [], ◌∷◌, if◌then◌else◌,
}
use redborder_monitor.Base.Text.{Bytes, is_empty}
use redborder_monitor.Base.Int.{pos}
use redborder_monitor.Base.Result.{Result, ok, err, ◌>>=◌}
use redborder_monitor.Model.{Conf, Config, Monitor, Sensor}
use redborder_monitor.Comments.{strip_comments}
use redborder_monitor.Loading.Decode.{
  JsonDecoder, RawConf, SensorItem, traverse, unmarshal_conf, unmarshal_sensor,
}

-- the blocks of the file, of which `conf` may be absent
pub record RawConfig (F : Type 0) : Type 0 where
  pub conf : Option (RawConf F)
  pub sensors : List (SensorItem F)

module _ {F : Type 0} where
  unfoldable pub default_conf : Conf F
  default_conf = record {
    debug = pos 100;
    stdout = pos 1;
    syslog = pos 0;
    threads = pos 10;
    timeout = pos 5;
    max_snmp_fails = pos 2;
    max_simultaneous_queries = pos 10;
    max_kafka_fails = pos 0;
    sleep_main = pos 10;
    sleep_worker = pos 2;
    kafka_broker = [];
    kafka_topic = [];
    kafka_timeout = pos 0;
    http_endpoint = [];
    http_max_total_connections = pos 0;
    http_timeout = pos 0;
    http_conn_timeout = pos 0;
    http_verbose = pos 0;
    http_insecure = pos 0;
    rb_http_max_messages = pos 0;
    rb_http_flush_timer = pos 0;
    rb_http_mode = [];
    ipc_socket_path = [];
    enrichment = [];
    mib_dirs = [];
  }

  unfoldable pub clean_monitors : List (Monitor F) → List (Monitor F)
  clean_monitors [] = []
  clean_monitors (m ∷ ms) =
      let rest = clean_monitors ms in if is_empty m.name then rest else m ∷ rest

  abbrev pub clean_sensor : Sensor F → Sensor F
  clean_sensor s = record s { monitors = clean_monitors s.monitors }

  -- without the sensors that have neither a name nor an address
  unfoldable pub clean_sensors : List (Sensor F) → List (Sensor F)
  clean_sensors [] = []
  clean_sensors (s ∷ ss) =
      let rest = clean_sensors ss in
      if is_empty s.sensor_name && is_empty s.sensor_ip then rest else clean_sensor s ∷ rest

  -- The decoder changes the block that is there where the file has one.
  abbrev pub conf_over : JsonDecoder → Conf F → Option (RawConf F) → Result Bytes (Conf F)
  conf_over d before none = ok before
  conf_over d before (some r) = unmarshal_conf d r before

  -- from a configuration that is there before the file is decoded
  unfoldable pub load_over : JsonDecoder → Conf F → RawConfig F → Result Bytes (Config F)
  load_over d before root = do
    conf ← conf_over d before root.conf
    sensors ← traverse (unmarshal_sensor d) root.sensors
    ok (record { conf = conf; sensors = clean_sensors sensors })

  unfoldable pub load_config :
      JsonDecoder
      → (Bytes → Result Bytes (RawConfig F))
      → Result Bytes Bytes
      → Result Bytes (Config F)
  load_config d read_root file = do
    data_bytes ← file
    root ← read_root (strip_comments data_bytes)
    load_over d default_conf root
