-- ===== src/Loading/Decode.antt =====
-- internal/monitor/config.go: the `UnmarshalJSON` methods. encoding/json is the argument
-- `JsonDecoder`: a record of the file holds what the decoder puts into the fields of a block, and the
-- raw texts of the numbers, which are empty where the key is absent.
use redborder_monitor.Base.{
  ℕ, Bool, true, false, not, ◌||◌, ◌&&◌, Option, none, some, List, [], ◌∷◌, if◌then◌else◌, ◌==◌,
}
use redborder_monitor.Base.Text.{Bytes, codes, same, is_empty}
use redborder_monitor.Base.Int.{ℤ, pos}
use redborder_monitor.Base.Result.{Result, ok, ◌>>=◌}
use redborder_monitor.Model.{Conf, Monitor, Sensor, no_group}

-- json.Unmarshal into a `bool` and into an `int`
pub record JsonDecoder : Type 0 where
  pub decode_bool : Bytes → Option Bool
  pub decode_int : Bytes → Result Bytes ℤ

-- `conf`, with the numbers of the alias at 0
pub record RawConf (F : Type 0) : Type 0 where
  pub alias : Conf F
  pub raw_debug : Bytes
  pub raw_stdout : Bytes
  pub raw_syslog : Bytes
  pub raw_threads : Bytes
  pub raw_timeout : Bytes
  pub raw_max_snmp_fails : Bytes
  pub raw_max_simultaneous_queries : Bytes
  pub raw_max_kafka_fails : Bytes
  pub raw_sleep_main : Bytes
  pub raw_sleep_worker : Bytes
  pub raw_kafka_timeout : Bytes
  pub raw_http_max_total_connections : Bytes
  pub raw_http_timeout : Bytes
  pub raw_http_conn_timeout : Bytes
  pub raw_http_verbose : Bytes
  pub raw_http_insecure : Bytes
  pub raw_rb_http_max_messages : Bytes
  pub raw_rb_http_flush_timer : Bytes
  pub raw_rb_http_flush_interval : Bytes

pub record RawMonitor (F : Type 0) : Type 0 where
  pub alias : Monitor F
  pub raw_nonzero : Bytes
  pub raw_send : Bytes
  pub raw_timestamp_given : Bytes
  pub raw_integer : Bytes

-- An element of a list: a string, which is a comment, or an object.
pub data MonitorItem (F : Type 0) : Type 0 where
  monitor_comment : MonitorItem F
  monitor_object : RawMonitor F → MonitorItem F

pub record RawSensor (F : Type 0) : Type 0 where
  pub alias : Sensor F
  pub raw_monitors : List (MonitorItem F)
  pub raw_sensor_id : Bytes
  pub raw_timeout : Bytes

pub data SensorItem (F : Type 0) : Type 0 where
  sensor_comment : SensorItem F
  sensor_object : RawSensor F → SensorItem F

-- the last byte of a text of at least one byte, and the text without it
abbrev pub last_byte : ℕ → Bytes → ℕ
last_byte c [] = c
last_byte c (d ∷ s) = last_byte d s

abbrev pub without_last : ℕ → Bytes → Bytes
without_last c [] = []
without_last c (d ∷ s) = c ∷ without_last d s

-- without the quotes around it
unfoldable pub unquote : Bytes → Bytes
unquote [] = []
unquote (c ∷ []) = c ∷ []
unquote (c ∷ d ∷ s) = if c == 34 && last_byte d s == 34 then without_last d s else c ∷ d ∷ s

abbrev pub bool_or_int : JsonDecoder → Bytes → Option Bool → Result Bytes (Option ℤ)
bool_or_int d s (some true) = ok (some (pos 1))
bool_or_int d s (some false) = ok (some (pos 0))
bool_or_int d s none = d.decode_int s >>= λ n. ok (some n)

-- the number, or none where the key is absent or null
unfoldable pub parse_raw_int : JsonDecoder → Bytes → Result Bytes (Option ℤ)
parse_raw_int d raw =
    if is_empty raw || same raw (codes "null")
    then ok none
    else bool_or_int d (unquote raw) (d.decode_bool (unquote raw))

abbrev pub value_or : ℤ → Option ℤ → ℤ
value_or old none = old
value_or old (some n) = n

unfoldable pub assign : JsonDecoder → Bytes → ℤ → Result Bytes ℤ
assign d raw target = parse_raw_int d raw >>= λ n. ok (value_or target n)

abbrev pub pointer_or : Option ℤ → Option ℤ → Option ℤ
pointer_or old none = old
pointer_or old (some n) = some n

unfoldable pub assign_pointer : JsonDecoder → Bytes → Option ℤ → Result Bytes (Option ℤ)
assign_pointer d raw target = parse_raw_int d raw >>= λ n. ok (pointer_or target n)

-- the older name of the flush timer, where the newer is absent
abbrev pub assign_interval : JsonDecoder → Bytes → Bytes → ℤ → Result Bytes ℤ
assign_interval d timer interval target =
    if is_empty timer && not (is_empty interval) then assign d interval target else ok target

module _ {F : Type 0} where
  -- The block that was there before is replaced by the alias.
  unfoldable pub unmarshal_conf : JsonDecoder → RawConf F → Conf F → Result Bytes (Conf F)
  unmarshal_conf d r before = do
    debug ← assign d r.raw_debug r.alias.debug
    stdout ← assign d r.raw_stdout r.alias.stdout
    syslog ← assign d r.raw_syslog r.alias.syslog
    threads ← assign d r.raw_threads r.alias.threads
    timeout ← assign d r.raw_timeout r.alias.timeout
    max_snmp_fails ← assign d r.raw_max_snmp_fails r.alias.max_snmp_fails
    max_simultaneous_queries ←
        assign d r.raw_max_simultaneous_queries r.alias.max_simultaneous_queries
    max_kafka_fails ← assign d r.raw_max_kafka_fails r.alias.max_kafka_fails
    sleep_main ← assign d r.raw_sleep_main r.alias.sleep_main
    sleep_worker ← assign d r.raw_sleep_worker r.alias.sleep_worker
    kafka_timeout ← assign d r.raw_kafka_timeout r.alias.kafka_timeout
    http_max_total_connections ←
        assign d r.raw_http_max_total_connections r.alias.http_max_total_connections
    http_timeout ← assign d r.raw_http_timeout r.alias.http_timeout
    http_conn_timeout ← assign d r.raw_http_conn_timeout r.alias.http_conn_timeout
    http_verbose ← assign d r.raw_http_verbose r.alias.http_verbose
    http_insecure ← assign d r.raw_http_insecure r.alias.http_insecure
    rb_http_max_messages ← assign d r.raw_rb_http_max_messages r.alias.rb_http_max_messages
    timer ← assign d r.raw_rb_http_flush_timer r.alias.rb_http_flush_timer
    rb_http_flush_timer ←
        assign_interval d r.raw_rb_http_flush_timer r.raw_rb_http_flush_interval timer
    ok (record r.alias {
      debug = debug;
      stdout = stdout;
      syslog = syslog;
      threads = threads;
      timeout = timeout;
      max_snmp_fails = max_snmp_fails;
      max_simultaneous_queries = max_simultaneous_queries;
      max_kafka_fails = max_kafka_fails;
      sleep_main = sleep_main;
      sleep_worker = sleep_worker;
      kafka_timeout = kafka_timeout;
      http_max_total_connections = http_max_total_connections;
      http_timeout = http_timeout;
      http_conn_timeout = http_conn_timeout;
      http_verbose = http_verbose;
      http_insecure = http_insecure;
      rb_http_max_messages = rb_http_max_messages;
      rb_http_flush_timer = rb_http_flush_timer;
    })

  abbrev pub zero_monitor : Monitor F
  zero_monitor = record {
    name = [];
    oid = [];
    unit = [];
    nonzero = pos 0;
    send = none;
    op = [];
    system = [];
    split = [];
    instance_prefix = [];
    name_split_suffix = [];
    split_op = [];
    timestamp_given = none;
    integer = none;
    group_id = no_group;
    group_name = [];
    enrichment = [];
    plugin = [];
    params = [];
  }

  unfoldable pub unmarshal_monitor : JsonDecoder → MonitorItem F → Result Bytes (Monitor F)
  unmarshal_monitor d monitor_comment = ok zero_monitor
  unmarshal_monitor d (monitor_object r) = do
    nonzero ← assign d r.raw_nonzero r.alias.nonzero
    send ← assign_pointer d r.raw_send r.alias.send
    timestamp_given ← assign_pointer d r.raw_timestamp_given r.alias.timestamp_given
    integer ← assign_pointer d r.raw_integer r.alias.integer
    ok (record r.alias {
      nonzero = nonzero;
      send = send;
      timestamp_given = timestamp_given;
      integer = integer;
    })

  abbrev pub zero_sensor : Sensor F
  zero_sensor = record {
    sensor_id = pos 0;
    timeout = pos 0;
    sensor_name = [];
    sensor_ip = [];
    sensor_moid = [];
    snmp_version = [];
    community = [];
    snmp_username = [];
    snmp_security_level = [];
    snmp_auth_protocol = [];
    snmp_auth_password = [];
    snmp_priv_protocol = [];
    snmp_priv_password = [];
    govc_username = [];
    govc_password = [];
    enrichment = [];
    monitors = [];
  }

-- the elements of a list, up to the first error
unfoldable pub traverse {ℓ κ} :
    {A : Type ℓ} {B : Type κ} → (A → Result Bytes B) → List A → Result Bytes (List B)
traverse f [] = ok []
traverse f (x ∷ xs) = do y ← f x; ys ← traverse f xs; ok (y ∷ ys)

-- The monitors are decoded with the alias, before the numbers.
unfoldable pub unmarshal_sensor :
    {F : Type 0} → JsonDecoder → SensorItem F → Result Bytes (Sensor F)
unmarshal_sensor d sensor_comment = ok zero_sensor
unmarshal_sensor d (sensor_object r) = do
  monitors ← traverse (unmarshal_monitor d) r.raw_monitors
  sensor_id ← assign d r.raw_sensor_id r.alias.sensor_id
  timeout ← assign d r.raw_timeout r.alias.timeout
  ok (record r.alias { monitors = monitors; sensor_id = sensor_id; timeout = timeout })
