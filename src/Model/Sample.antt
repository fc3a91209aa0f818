-- ===== src/Model/Sample.antt =====
-- A monitor, a sensor and a `conf` block with every field empty: the start of the examples.
use redborder_monitor.Base.{none, []}
use redborder_monitor.Base.Int.{pos}
use redborder_monitor.Base.Float.Sample.{Sample}
use redborder_monitor.Model.{Monitor, no_group, Sensor, Conf}

abbrev pub blank_monitor : Monitor Sample
blank_monitor = record {
  name = [];
  oid = [];
  unit = [];
  nonzero = pos 0;
  send = none;
  op = [];
  system = [];
  split = [];
  instance_prefix = [];
  name_split_suffix = [];
  split_op = [];
  timestamp_given = none;
  integer = none;
  group_id = no_group;
  group_name = [];
  enrichment = [];
  plugin = [];
  params = [];
}

abbrev pub blank_sensor : Sensor Sample
blank_sensor = record {
  sensor_id = pos 0;
  timeout = pos 0;
  sensor_name = [];
  sensor_ip = [];
  sensor_moid = [];
  snmp_version = [];
  community = [];
  snmp_username = [];
  snmp_security_level = [];
  snmp_auth_protocol = [];
  snmp_auth_password = [];
  snmp_priv_protocol = [];
  snmp_priv_password = [];
  govc_username = [];
  govc_password = [];
  enrichment = [];
  monitors = [];
}

abbrev pub blank_conf : Conf Sample
blank_conf = record {
  debug = pos 0;
  stdout = pos 0;
  syslog = pos 0;
  threads = pos 0;
  timeout = pos 0;
  max_snmp_fails = pos 0;
  max_simultaneous_queries = pos 0;
  max_kafka_fails = pos 0;
  sleep_main = pos 0;
  sleep_worker = pos 0;
  kafka_broker = [];
  kafka_topic = [];
  kafka_timeout = pos 0;
  http_endpoint = [];
  http_max_total_connections = pos 0;
  http_timeout = pos 0;
  http_conn_timeout = pos 0;
  http_verbose = pos 0;
  http_insecure = pos 0;
  rb_http_max_messages = pos 0;
  rb_http_flush_timer = pos 0;
  rb_http_mode = [];
  ipc_socket_path = [];
  enrichment = [];
  mib_dirs = [];
}
