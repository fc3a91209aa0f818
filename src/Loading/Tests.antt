-- ===== src/Loading/Tests.antt =====
-- A file whose `conf` block sets nothing: the metrics are not printed, although 1 is the default.
use redborder_monitor.Base.{All, ◌≡◌, refl, Option, none, some, []}
use redborder_monitor.Base.Text.{Bytes, codes, same}
use redborder_monitor.Base.Int.{ℤ, pos}
use redborder_monitor.Base.Result.{Result, ok, err}
use redborder_monitor.Base.Float.Sample.{Sample}
use redborder_monitor.Model.{Conf, Config}
use redborder_monitor.Model.Sample.{blank_conf}
use redborder_monitor.Loading.{clean_sensors, RawConfig, default_conf, load_over, load_config}
use redborder_monitor.Loading.Decode.{
  JsonDecoder, RawConf, assign, parse_raw_int, unmarshal_conf, unquote, traverse,
}
use redborder_monitor.Loading.Defaults.{IsUsable, load_config-IsUsable}

abbrev decoder : JsonDecoder
decoder = record { decode_bool = λ s. none; decode_int = λ s. ok (pos 7) }

abbrev empty_conf : RawConf Sample
empty_conf = record {
  alias = blank_conf;
  raw_debug = [];
  raw_stdout = [];
  raw_syslog = [];
  raw_threads = [];
  raw_timeout = [];
  raw_max_snmp_fails = [];
  raw_max_simultaneous_queries = [];
  raw_max_kafka_fails = [];
  raw_sleep_main = [];
  raw_sleep_worker = [];
  raw_kafka_timeout = [];
  raw_http_max_total_connections = [];
  raw_http_timeout = [];
  raw_http_conn_timeout = [];
  raw_http_verbose = [];
  raw_http_insecure = [];
  raw_rb_http_max_messages = [];
  raw_rb_http_flush_timer = [];
  raw_rb_http_flush_interval = [];
}

abbrev root : RawConfig Sample
root = record { conf = some empty_conf; sensors = [] }

abbrev read_root : Bytes → Result Bytes (RawConfig Sample)
read_root s = ok root

quoted_number : parse_raw_int decoder (codes "\"7\"") ≡ ok (some (pos 7))
unfolding parse_raw_int unquote same
quoted_number = refl

stdout_default : (default_conf {F = Sample}).stdout ≡ pos 1
unfolding default_conf
stdout_default = refl

abbrev stdout_of : Result Bytes (Config Sample) → Option ℤ
stdout_of (ok c) = some c.conf.stdout
stdout_of (err e) = none

no_stdout : stdout_of (load_over decoder default_conf root) ≡ some (pos 0)
unfolding load_over unmarshal_conf assign parse_raw_int traverse clean_sensors
no_stdout = refl

-- what is loaded of the empty block
abbrev zeros : Conf Sample
zeros = blank_conf

abbrev loaded : Config Sample
loaded = record { conf = zeros; sensors = [] }

load_config-IsUsable_example :
    All IsUsable loaded.sensors
    × ((before : Conf Sample) → load_over decoder before root ≡ ok loaded)
unfolding load_config load_over unmarshal_conf assign parse_raw_int traverse clean_sensors
load_config-IsUsable_example =
    load_config-IsUsable decoder read_root (codes "{}") root empty_conf loaded refl refl refl
