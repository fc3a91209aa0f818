-- ===== src/Model.antt =====
-- internal/monitor/config.go: the configuration that the other parts read. JSON values that the
-- program only copies (enrichment, plugin parameters) are `Json`; `F` is the type of doubles.
pub mod Sample
use redborder_monitor.Base.{ℕ, Bool, Option, List}
use redborder_monitor.Base.Text.{Bytes}
use redborder_monitor.Base.Int.{ℤ}
use redborder_monitor.Base.Map.{Map}

-- a decoded JSON value (`interface{}`)
mutual
  pub data Json (F : Type 0) : Type 0 where
    null : Json F
    bool : Bool → Json F
    number : F → Json F
    int : ℤ → Json F
    text : Bytes → Json F
    array : Items F → Json F
    object : Fields F → Json F

  pub data Items (F : Type 0) : Type 0 where
    no_item : Items F
    item : Json F → Items F → Items F

  pub data Fields (F : Type 0) : Type 0 where
    no_field : Fields F
    field : Bytes → Json F → Fields F → Fields F

-- Monitor.GroupID: absent, a number or a string. Other JSON values are left out.
pub data GroupId (F : Type 0) : Type 0 where
  no_group : GroupId F
  number_group : F → GroupId F
  int_group : ℤ → GroupId F
  text_group : Bytes → GroupId F

pub record Monitor (F : Type 0) : Type 0 where
  pub name : Bytes
  pub oid : Bytes
  pub unit : Bytes
  pub nonzero : ℤ
  pub send : Option ℤ
  pub op : Bytes
  pub system : Bytes
  pub split : Bytes
  pub instance_prefix : Bytes
  pub name_split_suffix : Bytes
  pub split_op : Bytes
  pub timestamp_given : Option ℤ
  pub integer : Option ℤ
  pub group_id : GroupId F
  pub group_name : Bytes
  pub enrichment : Map (Json F)
  pub plugin : Bytes
  pub params : Map (Json F)

pub record Sensor (F : Type 0) : Type 0 where
  pub sensor_id : ℤ
  pub timeout : ℤ
  pub sensor_name : Bytes
  pub sensor_ip : Bytes
  pub sensor_moid : Bytes
  pub snmp_version : Bytes
  pub community : Bytes
  pub snmp_username : Bytes
  pub snmp_security_level : Bytes
  pub snmp_auth_protocol : Bytes
  pub snmp_auth_password : Bytes
  pub snmp_priv_protocol : Bytes
  pub snmp_priv_password : Bytes
  pub govc_username : Bytes
  pub govc_password : Bytes
  pub enrichment : Map (Json F)
  pub monitors : List (Monitor F)

pub record Conf (F : Type 0) : Type 0 where
  pub debug : ℤ
  pub stdout : ℤ
  pub syslog : ℤ
  pub threads : ℤ
  pub timeout : ℤ
  pub max_snmp_fails : ℤ
  pub max_simultaneous_queries : ℤ
  pub max_kafka_fails : ℤ
  pub sleep_main : ℤ
  pub sleep_worker : ℤ
  pub kafka_broker : Bytes
  pub kafka_topic : Bytes
  pub kafka_timeout : ℤ
  pub http_endpoint : Bytes
  pub http_max_total_connections : ℤ
  pub http_timeout : ℤ
  pub http_conn_timeout : ℤ
  pub http_verbose : ℤ
  pub http_insecure : ℤ
  pub rb_http_max_messages : ℤ
  pub rb_http_flush_timer : ℤ
  pub rb_http_mode : Bytes
  pub ipc_socket_path : Bytes
  pub enrichment : Map (Json F)
  pub mib_dirs : List Bytes

pub record Config (F : Type 0) : Type 0 where
  pub conf : Conf F
  pub sensors : List (Sensor F)
