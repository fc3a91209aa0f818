-- ===== src/Producer.antt =====
-- internal/monitor/producer.go: the outputs of the producer as the configuration sets them up, at
-- the start and at a reload. The Kafka writer and the HTTP client are their settings; the batcher
-- behind the client is modelled by `Batcher`.
pub mod Update
pub mod Post
pub mod Deliver
mod Tests
use redborder_monitor.Base.{
  ℕ, ◌≡◌, Bool, true, false, not, ◌||◌, ◌&&◌, Option, none, some, List, [], ◌∷◌, ◌++◌, ltb,
  if◌then◌else◌,
}
use redborder_monitor.Base.Text.{Bytes, codes, same, is_empty, contains}
use redborder_monitor.Base.Int.{ℤ, pos, negsuc, eqb_ℤ, positive_or}
use redborder_monitor.Model.{Conf, Config}

pub record KafkaWriter : Type 0 where
  pub broker : Bytes
  pub topic : Bytes
  -- in seconds
  pub write_timeout : ℕ

pub record HttpClient : Type 0 where
  pub insecure : Bool
  pub max_conns : ℕ
  pub timeout : ℕ
  pub conn_timeout : ℕ

-- The fields of the producer that belong to HTTP; the batcher is its limit.
pub record HttpSide : Type 0 where
  pub client : Option HttpClient
  pub url : Bytes
  pub mode : Bytes
  pub flush_seconds : ℕ
  pub batch_limit : Option ℕ

pub record Producer (F : Type 0) : Type 0 where
  pub config : Config F
  pub kafka : Option KafkaWriter
  pub http : HttpSide

-- where a metric goes
pub data Delivery : Type 0 where
  to_stdout : Delivery
  to_kafka : Delivery
  to_batch : Delivery
  to_post : Delivery

-- `startHTTPBatcher` behind `RbHttpMaxMessages > 1`
abbrev pub batch_limit_of : ℤ → Option ℕ
batch_limit_of (pos n) = if ltb 1 n then some n else none
batch_limit_of (negsuc n) = none

abbrev pub with_port : Bytes → Bytes
with_port broker = if contains broker (codes ":") then broker else broker ++ codes ":9092"

abbrev pub http_delivery : HttpSide → List Delivery
http_delivery h = elim h.client [
  | none ↦ []
  | some c ↦ elim h.batch_limit [ none ↦ to_post ∷ [] | some n ↦ to_batch ∷ [] ]
]

abbrev pub kafka_delivery : Option KafkaWriter → List Delivery
kafka_delivery none = []
kafka_delivery (some w) = to_kafka ∷ []

module _ {F : Type 0} where
  unfoldable pub kafka_of : Conf F → Option KafkaWriter
  kafka_of c =
      if is_empty c.kafka_broker
      then none
      else some (record {
        broker = with_port c.kafka_broker;
        topic = c.kafka_topic;
        write_timeout = positive_or 5 c.kafka_timeout;
      })

  unfoldable pub client_of : Conf F → HttpClient
  client_of c = record {
    insecure = eqb_ℤ c.http_insecure (pos 1);
    max_conns = positive_or 100 c.http_max_total_connections;
    timeout = positive_or 5 c.http_timeout;
    conn_timeout = positive_or 2 c.http_conn_timeout;
  }

  unfoldable pub http_of : Conf F → HttpSide
  http_of c = record {
    client = if is_empty c.http_endpoint then none else some (client_of c);
    url = c.http_endpoint;
    mode = c.rb_http_mode;
    flush_seconds = positive_or 1 c.rb_http_flush_timer;
    batch_limit = if is_empty c.http_endpoint then none else batch_limit_of c.rb_http_max_messages;
  }

  unfoldable pub new_metric_producer : Config F → Producer F
  new_metric_producer config = record {
    config = config;
    kafka = kafka_of config.conf;
    http = http_of config.conf;
  }

  abbrev pub kafka_changed : Conf F → Conf F → Bool
  kafka_changed old new =
      not (same old.kafka_broker new.kafka_broker)
      || not (same old.kafka_topic new.kafka_topic)
      || not (eqb_ℤ old.kafka_timeout new.kafka_timeout)

  abbrev pub http_changed : Conf F → Conf F → Bool
  http_changed old new =
      not (same old.http_endpoint new.http_endpoint)
      || not (same old.rb_http_mode new.rb_http_mode)
      || not (eqb_ℤ old.rb_http_max_messages new.rb_http_max_messages)
      || not (eqb_ℤ old.rb_http_flush_timer new.rb_http_flush_timer)
      || not (eqb_ℤ old.http_insecure new.http_insecure)
      || not (eqb_ℤ old.http_max_total_connections new.http_max_total_connections)
      || not (eqb_ℤ old.http_timeout new.http_timeout)
      || not (eqb_ℤ old.http_conn_timeout new.http_conn_timeout)

  unfoldable pub update_config : Config F → Producer F → Producer F
  update_config new p = record {
    config = new;
    kafka = if kafka_changed p.config.conf new.conf then kafka_of new.conf else p.kafka;
    http = if http_changed p.config.conf new.conf then http_of new.conf else p.http;
  }

  -- `Close`
  unfoldable pub close : Producer F → Producer F
  close p = record p { kafka = none; http = record p.http { client = none; batch_limit = none } }

  -- `Produce` of a metric that can be written as JSON
  unfoldable pub produce : Producer F → List Delivery
  produce p =
      (if eqb_ℤ p.config.conf.stdout (pos 1) then to_stdout ∷ [] else [])
      ++ (kafka_delivery p.kafka ++ http_delivery p.http)
