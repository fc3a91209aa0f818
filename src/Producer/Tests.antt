-- ===== src/Producer/Tests.antt =====
-- A reload that turns HTTP on and changes the Kafka topic.
use redborder_monitor.Base.{◌≡◌, refl, [], ◌∷◌}
use redborder_monitor.Base.Text.{codes, same}
use redborder_monitor.Base.Int.{pos}
use redborder_monitor.Base.Float.Sample.{Sample}
use redborder_monitor.Model.{Config}
use redborder_monitor.Model.Sample.{blank_conf}
use redborder_monitor.Producer.{
  to_stdout, to_kafka, to_batch, new_metric_producer, kafka_of, client_of, http_of, produce,
}
use redborder_monitor.Producer.Update.{reloaded, last_config, reloaded-new}

abbrev plain : Config Sample
plain = record { conf = record blank_conf { kafka_broker = codes "k" }; sensors = [] }

abbrev batched : Config Sample
batched = record {
  conf = record blank_conf {
    stdout = pos 1;
    kafka_broker = codes "k:1";
    kafka_topic = codes "t";
    http_endpoint = codes "http://h";
    rb_http_max_messages = pos 50;
  };
  sensors = [];
}

reloaded-new_example :
    reloaded plain (batched ∷ []) ≡ new_metric_producer (last_config plain (batched ∷ []))
reloaded-new_example = reloaded-new plain (batched ∷ [])

three_ways : produce (new_metric_producer batched) ≡ to_stdout ∷ to_kafka ∷ to_batch ∷ []
unfolding produce new_metric_producer kafka_of http_of client_of same
three_ways = refl
