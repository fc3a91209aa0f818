-- ===== src/Producer/Deliver/Tests.antt =====
-- Two metrics for a producer with a failing Kafka and a full batch channel.
use redborder_monitor.Base.{
  ℕ, ◌≡◌, refl, Bool, true, false, Option, none, some, List, [], ◌∷◌, arith,
}
use redborder_monitor.Base.Text.{Bytes, codes}
use redborder_monitor.Base.Int.{pos}
use redborder_monitor.Base.Float.Sample.{Sample}
use redborder_monitor.Model.{Config}
use redborder_monitor.Model.Sample.{blank_conf}
use redborder_monitor.Op.{no_gid}
use redborder_monitor.Output.{Metric, int_value}
use redborder_monitor.Producer.{new_metric_producer, kafka_of, client_of, http_of}
use redborder_monitor.Producer.Post.{HttpCodec, no_answer}
use redborder_monitor.Producer.Deliver.{Answers, Outlets, consume}
use redborder_monitor.Producer.Deliver.Balance.{IsBalanced, encoded, consume-IsBalanced}

abbrev everywhere : Config Sample
everywhere = record {
  conf = record blank_conf {
    stdout = pos 1;
    kafka_broker = codes "k:1";
    http_endpoint = codes "http://h";
    rb_http_max_messages = pos 50;
  };
  sensors = [];
}

abbrev idle : Outlets Sample
idle = record {
  printed = [];
  written = [];
  queued = [];
  counts = record {
    total_workers = 0;
    active_workers = 0;
    sensors_processed = 0;
    metrics_generated = 0;
    metrics_sent_stdout = 0;
    metrics_sent_kafka = 0;
    metrics_failed_kafka = 0;
    metrics_sent_http = 0;
    metrics_failed_http = 0;
    sensors_skipped = 0;
  };
}

abbrev no_codec : HttpCodec
no_codec = record { deflate = λ s. none; gzip = λ s. s }

abbrev metric : Bytes → Metric Sample
metric name = record {
  timestamp = pos 7;
  monitor = name;
  metric_instance = [];
  value = int_value (pos 1);
  group_id = no_gid;
  enrichment = [];
}

abbrev answers : Bool → Bool → Answers
answers is_written has_room = record {
  is_written = is_written;
  has_room = has_room;
  post = λ r. no_answer;
}

-- the second message is refused by Kafka and finds the batch channel full
abbrev two_metrics : List (Metric Sample × Answers)
two_metrics =
    (metric (codes "load"), answers true true) ∷ (metric (codes "cpu"), answers false false) ∷ []

abbrev name_only : Metric Sample → Option Bytes
name_only x = some x.monitor

abbrev counted : Outlets Sample → ℕ × ℕ × ℕ × ℕ
counted o = (
  o.counts.metrics_sent_stdout, o.counts.metrics_sent_kafka, o.counts.metrics_failed_kafka,
  o.counts.metrics_failed_http,
)

consume_two :
    counted (consume name_only (new_metric_producer everywhere) no_codec two_metrics idle)
    ≡ (2, 1, 1, 1)
unfolding consume new_metric_producer kafka_of client_of http_of
consume_two = refl

consume-IsBalanced_example :
    IsBalanced
      (new_metric_producer everywhere)
      (encoded name_only two_metrics)
      (consume name_only (new_metric_producer everywhere) no_codec two_metrics idle)
unfolding new_metric_producer kafka_of client_of http_of
consume-IsBalanced_example =
    consume-IsBalanced name_only (new_metric_producer everywhere) no_codec two_metrics [] idle
      (omega arith)
      (record {
        printed = refl;
        printed_count = refl;
        written = refl;
        written_count = refl;
        http_count = refl;
      })
