-- ===== src/Producer/Deliver.antt =====
-- internal/monitor/producer.go: `Produce` with what it writes and counts, and the loop of
-- cmd/redborder-monitor/main.go that gives it the metrics of the channel. What Kafka, the batch
-- channel and the server answer is the argument `Answers`. A single post, which is a goroutine of
-- its own, is taken as done when it is started: it changes nothing but the counters.
pub mod Balance
mod Tests
use redborder_monitor.Base.{
  ℕ, Bool, true, false, Option, none, some, List, [], ◌∷◌, ◌++◌, if◌then◌else◌,
}
use redborder_monitor.Base.Text.{Bytes}
use redborder_monitor.Base.Int.{pos, eqb_ℤ}
use redborder_monitor.Stats.{Counts}
use redborder_monitor.Sensor.{increment_64}
use redborder_monitor.Output.{Metric}
use redborder_monitor.Producer.{KafkaWriter, HttpClient, HttpSide, Producer}
use redborder_monitor.Producer.Post.{HttpCodec, PostRequest, PostAnswer, send_http}

pub record Answers : Type 0 where
  -- Kafka takes the message
  pub is_written : Bool
  -- the batch channel has a place
  pub has_room : Bool
  pub post : PostRequest → PostAnswer

-- the lines printed, the messages given to Kafka, the metrics given to the batcher, the counters
pub record Outlets (F : Type 0) : Type 0 where
  pub printed : List Bytes
  pub written : List Bytes
  pub queued : List (Metric F)
  pub counts : Counts

abbrev pub count_kafka : Bool → Counts → Counts
count_kafka true c = record c { metrics_sent_kafka = increment_64 c.metrics_sent_kafka }
count_kafka false c = record c { metrics_failed_kafka = increment_64 c.metrics_failed_kafka }

module _ {F : Type 0} where
  abbrev pub print : Bool → Bytes → Outlets F → Outlets F
  print false line o = o
  print true line o = record o {
    printed = o.printed ++ line ∷ [];
    counts = record o.counts { metrics_sent_stdout = increment_64 o.counts.metrics_sent_stdout };
  }

  abbrev pub write_message : Option KafkaWriter → Bool → Bytes → Outlets F → Outlets F
  write_message none is_written message o = o
  write_message (some w) is_written message o = record o {
    written = o.written ++ message ∷ [];
    counts = count_kafka is_written o.counts;
  }

  abbrev pub give_batcher : Bool → Metric F → Outlets F → Outlets F
  give_batcher true x o = record o { queued = o.queued ++ x ∷ [] }
  give_batcher false x o = record o {
    counts = record o.counts { metrics_failed_http = increment_64 o.counts.metrics_failed_http };
  }

  abbrev pub give_http :
      HttpCodec
      → Answers
      → HttpSide
      → Option HttpClient
      → Option ℕ
      → Metric F
      → Bytes
      → Outlets F
      → Outlets F
  give_http codec answers h none batch_limit x plain o = o
  give_http codec answers h (some client) (some n) x plain o = give_batcher answers.has_room x o
  give_http codec answers h (some client) none x plain o = record o {
    counts = send_http codec answers.post h plain o.counts;
  }

  -- behind the encoding as JSON, which fails with `none`
  abbrev pub produce_encoded :
      Producer F → HttpCodec → Answers → Metric F → Option Bytes → Outlets F → Outlets F
  produce_encoded p codec answers x none o = o
  produce_encoded p codec answers x (some plain) o =
      give_http codec answers p.http p.http.client p.http.batch_limit x plain (
        write_message p.kafka answers.is_written plain
          (print (eqb_ℤ p.config.conf.stdout (pos 1)) plain o))

  -- `for metric := range metricChan`, with what is answered for each metric
  unfoldable pub consume :
      (Metric F → Option Bytes)
      → Producer F
      → HttpCodec
      → List (Metric F × Answers)
      → Outlets F
      → Outlets F
  consume encode p codec [] o = o
  consume encode p codec ((x, answers) ∷ rest) o =
      consume encode p codec rest (produce_encoded p codec answers x (encode x) o)
