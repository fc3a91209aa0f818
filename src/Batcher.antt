-- ===== src/Batcher.antt =====
-- internal/monitor/producer.go: the HTTP batcher. `Produce` puts metrics on a channel of bounded
-- size; a goroutine gathers them into batches and posts these. The channel and the goroutine are
-- one state, and what happens is a sequence of events, in any order. What comes of each batch
-- is the argument `answers`, by the number of the batch.
pub mod Order
pub mod Bounds
pub mod Posts
mod Tests
use redborder_monitor.Base.{
  ℕ, ◌+◌, ◌*◌, ◌≡◌, Bool, true, false, ◌||◌, List, [], ◌∷◌, ◌++◌, length, ltb, leb, ◌==◌,
  if◌then◌else◌,
}
use redborder_monitor.Base.Text.{is_empty}

-- what comes of one batch
pub data PostResult : Type 0 where
  marshal_failed : PostResult
  request_failed : PostResult
  post_failed : PostResult
  status : ℕ → PostResult

-- A batch that cannot be written as JSON, or for which no request can be made, is not posted.
abbrev pub is_requested : PostResult → Bool
is_requested marshal_failed = false
is_requested request_failed = false
is_requested _ = true

abbrev pub is_accepted : PostResult → Bool
is_accepted (status n) = n == 200 || n == 202 || n == 204
is_accepted _ = false

pub record Batcher (A : Type 0) : Type 0 where
  pub queue : List A
  pub batch : List A
  -- the batches that `sendHTTPBatch` was given, and those of them that were posted
  pub batches : List (List A)
  pub posted : List (List A)
  pub dropped : List A
  -- MetricsSentHTTP and MetricsFailedHTTP
  pub sent_http : ℕ
  pub failed_http : ℕ

pub data Event (A : Type 0) : Type 0 where
  produce : A → Event A
  receive : Event A
  tick : Event A

abbrev pub capacity : ℕ → ℕ
capacity max_batch = max_batch * 10

module _ {A : Type 0} where
  abbrev pub new_batcher : Batcher A
  new_batcher = record {
    queue = [];
    batch = [];
    batches = [];
    posted = [];
    dropped = [];
    sent_http = 0;
    failed_http = 0;
  }

  -- `Produce`, its part for HTTP: a full channel drops the metric
  unfoldable pub enqueue : ℕ → A → Batcher A → Batcher A
  enqueue max_batch x b =
      if ltb (length b.queue) (capacity max_batch)
      then record b { queue = b.queue ++ x ∷ [] }
      else record b { dropped = b.dropped ++ x ∷ []; failed_http = b.failed_http + 1 }

  -- `sendHTTPBatch`: each metric of the batch counts
  unfoldable pub send_batch : PostResult → List A → Batcher A → Batcher A
  send_batch answer batch b =
      let given = record b {
        batches = b.batches ++ batch ∷ [];
        posted = if is_requested answer then b.posted ++ batch ∷ [] else b.posted;
      } in
      if is_accepted answer
      then record given { sent_http = b.sent_http + length batch }
      else record given { failed_http = b.failed_http + length batch }

  unfoldable pub flush : (ℕ → PostResult) → Batcher A → Batcher A
  flush answers b =
      if is_empty b.batch
      then b
      else send_batch (answers (length b.batches)) b.batch (record b { batch = [] })

  -- `batch = append(batch, m)`, and a flush of a full batch
  unfoldable pub append_metric : ℕ → (ℕ → PostResult) → A → Batcher A → Batcher A
  append_metric max_batch answers x b =
      let grown = record b { batch = b.batch ++ x ∷ [] } in
      if leb max_batch (length grown.batch) then flush answers grown else grown

  -- the channel read from its front; nothing where it is empty
  unfoldable pub receive_metric : ℕ → (ℕ → PostResult) → List A → Batcher A → Batcher A
  receive_metric max_batch answers [] b = b
  receive_metric max_batch answers (x ∷ queue) b =
      append_metric max_batch answers x (record b { queue = queue })

  unfoldable pub step : ℕ → (ℕ → PostResult) → Event A → Batcher A → Batcher A
  step max_batch answers (produce x) b = enqueue max_batch x b
  step max_batch answers receive b = receive_metric max_batch answers b.queue b
  step max_batch answers tick b = flush answers b

  unfoldable pub run : ℕ → (ℕ → PostResult) → List (Event A) → Batcher A → Batcher A
  run max_batch answers [] b = b
  run max_batch answers (e ∷ es) b = run max_batch answers es (step max_batch answers e b)

  -- the loop behind the stop signal: the whole channel, then a last flush
  unfoldable pub drain : ℕ → (ℕ → PostResult) → List A → Batcher A → Batcher A
  drain max_batch answers [] b = flush answers b
  drain max_batch answers (x ∷ queue) b =
      drain max_batch answers queue (append_metric max_batch answers x (record b { queue = queue }))

  unfoldable pub stop : ℕ → (ℕ → PostResult) → Batcher A → Batcher A
  stop max_batch answers b = drain max_batch answers b.queue b
