-- ===== src/Producer/Deliver/Balance.antt =====
-- internal/monitor/producer.go: the counters of the outputs add up to the metrics produced.
use mathlib.Core.List.{append_assoc, append-nil}
use redborder_monitor.Base.{
  ℕ, ◌+◌, ◌≡◌, refl, sym, ap, ◌≤◌, Bool, true, false, Option, none, some, List, [], ◌∷◌, ◌++◌, ◌<◌,
  ◌^◌, length, length-append, arith, Bool-cases, inl, inr, ◌∙◌,
}
use redborder_monitor.Base.Text.{Bytes}
use redborder_monitor.Base.Int.{pos, eqb_ℤ}
use redborder_monitor.Output.{Metric}
use redborder_monitor.Producer.{KafkaWriter, HttpClient, HttpSide, Producer}
use redborder_monitor.Producer.Post.{
  HttpCodec, PostAnswer, bad_request, no_answer, status, count_post, send_http, is_accepted_status,
  encode_body,
}
use redborder_monitor.Producer.Deliver.{
  Answers, Outlets, print, write_message, give_batcher, give_http, produce_encoded, consume,
}

-- the messages of an output that may be off
abbrev pub only : Bool → List Bytes → List Bytes
only true ds = ds
only false ds = []

abbrev pub is_on : {A : Type 0} → Option A → Bool
is_on none = false
is_on (some a) = true

-- The outputs have got the messages `ps`, `ws` and `hs`, and the counters of each add up to their
-- number. The metrics with the batcher are counted by it later.
pub record Holds {F : Type 0} (ps ws hs : List Bytes) (o : Outlets F) : Type 0 where
  pub printed : o.printed ≡ ps
  pub printed_count : o.counts.metrics_sent_stdout ≡ length ps
  pub written : o.written ≡ ws
  pub written_count : o.counts.metrics_sent_kafka + o.counts.metrics_failed_kafka ≡ length ws
  pub http_count :
      o.counts.metrics_sent_http + o.counts.metrics_failed_http + length o.queued ≡ length hs

abbrev grown : Bool → List Bytes → Bytes → List Bytes
grown true ds d = ds ++ d ∷ []
grown false ds d = ds

length-only : (on : Bool) (ds : List Bytes) → length (only on ds) ≤ length ds
length-only true ds = omega arith
length-only false ds = omega arith

only-grown :
    (on : Bool) (ds : List Bytes) (d : Bytes) → grown on (only on ds) d ≡ only on (ds ++ d ∷ [])
only-grown true ds d = refl
only-grown false ds d = refl

abbrev pub encoded_or : Option Bytes → List Bytes → List Bytes
encoded_or none ds = ds
encoded_or (some d) ds = d ∷ ds

length-encoded_or :
    (m : Option Bytes) (ds : List Bytes)
    → length (encoded_or m ds) ≡ length (encoded_or m []) + length ds
length-encoded_or none ds = omega arith
length-encoded_or (some d) ds = omega arith

encoded_or-append :
    (m : Option Bytes) (ds es : List Bytes) → (ds ++ encoded_or m []) ++ es ≡ ds ++ encoded_or m es
encoded_or-append none ds es = ap (λ xs. xs ++ es) (append-nil ds)
encoded_or-append (some d) ds es = append_assoc ds (d ∷ []) es

module _ {F : Type 0} where
  print-Holds :
      (on : Bool) (d : Bytes) {ps ws hs : List Bytes} {o : Outlets F}
      → length ps + 1 < 2 ^ 64
      → Holds ps ws hs o
      → Holds (grown on ps d) ws hs (print on d o)
  print-Holds false d small h = h
  print-Holds true d {ps} {ws} {hs} {o} small h = record {
    printed = ap (λ xs. xs ++ d ∷ []) h.printed;
    printed_count = omega (arith, h.printed_count, small, length-append ps (d ∷ []));
    written = h.written;
    written_count = h.written_count;
    http_count = h.http_count;
  }

  write_message-Holds :
      (w : Option KafkaWriter) (b : Bool) (d : Bytes) {ps ws hs : List Bytes} {o : Outlets F}
      → length ws + 1 < 2 ^ 64
      → Holds ps ws hs o
      → Holds ps (grown (is_on w) ws d) hs (write_message w b d o)
  write_message-Holds none b d small h = h
  write_message-Holds (some w) true d {ps} {ws} {hs} {o} small h = record {
    printed = h.printed;
    printed_count = h.printed_count;
    written = ap (λ xs. xs ++ d ∷ []) h.written;
    written_count = omega (arith, h.written_count, small, length-append ws (d ∷ []));
    http_count = h.http_count;
  }
  write_message-Holds (some w) false d {ps} {ws} {hs} {o} small h = record {
    printed = h.printed;
    printed_count = h.printed_count;
    written = ap (λ xs. xs ++ d ∷ []) h.written;
    written_count = omega (arith, h.written_count, small, length-append ws (d ∷ []));
    http_count = h.http_count;
  }

  -- one more for HTTP, in one of its counters or with the batcher
  http-Holds :
      (d : Bytes) {ps ws hs : List Bytes} {o : Outlets F} (o' : Outlets F)
      → Holds ps ws hs o
      → o'.printed ≡ o.printed
      → o'.written ≡ o.written
      → o'.counts.metrics_sent_stdout ≡ o.counts.metrics_sent_stdout
      → o'.counts.metrics_sent_kafka ≡ o.counts.metrics_sent_kafka
      → o'.counts.metrics_failed_kafka ≡ o.counts.metrics_failed_kafka
      → o'.counts.metrics_sent_http + o'.counts.metrics_failed_http + length o'.queued
        ≡ o.counts.metrics_sent_http + o.counts.metrics_failed_http + length o.queued + 1
      → Holds ps ws (hs ++ d ∷ []) o'
  http-Holds d {ps} {ws} {hs} {o} o' k e1 e2 e3 e4 e5 e6 = record {
    printed = e1 ∙ k.printed;
    printed_count = e3 ∙ k.printed_count;
    written = e2 ∙ k.written;
    written_count = omega (arith, e4, e5, k.written_count);
    http_count = omega (arith, e6, k.http_count, length-append hs (d ∷ []));
  }

  give_batcher-Holds :
      (b : Bool) (x : Metric F) (d : Bytes) {ps ws hs : List Bytes} {o : Outlets F}
      → length hs + 1 < 2 ^ 64
      → Holds ps ws hs o
      → Holds ps ws (hs ++ d ∷ []) (give_batcher b x o)
  give_batcher-Holds true x d {o = o} small k =
      http-Holds d _ k refl refl refl refl refl (omega (arith, length-append o.queued (x ∷ [])))
  give_batcher-Holds false x d small k =
      http-Holds d _ k refl refl refl refl refl (omega (arith, small, k.http_count))

  count_post-Holds :
      (a : PostAnswer) (d : Bytes) {ps ws hs : List Bytes} {o : Outlets F}
      → length hs + 1 < 2 ^ 64
      → Holds ps ws hs o
      → Holds ps ws (hs ++ d ∷ []) (record o { counts = count_post a o.counts })
  count_post-Holds bad_request d small k =
      http-Holds d _ k refl refl refl refl refl (omega (arith, small, k.http_count))
  count_post-Holds no_answer d small k =
      http-Holds d _ k refl refl refl refl refl (omega (arith, small, k.http_count))
  count_post-Holds (status n) d {o = o} small k = elim (Bool-cases (is_accepted_status n)) [
    | inl e ↦ rw e (http-Holds d _ k refl refl refl refl refl (omega (arith, small, k.http_count)))
    | inr e ↦ rw e (http-Holds d _ k refl refl refl refl refl (omega (arith, small, k.http_count)))
  ]

  give_http-Holds :
      (codec : HttpCodec) (answers : Answers) (h : HttpSide) (c : Option HttpClient)
      (limit : Option ℕ) (x : Metric F) (d : Bytes) {ps ws hs : List Bytes} {o : Outlets F}
      → h.client ≡ c
      → length hs + 1 < 2 ^ 64
      → Holds ps ws hs o
      → Holds ps ws (grown (is_on c) hs d) (give_http codec answers h c limit x d o)
  unfolding send_http
  give_http-Holds codec answers h none limit x d e small k = k
  give_http-Holds codec answers h (some c) (some n) x d e small k =
      give_batcher-Holds answers.has_room x d small k
  give_http-Holds codec answers h (some c) none x d e small k = rw e (
      let (body, encoding) = encode_body codec h.mode d in
      count_post-Holds (answers.post (record { url = h.url; body = body; encoding = encoding })) d
        small k)

  -- the metrics that could be written as JSON
  abbrev pub encoded : (Metric F → Option Bytes) → List (Metric F × Answers) → List Bytes
  encoded encode [] = []
  encoded encode ((x, answers) ∷ rest) = encoded_or (encode x) (encoded encode rest)

  -- each output that is on has got each of the messages `ds`
  abbrev pub IsBalanced : Producer F → List Bytes → Outlets F → Type 0
  IsBalanced p ds o =
      Holds (only (eqb_ℤ p.config.conf.stdout (pos 1)) ds) (only (is_on p.kafka) ds)
        (only (is_on p.http.client) ds) o

  produce_encoded-some :
      (p : Producer F) (codec : HttpCodec) (answers : Answers) (x : Metric F) (d : Bytes)
      (ds : List Bytes) (o : Outlets F)
      → length ds + 1 < 2 ^ 64
      → IsBalanced p ds o
      → IsBalanced p (ds ++ d ∷ []) (produce_encoded p codec answers x (some d) o)
  produce_encoded-some p codec answers x d ds o small k =
      let on = eqb_ℤ p.config.conf.stdout (pos 1) in
      rw
        (
          sym (only-grown on ds d),
          sym (only-grown (is_on p.kafka) ds d),
          sym (only-grown (is_on p.http.client) ds d),
        )
        (give_http-Holds codec answers p.http p.http.client p.http.batch_limit x d refl
          (omega (arith, small, length-only (is_on p.http.client) ds))
          (write_message-Holds p.kafka answers.is_written d
            (omega (arith, small, length-only (is_on p.kafka) ds))
            (print-Holds on d (omega (arith, small, length-only on ds)) k)))

  produce_encoded-IsBalanced :
      (p : Producer F) (codec : HttpCodec) (answers : Answers) (x : Metric F) (m : Option Bytes)
      (ds : List Bytes) (o : Outlets F)
      → length ds + length (encoded_or m []) < 2 ^ 64
      → IsBalanced p ds o
      → IsBalanced p (ds ++ encoded_or m []) (produce_encoded p codec answers x m o)
  produce_encoded-IsBalanced p codec answers x none ds o small k = rw (append-nil ds) k
  produce_encoded-IsBalanced p codec answers x (some d) ds o small k =
      produce_encoded-some p codec answers x d ds o small k

  -- Whatever Kafka, the batch channel and the server answer, a producer that is given metrics
  -- has printed each of them that can be written as JSON, in their order, where `stdout` is 1
  -- and for no other value, and given it to Kafka where it has a writer, and the counters of
  -- each output add up to their number, for HTTP together with the metrics left to the
  -- batcher; if this held before, and for fewer than 2^64 messages.
  pub consume-IsBalanced :
      (encode : Metric F → Option Bytes) (p : Producer F) (codec : HttpCodec)
      (xs : List (Metric F × Answers)) (ds : List Bytes) (o : Outlets F)
      → length ds + length (encoded encode xs) < 2 ^ 64
      → IsBalanced p ds o
      → IsBalanced p (ds ++ encoded encode xs) (consume encode p codec xs o)
  unfolding consume
  consume-IsBalanced encode p codec [] ds o small k = rw (append-nil ds) k
  consume-IsBalanced encode p codec ((x, answers) ∷ rest) ds o small k =
      let m = encode x in
      let parts = length-encoded_or m (encoded encode rest) in
      rw (sym (encoded_or-append m ds (encoded encode rest))) (
        consume-IsBalanced encode p codec rest (ds ++ encoded_or m []) _
          (omega (arith, small, parts, length-append ds (encoded_or m [])))
          (produce_encoded-IsBalanced p codec answers x m ds o (omega (arith, small, parts)) k))
