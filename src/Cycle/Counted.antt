-- ===== src/Cycle/Counted.antt =====
-- The counter of generated metrics over whole cycles.
use redborder_monitor.Base.{
  ℕ, ◌+◌, ◌≡◌, ap, Option, none, some, List, [], ◌∷◌, length, length-append, arith, Bool-cases,
  if_either, inl, inr,
}
use redborder_monitor.Base.Int.{ℤ}
use redborder_monitor.Base.Map.{Map}
use redborder_monitor.Base.Float.{Float}
use redborder_monitor.Model.{Json, Monitor}
use redborder_monitor.Values.{MonitorState}
use redborder_monitor.Output.{Outbox, is_muted, output_metrics}
use redborder_monitor.Output.Sends.{output_metrics-Publishes}
use redborder_monitor.Sensor.{SafeSensor}
use redborder_monitor.Query.{World}
use redborder_monitor.Cycle.{
  Loop, Run, publish_state, publish_if, process_monitor, process_monitors, run_cycle,
  process_sensor,
}

-- The counter is the number of the metrics on the channel.
abbrev pub IsCounted : {F : Type 0} → Outbox F → Type 0
IsCounted o = o.generated ≡ length o.sent

module _ {F : Type 0} ⦃fl : Float F⦄ where
  output_metrics-IsCounted :
      (m : Monitor F) (st : MonitorState F) (cached : Option (MonitorState F))
      (enrichment : Map (Json F)) (o : Outbox F)
      → IsCounted o
      → IsCounted (output_metrics m st cached enrichment o)
  unfolding output_metrics
  output_metrics-IsCounted m st cached enrichment o h = elim (Bool-cases (is_muted m.send)) [
    | inl e ↦ rw e h
    | inr e ↦
        let (ms, a, p) = output_metrics-Publishes m st cached enrichment o e in
        omega (arith, a.generated, ap length a.sent, length-append o.sent ms, h)
  ]

  publish_if-IsCounted :
      (ss : SafeSensor F) (m : Monitor F) (o : Option (MonitorState F)) (l : Loop F)
      → IsCounted l.outbox
      → IsCounted (publish_if ss m o l).outbox
  unfolding publish_state
  publish_if-IsCounted ss m none l h = h
  publish_if-IsCounted ss m (some st) l h = output_metrics-IsCounted m st _ _ l.outbox h

  process_monitors-IsCounted :
      (w : World F) (results : ℕ → Option (MonitorState F)) (ss : SafeSensor F) (i : ℕ)
      (ms : List (Monitor F)) (l : Loop F)
      → IsCounted l.outbox
      → IsCounted (process_monitors w results ss i ms l).outbox
  unfolding process_monitors process_monitor
  process_monitors-IsCounted w results ss i [] l h = h
  process_monitors-IsCounted w results ss i (m ∷ ms) l h =
      process_monitors-IsCounted w results ss (i + 1) ms _ (publish_if-IsCounted ss m _ _ h)

  run_cycle-IsCounted :
      (max_fails : ℤ) (w : World F) (r : Run F)
      → IsCounted r.outbox
      → IsCounted (run_cycle max_fails w r).outbox
  unfolding run_cycle
  run_cycle-IsCounted max_fails w r h =
      process_monitors-IsCounted w _ r.safe 0 r.safe.sensor.monitors
        (record { current = _; cache = _; outbox = r.outbox; has_error = _; errors = _ }) h

  -- Over any cycle, run or skipped, the counter of generated metrics stays the number of the metrics
  -- that have been put on the channel.
  pub process_sensor-IsCounted :
      (max_fails : ℤ) (w : World F) (r : Run F)
      → IsCounted r.outbox
      → IsCounted (process_sensor max_fails w r).outbox
  unfolding process_sensor
  process_sensor-IsCounted max_fails w r h =
      if_either (λ (q : Run F). IsCounted q.outbox) r.safe.locked h
        (run_cycle-IsCounted max_fails w r h)
