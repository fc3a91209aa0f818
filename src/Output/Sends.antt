-- ===== src/Output/Sends.antt =====
-- Which metrics are sent, in which order, and the counter.
use mathlib.Core.List.{append_assoc, append-nil}
use redborder_monitor.Base.{
  ℕ, ◌+◌, ◌≡◌, refl, ap, sym, ◌∙◌, inl, inr, true, false, Option, none, some, List, [], ◌∷◌, ◌++◌,
  length, length-append, arith, if◌then◌else◌, Bool-cases,
}
use redborder_monitor.Base.Int.{ltb_ℤ}
use redborder_monitor.Base.Map.{Map}
use redborder_monitor.Base.Float.{Float}
use redborder_monitor.Model.{Json, Monitor}
use redborder_monitor.Values.{MonitorValue, MonitorState, is_one}
use redborder_monitor.Output.{
  Metric, Outbox, is_muted, emit, cached_scalar, cached_child, should_send, metric_of, child_metric,
  output_scalar, output_children, output_aggregate, output_metrics,
}

-- What an outbox has got since `o`: `ms` in this order, each counted once.
pub record Adds {F : Type 0} (o : Outbox F) (ms : List (Metric F)) (o' : Outbox F) : Type 0 where
  pub sent : o'.sent ≡ o.sent ++ ms
  pub generated : o'.generated ≡ o.generated + length ms

Adds-none : {F : Type 0} (o : Outbox F) → Adds o [] o
Adds-none o = record { sent = sym (append-nil _); generated = omega arith }

Adds-emit : {F : Type 0} (o : Outbox F) (x : Metric F) → Adds o (x ∷ []) (emit x o)
Adds-emit o x = record { sent = refl; generated = refl }

Adds-trans :
    {F : Type 0} {o p q : Outbox F} {xs ys : List (Metric F)}
    → Adds o xs p
    → Adds p ys q
    → Adds o (xs ++ ys) q
Adds-trans {o = o} {xs = xs} {ys = ys} a b = record {
  sent = b.sent ∙ ap (λ l. l ++ ys) a.sent ∙ append_assoc o.sent xs ys;
  generated = omega (arith, a.generated, b.generated, length-append xs ys);
}

module _ {F : Type 0} ⦃fl : Float F⦄ where
  -- A reading that repeats the one before it: only where the source gives the times, no later, and
  -- of the same value.
  pub record Repeats (m : Monitor F) (v : MonitorValue F) (old : Option (MonitorValue F))
      : Type 0 where
    pub before : MonitorValue F
    pub cached : old ≡ some before
    pub timed : is_one m.timestamp_given ≡ true
    pub no_later : ltb_ℤ before.timestamp v.timestamp ≡ false
    pub unchanged : fl.float_eq v.value before.value ≡ true

  -- The metrics of one value: its own, or none if it is missing or repeats the one before it.
  pub data Reports (m : Monitor F) (old : Option (MonitorValue F)) (f : MonitorValue F → Metric F)
      : Option (MonitorValue F) → List (Metric F) → Type 0 where
    missing : Reports m old f none []
    repeated : {v : MonitorValue F} → Repeats m v old → Reports m old f (some v) []
    reported : {v : MonitorValue F} → ¬ (Repeats m v old) → Reports m old f (some v) (f v ∷ [])

  -- The metrics of the children from `k` on, in order.
  pub data ReportsAll (m : Monitor F) (enrichment : Map (Json F)) (cached : Option (MonitorState F))
      : ℕ → List (Option (MonitorValue F)) → List (Metric F) → Type 0 where
    no_more : {k : ℕ} → ReportsAll m enrichment cached k [] []
    next :
        {k : ℕ} {c : Option (MonitorValue F)} {cs : List (Option (MonitorValue F))}
        {xs ys : List (Metric F)}
        → Reports m (cached_child cached k) (child_metric m enrichment k) c xs
        → ReportsAll m enrichment cached (k + 1) cs ys
        → ReportsAll m enrichment cached k (c ∷ cs) (xs ++ ys)

  Repeats-cached :
      (m : Monitor F) (v : MonitorValue F) (old : Option (MonitorValue F))
      → should_send (is_one m.timestamp_given) v old ≡ false
      → Repeats m v old
  unfolding should_send
  Repeats-cached m v none h = let bad : ⊥ = ground arith in absurd bad
  Repeats-cached m v (some w) h = record {
    before = w;
    cached = refl;
    timed = ground arith;
    no_later = ground arith;
    unchanged = ground arith;
  }

  Repeats-not :
      (m : Monitor F) (v : MonitorValue F) (old : Option (MonitorValue F))
      → should_send (is_one m.timestamp_given) v old ≡ true
      → ¬ (Repeats m v old)
  unfolding should_send
  Repeats-not m v old h r = ground (arith, r.cached, r.timed, r.no_later, r.unchanged)

  -- What one value adds to an outbox.
  pub record Sends (m : Monitor F) (old : Option (MonitorValue F)) (f : MonitorValue F → Metric F)
      (c : Option (MonitorValue F)) (o o' : Outbox F) : Type 0 where
    pub metrics : List (Metric F)
    pub adds : Adds o metrics o'
    pub reports : Reports m old f c metrics

  value-Sends :
      (m : Monitor F) (old : Option (MonitorValue F)) (f : MonitorValue F → Metric F)
      (v : MonitorValue F) (o : Outbox F)
      → Sends m old f
          (some v)
          o
          (if should_send (is_one m.timestamp_given) v old then emit (f v) o else o)
  value-Sends m old f v o = elim (Bool-cases (should_send (is_one m.timestamp_given) v old)) [
    | inl h ↦ rw h (record {
      metrics = _;
      adds = Adds-emit o (f v);
      reports = reported (Repeats-not m v old h);
    })
    | inr h ↦
        rw h (record {
          metrics = _;
          adds = Adds-none o;
          reports = repeated (Repeats-cached m v old h);
        })
  ]

  scalar-Sends :
      (m : Monitor F) (enrichment : Map (Json F)) (cached : Option (MonitorState F))
      (c : Option (MonitorValue F)) (o : Outbox F)
      → Sends m
          (cached_scalar cached)
          (metric_of m enrichment m.name [])
          c
          o
          (output_scalar m enrichment cached c o)
  unfolding output_scalar
  scalar-Sends m enrichment cached none o = record {
    metrics = [];
    adds = Adds-none o;
    reports = missing;
  }
  scalar-Sends m enrichment cached (some v) o = value-Sends m _ _ v o

  pub record SendsAll (m : Monitor F) (enrichment : Map (Json F)) (cached : Option (MonitorState F))
      (k : ℕ) (cs : List (Option (MonitorValue F))) (o o' : Outbox F) : Type 0 where
    pub metrics : List (Metric F)
    pub adds : Adds o metrics o'
    pub reports : ReportsAll m enrichment cached k cs metrics

  SendsAll-next :
      (m : Monitor F) (enrichment : Map (Json F)) (cached : Option (MonitorState F)) (k : ℕ)
      (c : Option (MonitorValue F)) (cs : List (Option (MonitorValue F))) (o p q : Outbox F)
      → Sends m (cached_child cached k) (child_metric m enrichment k) c o p
      → SendsAll m enrichment cached (k + 1) cs p q
      → SendsAll m enrichment cached k (c ∷ cs) o q
  SendsAll-next m enrichment cached k c cs o p q a b = record {
    metrics = _;
    adds = Adds-trans a.adds b.adds;
    reports = next a.reports b.reports;
  }

  children-SendsAll :
      (m : Monitor F) (enrichment : Map (Json F)) (cached : Option (MonitorState F)) (k : ℕ)
      (cs : List (Option (MonitorValue F))) (o : Outbox F)
      → SendsAll m enrichment cached k cs o (output_children m enrichment cached k cs o)
  unfolding output_children
  children-SendsAll m enrichment cached k [] o = record {
    metrics = [];
    adds = Adds-none o;
    reports = no_more;
  }
  children-SendsAll m enrichment cached k (none ∷ cs) o =
      SendsAll-next m enrichment cached k none cs o o _
        (record { metrics = []; adds = Adds-none o; reports = missing })
        (children-SendsAll m enrichment cached (k + 1) cs o)
  children-SendsAll m enrichment cached k (some v ∷ cs) o =
      SendsAll-next m enrichment cached k (some v) cs o _ _ (value-Sends m _ _ v o)
        (children-SendsAll m enrichment cached (k + 1) cs _)

  -- The metrics of a state: the scalar's, the children's, and the aggregate's, which is never held
  -- back.
  pub data Publishes (m : Monitor F) (enrichment : Map (Json F)) (cached : Option (MonitorState F))
      (st : MonitorState F) : List (Metric F) → Type 0 where
    publishes :
        {xs ys zs : List (Metric F)}
        → Reports m (cached_scalar cached) (metric_of m enrichment m.name []) st.scalar xs
        → ReportsAll m enrichment cached 0 st.children ys
        → Reports m none (metric_of m enrichment m.name []) st.split_op zs
        → Publishes m enrichment cached st (xs ++ (ys ++ zs))

  aggregate-Sends :
      (m : Monitor F) (enrichment : Map (Json F)) (c : Option (MonitorValue F)) (o : Outbox F)
      → Sends m none (metric_of m enrichment m.name []) c o (output_aggregate m enrichment c o)
  unfolding output_aggregate
  aggregate-Sends m enrichment none o = record {
    metrics = [];
    adds = Adds-none o;
    reports = missing;
  }
  aggregate-Sends m enrichment (some v) o = record {
    metrics = _;
    adds = Adds-emit o _;
    reports = reported (λ (r : Repeats m v none). let bad : ⊥ = ground (arith, r.cached) in bad);
  }

  -- A monitor that is not muted publishes exactly the metrics of its state, in order behind those
  -- that were sent before, and counts each of them once.
  pub output_metrics-Publishes :
      (m : Monitor F) (st : MonitorState F) (cached : Option (MonitorState F))
      (enrichment : Map (Json F)) (o : Outbox F)
      → is_muted m.send ≡ false
      → (ms : List (Metric F)) × Adds o ms (output_metrics m st cached enrichment o)
        × Publishes m enrichment cached st ms
  unfolding output_metrics
  output_metrics-Publishes m st cached enrichment o h =
      let a = scalar-Sends m enrichment cached st.scalar o in
      let b = children-SendsAll m enrichment cached 0 st.children _ in
      let c = aggregate-Sends m enrichment st.split_op _ in
      rw h
        (_, Adds-trans a.adds (Adds-trans b.adds c.adds), publishes a.reports b.reports c.reports)
