-- ===== src/Rate/Gap.antt =====
-- Failed queries between two readings.
use redborder_monitor.Base.{
  ℕ, ◌+◌, Bool, ◌&&◌, if◌then◌else◌, ◌≡◌, refl, ap, ◌∙◌, false, some, List, [], ◌∷◌, ◌++◌,
}
use redborder_monitor.Base.Text.{Bytes, codes, is_empty}
use redborder_monitor.Base.Map.{lookup, insert, lookup-insert_self}
use redborder_monitor.Base.Float.{Float}
use redborder_monitor.Base.Result.{Result, ok, err}
use redborder_monitor.Model.{Monitor}
use redborder_monitor.Sensor.{SafeSensor, CounterSample}
use redborder_monitor.Query.{Failure}
use redborder_monitor.Base.Int.{ℤ, sub_ℤ}
use redborder_monitor.Params.{get_float_param}
use redborder_monitor.Rate.Wrap.{reading, Readable, counter_rate-reading}
use redborder_monitor.Rate.{
  bounded_rate, is_not_positive, no_sample_of, swap_counter_sample, counter_oid, publish_rate,
  snmp_rate_plugin,
}

module _ {F : Type 0} ⦃fl : Float F⦄ where
  -- The sensor behind one query, and behind several that fail.
  abbrev pub after_query : Monitor F → Result Failure CounterSample → SafeSensor F → SafeSensor F
  after_query m q ss = (snmp_rate_plugin m q ss).1

  abbrev pub after_failures : Monitor F → List Failure → SafeSensor F → SafeSensor F
  after_failures m [] ss = ss
  after_failures m (f ∷ fs) ss = after_failures m fs (after_query m (err f) ss)

  abbrev key_of : Monitor F → Bytes
  key_of m = m.name ++ (codes "|" ++ counter_oid m)

  snmp_rate_plugin-err :
      (m : Monitor F) (f : Failure) (ss : SafeSensor F)
      → is_empty (counter_oid m) ≡ false
      → snmp_rate_plugin m (err f) ss ≡ (err f, ss)
  unfolding snmp_rate_plugin
  snmp_rate_plugin-err m f ss h = rw h refl

  snmp_rate_plugin-ok :
      (m : Monitor F) (cur : CounterSample) (ss : SafeSensor F)
      → is_empty (counter_oid m) ≡ false
      → snmp_rate_plugin m (ok cur) ss ≡ (
        publish_rate m (lookup (key_of m) ss.counters) cur,
        record ss { counters = insert (key_of m) cur ss.counters },
      )
  unfolding snmp_rate_plugin swap_counter_sample
  snmp_rate_plugin-ok m cur ss h = rw h refl

  after_failures-same :
      (m : Monitor F) (fs : List Failure) (ss : SafeSensor F)
      → is_empty (counter_oid m) ≡ false
      → after_failures m fs ss ≡ ss
  after_failures-same m [] ss h = refl
  after_failures-same m (f ∷ fs) ss h =
      ap (λ p. after_failures m fs p.1) (snmp_rate_plugin-err m f ss h)
      ∙ after_failures-same m fs ss h

  snmp_rate_plugin-behind :
      (m : Monitor F) (first second : CounterSample) (fs : List Failure) (ss : SafeSensor F)
      → is_empty (counter_oid m) ≡ false
      → (snmp_rate_plugin m (ok second) (after_failures m fs (after_query m (ok first) ss))).0
        ≡ publish_rate m (some first) second
  snmp_rate_plugin-behind m first second fs ss h =
      let before = after_query m (ok first) ss in
      ap (λ x. (snmp_rate_plugin m (ok second) x).0) (after_failures-same m fs before h)
      ∙ ap (λ p. p.0) (snmp_rate_plugin-ok m second before h)
      ∙ ap (λ p. publish_rate m (lookup (key_of m) p.1.counters) second)
          (snmp_rate_plugin-ok m first ss h)
      ∙ ap (λ o. publish_rate m o second) (lookup-insert_self (key_of m) first ss.counters)

  -- the rate with the parameter `multiplier`, 1 where it is absent
  abbrev pub multiplied : Monitor F → F → F
  multiplied m rate = fl.mul rate (get_float_param m.params (codes "multiplier") (fl.of_ℕ 1))

  -- above the parameter `max_rate`, where that is positive
  abbrev pub is_excessive : Monitor F → F → Bool
  is_excessive m rate =
      let bound = get_float_param m.params (codes "max_rate") fl.zero_value in
      fl.float_lt fl.zero_value bound && fl.float_lt bound rate

  -- If a counter has counted `more` between two readings, a number that these can tell, and the
  -- clock has moved on, then the second reading publishes `more` by the seconds between them times
  -- the multiplier, or counts as no sample where that is above a positive `max_rate`, however many
  -- queries have failed in between.
  pub snmp_rate_plugin_gap :
      (m : Monitor F) (bits total more : ℕ) (a b : ℤ) (fs : List Failure) (ss : SafeSensor F)
      → is_empty (counter_oid m) ≡ false
      → Readable bits total more
      → is_not_positive (fl.seconds (sub_ℤ b a)) ≡ false
      → (snmp_rate_plugin m
          (ok (reading bits (total + more) b))
          (after_failures m fs (after_query m (ok (reading bits total a)) ss))).0
        ≡ (let rate = multiplied m (fl.div (fl.of_ℕ more) (fl.seconds (sub_ℤ b a))) in
            if is_excessive m rate
            then err (no_sample_of (codes "rate above max_rate for " ++ counter_oid m))
            else ok (fl.format_f rate))
  unfolding publish_rate bounded_rate get_float_param counter_oid
  snmp_rate_plugin_gap m bits total more a b fs ss h r k =
      snmp_rate_plugin-behind m (reading bits total a) (reading bits (total + more) b) fs ss h
      ∙ rw (publish_rate, counter_rate-reading bits total more a b r k) refl
