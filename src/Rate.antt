-- ===== src/Rate.antt =====
-- internal/monitor/rate.go: the rate of a counter between two readings, and the plugin that keeps
-- the last reading of each counter.
pub mod Wrap
pub mod Gap
mod Tests
use redborder_monitor.Base.{
  ℕ, ◌+◌, ◌-◌, ◌%◌, ◌^◌, ◌≡◌, Bool, true, false, not, ◌&&◌, ◌||◌, Option, none, some, ◌++◌, ltb,
  leb, ◌==◌, if◌then◌else◌,
}
use redborder_monitor.Base.Text.{Bytes, codes, is_empty}
use redborder_monitor.Base.Int.{ℤ, sub_ℤ}
use redborder_monitor.Base.Map.{lookup, insert}
use redborder_monitor.Base.Float.{Float}
use redborder_monitor.Base.Result.{Result, ok, err}
use redborder_monitor.Model.{Monitor}
use redborder_monitor.Sensor.{SafeSensor, CounterSample}
use redborder_monitor.Query.{Failure, no_sample, other_failure}
use redborder_monitor.Params.{get_string_param, get_float_param}

-- the previous reading, and the sensor that keeps the new one
unfoldable pub swap_counter_sample :
    {F : Type 0} → Bytes → CounterSample → SafeSensor F → Option CounterSample × SafeSensor F
swap_counter_sample key cur ss =
    (lookup key ss.counters, record ss { counters = insert key cur ss.counters })

-- the increase of a counter, in uint64; `none` is a reset
unfoldable pub counter_delta : CounterSample → CounterSample → Option ℕ
counter_delta prev cur =
    if not (cur.bits == prev.bits)
    then none
    else if leb prev.value cur.value
    then some (cur.value - prev.value)
    else if cur.bits == 32
    then some (((2 ^ 32 + (2 ^ 64 - prev.value)) + cur.value) % 2 ^ 64)
    else none

abbrev pub missing_oid : Failure
missing_oid = record { kind = other_failure; message = codes "missing OID for SNMP rate plugin" }

abbrev pub no_sample_of : Bytes → Failure
no_sample_of s = record {
  kind = no_sample;
  message = codes "no sample to publish this cycle: " ++ s;
}

module _ {F : Type 0} ⦃fl : Float F⦄ where
  -- `seconds <= 0`
  abbrev pub is_not_positive : F → Bool
  is_not_positive x = fl.float_lt x fl.zero_value || fl.float_eq x fl.zero_value

  unfoldable pub counter_rate : CounterSample → CounterSample → Option F
  counter_rate prev cur =
      let elapsed = fl.seconds (sub_ℤ cur.at prev.at) in
      if is_not_positive elapsed then none else elim (counter_delta prev cur) [
        | none ↦ none
        | some d ↦ some (fl.div (fl.of_ℕ d) elapsed)
      ]

  unfoldable pub counter_oid : Monitor F → Bytes
  counter_oid m = get_string_param m.params (codes "oid") m.oid

  -- the rate with its factor, where it is no more than the bound
  unfoldable pub bounded_rate : Monitor F → F → Result Failure Bytes
  bounded_rate m rate =
      let scaled = fl.mul rate (get_float_param m.params (codes "multiplier") (fl.of_ℕ 1)) in
      let bound = get_float_param m.params (codes "max_rate") fl.zero_value in
      if fl.float_lt fl.zero_value bound && fl.float_lt bound scaled
      then err (no_sample_of (codes "rate above max_rate for " ++ counter_oid m))
      else ok (fl.format_f scaled)

  -- what is published for a reading behind a previous one
  unfoldable pub publish_rate :
      Monitor F → Option CounterSample → CounterSample → Result Failure Bytes
  publish_rate m none cur = err (no_sample_of (codes "first reading of " ++ counter_oid m))
  publish_rate m (some prev) cur = elim (counter_rate prev cur) [
    | none ↦ err (no_sample_of (codes "counter " ++ (counter_oid m ++ codes " reset")))
    | some rate ↦ bounded_rate m rate
  ]

  unfoldable pub snmp_rate_plugin :
      Monitor F → Result Failure CounterSample → SafeSensor F → Result Failure Bytes × SafeSensor F
  snmp_rate_plugin m reading ss =
      if is_empty (counter_oid m) then (err missing_oid, ss) else elim reading [
        | err f ↦ (err f, ss)
        | ok cur ↦
            let swapped = swap_counter_sample (m.name ++ (codes "|" ++ counter_oid m)) cur ss in
            (publish_rate m swapped.0 cur, swapped.1)
      ]
