-- ===== src/Rate/Tests.antt =====
-- A counter of 32 bits that wraps, and a failed query between two readings.
use redborder_monitor.Base.{◌+◌, ◌≡◌, refl, some, [], ◌∷◌, inl, arith}
use redborder_monitor.Base.Text.{codes}
use redborder_monitor.Base.Int.{pos}
use redborder_monitor.Base.Map.{lookup}
use redborder_monitor.Base.Result.{ok}
use redborder_monitor.Base.Float.Sample.{Sample, sample, value}
use redborder_monitor.Model.{Monitor}
use redborder_monitor.Model.Sample.{blank_monitor, blank_sensor}
use redborder_monitor.Sensor.{new_safe_sensor}
use redborder_monitor.Query.{Failure, other_failure}
use redborder_monitor.Params.{get_string_param, get_float_param}
use redborder_monitor.Rate.{counter_oid, counter_rate, snmp_rate_plugin}
use redborder_monitor.Rate.Wrap.{reading, counter_rate-reading}
use redborder_monitor.Rate.Gap.{after_query, after_failures, snmp_rate_plugin_gap}

counter_rate-reading_example :
    counter_rate {F = Sample} (reading 32 4294967290 (pos 1)) (reading 32 (4294967290 + 12) (pos 3))
    ≡ some (value (pos 6))
counter_rate-reading_example =
    counter_rate-reading 32 4294967290 12 (pos 1) (pos 3) (inl (refl, omega arith)) refl

abbrev octets : Monitor Sample
octets = record blank_monitor { name = codes "octets"; oid = codes "1.3.6" }

abbrev no_answer : Failure
no_answer = record { kind = other_failure; message = codes "timeout" }

snmp_rate_plugin_gap_example :
    (snmp_rate_plugin octets (ok (reading 32 (8 + 12) (pos 9))) (
      after_failures octets
        (no_answer ∷ no_answer ∷ [])
        (after_query octets (ok (reading 32 8 (pos 3))) (new_safe_sensor blank_sensor)))).0
    ≡ ok (sample.format_f (value (pos 2)))
unfolding counter_oid get_string_param get_float_param lookup
snmp_rate_plugin_gap_example =
    snmp_rate_plugin_gap octets 32 8 12 (pos 3) (pos 9) (no_answer ∷ no_answer ∷ [])
      (new_safe_sensor blank_sensor) refl (inl (refl, omega arith)) refl
