-- ===== src/Sensor.antt =====
-- internal/monitor/processor.go: `SafeSensor`, the state that a sensor keeps between cycles, with
-- its counters, its status and the enrichment of its metrics. 32-bit and 64-bit counters are their
-- bits: numbers that wrap at 2 ^ 32 and 2 ^ 64.
mod Tests
pub mod Slow
pub mod Priority
use redborder_monitor.Base.{
  ℕ, ◌+◌, ◌*◌, ◌-◌, ◌%◌, ◌^◌, ◌≡◌, Bool, true, false, not, Option, none, some, List, [], ◌∷◌, ltb,
  leb, ◌==◌, ◌/◌, ◌||◌, if◌then◌else◌,
}
use redborder_monitor.Base.Text.{Bytes, codes, is_empty}
use redborder_monitor.Base.Int.{
  ℤ, pos, negsuc, is_positive, positive_or, ltb_ℤ, mul_ℤ, quot_ℤ, wrap_64, ms_duration,
}
use redborder_monitor.Base.Map.{Map, insert, merge}
use redborder_monitor.Base.Split.{join}
use redborder_monitor.Model.{Json, text, int, Monitor, Sensor}
use redborder_monitor.Values.{MonitorState}

-- one reading of a counter: its value, its width and the time in nanoseconds
pub record CounterSample : Type 0 where
  pub value : ℕ
  pub bits : ℕ
  pub at : ℤ

pub record SafeSensor (F : Type 0) : Type 0 where
  pub sensor : Sensor F
  pub locked : Bool
  pub cache : Map (MonitorState F)
  pub enrichment : Map (Json F)
  pub low_priority : ℕ
  pub consecutive_fails : ℕ
  pub last_run_timestamp : ℤ
  pub last_run_duration_ms : ℕ
  pub last_error : Bytes
  pub error_count : ℕ
  pub timeout_count : ℕ
  pub skipped_count : ℕ
  pub counters : Map CounterSample

-- the number that 32 bits stand for
abbrev pub int32 : ℕ → ℤ
int32 n = if ltb n (2 ^ 31) then pos n else negsuc (2 ^ 32 - 1 - n)

-- `int32(x)`: the lower 32 bits of a positive number
abbrev pub to_int32 : ℕ → ℤ
to_int32 n = int32 (n % 2 ^ 32)

abbrev pub increment_64 : ℕ → ℕ
increment_64 n = (n + 1) % 2 ^ 64

-- seconds below 100 become milliseconds; anything not positive is 5000
unfoldable pub normal_timeout : ℤ → ℤ
normal_timeout (negsuc n) = pos 5000
normal_timeout (pos n) = if n == 0 then pos 5000 else if ltb n 100 then pos (n * 1000) else pos n

module _ {F : Type 0} where
  abbrev pub is_low_priority : SafeSensor F → Bool
  is_low_priority ss = ss.low_priority == 1

  abbrev pub set_low_priority : Bool → SafeSensor F → SafeSensor F
  set_low_priority low ss = record ss { low_priority = if low then 1 else 0 }

  abbrev pub inc_consecutive_fails : SafeSensor F → SafeSensor F
  inc_consecutive_fails ss = record ss { consecutive_fails = (ss.consecutive_fails + 1) % 2 ^ 32 }

  abbrev pub reset_consecutive_fails : SafeSensor F → SafeSensor F
  reset_consecutive_fails ss = record ss { consecutive_fails = 0 }

  abbrev pub inc_skipped_count : SafeSensor F → SafeSensor F
  inc_skipped_count ss = record ss { skipped_count = increment_64 ss.skipped_count }

  unfoldable pub sensor_enrichment : Sensor F → Map (Json F)
  sensor_enrichment s =
      let named = insert (codes "sensor_name") (text s.sensor_name) (merge s.enrichment []) in
      if is_positive s.sensor_id then insert (codes "sensor_id") (int s.sensor_id) named else named

  unfoldable pub new_safe_sensor : Sensor F → SafeSensor F
  new_safe_sensor s = record {
    sensor = record s { timeout = normal_timeout s.timeout };
    locked = false;
    cache = [];
    enrichment = sensor_enrichment s;
    low_priority = 0;
    consecutive_fails = 0;
    last_run_timestamp = pos 0;
    last_run_duration_ms = 0;
    last_error = [];
    error_count = 0;
    timeout_count = 0;
    skipped_count = 0;
    counters = [];
  }

  unfoldable pub get_monitor_type : Monitor F → Bytes
  get_monitor_type m =
      if not (is_empty m.system)
      then codes "system"
      else if not (is_empty m.oid)
      then codes "snmp"
      else if not (is_empty m.op)
      then codes "op"
      else []

  -- `if v != "" { dst[k] = v }`
  abbrev pub insert_text : Bytes → Bytes → Map (Json F) → Map (Json F)
  insert_text k v m = if is_empty v then m else insert k (text v) m

  unfoldable pub build_monitor_enrichment : SafeSensor F → Monitor F → Map (Json F)
  build_monitor_enrichment ss m = insert_text (codes "group_name") m.group_name (
      insert_text (codes "unit") m.unit (
        insert (codes "type") (text (get_monitor_type m))
          (merge m.enrichment (merge ss.enrichment []))))

-- the report of a sensor over the socket
pub record SensorStatus : Type 0 where
  pub name : Bytes
  pub ip : Bytes
  pub queue : Bytes
  pub last_run_timestamp : ℤ
  pub last_run_duration_ms : ℕ
  pub last_error : Bytes
  pub error_count : ℕ
  pub timeout_count : ℕ
  pub skipped_count : ℕ

unfoldable pub get_status : {F : Type 0} → SafeSensor F → SensorStatus
get_status ss = record {
  name = ss.sensor.sensor_name;
  ip = ss.sensor.sensor_ip;
  queue = if is_low_priority ss then codes "LOW" else codes "HIGH";
  last_run_timestamp = ss.last_run_timestamp;
  last_run_duration_ms = ss.last_run_duration_ms;
  last_error = ss.last_error;
  error_count = ss.error_count;
  timeout_count = ss.timeout_count;
  skipped_count = ss.skipped_count;
}

unfoldable pub reset_stats : {F : Type 0} → SafeSensor F → SafeSensor F
reset_stats ss = record ss {
  last_run_timestamp = pos 0;
  last_run_duration_ms = 0;
  last_error = [];
  error_count = 0;
  timeout_count = 0;
  skipped_count = 0;
}

-- What the end of a cycle knows of it: the start in seconds, the duration in nanoseconds, the errors in the order in
-- which they came.
pub record CycleEnd : Type 0 where
  pub start : ℤ
  pub duration : ℕ
  pub has_error : Bool
  pub errors : List Bytes

-- `MaxSNMPFails`, 2 if it is not positive
abbrev pub fail_limit : ℤ → ℕ
fail_limit n = positive_or 2 n

-- 90 % of the timeout, computed in nanoseconds in an `int64`
abbrev pub slow_threshold : ℕ → ℤ
slow_threshold timeout_ms = quot_ℤ (wrap_64 (mul_ℤ (ms_duration timeout_ms) (pos 9))) 10

-- `duration >= threshold`
unfoldable pub is_slow : ℕ → ℕ → Bool
is_slow timeout_ms duration = not (ltb_ℤ (pos duration) (slow_threshold timeout_ms))

abbrev pub had_failure : ℕ → CycleEnd → Bool
had_failure timeout_ms e = is_slow timeout_ms e.duration || e.has_error

module _ {F : Type 0} where
  unfoldable pub update_priority : ℤ → Bool → SafeSensor F → SafeSensor F
  update_priority max_fails true ss =
      let failed = inc_consecutive_fails ss in
      if ltb_ℤ (int32 failed.consecutive_fails) (to_int32 (fail_limit max_fails))
      then failed
      else set_low_priority true failed
  update_priority max_fails false ss =
      let reset = reset_consecutive_fails ss in
      if is_low_priority ss then set_low_priority false reset else reset

  unfoldable pub update_stats : ℕ → CycleEnd → SafeSensor F → SafeSensor F
  update_stats timeout_ms e ss = record ss {
    last_run_timestamp = e.start;
    last_run_duration_ms = e.duration / 1000000;
    last_error = join (codes "; ") e.errors;
    error_count = if is_empty e.errors then ss.error_count else increment_64 ss.error_count;
    timeout_count =
        if is_slow timeout_ms e.duration then increment_64 ss.timeout_count else ss.timeout_count;
  }

  -- the end of `ProcessSensor`, behind the loop over the monitors
  unfoldable pub finish_cycle : ℤ → ℕ → CycleEnd → SafeSensor F → SafeSensor F
  finish_cycle max_fails timeout_ms e ss =
      update_stats timeout_ms e (update_priority max_fails (had_failure timeout_ms e) ss)
