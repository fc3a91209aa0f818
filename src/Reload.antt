-- ===== src/Reload.antt =====
-- cmd/redborder-monitor/main.go: the sensors of the daemon at the start and at a reload. The sensor
-- objects live in a store and are named by their index in it, since the old and the new list share
-- them: a reload redefines the objects of the sensors that it knows by name.
pub mod Keeps
pub mod Names
pub mod Reuse
mod Tests
use redborder_monitor.Base.{
  ℕ, zero, suc, ◌+◌, ◌*◌, ◌≡◌, Bool, true, false, Option, none, some, List, [], ◌∷◌, ◌++◌, map,
  length, get_elem?, ltb, ◌==◌, if◌then◌else◌,
}
use redborder_monitor.Base.Int.{ℤ, pos, negsuc, positive_or}
use redborder_monitor.Base.Map.{Map, lookup, insert}
use redborder_monitor.Model.{Conf, Sensor, Config}
use redborder_monitor.Sensor.{SafeSensor, new_safe_sensor, sensor_enrichment}

pub record Daemon (F : Type 0) : Type 0 where
  pub store : List (SafeSensor F)
  -- `safeSensors`
  pub active : List ℕ

-- `if t < 100 { t = t * 1000 }`
abbrev pub milliseconds : ℕ → ℕ
milliseconds t = if ltb t 100 then t * 1000 else t

unfoldable pub default_timeout : ℤ → ℕ
default_timeout t = milliseconds (positive_or 5 t)

-- `write i x`: the store with another object at `i`
unfoldable pub write : {A : Type 0} → ℕ → A → List A → List A
write i x [] = []
write zero x (y ∷ ys) = x ∷ ys
write (suc i) x (y ∷ ys) = y ∷ write i x ys

abbrev pub timeout_or : ℕ → ℤ → ℤ
timeout_or default (negsuc n) = pos default
timeout_or default (pos n) = if n == 0 then pos default else pos (milliseconds n)

-- the indices of a store of `n` objects, from `k` on
abbrev pub indices : ℕ → ℕ → List ℕ
indices k zero = []
indices k (suc n) = k ∷ indices (k + 1) n

module _ {F : Type 0} where
  unfoldable pub normalize : ℕ → Sensor F → Sensor F
  normalize default s = record s { timeout = timeout_or default s.timeout }

  unfoldable pub normal_sensors : Config F → List (Sensor F)
  normal_sensors config = map (normalize (default_timeout config.conf.timeout)) config.sensors

  unfoldable pub start_daemon : Config F → Daemon F
  start_daemon config =
      let sensors = normal_sensors config in
      record { store = map new_safe_sensor sensors; active = indices 0 (length sensors) }

  abbrev pub know : Option (SafeSensor F) → ℕ → Map ℕ → Map ℕ
  know none i known = known
  know (some ss) i known = insert ss.sensor.sensor_name i known

  -- `existingMap`: a later sensor of the same name replaces an earlier one
  unfoldable pub existing_map : List (SafeSensor F) → List ℕ → Map ℕ → Map ℕ
  existing_map store [] known = known
  existing_map store (i ∷ is) known = existing_map store is (know (get_elem? store i) i known)

  abbrev pub redefine : Sensor F → SafeSensor F → SafeSensor F
  redefine s ss = record ss { sensor = s; enrichment = sensor_enrichment s }

  -- `ss.Sensor = s` and the new enrichment, at an index of the store
  abbrev pub redefine_found :
      Sensor F → ℕ → Option (SafeSensor F) → List (SafeSensor F) → List (SafeSensor F)
  redefine_found s i none store = store
  redefine_found s i (some ss) store = write i (redefine s ss) store

  -- one sensor of the new configuration, by the object that has its name
  abbrev pub update_known : Option ℕ → Sensor F → Daemon F → Daemon F
  update_known (some i) s d = record {
    store = redefine_found s i (get_elem? d.store i) d.store;
    active = d.active ++ i ∷ [];
  }
  update_known none s d = record {
    store = d.store ++ new_safe_sensor s ∷ [];
    active = d.active ++ length d.store ∷ [];
  }

  unfoldable pub update_sensor : Map ℕ → Sensor F → Daemon F → Daemon F
  update_sensor known s d = update_known (lookup s.sensor_name known) s d

  unfoldable pub update_sensors : Map ℕ → List (Sensor F) → Daemon F → Daemon F
  update_sensors known [] d = d
  update_sensors known (s ∷ ss) d = update_sensors known ss (update_sensor known s d)

  -- `reloadConfig`, its part for the sensors
  unfoldable pub reload_sensors : Config F → Daemon F → Daemon F
  reload_sensors config d =
      update_sensors (existing_map d.store d.active []) (normal_sensors config)
        (record d { active = [] })
