-- ===== src/Reload/Tests.antt =====
-- A reload with one kept and one new sensor, and sensors without a name.
use redborder_monitor.Base.{◌≡◌, refl, [], ◌∷◌, map}
use redborder_monitor.Base.Text.{codes, Bytes, same}
use redborder_monitor.Base.Map.{lookup, insert}
use redborder_monitor.Base.Float.Sample.{Sample}
use redborder_monitor.Model.{Config, Sensor}
use redborder_monitor.Model.Sample.{blank_conf, blank_sensor}
use redborder_monitor.Sensor.{new_safe_sensor}
use redborder_monitor.Reload.{
  start_daemon, normal_sensors, normalize, existing_map, write, update_sensor, update_sensors,
  reload_sensors,
}
use redborder_monitor.Reload.Reuse.{Reuses, reload_sensors-Reuses}
use redborder_monitor.Reload.Names.{Named, reload_sensors-Named}

abbrev sensor_at : Bytes → Bytes → Sensor Sample
sensor_at name ip = record blank_sensor { sensor_name = name; sensor_ip = ip }

abbrev first : Config Sample
first = record { conf = blank_conf; sensors = sensor_at (codes "a") (codes "1") ∷ [] }

abbrev second : Config Sample
second = record {
  conf = blank_conf;
  sensors = sensor_at (codes "b") (codes "2") ∷ sensor_at (codes "a") (codes "3") ∷ [];
}

reload_sensors-Reuses_example :
    Reuses
      (start_daemon first)
      (map (λ s. s.sensor_name) second.sensors)
      (reload_sensors second (start_daemon first))
reload_sensors-Reuses_example = reload_sensors-Reuses second (start_daemon first)

reload_sensors-Named_example :
    Named
      (reload_sensors second (start_daemon first)).store
      (reload_sensors second (start_daemon first)).active
      (map (λ s. s.sensor_name) second.sensors)
reload_sensors-Named_example = reload_sensors-Named second (start_daemon first)

abbrev nameless : Config Sample
nameless = record {
  conf = blank_conf;
  sensors = sensor_at [] (codes "1") ∷ sensor_at [] (codes "2") ∷ [];
}

-- two sensors without a name become one object at the first reload
joined : (reload_sensors nameless (start_daemon nameless)).active ≡ 1 ∷ 1 ∷ []
unfolding reload_sensors start_daemon normal_sensors normalize existing_map update_sensors
    update_sensor lookup insert new_safe_sensor same write
joined = refl
