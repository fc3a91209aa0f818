-- ===== src/Loading/Defaults.antt =====
-- internal/monitor/config.go: the sensors that `LoadConfig` lets through, and what becomes of its
-- defaults.
use mathlib.Core.Path.{subst}
use redborder_monitor.Base.{
  ◌≡◌, refl, ◌∙◌, false, ◌&&◌, some, List, [], ◌∷◌, All, Bool-cases, inl, inr,
}
use redborder_monitor.Base.Text.{Bytes, is_empty}
use redborder_monitor.Base.Result.{Result, ok, bind-eq-ok}
use redborder_monitor.Model.{Conf, Config, Monitor, Sensor}
use redborder_monitor.Comments.{strip_comments}
use redborder_monitor.Loading.{
  RawConfig, clean_monitors, clean_sensors, conf_over, default_conf, load_over, load_config,
}
use redborder_monitor.Loading.Decode.{
  JsonDecoder, RawConf, traverse, unmarshal_conf, unmarshal_sensor,
}

module _ {F : Type 0} where
  -- The sensor has a name or an address, and each of its monitors has a name.
  abbrev pub IsUsable : Sensor F → Type 0
  IsUsable s =
      ((is_empty s.sensor_name && is_empty s.sensor_ip) ≡ false)
      × All (λ m. is_empty m.name ≡ false) s.monitors

  clean_monitors-All :
      (ms : List (Monitor F)) → All (λ m. is_empty m.name ≡ false) (clean_monitors ms)
  unfolding clean_monitors
  clean_monitors-All [] = tt
  clean_monitors-All (m ∷ ms) = elim (Bool-cases (is_empty m.name)) [
    | inl h ↦ rw h (clean_monitors-All ms)
    | inr h ↦ rw h (h, clean_monitors-All ms)
  ]

  clean_sensors-IsUsable : (ss : List (Sensor F)) → All IsUsable (clean_sensors ss)
  unfolding clean_sensors
  clean_sensors-IsUsable [] = tt
  clean_sensors-IsUsable (s ∷ ss) =
      elim (Bool-cases (is_empty s.sensor_name && is_empty s.sensor_ip)) [
        | inl h ↦ rw h (clean_sensors-IsUsable ss)
        | inr h ↦ rw h ((h, clean_monitors-All s.monitors), clean_sensors-IsUsable ss)
      ]

module _ {F : Type 0} (d : JsonDecoder) where
  load_over-IsUsable :
      (before : Conf F) (root : RawConfig F) (config : Config F)
      → load_over d before root ≡ ok config
      → All IsUsable config.sensors
  unfolding load_over
  load_over-IsUsable before root config e =
      let (conf, f, g) = bind-eq-ok (conf_over d before root.conf) _ e in
      let (sensors, h, k) = bind-eq-ok (traverse (unmarshal_sensor d) root.sensors) _ g in
      let p : clean_sensors sensors ≡ config.sensors = cc k in
      subst (All IsUsable) p (clean_sensors-IsUsable sensors)

  same_root :
      (before after : Conf F) (root : RawConfig F) (raw : RawConf F)
      → root.conf ≡ some raw
      → load_over d before root ≡ load_over d after root
  unfolding load_over unmarshal_conf
  same_root before after root raw h = rw h refl

  -- From a file with a `conf` block that is loaded, every sensor has a name or an address, each of its
  -- monitors has a name, and the same is loaded whatever values stood in the configuration before, so
  -- none of the defaults set for absent keys is seen.
  pub load_config-IsUsable :
      (read_root : Bytes → Result Bytes (RawConfig F)) (file : Bytes) (root : RawConfig F)
      (raw : RawConf F) (config : Config F)
      → read_root (strip_comments file) ≡ ok root
      → root.conf ≡ some raw
      → load_config d read_root (ok file) ≡ ok config
      → All IsUsable config.sensors × ((before : Conf F) → load_over d before root ≡ ok config)
  unfolding load_config
  load_config-IsUsable read_root file root raw config e f h =
      let k : load_over d default_conf root ≡ ok config = rw (← h, e) refl in
      (
        load_over-IsUsable default_conf root config k,
        (λ before. same_root before default_conf root raw f ∙ k),
      )
