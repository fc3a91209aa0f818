-- ===== src/Reload/Keeps.antt =====
-- What a reload leaves of the sensors that run.
use redborder_monitor.Base.{
  ℕ, zero, suc, ◌+◌, ◌≡◌, refl, sym, ap, ◌∙◌, Option, none, some, List, [], ◌∷◌, ◌++◌, map, length,
  length-append, get_elem?, arith,
}
use redborder_monitor.Base.Map.{Map, lookup}
use redborder_monitor.Model.{Json, Sensor, Config}
use redborder_monitor.Sensor.{SafeSensor, new_safe_sensor}
use redborder_monitor.Reload.{
  Daemon, write, normal_sensors, existing_map, redefine, redefine_found, update_known,
  update_sensor, update_sensors, reload_sensors,
}

pub some_injective : {A : Type 0} {x y : A} → some x ≡ some y → x ≡ y
some_injective e = cc e

length-map : {A B : Type 0} (f : A → B) (xs : List A) → length (map f xs) ≡ length xs
length-map f [] = refl
length-map f (x ∷ xs) = ap suc (length-map f xs)

module _ {F : Type 0} where
  -- The same object with at most another definition and enrichment: its cache, its counter readings,
  -- its priority, its failures, its statistics and its lock are as they were.
  pub record Redefined (old new : SafeSensor F) : Type 0 where
    pub sensor : Sensor F
    pub enrichment : Map (Json F)
    pub same_state : new ≡ record old { sensor = sensor; enrichment = enrichment }

  with_definition : SafeSensor F → Sensor F → Map (Json F) → SafeSensor F
  with_definition x s enrichment = record x { sensor = s; enrichment = enrichment }

  -- Every object of the old store is in the new one, at its index.
  abbrev pub AllKept : List (SafeSensor F) → List (SafeSensor F) → Type 0
  AllKept [] new = Unit
  AllKept (x ∷ old) [] = ⊥
  AllKept (x ∷ old) (y ∷ new) = Redefined x y × AllKept old new

  Redefined-refl : (x : SafeSensor F) → Redefined x x
  Redefined-refl x = record { sensor = x.sensor; enrichment = x.enrichment; same_state = refl }

  Redefined-trans : (x y z : SafeSensor F) → Redefined x y → Redefined y z → Redefined x z
  unfolding with_definition
  Redefined-trans x y z f g = record {
    sensor = g.sensor;
    enrichment = g.enrichment;
    same_state =
        g.same_state
        ∙ ap (λ (v : SafeSensor F). with_definition v g.sensor g.enrichment) f.same_state;
  }

  AllKept-refl : (xs : List (SafeSensor F)) → AllKept xs xs
  AllKept-refl [] = tt
  AllKept-refl (x ∷ xs) = (Redefined-refl x, AllKept-refl xs)

  AllKept-trans : (xs ys zs : List (SafeSensor F)) → AllKept xs ys → AllKept ys zs → AllKept xs zs
  AllKept-trans [] ys zs f g = tt
  AllKept-trans (x ∷ xs) [] zs f g = absurd f
  AllKept-trans (x ∷ xs) (y ∷ ys) [] f g = absurd g
  AllKept-trans (x ∷ xs) (y ∷ ys) (z ∷ zs) f g =
      (Redefined-trans x y z f.0 g.0, AllKept-trans xs ys zs f.1 g.1)

  AllKept-append : (xs ys : List (SafeSensor F)) → AllKept xs (xs ++ ys)
  AllKept-append [] ys = tt
  AllKept-append (x ∷ xs) ys = (Redefined-refl x, AllKept-append xs ys)

  AllKept-write :
      (xs : List (SafeSensor F)) (i : ℕ) (s : Sensor F) (x : SafeSensor F)
      → get_elem? xs i ≡ some x
      → AllKept xs (write i (redefine s x) xs)
  unfolding write
  AllKept-write [] i s x e = tt
  AllKept-write (y ∷ xs) zero s x e = (
    record { sensor = s; enrichment = _; same_state = ap (redefine s) (sym (some_injective e)) },
    AllKept-refl xs,
  )
  AllKept-write (y ∷ xs) (suc i) s x e = (Redefined-refl y, AllKept-write xs i s x e)

  redefine_found-AllKept :
      (s : Sensor F) (i : ℕ) (o : Option (SafeSensor F)) (store : List (SafeSensor F))
      → get_elem? store i ≡ o
      → AllKept store (redefine_found s i o store)
  redefine_found-AllKept s i none store e = AllKept-refl store
  redefine_found-AllKept s i (some x) store e = AllKept-write store i s x e

  update_known-AllKept :
      (o : Option ℕ) (s : Sensor F) (d : Daemon F) → AllKept d.store (update_known o s d).store
  update_known-AllKept none s d = AllKept-append d.store (new_safe_sensor s ∷ [])
  update_known-AllKept (some i) s d = redefine_found-AllKept s i (get_elem? d.store i) d.store refl

  length-update_known :
      (o : Option ℕ) (s : Sensor F) (d : Daemon F)
      → length (update_known o s d).active ≡ length d.active + 1
  length-update_known none s d = length-append d.active (length d.store ∷ [])
  length-update_known (some i) s d = length-append d.active (i ∷ [])

  update_sensors-AllKept :
      (known : Map ℕ) (ss : List (Sensor F)) (d : Daemon F)
      → AllKept d.store (update_sensors known ss d).store
        × (length (update_sensors known ss d).active ≡ length d.active + length ss)
  unfolding update_sensors update_sensor
  update_sensors-AllKept known [] d = (AllKept-refl d.store, omega arith)
  update_sensors-AllKept known (s ∷ ss) d =
      let next = update_sensor known s d in
      let (kept, n) = update_sensors-AllKept known ss next in
      (
        AllKept-trans d.store next.store _ (update_known-AllKept (lookup s.sensor_name known) s d)
            kept,
        omega (arith, n, length-update_known (lookup s.sensor_name known) s d),
      )

  -- A reload keeps every sensor object with its state, and makes one entry active for each sensor of
  -- the new configuration.
  pub reload_sensors-AllKept :
      (config : Config F) (d : Daemon F)
      → AllKept d.store (reload_sensors config d).store
        × (length (reload_sensors config d).active ≡ length config.sensors)
  unfolding reload_sensors normal_sensors
  reload_sensors-AllKept config d =
      let (kept, n) =
        update_sensors-AllKept (existing_map d.store d.active []) (normal_sensors config)
          (record d { active = [] }) in
      (kept, omega (arith, n, length-map _ config.sensors))
