-- ===== src/Reload/Names.antt =====
-- Which sensor object a reload makes active for each sensor of the configuration.
use mathlib.Core.Path.{subst}
use mathlib.Core.List.{append_assoc, append-nil}
use redborder_monitor.Base.{
  ℕ, zero, suc, ◌≡◌, refl, sym, ap, ◌∙◌, Option, none, some, List, [], ◌∷◌, ◌++◌, map, length,
  get_elem?, Bool-cases, inl, inr,
}
use redborder_monitor.Base.Text.{Bytes, same, same_iff}
use redborder_monitor.Base.Map.{Map, lookup, insert, lookup-insert}
use redborder_monitor.Model.{Sensor, Config}
use redborder_monitor.Sensor.{SafeSensor, new_safe_sensor}
use redborder_monitor.Reload.Keeps.{some_injective}
use redborder_monitor.Reload.{
  Daemon, write, default_timeout, normalize, normal_sensors, know, existing_map, redefine,
  redefine_found, update_known, update_sensor, update_sensors, reload_sensors,
}

module _ {F : Type 0} where
  -- the name of the object at an index
  abbrev pub name_of : Option (SafeSensor F) → Option Bytes
  name_of none = none
  name_of (some ss) = some ss.sensor.sensor_name

  abbrev pub name_at : List (SafeSensor F) → ℕ → Option Bytes
  name_at store i = name_of (get_elem? store i)

  -- The objects at these indices have these names, one for one.
  abbrev pub Named : List (SafeSensor F) → List ℕ → List Bytes → Type 0
  Named store [] [] = Unit
  Named store (i ∷ is) (n ∷ ns) = (name_at store i ≡ some n) × Named store is ns
  Named store _ _ = ⊥

  -- Names stay where they are.
  Stable : List (SafeSensor F) → List (SafeSensor F) → Type 0
  Stable old new = (i : ℕ) (n : Bytes) → name_at old i ≡ some n → name_at new i ≡ some n

  Named-Stable :
      (old new : List (SafeSensor F)) (is : List ℕ) (ns : List Bytes)
      → Stable old new
      → Named old is ns
      → Named new is ns
  unfolding Stable
  Named-Stable old new [] [] h k = tt
  Named-Stable old new (i ∷ is) (n ∷ ns) h k = (h i n k.0, Named-Stable old new is ns h k.1)
  Named-Stable old new [] (n ∷ ns) h k = absurd k
  Named-Stable old new (i ∷ is) [] h k = absurd k

  Named-snoc :
      (store : List (SafeSensor F)) (is : List ℕ) (ns : List Bytes) (i : ℕ) (n : Bytes)
      → Named store is ns
      → name_at store i ≡ some n
      → Named store (is ++ i ∷ []) (ns ++ n ∷ [])
  Named-snoc store [] [] i n h k = (k, tt)
  Named-snoc store (j ∷ is) (m ∷ ns) i n h k = (h.0, Named-snoc store is ns i n h.1 k)
  Named-snoc store [] (m ∷ ns) i n h k = absurd h
  Named-snoc store (j ∷ is) [] i n h k = absurd h

  write-named :
      (store : List (SafeSensor F)) (i : ℕ) (s : Sensor F) (x : SafeSensor F)
      → get_elem? store i ≡ some x
      → name_of (some x) ≡ some s.sensor_name
      → name_at (write i (redefine s x) store) i ≡ some s.sensor_name
  unfolding write
  write-named [] i s x e k = cc e
  write-named (y ∷ store) zero s x e k = refl
  write-named (y ∷ store) (suc i) s x e k = write-named store i s x e k

  write-Stable :
      (store : List (SafeSensor F)) (i : ℕ) (s : Sensor F) (x : SafeSensor F)
      → get_elem? store i ≡ some x
      → name_of (some x) ≡ some s.sensor_name
      → (j : ℕ) (n : Bytes) → name_at store j ≡ some n
      → name_at (write i (redefine s x) store) j ≡ some n
  unfolding write
  write-Stable [] i s x e k j n h = cc h
  write-Stable (y ∷ store) zero s x e k zero n h = sym k ∙ ap name_of (sym e) ∙ h
  write-Stable (y ∷ store) zero s x e k (suc j) n h = h
  write-Stable (y ∷ store) (suc i) s x e k zero n h = h
  write-Stable (y ∷ store) (suc i) s x e k (suc j) n h = write-Stable store i s x e k j n h

  redefine_found-Stable :
      (s : Sensor F) (i : ℕ) (o : Option (SafeSensor F)) (store : List (SafeSensor F))
      → get_elem? store i ≡ o
      → name_of o ≡ some s.sensor_name
      → Stable store (redefine_found s i o store)
        × (name_at (redefine_found s i o store) i ≡ some s.sensor_name)
  unfolding Stable
  redefine_found-Stable s i none store e k = cc k
  redefine_found-Stable s i (some x) store e k =
      (write-Stable store i s x e k, write-named store i s x e k)

  append-Stable :
      (store : List (SafeSensor F)) (x : SafeSensor F)
      → Stable store (store ++ x ∷ [])
        × (name_at (store ++ x ∷ []) (length store) ≡ some x.sensor.sensor_name)
  unfolding Stable
  append-Stable [] x = ((λ i n e. cc e), refl)
  append-Stable (y ∷ store) x = let (h, k) = append-Stable store x in ((λ i n e. go h i n e), k)
    where
      go :
          ((i : ℕ) (n : Bytes) → name_at store i ≡ some n → name_at (store ++ x ∷ []) i ≡ some n)
          → (i : ℕ) (n : Bytes) → name_at (y ∷ store) i ≡ some n
          → name_at (y ∷ store ++ x ∷ []) i ≡ some n
      go h zero n e = e
      go h (suc i) n e = h i n e

  -- The map of the known names is right about the store.
  abbrev pub IsKnown : Map ℕ → List (SafeSensor F) → Type 0
  IsKnown known store = (n : Bytes) (i : ℕ) → lookup n known ≡ some i → name_at store i ≡ some n

  insert-IsKnown :
      (store : List (SafeSensor F)) (x : SafeSensor F) (i : ℕ) (known : Map ℕ)
      → IsKnown known store
      → get_elem? store i ≡ some x
      → IsKnown (insert x.sensor.sensor_name i known) store
  insert-IsKnown store x i known h e n j k = elim (Bool-cases (same x.sensor.sensor_name n)) [
    | inl p ↦
        let found : some i ≡ some j =
          sym (rw p refl) ∙ sym (lookup-insert x.sensor.sensor_name n i known) ∙ k in
        let named : x.sensor.sensor_name ≡ n = (same_iff _ _).0 p in
        subst (λ q. name_at store q ≡ some n) (some_injective found) (ap name_of e ∙ ap some named)
    | inr p ↦ h n j (sym (rw p refl) ∙ sym (lookup-insert x.sensor.sensor_name n i known) ∙ k)
  ]

  know-IsKnown :
      (store : List (SafeSensor F)) (o : Option (SafeSensor F)) (i : ℕ) (known : Map ℕ)
      → IsKnown known store
      → get_elem? store i ≡ o
      → IsKnown (know o i known) store
  know-IsKnown store none i known h e = h
  know-IsKnown store (some x) i known h e = insert-IsKnown store x i known h e

  pub existing_map-IsKnown :
      (store : List (SafeSensor F)) (is : List ℕ) (known : Map ℕ)
      → IsKnown known store
      → IsKnown (existing_map store is known) store
  unfolding existing_map
  existing_map-IsKnown store [] known h = h
  existing_map-IsKnown store (i ∷ is) known h =
      existing_map-IsKnown store is _ (know-IsKnown store (get_elem? store i) i known h refl)

  -- What the loop over the sensors keeps.
  record Loops (known : Map ℕ) (d : Daemon F) (names : List Bytes) : Type 0 where
    is_known : IsKnown known d.store
    named : Named d.store d.active names

  update_known-Loops :
      (known : Map ℕ) (s : Sensor F) (d : Daemon F) (names : List Bytes) (o : Option ℕ)
      → lookup s.sensor_name known ≡ o
      → Loops known d names
      → Loops known (update_known o s d) (names ++ s.sensor_name ∷ [])
  unfolding Stable new_safe_sensor
  update_known-Loops known s d names (some i) e l =
      let (stable, n) =
        redefine_found-Stable s i (get_elem? d.store i) d.store refl (l.is_known _ i e) in
      record {
        is_known = λ m j k. stable j m (l.is_known m j k);
        named =
            Named-snoc _ d.active names i _ (Named-Stable d.store _ d.active names stable l.named)
              n;
      }
  update_known-Loops known s d names none e l =
      let (stable, n) = append-Stable d.store (new_safe_sensor s) in
      record {
        is_known = λ m j k. stable j m (l.is_known m j k);
        named =
            Named-snoc _ d.active names _ _ (Named-Stable d.store _ d.active names stable l.named)
              n;
      }

  abbrev pub sensor_names : List (Sensor F) → List Bytes
  sensor_names = map (λ s. s.sensor_name)

  update_sensors-Loops :
      (known : Map ℕ) (ss : List (Sensor F)) (d : Daemon F) (names : List Bytes)
      → Loops known d names
      → Loops known (update_sensors known ss d) (names ++ sensor_names ss)
  unfolding update_sensors update_sensor
  update_sensors-Loops known [] d names l = rw append-nil l
  update_sensors-Loops known (s ∷ ss) d names l =
      subst (Loops known _) (append_assoc names (s.sensor_name ∷ []) (sensor_names ss)) (
        update_sensors-Loops known ss _ (names ++ s.sensor_name ∷ [])
          (update_known-Loops known s d names (lookup s.sensor_name known) refl l))

  pub sensor_names-normal :
      (default : ℕ) (ss : List (Sensor F))
      → sensor_names (map (normalize default) ss) ≡ map (λ s. s.sensor_name) ss
  unfolding normalize
  sensor_names-normal default [] = refl
  sensor_names-normal default (s ∷ ss) =
      ap (λ l. s.sensor_name ∷ l) (sensor_names-normal default ss)

  -- Behind a reload the active sensors are, one for one and in order, objects with the names of the
  -- configured sensors, also where two of these have one name.
  pub reload_sensors-Named :
      (config : Config F) (d : Daemon F)
      → Named
          (reload_sensors config d).store
          (reload_sensors config d).active
          (map (λ s. s.sensor_name) config.sensors)
  unfolding reload_sensors normal_sensors lookup
  reload_sensors-Named config d =
      let ss = map (normalize (default_timeout config.conf.timeout)) config.sensors in
      let known = existing_map d.store d.active [] in
      let start : Daemon F = record d { active = [] } in
      let l = update_sensors-Loops known ss start [] (record {
        is_known = existing_map-IsKnown d.store d.active [] (λ n i e. cc e);
        named = tt;
      }) in
      subst (Named _ _) (sensor_names-normal (default_timeout config.conf.timeout) config.sensors)
        l.named
