-- ===== src/Reload/Reuse.antt =====
-- Which of the sensor objects that run a reload takes over.
use mathlib.Core.Path.{subst}
use mathlib.Core.List.{append_assoc, append-nil}
use redborder_monitor.Base.{
  ℕ, ◌≡◌, ◌⊎◌, refl, sym, ap, ◌∙◌, Option, none, some, List, [], ◌∷◌, ◌++◌, map, length, get_elem?,
  Bool-cases, inl, inr, true,
}
use redborder_monitor.Base.Text.{Bytes, same, same_iff}
use redborder_monitor.Base.Map.{Map, lookup, insert, lookup-insert}
use redborder_monitor.Model.{Sensor, Config}
use redborder_monitor.Sensor.{SafeSensor}
use redborder_monitor.Reload.Keeps.{some_injective, AllKept, reload_sensors-AllKept}
use redborder_monitor.Reload.Names.{
  name_of, name_at, existing_map-IsKnown, sensor_names, sensor_names-normal,
}
use redborder_monitor.Reload.{
  Daemon, default_timeout, normalize, normal_sensors, know, existing_map, update_known,
  update_sensor, update_sensors, reload_sensors,
}

abbrev pub Has : ℕ → List ℕ → Type 0
Has i [] = ⊥
Has i (j ∷ js) = (i ≡ j) ⊎ Has i js

-- the map names only these objects
abbrev Within : Map ℕ → List ℕ → Type 0
Within known js = (n : Bytes) (i : ℕ) → lookup n known ≡ some i → Has i js

-- the map has this name
abbrev Knows : Bytes → Map ℕ → Type 0
Knows n known = (i : ℕ) × (lookup n known ≡ some i)

insert-Within :
    (name : Bytes) (i : ℕ) (known : Map ℕ) (js : List ℕ)
    → Has i js
    → Within known js
    → Within (insert name i known) js
insert-Within name i known js h w n j e = elim (Bool-cases (same name n)) [
  | inl p ↦
      let found : some i ≡ some j = sym (rw p refl) ∙ sym (lookup-insert name n i known) ∙ e in
      subst (λ q. Has q js) (some_injective found) h
  | inr p ↦ w n j (sym (rw p refl) ∙ sym (lookup-insert name n i known) ∙ e)
]

insert-Knows :
    (name n : Bytes) (i : ℕ) (known : Map ℕ)
    → (same name n ≡ true) ⊎ Knows n known
    → Knows n (insert name i known)
insert-Knows name n i known h = elim (Bool-cases (same name n)) [
  | inl p ↦ (i, lookup-insert name n i known ∙ rw p refl)
  | inr p ↦ elim h [
    | inl q ↦ absurd (cc (p, q))
    | inr (j, e) ↦ (j, lookup-insert name n i known ∙ rw p e)
  ]
]

-- the entries that the map gives for these names
abbrev FromMap : Map ℕ → List ℕ → List Bytes → Type 0
FromMap known [] [] = Unit
FromMap known (i ∷ is) (n ∷ ns) = ((j : ℕ) → lookup n known ≡ some j → i ≡ j) × FromMap known is ns
FromMap known _ _ = ⊥

module _ {F : Type 0} where
  -- For each name, where an active object had it, the index stands for such an object.
  abbrev pub Reused : Daemon F → List ℕ → List Bytes → Type 0
  Reused d [] [] = Unit
  Reused d (i ∷ is) (n ∷ ns) =
      ((j : ℕ)
        → Has j d.active
        → name_at d.store j ≡ some n
        → Has i d.active × (name_at d.store i ≡ some n))
      × Reused d is ns
  Reused d _ _ = ⊥

  -- What a reload makes of the sensors `d`, for sensors with these names.
  pub record Reuses (d : Daemon F) (names : List Bytes) (d' : Daemon F) : Type 0 where
    pub kept : AllKept d.store d'.store
    pub reused : Reused d d'.active names

  know-Within :
      (o : Option (SafeSensor F)) (i : ℕ) (known : Map ℕ) (js : List ℕ)
      → Has i js
      → Within known js
      → Within (know o i known) js
  know-Within none i known js h w = w
  know-Within (some ss) i known js h w = insert-Within ss.sensor.sensor_name i known js h w

  existing_map-Within :
      (store : List (SafeSensor F)) (is js : List ℕ) (known : Map ℕ)
      → ((i : ℕ) → Has i is → Has i js)
      → Within known js
      → Within (existing_map store is known) js
  unfolding existing_map
  existing_map-Within store [] js known sub w = w
  existing_map-Within store (i ∷ is) js known sub w =
      existing_map-Within store is js (know (get_elem? store i) i known) (λ k h. sub k (inr h))
        (know-Within (get_elem? store i) i known js (sub i (inl refl)) w)

  know-Knows :
      (o : Option (SafeSensor F)) (n : Bytes) (i : ℕ) (known : Map ℕ)
      → (name_of o ≡ some n) ⊎ Knows n known
      → Knows n (know o i known)
  know-Knows none n i known (inl e) = cc e
  know-Knows none n i known (inr k) = k
  know-Knows (some ss) n i known (inl e) =
      insert-Knows _ n i known (inl ((same_iff _ _).1 (some_injective e)))
  know-Knows (some ss) n i known (inr k) = insert-Knows _ n i known (inr k)

  existing_map-Knows :
      (store : List (SafeSensor F)) (is : List ℕ) (n : Bytes) (known : Map ℕ)
      → ((j : ℕ) × Has j is × (name_at store j ≡ some n)) ⊎ Knows n known
      → Knows n (existing_map store is known)
  unfolding existing_map
  existing_map-Knows store [] n known (inl (j, h, e)) = absurd h
  existing_map-Knows store [] n known (inr k) = k
  existing_map-Knows store (i ∷ is) n known (inr k) =
      existing_map-Knows store is n _ (inr (know-Knows (get_elem? store i) n i known (inr k)))
  existing_map-Knows store (i ∷ is) n known (inl (j, inl p, e)) = existing_map-Knows store is n _ (
      inr (
        know-Knows (get_elem? store i) n i known (inl (subst (λ q. name_at store q ≡ some n) p e))))
  existing_map-Knows store (i ∷ is) n known (inl (j, inr h, e)) =
      existing_map-Knows store is n _ (inl (j, h, e))

  update_known-active :
      (o : Option ℕ) (s : Sensor F) (d : Daemon F)
      → (i : ℕ) × ((update_known o s d).active ≡ d.active ++ i ∷ [])
        × ((j : ℕ) → o ≡ some j → i ≡ j)
  update_known-active none s d = (length d.store, refl, (λ j e. cc e))
  update_known-active (some i) s d = (i, refl, (λ j e. some_injective e))

  update_sensors-FromMap :
      (known : Map ℕ) (ss : List (Sensor F)) (d : Daemon F)
      → (is : List ℕ) × ((update_sensors known ss d).active ≡ d.active ++ is)
        × FromMap known is (sensor_names ss)
  unfolding update_sensors update_sensor
  update_sensors-FromMap known [] d = ([], sym (append-nil d.active), tt)
  update_sensors-FromMap known (s ∷ ss) d =
      let (is, e, f) = update_sensors-FromMap known ss (update_sensor known s d) in
      let (i, a, h) = update_known-active (lookup s.sensor_name known) s d in
      (i ∷ is, e ∙ ap (λ l. l ++ is) a ∙ append_assoc d.active (i ∷ []) is, (h, f))

  FromMap-Reused :
      (d : Daemon F) (is : List ℕ) (ns : List Bytes)
      → FromMap (existing_map d.store d.active []) is ns
      → Reused d is ns
  unfolding lookup
  FromMap-Reused d [] [] f = tt
  FromMap-Reused d (i ∷ is) (n ∷ ns) f = (
    (λ j h e.
        let (k, found) = existing_map-Knows d.store d.active n [] (inl (j, h, e)) in
        let same_index = sym (f.0 k found) in
        (
          subst (λ q. Has q d.active) same_index
              (existing_map-Within d.store d.active d.active [] (λ q g. g) (λ q r g. cc g) n k
                found),
          subst (λ q. name_at d.store q ≡ some n) same_index
              (existing_map-IsKnown d.store d.active [] (λ q r g. cc g) n k found),
        )),
    FromMap-Reused d is ns f.1,
  )
  FromMap-Reused d [] (n ∷ ns) f = absurd f
  FromMap-Reused d (i ∷ is) [] f = absurd f

  -- A reload reuses the sensors that run: the entries that are active afterwards stand for
  -- the sensors of the configuration, one for one, and where an active object had the name of
  -- one, its entry is such an object; and every object keeps its cache, its counter readings,
  -- its priority, its failures, its statistics and its lock.
  pub reload_sensors-Reuses :
      (config : Config F) (d : Daemon F)
      → Reuses d (sensor_names config.sensors) (reload_sensors config d)
  unfolding reload_sensors normal_sensors
  reload_sensors-Reuses config d =
      let ss = map (normalize (default_timeout config.conf.timeout)) config.sensors in
      let (is, e, f) =
        update_sensors-FromMap (existing_map d.store d.active []) ss (record d { active = [] }) in
      record {
        kept = (reload_sensors-AllKept config d).0;
        reused =
            subst (Reused d _)
              (sensor_names-normal (default_timeout config.conf.timeout) config.sensors)
              (subst (λ l. Reused d l (sensor_names ss)) (sym e) (FromMap-Reused d is _ f));
      }
