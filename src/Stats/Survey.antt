-- ===== src/Stats/Survey.antt =====
-- What the report says of the sensors.
use mathlib.Core.List.{append_assoc, append-nil}
use redborder_monitor.Base.{
  ℕ, not, ◌&&◌, Bool-cases, ◌≤◌, ◌≡◌, ◌⊎◌, inl, inr, refl, sym, ◌∙◌, true, false, List, [], ◌∷◌,
  ◌++◌, map, All, arith,
}
use redborder_monitor.Base.Int.{ℤ, pos, negsuc, pos_part, is_positive, ltb_ℤ}
use redborder_monitor.Sensor.{SafeSensor, get_status, reset_stats}
use redborder_monitor.Stats.{Counts, Stats, is_over_budget, survey, get_stats, reset_all}

module _ {F : Type 0} where
  -- one of the sensors satisfies `P`
  abbrev pub Any : (SafeSensor F → Type 0) → List (SafeSensor F) → Type 0
  Any P [] = ⊥
  Any P (x ∷ xs) = P x ⊎ Any P xs

  -- The sensor has run, and has taken its timeout or longer; every duration is longer than a negative
  -- timeout.
  abbrev pub IsLate : SafeSensor F → Type 0
  IsLate ss =
      (1 ≤ pos_part ss.last_run_timestamp) × (pos_part ss.sensor.timeout ≤ ss.last_run_duration_ms)

  is_over_budget-IsLate :
      (ss : SafeSensor F)
      → (is_over_budget ss ≡ true → IsLate ss) × (is_over_budget ss ≡ false → ¬ IsLate ss)
  is_over_budget-IsLate ss = cases ss.last_run_timestamp ss.sensor.timeout ss.last_run_duration_ms
    where
      cases :
          (at timeout : ℤ) (duration : ℕ)
          → ((is_positive at && not (ltb_ℤ (pos duration) timeout)) ≡ true
              → (1 ≤ pos_part at) × (pos_part timeout ≤ duration))
            × ((is_positive at && not (ltb_ℤ (pos duration) timeout)) ≡ false
                → ¬ ((1 ≤ pos_part at) × (pos_part timeout ≤ duration)))
      cases (pos n) (pos t) duration = ground arith
      cases (pos n) (negsuc t) duration = ground arith
      cases (negsuc n) timeout duration = ground arith

  -- The report `r'` of these sensors, begun from `r`.
  pub record Surveys (sensors : List (SafeSensor F)) (r r' : Stats) : Type 0 where
    pub statuses : r'.sensors ≡ r.sensors ++ map get_status sensors
    -- the budget is kept exactly where it was and no sensor is late
    pub kept :
        r'.cycle_budget_ok ≡ true → (r.cycle_budget_ok ≡ true) × All (λ ss. ¬ IsLate ss) sensors
    pub exceeded : r'.cycle_budget_ok ≡ false → (r.cycle_budget_ok ≡ false) ⊎ Any IsLate sensors
    -- the duration is the greatest, and some sensor has it
    pub from : r.max_sensor_run_duration_ms ≤ r'.max_sensor_run_duration_ms
    pub bound : All (λ ss. ss.last_run_duration_ms ≤ r'.max_sensor_run_duration_ms) sensors
    pub attained :
        (r'.max_sensor_run_duration_ms ≡ r.max_sensor_run_duration_ms)
        ⊎ Any (λ ss. r'.max_sensor_run_duration_ms ≡ ss.last_run_duration_ms) sensors

  survey-Surveys :
      (sensors : List (SafeSensor F)) (r : Stats) → Surveys sensors r (survey sensors r)
  unfolding survey
  survey-Surveys [] r = record {
    statuses = sym (append-nil _);
    kept = λ h. (h, tt);
    exceeded = λ h. inl h;
    from = omega arith;
    bound = tt;
    attained = inl refl;
  }
  survey-Surveys (ss ∷ sensors) r =
      let s = survey-Surveys sensors _ in
      record {
        statuses =
            s.statuses ∙ append_assoc r.sensors (get_status ss ∷ []) (map get_status sensors);
        kept = λ h.
            let (a, b) = s.kept h in
            let on_time : is_over_budget ss ≡ false = ground arith in
            (ground arith, ((is_over_budget-IsLate ss).1 on_time, b));
        exceeded = λ h. elim (s.exceeded h) [
          | inl a ↦ elim (Bool-cases (is_over_budget ss)) [
            | inl e ↦ inr (inl ((is_over_budget-IsLate ss).0 e))
            | inr e ↦ inl (ground arith)
          ]
          | inr a ↦ inr (inr a)
        ];
        from = let e = s.from in ground arith;
        bound = (let e = s.from in ground arith, s.bound);
        attained = elim s.attained [ inl a ↦ ground arith | inr a ↦ inr (inr a) ];
      }

  -- The report lists the status of each sensor in order; it says that the budget is kept exactly
  -- where no sensor is late, that is, has run at a time above 0 with a duration that is its timeout
  -- or longer; its greatest duration bounds all durations and is 0 or that of a sensor.
  pub get_stats-Surveys :
      (counts : Counts) (sensors : List (SafeSensor F))
      → Surveys sensors
          (record {
            counts = counts;
            max_sensor_run_duration_ms = 0;
            cycle_budget_ok = true;
            sensors = [];
          })
          (get_stats counts sensors)
  unfolding get_stats
  get_stats-Surveys counts sensors = survey-Surveys sensors _

  survey-reset_stats :
      (sensors : List (SafeSensor F)) (r : Stats)
      → r.max_sensor_run_duration_ms ≡ 0
      → r.cycle_budget_ok ≡ true
      → ((survey (map reset_stats sensors) r).max_sensor_run_duration_ms ≡ 0)
        × ((survey (map reset_stats sensors) r).cycle_budget_ok ≡ true)
  unfolding survey reset_stats
  survey-reset_stats [] r h k = (h, k)
  survey-reset_stats (ss ∷ sensors) r h k =
      survey-reset_stats sensors _ (ground arith) (ground arith)

  -- Directly behind a reset the greatest duration in the report is 0 and the budget is kept.
  pub get_stats-reset_all :
      (counts : Counts) (sensors : List (SafeSensor F))
      → ((get_stats
            (reset_all (counts, sensors)).0
            (reset_all (counts, sensors)).1).max_sensor_run_duration_ms
          ≡ 0)
        × ((get_stats
              (reset_all (counts, sensors)).0
              (reset_all (counts, sensors)).1).cycle_budget_ok
            ≡ true)
  unfolding get_stats reset_all
  get_stats-reset_all counts sensors = survey-reset_stats sensors _ refl refl
