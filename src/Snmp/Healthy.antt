-- ===== src/Snmp/Healthy.antt =====
-- internal/monitor/snmp.go with the cycle of internal/monitor/processor.go: a sensor whose agent
-- answers.
use redborder_monitor.Base.{
  ℕ, suc, ◌*◌, ◌^◌, ◌<◌, ◌+◌, ◌≡◌, ◌⊎◌, inl, inr, refl, ◌∙◌, true, false, ◌&&◌, Option, none, some,
  List, [], ◌∷◌, get_elem?, arith, Bool-cases, Option-cases,
}
use redborder_monitor.Base.Text.{is_empty}
use redborder_monitor.Base.Int.{ℤ, positive_or}
use redborder_monitor.Base.Float.{Float}
use redborder_monitor.Model.{Monitor}
use redborder_monitor.Values.{MonitorState}
use redborder_monitor.Sensor.{
  SafeSensor, CycleEnd, is_low_priority, update_priority, update_stats, finish_cycle, had_failure,
}
use redborder_monitor.Sensor.Priority.{had_failure-fails}
use redborder_monitor.Query.{
  World, Reply, Gathering, is_queried, is_serious, end_query, query, no_results, run_queries,
}
use redborder_monitor.Cycle.{
  Loop, Run, new_state, process_monitor, process_monitors, publish_if, publish_state, run_cycle,
}
use redborder_monitor.Snmp.Session.{Login, login_of}
use redborder_monitor.Snmp.Client.{SnmpClient, query_outcome, solve_snmp_query}
use redborder_monitor.Snmp.Reachable.{asked_in_vain, process_snmp_monitor-serious}

module _ {F : Type 0} ⦃fl : Float F⦄ where
  -- a formula: no query and no command
  abbrev pub IsFormula : Monitor F → Type 0
  IsFormula m = (is_queried m ≡ false) × (is_empty m.system ≡ true)

  -- The monitor has an OID and is answered by an agent that is not asked in vain, or is a formula.
  abbrev pub IsAnswered : SnmpClient → Login → Monitor F → Reply F → Type 0
  IsAnswered c l m r =
      ((is_empty m.oid ≡ false)
        × (r.snmp ≡ query_outcome (solve_snmp_query c l m.oid))
        × (asked_in_vain c l m.oid ≡ false))
      ⊎ IsFormula m

module _ {F : Type 0} ⦃fl : Float F⦄ (c : SnmpClient) (l : Login) (w : World F) where
  query-not_serious :
      (i : ℕ) (m : Monitor F)
      → IsAnswered c l m (w.reply i)
      → (is_queried m && is_serious (query w i m).failure) ≡ false
  unfolding query
  query-not_serious i m (inl (o, e, v)) =
      let k = process_snmp_monitor-serious c l m (w.reply i) e ∙ v in rw (o, k) (ground arith)
  query-not_serious i m (inr (q, s)) = rw q refl

  end_query-has_error :
      (i : ℕ) (m : Monitor F) (g : Gathering F)
      → IsAnswered c l m (w.reply i)
      → g.has_error ≡ false
      → (end_query w i m g).has_error ≡ false
  unfolding end_query
  end_query-has_error i m g a h = let k = query-not_serious i m a in ground arith

  run_queries-no_error :
      (ms : List (Monitor F)) (order : List ℕ) (g : Gathering F)
      → ((i : ℕ) (m : Monitor F) → get_elem? ms i ≡ some m → IsAnswered c l m (w.reply i))
      → g.has_error ≡ false
      → (run_queries w ms order g).has_error ≡ false
  unfolding run_queries
  run_queries-no_error ms [] g a h = h
  run_queries-no_error ms (i ∷ order) g a h = elim (Option-cases (get_elem? ms i)) [
    | inl e ↦ rw (e, run_queries) (run_queries-no_error ms order g a h)
    | inr (m, e) ↦
        rw (e, run_queries)
          (run_queries-no_error ms order (end_query w i m g) a
            (end_query-has_error i m g (a i m e) h))
  ]

module _ {F : Type 0} ⦃fl : Float F⦄ where
  -- a monitor without a command
  abbrev IsSilent : Monitor F → Type 0
  IsSilent m = (is_queried m ≡ true) ⊎ (is_empty m.system ≡ true)

module _ {F : Type 0} ⦃fl : Float F⦄ (w : World F) where
  new_state-failure :
      (results : ℕ → Option (MonitorState F)) (i : ℕ) (m : Monitor F) (l : Loop F)
      → IsSilent m
      → (new_state w results i m l.current).failure ≡ none
  unfolding new_state
  new_state-failure results i m l (inl q) = rw q refl
  new_state-failure results i m l (inr s) = elim (Bool-cases (is_queried m)) [
    | inl q ↦ rw q refl
    | inr q ↦ elim (Bool-cases (is_empty m.op)) [
      | inl o ↦ rw (q, s, o) refl
      | inr o ↦ rw (q, s, o) refl
    ]
  ]

  publish_if-has_error :
      (ss : SafeSensor F) (m : Monitor F) (o : Option (MonitorState F)) (l : Loop F)
      → (publish_if ss m o l).has_error ≡ l.has_error
  unfolding publish_state
  publish_if-has_error ss m none l = refl
  publish_if-has_error ss m (some st) l = refl

  process_monitors-no_error :
      (results : ℕ → Option (MonitorState F)) (ss : SafeSensor F) (i : ℕ) (ms : List (Monitor F))
      (l : Loop F)
      → ((j : ℕ) (m : Monitor F) → get_elem? ms j ≡ some m → IsSilent m)
      → l.has_error ≡ false
      → (process_monitors w results ss i ms l).has_error ≡ false
  unfolding process_monitors process_monitor
  process_monitors-no_error results ss i [] l a h = h
  process_monitors-no_error results ss i (m ∷ ms) l a h =
      let k = new_state-failure results i m l (a 0 m refl) in
      process_monitors-no_error results ss (i + 1) ms _ (λ j n e. a (suc j) n e)
        (publish_if-has_error ss m (new_state w results i m l.current).state _ ∙ rw (h, k) refl)

module _ {F : Type 0} ⦃fl : Float F⦄ where
  IsAnswered-IsSilent :
      (c : SnmpClient) (l : Login) (m : Monitor F) (r : Reply F) → IsAnswered c l m r → IsSilent m
  IsAnswered-IsSilent c l m r (inl (o, e, v)) = inl (rw o refl)
  IsAnswered-IsSilent c l m r (inr (q, s)) = inr s

-- in the queue of fast sensors, without a failure that is counted
abbrev pub IsHealthy : {F : Type 0} → SafeSensor F → Type 0
IsHealthy ss = (ss.consecutive_fails ≡ 0) × (is_low_priority ss ≡ false)

had_failure-false :
    (timeout : ℕ) (e : CycleEnd)
    → timeout * 9000000 < 2 ^ 63
    → 10 * e.duration < 9 * (timeout * 1000000)
    → e.has_error ≡ false
    → had_failure timeout e ≡ false
had_failure-false timeout e small h k = had_failure-fails timeout e small ∙ rw k (ground arith)

module _ {F : Type 0} where
  finish_cycle-IsHealthy :
      (max_fails : ℤ) (timeout : ℕ) (e : CycleEnd) (ss : SafeSensor F)
      → had_failure timeout e ≡ false
      → IsHealthy (finish_cycle max_fails timeout e ss)
  unfolding finish_cycle update_stats update_priority
  finish_cycle-IsHealthy max_fails timeout e ss h = elim (Bool-cases (is_low_priority ss)) [
    | inl k ↦ rw (h, k) (refl, refl)
    | inr k ↦ rw (h, k) (refl, k)
  ]

module _ {F : Type 0} ⦃fl : Float F⦄ (c : SnmpClient) (w : World F) where
  -- A cycle over monitors that are formulas or have an OID, whose queries the SNMP client answers
  -- with the credentials of the sensor, never asking the agent in vain, and that takes less than
  -- 90 % of the time-out, leaves the sensor in the fast queue with no failure counted, whatever was
  -- counted before and in whatever order the queries end: names that cannot be resolved, exceptions
  -- and texts in place of numbers do not matter; for a time-out whose nanoseconds times 9 are below
  -- 2 ^ 63.
  pub run_cycle-IsHealthy :
      (max_fails : ℤ) (r : Run F)
      → ((i : ℕ) (m : Monitor F)
          → get_elem? r.safe.sensor.monitors i ≡ some m
          → IsAnswered c (login_of r.safe.sensor) m (w.reply i))
      → positive_or 5000 r.safe.sensor.timeout * 9000000 < 2 ^ 63
      → 10 * w.duration < 9 * (positive_or 5000 r.safe.sensor.timeout * 1000000)
      → IsHealthy (run_cycle max_fails w r).safe
  unfolding run_cycle
  run_cycle-IsHealthy max_fails r a small h =
      let ms = r.safe.sensor.monitors in
      let g = run_queries w ms w.order no_results in
      let gathered =
        run_queries-no_error c (login_of r.safe.sensor) w ms w.order no_results a refl in
      let start : Loop F = record {
        current = r.safe.cache;
        cache = r.safe.cache;
        outbox = r.outbox;
        has_error = g.has_error;
        errors = g.errors;
      } in
      let looped =
        process_monitors-no_error w g.new_states r.safe 0 ms start
          (λ j m e. IsAnswered-IsSilent c (login_of r.safe.sensor) m (w.reply j) (a j m e))
          gathered in
      let l = process_monitors w g.new_states r.safe 0 ms start in
      let end : CycleEnd = record {
        start = w.start;
        duration = w.duration;
        has_error = l.has_error;
        errors = l.errors;
      } in
      finish_cycle-IsHealthy max_fails (positive_or 5000 r.safe.sensor.timeout) end
        (record r.safe { cache = l.cache }) (had_failure-false _ end small h looped)
