-- ===== src/Sensor/Priority.antt =====
-- The priority of a sensor over many cycles.
use redborder_monitor.Base.{
  ℕ, suc, ◌*◌, ◌||◌, ◌+◌, ◌%◌, ◌^◌, ◌<◌, ◌≤◌, ◌≡◌, refl, sym, ◌∙◌, Bool, true, false, List, [], ◌∷◌,
  length, ltb, leb, arith, if◌then◌else◌, Bool-cases, inl, inr,
}
use redborder_monitor.Base.Int.{ℤ, pos}
use redborder_monitor.Model.{Sensor}
use redborder_monitor.Sensor.{
  SafeSensor, CycleEnd, new_safe_sensor, fail_limit, had_failure, is_low_priority, update_priority,
  update_stats, finish_cycle, int32, to_int32,
}
use redborder_monitor.Sensor.Slow.{is_slow-leb}

-- A cycle fails by an error, or where its nanoseconds reach 90 % of the timeout.
abbrev pub fails : ℕ → CycleEnd → Bool
fails timeout_ms e = e.has_error || leb (9 * (timeout_ms * 1000000)) (10 * e.duration)

-- The failing cycles since the last good one, the newest cycle first.
abbrev pub streak : ℕ → List CycleEnd → ℕ
streak timeout_ms [] = 0
streak timeout_ms (e ∷ older) = if fails timeout_ms e then suc (streak timeout_ms older) else 0

pub had_failure-fails :
    (timeout_ms : ℕ) (e : CycleEnd)
    → timeout_ms * 9000000 < 2 ^ 63
    → had_failure timeout_ms e ≡ fails timeout_ms e
had_failure-fails timeout_ms e h = rw (is_slow-leb timeout_ms e.duration h) (ground arith)

streak-length : (timeout_ms : ℕ) (cycles : List CycleEnd) → streak timeout_ms cycles ≤ length cycles
streak-length timeout_ms [] = omega arith
streak-length timeout_ms (e ∷ older) = elim (Bool-cases (fails timeout_ms e)) [
  | inl h ↦ rw h (omega (arith, streak-length timeout_ms older))
  | inr h ↦ rw h (omega arith)
]

to_int32_small : (n : ℕ) → n < 2 ^ 31 → to_int32 n ≡ pos n
to_int32_small n h = ground arith

module _ {F : Type 0} where
  -- The sensor behind these cycles.
  abbrev pub after : ℤ → ℕ → SafeSensor F → List CycleEnd → SafeSensor F
  after max_fails timeout_ms ss [] = ss
  after max_fails timeout_ms ss (e ∷ older) =
      finish_cycle max_fails timeout_ms e (after max_fails timeout_ms ss older)

  -- The counter is `n`, and the sensor is slow where that reaches the limit.
  record Tracks (limit : ℕ) (n : ℕ) (ss : SafeSensor F) : Type 0 where
    counted : ss.consecutive_fails ≡ n
    slow : is_low_priority ss ≡ leb limit n

  update_priority-Tracks_failed :
      (max_fails : ℤ) (n : ℕ) (ss : SafeSensor F)
      → fail_limit max_fails < 2 ^ 31
      → n + 1 < 2 ^ 31
      → Tracks (fail_limit max_fails) n ss
      → Tracks (fail_limit max_fails) (n + 1) (update_priority max_fails true ss)
  unfolding update_priority
  update_priority-Tracks_failed max_fails n ss h k t =
      let e : (ss.consecutive_fails + 1) % 2 ^ 32 ≡ n + 1 = omega (arith, t.counted) in
      let f : int32 ((ss.consecutive_fails + 1) % 2 ^ 32) ≡ pos (n + 1) =
        ground (arith, t.counted) in
      elim (Bool-cases (ltb (n + 1 + 0) (fail_limit max_fails + 0))) [
        | inl c ↦
            rw (f, to_int32_small (fail_limit max_fails) h, c)
              (record { counted = e; slow = t.slow ∙ ground arith })
        | inr c ↦
            rw (f, to_int32_small (fail_limit max_fails) h, c)
              (record { counted = e; slow = ground arith })
      ]

  update_priority-Tracks_good :
      (max_fails : ℤ) (n : ℕ) (ss : SafeSensor F)
      → Tracks (fail_limit max_fails) n ss
      → Tracks (fail_limit max_fails) 0 (update_priority max_fails false ss)
  unfolding update_priority
  update_priority-Tracks_good max_fails n ss t =
      let k : leb (fail_limit max_fails) 0 ≡ false = ground arith in
      elim (Bool-cases (is_low_priority ss)) [
        | inl c ↦ rw c (record { counted = refl; slow = sym k })
        | inr c ↦ rw c (record { counted = refl; slow = c ∙ sym k })
      ]

  update_priority-Tracks :
      (max_fails : ℤ) (n : ℕ) (failed : Bool) (ss : SafeSensor F)
      → fail_limit max_fails < 2 ^ 31
      → n + 1 < 2 ^ 31
      → Tracks (fail_limit max_fails) n ss
      → Tracks
          (fail_limit max_fails)
          (if failed then suc n else 0)
          (update_priority max_fails failed ss)
  update_priority-Tracks max_fails n true ss h k t =
      let e : n + 1 ≡ suc n = omega arith in
      rw (sym e) (update_priority-Tracks_failed max_fails n ss h k t)
  update_priority-Tracks max_fails n false ss h k t = update_priority-Tracks_good max_fails n ss t

  after-Tracks :
      (max_fails : ℤ) (timeout_ms : ℕ) (s : Sensor F) (cycles : List CycleEnd)
      → fail_limit max_fails < 2 ^ 31
      → timeout_ms * 9000000 < 2 ^ 63
      → length cycles < 2 ^ 31
      → Tracks
          (fail_limit max_fails)
          (streak timeout_ms cycles)
          (after max_fails timeout_ms (new_safe_sensor s) cycles)
  unfolding new_safe_sensor finish_cycle update_stats
  after-Tracks max_fails timeout_ms s [] h small k = record { counted = refl; slow = ground arith }
  after-Tracks max_fails timeout_ms s (e ∷ older) h small k =
      let t =
        update_priority-Tracks max_fails (streak timeout_ms older) (fails timeout_ms e) _ h
          (omega (arith, streak-length timeout_ms older))
          (after-Tracks max_fails timeout_ms s older h small (omega arith)) in
      rw (had_failure-fails timeout_ms e small) (record { counted = t.counted; slow = t.slow })

  -- A new sensor is in the slow queue after some cycles exactly where at least as many of the newest
  -- ones as the limit have all failed, by an error or by taking 90 % of the timeout; for fewer than
  -- 2 ^ 31 cycles, a limit below that, and a timeout whose nanoseconds times 9 are below 2 ^ 63.
  pub after-is_low_priority :
      (max_fails : ℤ) (timeout_ms : ℕ) (s : Sensor F) (cycles : List CycleEnd)
      → fail_limit max_fails < 2 ^ 31
      → timeout_ms * 9000000 < 2 ^ 63
      → length cycles < 2 ^ 31
      → is_low_priority (after max_fails timeout_ms (new_safe_sensor s) cycles)
        ≡ leb (fail_limit max_fails) (streak timeout_ms cycles)
  after-is_low_priority max_fails timeout_ms s cycles h small k =
      (after-Tracks max_fails timeout_ms s cycles h small k).slow
