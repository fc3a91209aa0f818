-- ===== src/Snmp/Timeouts.antt =====
-- internal/monitor/snmp.go: how long the attempts of a request take of the time of a cycle.
use redborder_monitor.Base.{
  ◌^◌, ap, some, leb, Bool, true, false, ℕ, ◌+◌, ◌*◌, ◌≤◌, ◌<◌, ◌≡◌, ◌/◌, inl, inr, refl, arith,
  ltb, Bool-cases,
}
use redborder_monitor.Base.Int.{positive_or, pos, wrap_64-small}
use redborder_monitor.Model.{Sensor}
use redborder_monitor.Snmp.Session.{setup_snmp_params, attempt_timeout, login_of, sensor_context}

attempt_timeout-bound :
    (t : ℕ)
    → (300 ≤ t → (3 * attempt_timeout t 2 ≤ t) × (t < 3 * attempt_timeout t 2 + 3))
      × (t < 300 → attempt_timeout t 2 ≡ t)
unfolding attempt_timeout
attempt_timeout-bound t = (
  (λ h. elim (Bool-cases (ltb (t / 3) 100)) [
    | inl e ↦ let x : ⊥ = ground arith in absurd x
    | inr e ↦ rw e (omega arith, omega arith)
  ]),
  (λ h. elim (Bool-cases (ltb (t / 3) 100)) [
    | inl e ↦ rw e refl
    | inr e ↦ let x : ⊥ = ground arith in absurd x
  ]),
)

-- What one attempt takes of the time that a cycle has, both in nanoseconds, for a time-out that is
-- long or not.
abbrev pub TakesOf : Bool → ℕ → ℕ → Type 0
TakesOf true cycle attempt = (3 * attempt ≤ cycle) × (cycle < 3 * attempt + 3000000)
TakesOf false cycle attempt = attempt ≡ cycle

attempt_timeout-TakesOf :
    (t : ℕ) → TakesOf (leb 300 t) (t * 1000000) (attempt_timeout t 2 * 1000000)
attempt_timeout-TakesOf t = elim (Bool-cases (leb 300 t)) [
  | inl e ↦
      let (a, b) = (attempt_timeout-bound t).0 (ground arith) in
      rw e (omega (arith, a), omega (arith, b))
  | inr e ↦ let k = (attempt_timeout-bound t).1 (ground arith) in rw e (omega (arith, k))
]

attempt_timeout-le : (t : ℕ) → attempt_timeout t 2 ≤ t
unfolding attempt_timeout
attempt_timeout-le t = ground arith

-- The session of a sensor's query runs in a context that ends with the time-out of the sensor, which
-- is 5 s where it is not positive, and makes three attempts. With a time-out of 300 ms or more the
-- three together take at most this time, and less than 3 ms below it; with less, the first attempt
-- alone has all of it, so none is left for another; for a time-out whose nanoseconds are below 2 ^ 63.
pub setup_snmp_params-TakesOf :
    {F : Type 0} (s : Sensor F)
    → let t = positive_or 5000 s.timeout in
      let p = setup_snmp_params (login_of s) in
      t * 1000000 < 2 ^ 63
      → (p.retries ≡ 2)
        × (p.context ≡ some (pos (t * 1000000)))
        × ((attempt : ℕ) × (p.timeout ≡ pos attempt) × TakesOf (leb 300 t) (t * 1000000) attempt)
unfolding setup_snmp_params login_of sensor_context
setup_snmp_params-TakesOf s h =
    let t = positive_or 5000 s.timeout in
    (
      refl,
      ap some (wrap_64-small (t * 1000000) h),
      (
        attempt_timeout t 2 * 1000000,
        wrap_64-small _ (omega (arith, h, attempt_timeout-le t)),
        attempt_timeout-TakesOf t,
      ),
    )
