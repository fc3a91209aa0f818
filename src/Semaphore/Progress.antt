-- ===== src/Semaphore/Progress.antt =====
-- internal/monitor/processor.go: the wait for the queries of a cycle ends.
use redborder_monitor.Base.{
  ℕ, suc, ◌+◌, ◌*◌, ◌≤◌, ◌<◌, ◌≡◌, refl, ap, ◌∙◌, Bool, true, some, List, [], ◌∷◌, get_elem?, arith,
  if◌then◌else◌, Bool-cases, inl, inr, length, ltb,
}
use redborder_monitor.Base.Float.{Float}
use redborder_monitor.Model.{Monitor}
use redborder_monitor.Query.{World, is_queried}
use redborder_monitor.Semaphore.{
  Phase, waiting, running, ended, given_up, is_waiting, is_running, Crew, start_crew, Step, acquire,
  abandon, release, expire, Runs, begin, more,
}
use redborder_monitor.Semaphore.Bounded.{count, count-set_phase, Bounded, Runs-Bounded}

-- the goroutines that have not come to their end
unfoldable pub pending : {F : Type 0} → Crew F → ℕ
pending c = count is_waiting c.phases + count is_running c.phases

-- the steps that can still come
steps_left : {F : Type 0} → Crew F → ℕ
steps_left c =
    2 * count is_waiting c.phases + count is_running c.phases + (if c.expired then 0 else 1)

module _ {F : Type 0} ⦃fl : Float F⦄ where
  start_steps : (ms : List (Monitor F)) → steps_left (start_crew ms) ≤ 2 * length ms + 1
  unfolding steps_left start_crew count
  start_steps [] = omega arith
  start_steps (m ∷ ms) = elim (Bool-cases (is_queried m)) [
    | inl h ↦ let k = start_steps ms in rw h (omega (arith, k))
    | inr h ↦ let k = start_steps ms in rw h (omega (arith, k))
  ]

module _ {F : Type 0} ⦃fl : Float F⦄ (w : World F) (ms : List (Monitor F)) (limit : ℕ) where
  Step-steps_left : {c d : Crew F} → Step w ms limit c d → suc (steps_left d) ≤ steps_left c
  unfolding steps_left
  Step-steps_left (acquire c i h l) = omega (
    arith,
    count-set_phase is_waiting i waiting running c.phases h,
    count-set_phase is_running i waiting running c.phases h,
  )
  Step-steps_left (abandon c i h e) = omega (
    arith,
    count-set_phase is_waiting i waiting given_up c.phases h,
    count-set_phase is_running i waiting given_up c.phases h,
  )
  Step-steps_left (release c i h) = omega (
    arith,
    count-set_phase is_waiting i running ended c.phases h,
    count-set_phase is_running i running ended c.phases h,
  )
  Step-steps_left (expire c e) = rw e (omega arith)

  Runs-steps_left :
      {n : ℕ} {c : Crew F} → Runs w ms limit n c → n + steps_left c ≤ 2 * length ms + 1
  Runs-steps_left begin = omega (arith, start_steps ms)
  Runs-steps_left (more r s) = omega (arith, Runs-steps_left r, Step-steps_left s)

-- a phase that passes a test that some phase passes
find_phase :
    (f : Phase → Bool) (ps : List Phase)
    → 0 < count f ps
    → (i : ℕ) × (p : Phase) × (get_elem? ps i ≡ some p) × (f p ≡ true)
unfolding count
find_phase f [] h = elim h [ ]
find_phase f (p ∷ ps) h = elim (Bool-cases (f p)) [
  | inl e ↦ (0, p, refl, e)
  | inr e ↦ let (i, q, k, l) = find_phase f ps (ground arith) in (suc i, q, k, l)
]

is_waiting-eq : (p : Phase) → is_waiting p ≡ true → p ≡ waiting
is_waiting-eq waiting h = refl
is_waiting-eq running h = cc h
is_waiting-eq _ h = cc h

is_running-eq : (p : Phase) → is_running p ≡ true → p ≡ running
is_running-eq running h = refl
is_running-eq waiting h = cc h
is_running-eq _ h = cc h

module _ {F : Type 0} ⦃fl : Float F⦄ (w : World F) (ms : List (Monitor F)) (limit : ℕ) where
  can_go_on :
      (c : Crew F)
      → 0 < limit
      → Bounded w ms limit c
      → 0 < pending c
      → (d : Crew F) × Step w ms limit c d
  unfolding pending
  can_go_on c l b h = elim (Bool-cases (ltb 0 (count is_running c.phases))) [
    | inl e ↦
        let (i, p, k, r) = find_phase is_running c.phases (ground arith) in
        (_, release c i (k ∙ ap some (is_running-eq p r)))
    | inr e ↦
        let (i, p, k, r) = find_phase is_waiting c.phases (ground arith) in
        let nothing_runs : count is_running c.phases ≡ 0 = ground arith in
        (
          _,
          acquire c i (k ∙ ap some (is_waiting-eq p r))
              (omega (arith, b.slots-count, nothing_runs)),
        )
  ]

  -- A cycle's queries never block each other for good: no run of the goroutines has more than two
  -- steps for each monitor and one more, and as long as one of them has not come to its end, some
  -- step is possible.
  pub Runs-progress :
      {n : ℕ} {c : Crew F}
      → 0 < limit
      → Runs w ms limit n c
      → (n ≤ 2 * length ms + 1) × (0 < pending c → (d : Crew F) × Step w ms limit c d)
  Runs-progress {c = c} l r =
      (omega (arith, Runs-steps_left w ms limit r), can_go_on c l (Runs-Bounded w ms limit r))
