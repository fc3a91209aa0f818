-- ===== src/Schedule/Once.antt =====
-- Each sensor is offered once in a round.
use redborder_monitor.Base.{
  ℕ, ◌+◌, ◌≤◌, ◌≡◌, refl, sym, ap, ◌∙◌, Bool, true, false, not, ◌&&◌, List, [], ◌∷◌, ◌++◌, length,
  length-append, ltb, ◌==◌, ==_iff, arith, if◌then◌else◌, Bool-cases, inl, inr,
}
use redborder_monitor.Schedule.{queue_size, offer, dispatch, Queues, schedule}

-- how often an index is in a list
abbrev pub count : ℕ → List ℕ → ℕ
count i [] = 0
count i (j ∷ js) = (if j == i then 1 else 0) + count i js

pub count-append : (i : ℕ) (xs ys : List ℕ) → count i (xs ++ ys) ≡ count i xs + count i ys
count-append i [] ys = omega arith
count-append i (x ∷ xs) ys = omega (arith, count-append i xs ys)

-- what a loop adds for one sensor
abbrev added : (ℕ → Bool) → (ℕ → Bool) → ℕ → List ℕ → ℕ
added still_active wanted i sensors = if still_active i && wanted i then count i sensors else 0

offer_room :
    (i : ℕ) (queue : List ℕ) → length queue + 1 ≤ queue_size → offer i queue ≡ queue ++ i ∷ []
unfolding offer
offer_room i queue h = let e : ltb (length queue) queue_size ≡ true = ground arith in rw e refl

added-taken :
    (still_active wanted : ℕ → Bool) (i j : ℕ) (sensors : List ℕ)
    → (still_active j && wanted j) ≡ true
    → added still_active wanted i (j ∷ sensors)
      ≡ (if j == i then 1 else 0) + added still_active wanted i sensors
added-taken still_active wanted i j sensors h = elim (Bool-cases (j == i)) [
  | inl e ↦
      let p : j ≡ i = (==_iff j i).0 e in
      let k : (still_active i && wanted i) ≡ true =
        ap (λ x. still_active x && wanted x) (sym p) ∙ h in
      rw (e, k) refl
  | inr e ↦ rw e (ground arith)
]

added-passed :
    (still_active wanted : ℕ → Bool) (i j : ℕ) (sensors : List ℕ)
    → (still_active j && wanted j) ≡ false
    → added still_active wanted i (j ∷ sensors) ≡ added still_active wanted i sensors
added-passed still_active wanted i j sensors h = elim (Bool-cases (j == i)) [
  | inl e ↦
      let p : j ≡ i = (==_iff j i).0 e in
      let k : (still_active i && wanted i) ≡ false =
        ap (λ x. still_active x && wanted x) (sym p) ∙ h in
      rw k refl
  | inr e ↦ rw e (ground arith)
]

count-dispatch :
    (still_active wanted : ℕ → Bool) (i : ℕ) (sensors queue : List ℕ)
    → length queue + length sensors ≤ queue_size
    → count i (dispatch still_active wanted sensors queue)
      ≡ count i queue + added still_active wanted i sensors
unfolding dispatch
count-dispatch still_active wanted i [] queue h = ground arith
count-dispatch still_active wanted i (j ∷ sensors) queue h =
    elim (Bool-cases (still_active j && wanted j)) [
      | inl e ↦
          rw (e, offer_room j queue (omega (arith, h)))
            (count-dispatch still_active wanted i sensors (queue ++ j ∷ [])
                (omega (arith, h, length-append queue (j ∷ [])))
              ∙ omega (
                arith,
                count-append i queue (j ∷ []),
                added-taken still_active wanted i j sensors e,
              ))
      | inr e ↦ rw e (
          count-dispatch still_active wanted i sensors queue (omega (arith, h))
          ∙ omega (arith, added-passed still_active wanted i j sensors e))
    ]

-- If both queues have room for all sensors and no priority changes in the round, then each sensor
-- that is still active is put on one of the queues, as often as it is listed, and no other is.
pub count-schedule :
    (still_active slow : ℕ → Bool) (i : ℕ) (sensors : List ℕ) (q : Queues)
    → length q.high + length sensors ≤ queue_size
    → length q.low + length sensors ≤ queue_size
    → count i (schedule still_active slow slow sensors q).high
        + count i (schedule still_active slow slow sensors q).low
      ≡ count i q.high + count i q.low + (if still_active i then count i sensors else 0)
unfolding schedule
count-schedule still_active slow i sensors q h k =
    let a = count-dispatch still_active (λ j. not (slow j)) i sensors q.high h in
    let b = count-dispatch still_active slow i sensors q.low k in ground arith
