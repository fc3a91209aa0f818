-- ===== src/Query/Gather.antt =====
-- The queries of a cycle run beside each other: what they leave behind does not hang on the order
-- in which they end.
use mathlib.Core.Path.{subst}
use redborder_monitor.Base.{
  ℕ, ◌≡◌, refl, sym, ap, ◌∙◌, Bool, true, false, ◌||◌, ◌&&◌, Option, none, some, List, [], ◌∷◌,
  get_elem?, ◌==◌, ==_iff, arith, if◌then◌else◌, Bool-cases, inl, inr,
}
use redborder_monitor.Base.Float.{Float}
use redborder_monitor.Model.{Monitor}
use redborder_monitor.Values.{MonitorState}
use redborder_monitor.Query.{
  World, Gathering, is_queried, is_serious, query, end_query, run_queries, no_results,
}

abbrev pub among : ℕ → List ℕ → Bool
among i [] = false
among i (j ∷ js) = j == i || among i js

or_assoc : (a b c : Bool) → ((a || b) || c) ≡ (a || (b || c))
or_assoc a b c = ground arith

Bool-antisym : {a b : Bool} → (a ≡ true → b ≡ true) → (b ≡ true → a ≡ true) → a ≡ b
Bool-antisym {a = true} f g = sym (f refl)
Bool-antisym {a = false} {b = true} f g = g refl
Bool-antisym {a = false} {b = false} f g = refl

module _ {F : Type 0} ⦃fl : Float F⦄ where
  -- The monitor at an index if it is queried and its query got a place.
  abbrev asked : World F → ℕ → Option (Monitor F) → Option (Monitor F)
  asked w i none = none
  asked w i (some m) = if is_queried m && (w.reply i).started then some m else none

  -- The result of the query at an index, and what stands there without one.
  abbrev result :
      World F → ℕ → Option (Monitor F) → Option (MonitorState F) → Option (MonitorState F)
  result w i none old = old
  result w i (some m) old = (query w i m).state

  abbrev serious : World F → ℕ → Option (Monitor F) → Bool
  serious w i none = false
  serious w i (some m) = is_serious (query w i m).failure

  abbrev step : World F → List (Monitor F) → ℕ → Gathering F → Gathering F
  step w ms i g = elim (get_elem? ms i) [ none ↦ g | some m ↦ end_query w i m g ]

  abbrev any_serious : World F → List (Monitor F) → List ℕ → Bool
  any_serious w ms [] = false
  any_serious w ms (i ∷ order) = serious w i (asked w i (get_elem? ms i)) || any_serious w ms order

  step_of : World F → ℕ → Option (Monitor F) → Gathering F → Gathering F
  step_of w i o g = elim o [ none ↦ g | some m ↦ end_query w i m g ]

  step_of-new_states :
      (w : World F) (i : ℕ) (o : Option (Monitor F)) (g : Gathering F)
      → (step_of w i o g).new_states i ≡ result w i (asked w i o) (g.new_states i)
  unfolding end_query step_of
  step_of-new_states w i none g = refl
  step_of-new_states w i (some m) g = elim (Bool-cases (is_queried m && (w.reply i).started)) [
    | inl h ↦ rw h (ground arith)
    | inr h ↦ rw h refl
  ]

  step_of-new_states_at :
      (w : World F) (ms : List (Monitor F)) (i j : ℕ) (g : Gathering F)
      → i ≡ j
      → (step_of w i (get_elem? ms i) g).new_states j
        ≡ result w j (asked w j (get_elem? ms j)) (g.new_states j)
  step_of-new_states_at w ms i j g p =
      subst
        (λ k.
          (step_of w i (get_elem? ms i) g).new_states k
          ≡ result w k (asked w k (get_elem? ms k)) (g.new_states k))
        p (step_of-new_states w i (get_elem? ms i) g)

  step_of-new_states_other :
      (w : World F) (i j : ℕ) (o : Option (Monitor F)) (g : Gathering F)
      → (i == j) ≡ false
      → (step_of w i o g).new_states j ≡ g.new_states j
  unfolding end_query step_of
  step_of-new_states_other w i j none g e = refl
  step_of-new_states_other w i j (some m) g e =
      elim (Bool-cases (is_queried m && (w.reply i).started)) [
        | inl h ↦ rw (h, e) refl
        | inr h ↦ rw h refl
      ]

  step_of-has_error :
      (w : World F) (i : ℕ) (o : Option (Monitor F)) (g : Gathering F)
      → (step_of w i o g).has_error ≡ (g.has_error || serious w i (asked w i o))
  unfolding end_query step_of
  step_of-has_error w i none g = ground arith
  step_of-has_error w i (some m) g = elim (Bool-cases (is_queried m && (w.reply i).started)) [
    | inl h ↦ rw h refl
    | inr h ↦ rw h (ground arith)
  ]

  result_twice :
      (w : World F) (i : ℕ) (o : Option (Monitor F)) (old : Option (MonitorState F))
      → result w i o (result w i o old) ≡ result w i o old
  result_twice w i none old = refl
  result_twice w i (some m) old = refl

  run_queries-new_states :
      (w : World F) (ms : List (Monitor F)) (order : List ℕ) (g : Gathering F) (j : ℕ)
      → (run_queries w ms order g).new_states j ≡ (
          if among j order
          then result w j (asked w j (get_elem? ms j)) (g.new_states j)
          else g.new_states j)
  unfolding run_queries step_of
  run_queries-new_states w ms [] g j = refl
  run_queries-new_states w ms (i ∷ order) g j =
      let ih = run_queries-new_states w ms order (step_of w i (get_elem? ms i) g) j in
      elim (Bool-cases (i == j)) [
        | inl e ↦
            rw (e, ih, step_of-new_states_at w ms i j g ((==_iff i j).0 e))
              (elim (Bool-cases (among j order)) [
                | inl h ↦ rw h (result_twice w j (asked w j (get_elem? ms j)) (g.new_states j))
                | inr h ↦ rw h refl
              ])
        | inr e ↦ rw (e, ih, step_of-new_states_other w i j (get_elem? ms i) g e) refl
      ]

  run_queries-has_error :
      (w : World F) (ms : List (Monitor F)) (order : List ℕ) (g : Gathering F)
      → (run_queries w ms order g).has_error ≡ (g.has_error || any_serious w ms order)
  unfolding run_queries step_of
  run_queries-has_error w ms [] g = ground arith
  run_queries-has_error w ms (i ∷ order) g =
      run_queries-has_error w ms order (step_of w i (get_elem? ms i) g)
      ∙ rw (step_of-has_error w i (get_elem? ms i) g)
          (or_assoc g.has_error (serious w i (asked w i (get_elem? ms i))) (any_serious w ms order))

  any_serious-among :
      (w : World F) (ms : List (Monitor F)) (i : ℕ) (order : List ℕ)
      → among i order ≡ true
      → serious w i (asked w i (get_elem? ms i)) ≡ true
      → any_serious w ms order ≡ true
  any_serious-among w ms i [] h k = cc h
  any_serious-among w ms i (j ∷ order) h k = elim (Bool-cases (j == i)) [
    | inl e ↦ let p : j ≡ i = (==_iff j i).0 e in rw (p, k) refl
    | inr e ↦ let ih = any_serious-among w ms i order (ground arith) k in ground arith
  ]

  any_serious-subset :
      (w : World F) (ms : List (Monitor F)) (xs ys : List ℕ)
      → ((i : ℕ) → among i xs ≡ true → among i ys ≡ true)
      → any_serious w ms xs ≡ true
      → any_serious w ms ys ≡ true
  any_serious-subset w ms [] ys h k = cc k
  any_serious-subset w ms (i ∷ xs) ys h k =
      elim (Bool-cases (serious w i (asked w i (get_elem? ms i)))) [
        | inl e ↦ any_serious-among w ms i ys (h i (ground arith)) e
        | inr e ↦ any_serious-subset w ms xs ys (λ j c. h j (ground arith)) (ground arith)
      ]

  -- In whatever orders the same queries end, the results that they store and the flag for errors
  -- that count against the sensor are the same.
  pub run_queries_order :
      (w : World F) (ms : List (Monitor F)) (xs ys : List ℕ)
      → ((i : ℕ) → among i xs ≡ among i ys)
      → ((j : ℕ)
          → (run_queries w ms xs no_results).new_states j
            ≡ (run_queries w ms ys no_results).new_states j)
        × ((run_queries w ms xs no_results).has_error ≡ (run_queries w ms ys no_results).has_error)
  run_queries_order w ms xs ys h = (
    (λ j.
        run_queries-new_states w ms xs no_results j
        ∙ ap (λ b. if b then result w j (asked w j (get_elem? ms j)) none else none) (h j)
        ∙ sym (run_queries-new_states w ms ys no_results j)),
    run_queries-has_error w ms xs no_results
        ∙ Bool-antisym (any_serious-subset w ms xs ys (λ i c. sym (h i) ∙ c))
            (any_serious-subset w ms ys xs (λ i c. h i ∙ c))
        ∙ sym (run_queries-has_error w ms ys no_results),
  )
