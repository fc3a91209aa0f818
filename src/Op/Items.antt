-- ===== src/Op/Items.antt =====
-- internal/monitor/processor.go: one item of a formula over vectors, by the values that stand at it.
use mathlib.Core.Path.{subst}
use redborder_monitor.Base.{
  ℕ, zero, suc, ◌≡◌, refl, ap, ◌∙◌, true, false, not, ◌||◌, Option, none, some, List, [], ◌∷◌,
  if◌then◌else◌, Bool-cases, Option-cases, inl, inr,
}
use redborder_monitor.Base.Text.{Bytes, is_empty}
use redborder_monitor.Base.Int.{ℤ, pos, eqb_ℤ}
use redborder_monitor.Base.Map.{Map, insert}
use redborder_monitor.Base.Float.{Float}
use redborder_monitor.Base.Result.{Result, ok, err}
use redborder_monitor.Tokenizer.{EvalError}
use redborder_monitor.Evaluator.{evaluate_expression}
use redborder_monitor.Values.{MonitorValue, MonitorState, child_at}
use redborder_monitor.Op.{Deps, first_stamp, is_vector, item_vars, finite_value, op_item}

module _ {F : Type 0} where
  abbrev pub nth : List (Option (MonitorValue F)) → ℕ → Option (MonitorValue F)
  nth [] k = none
  nth (c ∷ cs) zero = c
  nth (c ∷ cs) (suc k) = nth cs k

  -- The value of a state at item `k`: of a vector that child, of a scalar always its value.
  abbrev pub value_at :
      List (Option (MonitorValue F)) → Option (MonitorValue F) → ℕ → Option (MonitorValue F)
  value_at [] scalar k = scalar
  value_at (c ∷ cs) scalar k = nth (c ∷ cs) k

  abbrev pub with_value :
      Option (MonitorValue F) → Option (List (MonitorValue F)) → Option (List (MonitorValue F))
  with_value none vs = none
  with_value (some v) none = none
  with_value (some v) (some vs) = some (v ∷ vs)

  -- the values of all states at item `k`; none where one is missing
  abbrev pub values_at : Deps F → ℕ → Option (List (MonitorValue F))
  values_at [] k = some []
  values_at ((name, st) ∷ deps) k = with_value (value_at st.children st.scalar k) (values_at deps k)

  -- the variables with these values
  abbrev pub environment : Deps F → List (MonitorValue F) → Map F → Map F
  environment ((name, st) ∷ deps) (v ∷ vs) vars = environment deps vs (insert name v.value vars)
  environment _ _ vars = vars

  abbrev pub time_before : List (Option (MonitorValue F)) → MonitorValue F → List ℤ → List ℤ
  time_before [] v times = times
  time_before (c ∷ cs) v times = v.timestamp ∷ times

  -- the times of the values that stand in vectors
  abbrev pub times : Deps F → List (MonitorValue F) → List ℤ
  times ((name, st) ∷ deps) (v ∷ vs) = time_before st.children v (times deps vs)
  times _ _ = []

-- the first time that is not 0
abbrev pub first_time : ℤ → List ℤ → ℤ
first_time now [] = now
first_time now (t ∷ ts) = if eqb_ℤ t (pos 0) then first_time now ts else t

abbrev stamps : ℤ → List ℤ → ℤ
stamps s [] = s
stamps s (t ∷ ts) = stamps (first_stamp s t) ts

stamps-first_time :
    (now s : ℤ) (ts : List ℤ)
    → first_stamp (stamps s ts) now ≡ (if eqb_ℤ s (pos 0) then first_time now ts else s)
stamps-first_time now s [] = refl
stamps-first_time now s (t ∷ ts) = elim (Bool-cases (eqb_ℤ s (pos 0))) [
  | inl e ↦ rw e (stamps-first_time now t ts)
  | inr e ↦ rw e (stamps-first_time now s ts ∙ rw e refl)
]

module _ {F : Type 0} ⦃fl : Float F⦄ where
  -- a finite number as a value; none for an error, NaN and the infinities
  abbrev pub IsResult : ℤ → Result EvalError F → Option (MonitorValue F) → Type 0
  IsResult at (err e) c = c ≡ none
  IsResult at (ok x) c =
      ((fl.is_nan x || fl.is_inf x) ≡ true → c ≡ none)
      × ((fl.is_nan x || fl.is_inf x) ≡ false
          → c ≡ some (record { timestamp = at; value = x; text = fl.format_f x }))

  -- The child of an item with these values is the formula over them, with the first time among those
  -- of the vectors; there is none where a value is missing.
  abbrev pub IsItem :
      Bytes → Deps F → ℤ → Option (List (MonitorValue F)) → Option (MonitorValue F) → Type 0
  IsItem op deps now none c = c ≡ none
  IsItem op deps now (some vs) c =
      IsResult (first_time now (times deps vs)) (evaluate_expression op (environment deps vs [])) c

  finite_value-IsResult : (at : ℤ) (r : Result EvalError F) → IsResult at r (finite_value at r)
  unfolding finite_value
  finite_value-IsResult at (err e) = refl
  finite_value-IsResult at (ok x) = ((λ e. rw e refl), (λ e. rw e refl))

  child_at-nth : (cs : List (Option (MonitorValue F))) (k : ℕ) → child_at cs k ≡ nth cs k
  child_at-nth [] k = refl
  child_at-nth (c ∷ cs) zero = refl
  child_at-nth (c ∷ cs) (suc k) = child_at-nth cs k

  -- what the loop over the variables gives for these values
  abbrev gathered : Deps F → Option (List (MonitorValue F)) → Map F → ℤ → Option (Map F × ℤ)
  gathered deps none vars stamp = none
  gathered deps (some vs) vars stamp = some (environment deps vs vars, stamps stamp (times deps vs))

  value_at-child :
      (cs : List (Option (MonitorValue F))) (scalar : Option (MonitorValue F)) (k : ℕ)
      → (if not (is_empty cs) then child_at cs k else scalar) ≡ value_at cs scalar k
  value_at-child [] scalar k = refl
  value_at-child (c ∷ cs) scalar k = child_at-nth (c ∷ cs) k

  stamps-before :
      (cs : List (Option (MonitorValue F))) (v : MonitorValue F) (stamp : ℤ) (ts : List ℤ)
      → stamps (if not (is_empty cs) then first_stamp stamp v.timestamp else stamp) ts
        ≡ stamps stamp (time_before cs v ts)
  stamps-before [] v stamp ts = refl
  stamps-before (c ∷ cs) v stamp ts = refl

  gathered-cons :
      (name : Bytes) (st : MonitorState F) (v : MonitorValue F) (deps : Deps F)
      (o : Option (List (MonitorValue F))) (vars : Map F) (stamp : ℤ)
      → gathered deps o
          (insert name v.value vars)
          (if is_vector st then first_stamp stamp v.timestamp else stamp)
        ≡ gathered ((name, st) ∷ deps) (with_value (some v) o) vars stamp
  gathered-cons name st v deps none vars stamp = refl
  gathered-cons name st v deps (some vs) vars stamp =
      ap (λ t. some (environment deps vs (insert name v.value vars), t))
        (stamps-before st.children v stamp (times deps vs))

  item_vars-gathered :
      (k : ℕ) (deps : Deps F) (vars : Map F) (stamp : ℤ)
      → item_vars k deps vars stamp ≡ gathered deps (values_at deps k) vars stamp
  unfolding item_vars
  item_vars-gathered k [] vars stamp = refl
  item_vars-gathered k ((name, st) ∷ deps) vars stamp =
      elim (Option-cases (value_at st.children st.scalar k)) [
        | inl n ↦ rw (item_vars, value_at-child st.children st.scalar k, n) refl
        | inr (v, n) ↦
            let next = if is_vector st then first_stamp stamp v.timestamp else stamp in
            let rest = item_vars-gathered k deps (insert name v.value vars) next in
            rw (item_vars, value_at-child st.children st.scalar k, n)
              (rest ∙ gathered-cons name st v deps (values_at deps k) vars stamp)
      ]

  pub op_item-IsItem :
      (op : Bytes) (deps : Deps F) (now : ℤ) (k : ℕ)
      → IsItem op deps now (values_at deps k) (op_item op deps now k)
  unfolding op_item
  op_item-IsItem op deps now k = elim (Option-cases (values_at deps k)) [
    | inl e ↦ rw (op_item, item_vars-gathered k deps [] (pos 0), e) refl
    | inr (vs, e) ↦
        let result = evaluate_expression op (environment deps vs []) in
        let at = first_stamp (stamps (pos 0) (times deps vs)) now in
        rw (op_item, item_vars-gathered k deps [] (pos 0), e)
          (subst (λ z. IsResult z result (finite_value at result))
            (stamps-first_time now (pos 0) (times deps vs)) (finite_value-IsResult at result))
  ]
