-- ===== src/Op/Finite.antt =====
-- No formula publishes NaN or an infinity.
use redborder_monitor.Base.{
  ℕ, zero, suc, ◌+◌, ◌≡◌, inl, inr, false, Option, none, some, List, [], ◌∷◌, All, All-append,
  arith, ◌==◌, if◌then◌else◌, Bool-cases,
}
use redborder_monitor.Base.Text.{Bytes}
use redborder_monitor.Base.Int.{ℤ}
use redborder_monitor.Base.Map.{Map}
use redborder_monitor.Base.Float.{Float}
use redborder_monitor.Base.Result.{Result, ok, err}
use redborder_monitor.Tokenizer.{EvalError, extract_variables}
use redborder_monitor.Evaluator.{evaluate_expression}
use redborder_monitor.Model.{Monitor}
use redborder_monitor.Values.{MonitorValue, MonitorState, Gathered, nothing_gathered, gather}
use redborder_monitor.Op.{
  Deps, finite_value, first_stamp, item_vars, op_item, op_items, scalar_vars, scalar_op,
  scalar_state, vector_op, resolve, parse_group_id, process_op_monitor,
}

module _ {F : Type 0} ⦃fl : Float F⦄ where
  abbrev pub IsFinite : Option (MonitorValue F) → Type 0
  IsFinite none = Unit
  IsFinite (some v) = (fl.is_nan v.value ≡ false) × (fl.is_inf v.value ≡ false)

  abbrev pub IsFiniteState : Option (MonitorState F) → Type 0
  IsFiniteState none = Unit
  IsFiniteState (some st) = IsFinite st.scalar × All IsFinite st.children

  finite_value-IsFinite : (stamp : ℤ) (r : Result EvalError F) → IsFinite (finite_value stamp r)
  unfolding finite_value
  finite_value-IsFinite stamp (err e) = tt
  finite_value-IsFinite stamp (ok x) = ground arith

  op_item-IsFinite :
      (op : Bytes) (deps : Deps F) (now : ℤ) (k : ℕ) → IsFinite (op_item op deps now k)
  unfolding op_item
  op_item-IsFinite op deps now k =
      elim (item_vars k deps [] (ℤ.pos 0))
        as (λ o. IsFinite (elim o [
          | none ↦ none
          | some (vars, stamp) ↦ finite_value (first_stamp stamp now) (evaluate_expression op vars)
        ])) [
          | none ↦ tt
          | some r ↦ finite_value-IsFinite (first_stamp r.1 now) (evaluate_expression op r.0)
        ]

  gather-IsFinite :
      (g : Gathered F) (c : Option (MonitorValue F))
      → All IsFinite g.children
      → IsFinite c
      → All IsFinite (gather g c).children
  gather-IsFinite g none h k = All-append IsFinite g.children (none ∷ []) h (tt, tt)
  gather-IsFinite g (some v) h k = All-append IsFinite g.children (some v ∷ []) h (k, tt)

  op_items-IsFinite :
      (op : Bytes) (deps : Deps F) (now : ℤ) (rounds k : ℕ) (g : Gathered F)
      → All IsFinite g.children
      → All IsFinite (op_items op deps now rounds k g).children
  unfolding op_items
  op_items-IsFinite op deps now zero k g h = h
  op_items-IsFinite op deps now (suc rounds) k g h =
      op_items-IsFinite op deps now rounds (k + 1) _
        (gather-IsFinite g _ h (op_item-IsFinite op deps now k))

  scalar_op-IsFiniteState :
      (op : Bytes) (deps : Deps F) (now : ℤ) → IsFiniteState (scalar_op op deps now)
  unfolding scalar_op
  scalar_op-IsFiniteState op deps now =
      elim (scalar_vars deps [])
        as (λ o. IsFiniteState (elim o [
          | none ↦ none
          | some vars ↦ scalar_state (finite_value now (evaluate_expression op vars))
        ])) [
          | none ↦ tt
          | some vars ↦
              state (finite_value now (evaluate_expression op vars))
                (finite_value-IsFinite now (evaluate_expression op vars))
        ]
    where
      state : (o : Option (MonitorValue F)) → IsFinite o → IsFiniteState (scalar_state o)
      state none h = tt
      state (some v) h = (h, tt)

  -- Whatever a formula computes, the values that its monitor stores and publishes as scalar or as
  -- children are neither NaN nor infinite.
  pub process_op_monitor-IsFiniteState :
      (m : Monitor F) (current : Map (MonitorState F)) (now : ℤ)
      → IsFiniteState (process_op_monitor m current now)
  unfolding process_op_monitor vector_op
  process_op_monitor-IsFiniteState m current now = go (extract_variables m.op)
    where
      chosen :
          (deps : Deps F) (size : ℕ)
          → IsFiniteState
              (if size == 0 then scalar_op m.op deps now else some (vector_op m deps now size))
      chosen deps size = elim (Bool-cases (size == 0)) [
        | inl h ↦ rw h (scalar_op-IsFiniteState m.op deps now)
        | inr h ↦ rw h (tt, op_items-IsFinite m.op deps now size 0 nothing_gathered tt)
      ]

      resolved :
          (o : Option (Deps F × ℕ))
          → IsFiniteState (elim o [
            | none ↦ none
            | some (deps, size) ↦
                if size == 0 then scalar_op m.op deps now else some (vector_op m deps now size)
          ])
      resolved none = tt
      resolved (some (deps, size)) = chosen deps size

      go :
          (r : Result EvalError (List Bytes))
          → IsFiniteState (elim r [
            | err e ↦ none
            | ok names ↦ elim (resolve names (parse_group_id m.group_id) current [] 0) [
              | none ↦ none
              | some (deps, size) ↦
                  if size == 0 then scalar_op m.op deps now else some (vector_op m deps now size)
            ]
          ])
      go (err e) = tt
      go (ok names) = resolved (resolve names (parse_group_id m.group_id) current [] 0)
