-- ===== src/Op.antt =====
-- internal/monitor/processor.go: `processOpMonitor`, the monitors that compute a formula over the
-- values of others. `deps` is the list of the variables with their states, in the order of `vars`.
pub mod Finite
pub mod Items
pub mod Vector
mod Tests
use redborder_monitor.Base.{
  ℕ, zero, suc, ◌+◌, ◌≡◌, Bool, true, false, not, ◌&&◌, ◌||◌, Option, none, some, List, [], ◌∷◌,
  ◌++◌, length, get_elem?, ltb, ◌==◌, if◌then◌else◌,
}
use redborder_monitor.Base.Text.{Bytes, codes, is_empty}
use redborder_monitor.Base.Decimal.{parse_int, format_ℤ}
use redborder_monitor.Base.Int.{ℤ, pos, eqb_ℤ}
use redborder_monitor.Base.Map.{Map, lookup, insert}
use redborder_monitor.Base.Float.{Float}
use redborder_monitor.Base.Result.{Result, ok, err}
use redborder_monitor.Tokenizer.{EvalError, extract_variables}
use redborder_monitor.Evaluator.{evaluate_expression}
use redborder_monitor.Model.{Monitor, GroupId, no_group, number_group, int_group, text_group}
use redborder_monitor.Values.{
  MonitorValue, MonitorState, Gathered, nothing_gathered, gather, aggregate, child_at,
}

-- The result of `ParseGroupID`: nil, an int64 or a string.
pub data ParsedGroup : Type 0 where
  no_gid : ParsedGroup
  int_gid : ℤ → ParsedGroup
  text_gid : Bytes → ParsedGroup

abbrev pub int_or_text : Option ℤ → Bytes → ParsedGroup
int_or_text none v = text_gid v
int_or_text (some i) v = int_gid i

-- the key `name_gid_<gid>`
abbrev pub gid_text : ParsedGroup → Bytes
gid_text no_gid = []
gid_text (int_gid i) = format_ℤ i
gid_text (text_gid v) = v

unfoldable pub group_key : Bytes → ParsedGroup → Bytes
group_key name gid = name ++ (codes "_gid_" ++ gid_text gid)

abbrev pub Deps : Type 0 → Type 0
Deps F = List (Bytes × MonitorState F)

-- `none` is `return nil`: vectors of different sizes
abbrev pub merge_size : ℕ → ℕ → Option ℕ
merge_size size n =
    if n == 0
    then some size
    else if size == 0
    then some n
    else if n == size
    then some size
    else none

abbrev pub first_stamp : ℤ → ℤ → ℤ
first_stamp old new = if eqb_ℤ old (pos 0) then new else old

module _ {F : Type 0} ⦃fl : Float F⦄ where
  unfoldable pub parse_group_id : GroupId F → ParsedGroup
  parse_group_id no_group = no_gid
  parse_group_id (number_group x) = int_gid (fl.to_int64 x)
  parse_group_id (int_group i) = int_gid i
  parse_group_id (text_group v) = int_or_text (parse_int v) v

  abbrev pub lookup_group : Bytes → ParsedGroup → Map (MonitorState F) → Option (MonitorState F)
  lookup_group name no_gid current = none
  lookup_group name gid current = lookup (group_key name gid) current

  abbrev pub or_else : Option (MonitorState F) → Option (MonitorState F) → Option (MonitorState F)
  or_else none later = later
  or_else (some st) later = some st

  unfoldable pub find_dependency :
      Bytes → ParsedGroup → Map (MonitorState F) → Option (MonitorState F)
  find_dependency name gid current = or_else (lookup name current) (lookup_group name gid current)

  -- The loop over the variables: the states found, and the size of the vectors among them, 0 if
  -- there is none.
  unfoldable pub resolve :
      List Bytes → ParsedGroup → Map (MonitorState F) → Deps F → ℕ → Option (Deps F × ℕ)
  resolve [] gid current deps size = some (deps, size)
  resolve (name ∷ names) gid current deps size = elim (find_dependency name gid current) [
    | none ↦ none
    | some st ↦ elim (merge_size size (length st.children)) [
      | none ↦ none
      | some size' ↦ resolve names gid current (deps ++ (name, st) ∷ []) size'
    ]
  ]

  abbrev pub is_vector : MonitorState F → Bool
  is_vector st = not (is_empty st.children)

  -- The loop that builds `evalVars` for item `k`; `none` is `hasAllVal = false`.
  unfoldable pub item_vars : ℕ → Deps F → Map F → ℤ → Option (Map F × ℤ)
  item_vars k [] vars stamp = some (vars, stamp)
  item_vars k ((name, st) ∷ deps) vars stamp =
      let value = if is_vector st then child_at st.children k else st.scalar in
      elim value [
        | none ↦ none
        | some v ↦
            item_vars k deps (insert name v.value vars)
              (if is_vector st then first_stamp stamp v.timestamp else stamp)
      ]

  -- a result that is a finite number, as a value
  unfoldable pub finite_value : ℤ → Result EvalError F → Option (MonitorValue F)
  finite_value stamp (err e) = none
  finite_value stamp (ok res) =
      if fl.is_nan res || fl.is_inf res
      then none
      else some (record { timestamp = stamp; value = res; text = fl.format_f res })

  -- the body of the loop over the items
  unfoldable pub op_item : Bytes → Deps F → ℤ → ℕ → Option (MonitorValue F)
  op_item op deps now k = elim (item_vars k deps [] (pos 0)) [
    | none ↦ none
    | some (vars, stamp) ↦ finite_value (first_stamp stamp now) (evaluate_expression op vars)
  ]

  -- items `k`, `k + 1`, … , `rounds` of them
  unfoldable pub op_items : Bytes → Deps F → ℤ → ℕ → ℕ → Gathered F → Gathered F
  op_items op deps now zero k g = g
  op_items op deps now (suc rounds) k g =
      op_items op deps now rounds (k + 1) (gather g (op_item op deps now k))

  -- the loop of the scalar case; `none` is `return nil`
  unfoldable pub scalar_vars : Deps F → Map F → Option (Map F)
  scalar_vars [] vars = some vars
  scalar_vars ((name, st) ∷ deps) vars = elim st.scalar [
    | none ↦ none
    | some v ↦ scalar_vars deps (insert name v.value vars)
  ]

  abbrev pub scalar_state : Option (MonitorValue F) → Option (MonitorState F)
  scalar_state none = none
  scalar_state (some v) = some (record { scalar = some v; children = []; split_op = none })

  unfoldable pub scalar_op : Bytes → Deps F → ℤ → Option (MonitorState F)
  scalar_op op deps now = elim (scalar_vars deps []) [
    | none ↦ none
    | some vars ↦ scalar_state (finite_value now (evaluate_expression op vars))
  ]

  unfoldable pub vector_op : Monitor F → Deps F → ℤ → ℕ → MonitorState F
  vector_op m deps now size =
      let g = op_items m.op deps now size 0 nothing_gathered in
      record { scalar = none; children = g.children; split_op = aggregate m.split_op now g }

  unfoldable pub process_op_monitor : Monitor F → Map (MonitorState F) → ℤ → Option (MonitorState F)
  process_op_monitor m current now = elim (extract_variables m.op) [
    | err e ↦ none
    | ok names ↦ elim (resolve names (parse_group_id m.group_id) current [] 0) [
      | none ↦ none
      | some (deps, size) ↦
          if size == 0 then scalar_op m.op deps now else some (vector_op m deps now size)
    ]
  ]
