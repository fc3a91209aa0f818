-- ===== src/Values.antt =====
-- internal/monitor/processor.go: the values of a monitor, the vector split of raw output
-- (`parseRawOutput`) and the aggregate over a vector.
pub mod Split
mod Tests
use redborder_monitor.Base.{
  ℕ, zero, suc, ◌+◌, ◌≡◌, Bool, true, false, not, ◌&&◌, ◌||◌, Option, none, some, List, [], ◌∷◌,
  ◌++◌, get_elem?, ltb, ◌==◌, if◌then◌else◌,
}
use redborder_monitor.Base.Text.{Bytes, codes, same, is_empty, trim_space, cut}
use redborder_monitor.Base.Split.{split}
use redborder_monitor.Base.Decimal.{parse_int}
use redborder_monitor.Base.Int.{ℤ, pos, eqb_ℤ}
use redborder_monitor.Base.Float.{Float}
use redborder_monitor.Model.{Monitor}

pub record MonitorValue (F : Type 0) : Type 0 where
  pub timestamp : ℤ
  pub value : F
  pub text : Bytes

pub record MonitorState (F : Type 0) : Type 0 where
  pub scalar : Option (MonitorValue F)
  pub children : List (Option (MonitorValue F))
  pub split_op : Option (MonitorValue F)

-- `state.Children[k]`, nil where there is no such child
abbrev pub child_at : {F : Type 0} → List (Option (MonitorValue F)) → ℕ → Option (MonitorValue F)
child_at cs k = elim (get_elem? cs k) [ none ↦ none | some c ↦ c ]

-- `p != nil && *p == 1`
abbrev pub is_one : Option ℤ → Bool
is_one none = false
is_one (some n) = eqb_ℤ n (pos 1)

-- The variables `children`, `sum` and `count` of a loop over the items of a vector.
pub record Gathered (F : Type 0) : Type 0 where
  pub children : List (Option (MonitorValue F))
  pub sum : F
  pub count : ℕ

abbrev pub stamp_of : Option ℤ → ℤ → ℤ
stamp_of none now = now
stamp_of (some t) now = t

-- the text before a colon as a time, and the rest as the value
unfoldable pub split_stamp : Bool → ℤ → Bytes → ℤ × Bytes
split_stamp false now part = (now, part)
split_stamp true now part = elim (cut (codes ":") part) [
  | none ↦ (now, part)
  | some (time, rest) ↦ (stamp_of (parse_int time) now, rest)
]

module _ {F : Type 0} ⦃fl : Float F⦄ where
  abbrev pub nothing_gathered : Gathered F
  nothing_gathered = record { children = []; sum = fl.zero_value; count = 0 }

  -- one round: the next child, counted if it is there
  abbrev pub gather : Gathered F → Option (MonitorValue F) → Gathered F
  gather g none = record g { children = g.children ++ none ∷ [] }
  gather g (some v) = record {
    children = g.children ++ some v ∷ [];
    sum = fl.add g.sum v.value;
    count = g.count + 1;
  }

  -- the value of `splitOpVal`
  unfoldable pub aggregate : Bytes → ℤ → Gathered F → Option (MonitorValue F)
  aggregate op now g =
      let res = if same op (codes "mean") then fl.div g.sum (fl.of_ℕ g.count) else g.sum in
      if not (is_empty op) && ltb 0 g.count
      then some (record { timestamp = now; value = res; text = fl.format_f res })
      else none

  abbrev pub valued : Option F → ℤ → Bytes → Option (MonitorValue F)
  valued none time text = none
  valued (some x) time text = some (record { timestamp = time; value = x; text = text })

  -- the body of the loop over the parts; `none` is `continue`
  unfoldable pub read_part : Monitor F → ℤ → Bytes → Option (MonitorValue F)
  read_part m now part =
      let trimmed = trim_space part in
      let stamped = split_stamp (is_one m.timestamp_given) now trimmed in
      if is_empty trimmed then none else valued (fl.parse_float stamped.1) stamped.0 stamped.1

  unfoldable pub read_parts : Monitor F → ℤ → List Bytes → Gathered F → Gathered F
  read_parts m now [] g = g
  read_parts m now (part ∷ parts) g = read_parts m now parts (gather g (read_part m now part))

  unfoldable pub split_output : Monitor F → ℤ → Bytes → MonitorState F
  split_output m now out =
      let g = read_parts m now (split m.split out) nothing_gathered in
      record { scalar = none; children = g.children; split_op = aggregate m.split_op now g }

  unfoldable pub parse_raw_output_with_value : Bytes → F → Monitor F → ℤ → MonitorState F
  parse_raw_output_with_value out x m now =
      if is_empty m.split
      then record {
        scalar = some (record { timestamp = now; value = x; text = out });
        children = [];
        split_op = none;
      }
      else split_output m now out

  unfoldable pub parse_raw_output : Bytes → Monitor F → ℤ → MonitorState F
  parse_raw_output out m now = parse_raw_output_with_value out (fl.parse_value out) m now
