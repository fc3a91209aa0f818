-- ===== src/Params.antt =====
-- internal/monitor/plugins.go: the parameters of a plugin with their defaults.
use redborder_monitor.Base.{none, some}
use redborder_monitor.Base.Text.{Bytes}
use redborder_monitor.Base.Decimal.{parse_int}
use redborder_monitor.Base.Int.{ℤ}
use redborder_monitor.Base.Map.{Map, lookup}
use redborder_monitor.Base.Float.{Float}
use redborder_monitor.Model.{Json, number, int, text}

module _ {F : Type 0} ⦃fl : Float F⦄ where
  abbrev pub string_of : Json F → Bytes → Bytes
  string_of (text s) def = s
  string_of _ def = def

  unfoldable pub get_string_param : Map (Json F) → Bytes → Bytes → Bytes
  get_string_param params key def = elim (lookup key params) [
    | none ↦ def
    | some v ↦ string_of v def
  ]

  abbrev pub float_of : Json F → F → F
  float_of (number x) def = x
  float_of (int i) def = fl.of_ℤ i
  float_of (text s) def = elim (fl.parse_float s) [ none ↦ def | some x ↦ x ]
  float_of _ def = def

  unfoldable pub get_float_param : Map (Json F) → Bytes → F → F
  get_float_param params key def = elim (lookup key params) [ none ↦ def | some v ↦ float_of v def ]

  abbrev pub int_of : Json F → ℤ → ℤ
  int_of (int i) def = i
  int_of (number x) def = fl.to_int64 x
  int_of (text s) def = elim (parse_int s) [ none ↦ def | some i ↦ i ]
  int_of _ def = def

  unfoldable pub get_int_param : Map (Json F) → Bytes → ℤ → ℤ
  get_int_param params key def = elim (lookup key params) [ none ↦ def | some v ↦ int_of v def ]
