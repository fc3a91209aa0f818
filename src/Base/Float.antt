-- ===== src/Base/Float.antt =====
-- IEEE 754 doubles. The language has none, so the type and its operations are a parameter, and the
-- laws that a proof needs of them stand in `FloatLaws`.
pub mod Sample
use Prim.Native.Nat.{ℕ}
use mathlib.Core.Path.{◌≡◌}
use mathlib.Core.Bool.{Bool, true}
use mathlib.Core.Option.{Option}
use redborder_monitor.Base.Int.{ℤ}
use redborder_monitor.Base.Text.{Bytes}

pub record Float (F : Type 0) : Type 0 where
  pub zero_value : F
  pub nan : F
  pub add : F → F → F
  pub sub : F → F → F
  pub mul : F → F → F
  pub div : F → F → F
  pub neg : F → F
  pub is_zero : F → Bool
  pub is_nan : F → Bool
  pub is_inf : F → Bool
  -- the order and the equality of the language, false on NaN
  pub float_lt : F → F → Bool
  pub float_eq : F → F → Bool
  -- conversions: float64(uint64), float64(int64), int64(float64)
  pub of_ℕ : ℕ → F
  pub of_ℤ : ℤ → F
  pub to_int64 : F → ℤ
  -- time.Duration.Seconds() of nanoseconds
  pub seconds : ℤ → F
  -- the number that strconv.ParseFloat(s, 64) returns, also beside an error: 0 or an infinity
  pub parse_value : Bytes → F
  -- strconv.ParseFloat(s, 64) without an error, and fmt.Sprintf("%f", x)
  pub parse_float : Bytes → Option F
  pub format_f : F → Bytes
  -- fmt.Sprintf("%.nf", x) with n digits behind the point, and fmt's %v
  pub format_fixed : ℕ → F → Bytes
  pub format_v : F → Bytes

-- What IEEE 754 says of the value NaN.
pub record FloatLaws {F : Type 0} (fl : Float F) : Type 0 where
  pub is_nan-nan : fl.is_nan fl.nan ≡ true
