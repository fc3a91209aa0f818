-- ===== src/Base/Decimal.antt =====
-- Decimal numerals: fmt's %d and strconv.ParseInt(s, 10, 64).
use Prim.Native.Nat.{ℕ, zero, suc, ◌+◌, ◌-◌, ◌*◌, ◌/◌, ◌%◌, ◌^◌, ◌<◌}
use mathlib.Core.Path.{◌≡◌, ap, ◌∙◌}
use mathlib.Core.Logic.{inl, inr}
use mathlib.Core.Bool.{Bool, true, false}
use mathlib.Core.Option.{Option, none, some}
use mathlib.Core.List.{[], ◌∷◌, ◌++◌}
use native.Mathlib.Omega.{arith}
use redborder_monitor.Base.Tests.{ltb, leb, ◌==◌, if◌then◌else◌, Bool-cases}
use redborder_monitor.Base.Text.{Bytes, is_digit}
use redborder_monitor.Base.Int.{ℤ, pos, negsuc}

unfoldable pub to_digits : ℕ → ℕ → Bytes
to_digits zero n = []
to_digits (suc fuel) n =
    let high = to_digits fuel (n / 10) in
    if ltb n 10 then (b'0' + n) ∷ [] else high ++ (b'0' + n % 10) ∷ []

unfoldable pub format_ℕ : ℕ → Bytes
unfolding to_digits
format_ℕ n = to_digits (n + 1) n

unfoldable pub format_ℤ : ℤ → Bytes
unfolding format_ℕ
format_ℤ (pos n) = format_ℕ n
format_ℤ (negsuc n) = b'-' ∷ format_ℕ (n + 1)

-- the number that a run of digits stands for, behind `acc`
unfoldable pub digits_value : ℕ → Bytes → Option ℕ
unfolding is_digit
digits_value acc [] = some acc
digits_value acc (c ∷ s) =
    let rest = digits_value (acc * 10 + (c - b'0')) s in if is_digit c then rest else none

abbrev pub magnitude : Bytes → Option ℕ
magnitude [] = none
magnitude (c ∷ s) = digits_value 0 (c ∷ s)

-- ±`m` where it fits 64 bits
abbrev pub signed_64 : Bool → Option ℕ → Option ℤ
signed_64 minus none = none
signed_64 false (some m) = if ltb m (2 ^ 63) then some (pos m) else none
signed_64 true (some m) =
    if m == 0 then some (pos 0) else if leb m (2 ^ 63) then some (negsuc (m - 1)) else none

-- strconv.ParseInt(s, 10, 64); `none` is an error
unfoldable pub parse_int : Bytes → Option ℤ
unfolding digits_value
parse_int [] = none
parse_int (c ∷ s) =
    if c == b'-'
    then signed_64 true (magnitude s)
    else if c == b'+'
    then signed_64 false (magnitude s)
    else signed_64 false (magnitude (c ∷ s))

-- Reading digits one behind the other.
digits_value-concat :
    (s : Bytes) (acc v d : ℕ)
    → d < 10
    → digits_value acc s ≡ some v
    → digits_value acc (s ++ (b'0' + d) ∷ []) ≡ some (v * 10 + d)
unfolding digits_value
digits_value-concat [] acc v d h e = ground arith
digits_value-concat (c ∷ s) acc v d h e =
    ground (arith, digits_value-concat s (acc * 10 + (c - b'0')) v d h)

digits_value-to_digits : (fuel n : ℕ) → n < fuel → digits_value 0 (to_digits fuel n) ≡ some n
unfolding to_digits
digits_value-to_digits zero n h = elim h [ ]
digits_value-to_digits (suc fuel) n h = elim (Bool-cases (ltb n 10)) [
  | inl small ↦ rw small (unfold digits_value in ground arith)
  | inr large ↦ rw large (
      digits_value-concat (to_digits fuel (n / 10)) 0 (n / 10) (n % 10) (omega arith)
        (digits_value-to_digits fuel (n / 10) (ground arith))
      ∙ ap some (omega arith))
]

-- A printed number reads back as itself.
pub digits_value-format_ℕ : (n : ℕ) → digits_value 0 (format_ℕ n) ≡ some n
unfolding format_ℕ
digits_value-format_ℕ n = digits_value-to_digits (n + 1) n (omega arith)

-- Different numbers print differently.
pub format_ℕ-injective : (n m : ℕ) → format_ℕ n ≡ format_ℕ m → n ≡ m
format_ℕ-injective n m e =
    cc (digits_value-format_ℕ n, digits_value-format_ℕ m, ap (digits_value 0) e)
