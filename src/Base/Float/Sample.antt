-- ===== src/Base/Float/Sample.antt =====
-- A value for the parameter `Float`: integers with a not-a-number, enough to run the examples.
use redborder_monitor.Base.Tests.{leb, if◌then◌else◌}
use redborder_monitor.Base.Text.{Bytes}
use redborder_monitor.Base.Int.{ℤ, pos, negsuc, pos_part, neg_part, ltb_ℤ, eqb_ℤ}
use redborder_monitor.Base.Float.{Float, FloatLaws}
use Prim.Native.Nat.{ℕ, zero, suc, ◌+◌, ◌-◌, ◌*◌, ◌/◌}
use mathlib.Core.Path.{refl}
use mathlib.Core.Bool.{Bool, true, false, ◌&&◌}
use mathlib.Core.Option.{Option, none, some}
use mathlib.Core.List.{[], ◌∷◌}

pub data Sample : Type 0 where
  value : ℤ → Sample
  not_a_number : Sample

abbrev pub int_sub : ℕ → ℕ → ℤ
int_sub a b = if leb b a then pos (a - b) else negsuc (b - a - 1)

abbrev pub lift₂ : (ℤ → ℤ → ℤ) → Sample → Sample → Sample
lift₂ f (value a) (value b) = value (f a b)
lift₂ f _ _ = not_a_number

abbrev pub add_ℤ : ℤ → ℤ → ℤ
add_ℤ a b = int_sub (pos_part a + pos_part b) (neg_part a + neg_part b)

abbrev pub neg_ℤ : ℤ → ℤ
neg_ℤ a = int_sub (neg_part a) (pos_part a)

abbrev pub mul_ℤ : ℤ → ℤ → ℤ
mul_ℤ a b =
    int_sub (pos_part a * pos_part b + neg_part a * neg_part b)
      (pos_part a * neg_part b + neg_part a * pos_part b)

-- the quotient of the sizes, with the sign of the product
abbrev pub div_ℤ : ℤ → ℤ → ℤ
div_ℤ a b =
    let size = (pos_part a + neg_part a) / (pos_part b + neg_part b) in
    if eqb_ℤ (mul_ℤ a b) (pos (pos_part (mul_ℤ a b))) then pos size else int_sub 0 size

abbrev pub digits_value : ℕ → Bytes → Option Sample
digits_value acc [] = some (value (pos acc))
digits_value acc (c ∷ s) =
    let rest = digits_value (acc * 10 + (c - b'0')) s in
    if leb b'0' c && leb c b'9' then rest else none

abbrev pub parse : Bytes → Option Sample
parse [] = none
parse (c ∷ s) = digits_value 0 (c ∷ s)

abbrev pub test₂ : (ℤ → ℤ → Bool) → Sample → Sample → Bool
test₂ f (value a) (value b) = f a b
test₂ f _ _ = false

abbrev pub is_not_a_number : Sample → Bool
is_not_a_number not_a_number = true
is_not_a_number (value a) = false

abbrev pub negate : Sample → Sample
negate (value a) = value (neg_ℤ a)
negate not_a_number = not_a_number

abbrev pub integer_of : Sample → ℤ
integer_of (value a) = a
integer_of not_a_number = pos 0

-- one byte for the sign and the value in unary, which is enough to tell values apart
abbrev pub strokes : ℕ → Bytes
strokes zero = []
strokes (suc n) = b'1' ∷ strokes n

abbrev pub show : Sample → Bytes
show (value (pos n)) = strokes n
show (value (negsuc n)) = b'-' ∷ strokes (suc n)
show not_a_number = b'N' ∷ []

instance abbrev pub sample : Float Sample
sample = record {
  zero_value = value (pos 0);
  nan = not_a_number;
  add = lift₂ add_ℤ;
  sub = lift₂ (λ a b. add_ℤ a (neg_ℤ b));
  mul = lift₂ mul_ℤ;
  div = lift₂ div_ℤ;
  neg = negate;
  is_zero = test₂ eqb_ℤ (value (pos 0));
  is_nan = is_not_a_number;
  is_inf = λ x. false;
  float_lt = test₂ ltb_ℤ;
  float_eq = test₂ eqb_ℤ;
  of_ℕ = λ n. value (pos n);
  of_ℤ = value;
  to_int64 = integer_of;
  -- whole units in place of nanoseconds
  seconds = value;
  parse_value = λ s. elim (parse s) [ none ↦ value (pos 0) | some x ↦ x ];
  parse_float = parse;
  format_f = show;
  format_fixed = λ n x. show x;
  format_v = show;
}

pub sample_laws : FloatLaws sample
sample_laws = record { is_nan-nan = refl }
