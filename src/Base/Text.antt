-- ===== src/Base/Text.antt =====
-- Go strings and byte slices: lists of bytes, with the functions of `strings` that the source calls.
use Prim.Native.Char.{code}
use Prim.Native.Nat.{ℕ, ◌+◌}
use Prim.Native.String.{String}
use mathlib.Core.Path.{◌≡◌, refl}
use mathlib.Core.Logic.{◌↔◌, ◌≢◌}
use mathlib.Core.Bool.{Bool, true, false, ◌&&◌, ◌||◌}
use mathlib.Core.Option.{Option, none, some}
use mathlib.Core.List.{List, [], ◌∷◌, reverse}
use native.Mathlib.Omega.{arith}
use redborder_monitor.Base.Tests.{leb, ◌==◌, if◌then◌else◌}

abbrev pub Bytes : Type 0
Bytes = List ℕ

-- The bytes of an ASCII literal.
abbrev pub codes : String → Bytes
codes String.[] = []
codes (String.◌∷◌ c s) = code c ∷ codes s

abbrev pub is_empty {ℓ} : {A : Type ℓ} → List A → Bool
is_empty [] = true
is_empty (x ∷ xs) = false

pub is_empty_of_ne {ℓ} : {A : Type ℓ} (s : List A) → s ≢ [] → is_empty s ≡ false
is_empty_of_ne [] h = absurd (h refl)
is_empty_of_ne (c ∷ s) h = refl

-- `a == b` on strings
unfoldable pub same : Bytes → Bytes → Bool
same [] [] = true
same (x ∷ xs) (y ∷ ys) = x == y && same xs ys
same _ _ = false

pub same_iff : (a b : Bytes) → (same a b ≡ true) ↔ (a ≡ b)
unfolding same
same_iff (x ∷ a) (y ∷ b) = ground (arith, same_iff a b)
same_iff _ _ = ground arith

pub same_refl : (a : Bytes) → same a a ≡ true
same_refl a = (same_iff a a).1 refl

-- the rest of `s` behind the prefix `p` (strings.HasPrefix with strings.TrimPrefix)
unfoldable pub strip_prefix? : Bytes → Bytes → Option Bytes
strip_prefix? [] s = some s
strip_prefix? (p ∷ ps) [] = none
strip_prefix? (p ∷ ps) (c ∷ s) = if p == c then strip_prefix? ps s else none

abbrev pub trim_prefix_of : Option Bytes → Bytes → Bytes
trim_prefix_of none s = s
trim_prefix_of (some rest) s = rest

-- strings.TrimPrefix
abbrev pub trim_prefix : Bytes → Bytes → Bytes
trim_prefix p s = trim_prefix_of (strip_prefix? p s) s

-- unicode.IsSpace on a byte read as a rune (Latin-1)
unfoldable pub is_space : ℕ → Bool
is_space c = (leb 9 c && leb c 13) || c == 32 || c == 133 || c == 160

-- unicode.IsDigit on a byte read as a rune
unfoldable pub is_digit : ℕ → Bool
is_digit c = leb b'0' c && leb c b'9'

-- ASCII white space, which strings.TrimSpace removes from ASCII text
unfoldable pub is_ascii_space : ℕ → Bool
is_ascii_space c = (leb 9 c && leb c 13) || c == 32

unfoldable pub trim_left : Bytes → Bytes
unfolding is_ascii_space
trim_left [] = []
trim_left (c ∷ s) = if is_ascii_space c then trim_left s else c ∷ s

-- strings.TrimSpace and bytes.TrimSpace on ASCII text
unfoldable pub trim_space : Bytes → Bytes
unfolding trim_left
trim_space s = reverse (trim_left (reverse (trim_left s)))

-- strings.Index with the text around the place found: what stands before and behind `sep`.
unfoldable pub cut : Bytes → Bytes → Option (Bytes × Bytes)
cut sep [] = elim (strip_prefix? sep []) [ none ↦ none | some rest ↦ some ([], rest) ]
cut sep (c ∷ s) =
    let later : Option (Bytes × Bytes) = elim (cut sep s) [
      | none ↦ none
      | some (before, behind) ↦ some (c ∷ before, behind)
    ] in
    elim (strip_prefix? sep (c ∷ s)) [ none ↦ later | some rest ↦ some ([], rest) ]

-- strings.Contains
abbrev pub contains : Bytes → Bytes → Bool
contains s sep = elim (cut sep s) [ none ↦ false | some _ ↦ true ]

-- strings.ToLower on ASCII text
abbrev pub lower : ℕ → ℕ
lower c = if leb b'A' c && leb c b'Z' then c + 32 else c

unfoldable pub to_lower : Bytes → Bytes
to_lower [] = []
to_lower (c ∷ s) = lower c ∷ to_lower s

-- fmt's %q on printable ASCII text
abbrev pub escaped : ℕ → Bytes → Bytes
escaped c rest = if c == 34 || c == 92 then 92 ∷ c ∷ rest else c ∷ rest

unfoldable pub quote_rest : Bytes → Bytes
quote_rest [] = 34 ∷ []
quote_rest (c ∷ s) = escaped c (quote_rest s)

abbrev pub quote : Bytes → Bytes
quote s = 34 ∷ quote_rest s
