-- ===== src/Base/Split.antt =====
-- strings.Split with a separator that is not empty, and its inverse strings.Join.
use Prim.Native.Nat.{ℕ, zero, suc, ◌+◌, ◌<◌}
use mathlib.Core.Path.{◌≡◌, refl, sym, ap, ◌∙◌, subst}
use mathlib.Core.Logic.{◌≢◌, inl, inr}
use mathlib.Core.Option.{Option, none, some}
use mathlib.Core.List.{List, [], ◌∷◌, ◌++◌}
use native.Mathlib.Omega.{arith}
use redborder_monitor.Base.Tests.{Option-cases}
use redborder_monitor.Base.Lists.{length, length-append, All}
use redborder_monitor.Base.Text.{Bytes, strip_prefix?, cut}

unfoldable pub split_loop : ℕ → Bytes → Bytes → List Bytes
unfolding cut
split_loop zero sep s = s ∷ []
split_loop (suc fuel) sep s = elim (cut sep s) [
  | none ↦ s ∷ []
  | some (before, behind) ↦ before ∷ split_loop fuel sep behind
]

unfoldable pub split : Bytes → Bytes → List Bytes
unfolding split_loop
split sep s = split_loop (length s + 1) sep s

unfoldable pub join : Bytes → List Bytes → Bytes
join sep [] = []
join sep (x ∷ []) = x
join sep (x ∷ y ∷ xs) = x ++ (sep ++ join sep (y ∷ xs))

-- strings.ReplaceAll of a text that is not empty
unfoldable pub replace_all : Bytes → Bytes → Bytes → Bytes
replace_all old new s = join new (split old s)

strip_prefix?-some : (p s r : Bytes) → strip_prefix? p s ≡ some r → s ≡ p ++ r
unfolding strip_prefix?
strip_prefix?-some [] s r e = ground arith
strip_prefix?-some (x ∷ p) [] r e = cc
strip_prefix?-some (x ∷ p) (c ∷ s) r e = ground (arith, strip_prefix?-some p s r)

-- A prefix of the beginning is a prefix of the whole.
strip_prefix?-append :
    (p s t r : Bytes) → strip_prefix? p s ≡ some r → strip_prefix? p (s ++ t) ≡ some (r ++ t)
unfolding strip_prefix?
strip_prefix?-append [] s t r e = ground arith
strip_prefix?-append (x ∷ p) [] t r e = cc
strip_prefix?-append (x ∷ p) (c ∷ s) t r e = ground (arith, strip_prefix?-append p s t r)

abbrev Cuts : Bytes → Bytes → Option (Bytes × Bytes) → Type 0
Cuts sep s none = Unit
Cuts sep s (some (a, b)) = (s ≡ a ++ (sep ++ b)) × (cut sep a ≡ none)

cut_later : Option (Bytes × Bytes) → ℕ → Option (Bytes × Bytes)
cut_later none c = none
cut_later (some (a, b)) c = some (c ∷ a, b)

-- the separator does not start at `c`
cut-miss :
    (sep : Bytes) (c : ℕ) (s : Bytes)
    → strip_prefix? sep (c ∷ s) ≡ none
    → cut sep (c ∷ s) ≡ cut_later (cut sep s) c
unfolding cut
cut-miss sep c s e = rw (e, cut) (go (cut sep s))
  where
    go :
        (o : Option (Bytes × Bytes))
        → (elim o [ none ↦ none | some (before, behind) ↦ some (c ∷ before, behind) ])
          ≡ cut_later o c
    go none = unfold cut_later in refl
    go (some (a, b)) = unfold cut_later in refl

cut-hit :
    (sep : Bytes) (c : ℕ) (s r : Bytes)
    → strip_prefix? sep (c ∷ s) ≡ some r
    → cut sep (c ∷ s) ≡ some ([], r)
unfolding cut
cut-hit sep c s r e = rw (e, cut)

-- what stands before the first place holds no separator
miss_before :
    (sep a t : Bytes) (c : ℕ)
    → strip_prefix? sep (c ∷ (a ++ t)) ≡ none
    → strip_prefix? sep (c ∷ a) ≡ none
miss_before sep a t c e = elim (Option-cases (strip_prefix? sep (c ∷ a))) [
  | inl h ↦ h
  | inr (r, h) ↦ absurd (cc (e, strip_prefix?-append sep (c ∷ a) t r h))
]

Cuts-later :
    (sep : Bytes) (c : ℕ) (s : Bytes) (o : Option (Bytes × Bytes))
    → strip_prefix? sep (c ∷ s) ≡ none
    → Cuts sep s o
    → Cuts sep (c ∷ s) (cut_later o c)
unfolding cut_later
Cuts-later sep c s none e k = tt
Cuts-later sep c s (some (a, b)) e k =
    (ap (◌∷◌ c) k.0, cut-miss sep c a (miss_before sep a (sep ++ b) c (rw (← k.0) e)) ∙ rw k.1)

cut-Cuts : (x : ℕ) (sep s : Bytes) → Cuts (x ∷ sep) s (cut (x ∷ sep) s)
cut-Cuts x sep [] = unfold cut strip_prefix? in tt
cut-Cuts x sep (c ∷ s) = elim (Option-cases (strip_prefix? (x ∷ sep) (c ∷ s))) [
  | inl e ↦ rw (cut-miss (x ∷ sep) c s e) (Cuts-later (x ∷ sep) c s _ e (cut-Cuts x sep s))
  | inr (r, e) ↦
      rw (cut-hit (x ∷ sep) c s r e)
        (strip_prefix?-some (x ∷ sep) (c ∷ s) r e, unfold cut strip_prefix? in refl)
]

-- no piece holds the separator, and the pieces joined by it are the text
abbrev pub Splits : Bytes → Bytes → List Bytes → Type 0
Splits sep s parts = (join sep parts ≡ s) × All (λ p. cut sep p ≡ none) parts

join-cons :
    (sep x : Bytes) (xs : List Bytes) → xs ≢ [] → join sep (x ∷ xs) ≡ x ++ (sep ++ join sep xs)
unfolding join
join-cons sep x [] h = absurd (h refl)
join-cons sep x (y ∷ xs) h = refl

pub split_loop-ne-nil : (fuel : ℕ) (sep s : Bytes) → split_loop fuel sep s ≢ []
unfolding split_loop
split_loop-ne-nil zero sep s = cc
split_loop-ne-nil (suc fuel) sep s = elim (Option-cases (cut sep s)) [
  | inl e ↦ rw (e, split_loop) (λ h. cc)
  | inr (r, e) ↦ rw (e, split_loop) (λ h. cc)
]

cut_shorter :
    {fuel : ℕ} (x : ℕ) (sep s a b : Bytes)
    → cut (x ∷ sep) s ≡ some (a, b)
    → length s < suc fuel
    → length b < fuel
cut_shorter x sep s a b e l =
    let k = subst (Cuts (x ∷ sep) s) e (cut-Cuts x sep s) in
    omega (arith, ap length k.0, length-append a (x ∷ (sep ++ b)), length-append sep b)

split_more :
    (fuel x : ℕ) (sep s a b : Bytes)
    → cut (x ∷ sep) s ≡ some (a, b)
    → Splits (x ∷ sep) b (split_loop fuel (x ∷ sep) b)
    → Splits (x ∷ sep) s (a ∷ split_loop fuel (x ∷ sep) b)
split_more fuel x sep s a b e (whole, clean) =
    let k = subst (Cuts (x ∷ sep) s) e (cut-Cuts x sep s) in
    (
      join-cons (x ∷ sep) a _ (split_loop-ne-nil fuel (x ∷ sep) b)
          ∙ ap (λ r. a ++ (x ∷ (sep ++ r))) whole
          ∙ sym k.0,
      (k.1, clean),
    )

split_loop-Splits :
    (fuel x : ℕ) (sep s : Bytes)
    → length s < fuel
    → Splits (x ∷ sep) s (split_loop fuel (x ∷ sep) s)
unfolding split_loop join
split_loop-Splits zero x sep s l = elim l [ ]
split_loop-Splits (suc fuel) x sep s l = elim (Option-cases (cut (x ∷ sep) s)) [
  | inl e ↦ rw (e, split_loop) (refl, (e, tt))
  | inr ((a, b), e) ↦
      rw (e, split_loop)
        (split_more fuel x sep s a b e
          (split_loop-Splits fuel x sep b (cut_shorter x sep s a b e l)))
]

-- The pieces hold no separator, and joined by it they are the text.
pub split-Splits : (sep s : Bytes) → sep ≢ [] → Splits sep s (split sep s)
unfolding split
split-Splits [] s h = absurd (h refl)
split-Splits (x ∷ sep) s h = split_loop-Splits _ x sep s (omega arith)
