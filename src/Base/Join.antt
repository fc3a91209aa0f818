-- ===== src/Base/Join.antt =====
-- strings.Join with a separator of one byte, read back by strings.Split.
use redborder_monitor.Base.Tests.{◌==◌}
use redborder_monitor.Base.Lists.{length, length-append, All}
use redborder_monitor.Base.Text.{Bytes, cut, strip_prefix?}
use redborder_monitor.Base.Split.{Splits, split, split-Splits, split_loop, split_loop-ne-nil, join}
use Prim.Native.Nat.{ℕ, zero, suc, ◌<◌}
use mathlib.Core.Path.{◌≡◌, refl, sym, ap, ◌∙◌, subst}
use mathlib.Core.Logic.{◌≢◌}
use mathlib.Core.Bool.{false}
use mathlib.Core.Option.{none, some}
use mathlib.Core.List.{List, [], ◌∷◌, ◌++◌}
use native.Mathlib.Omega.{arith}

-- the text holds no byte `x`
abbrev pub Lacks : ℕ → Bytes → Type 0
Lacks x s = cut (x ∷ []) s ≡ none

pub cut-append : (x : ℕ) (a b : Bytes) → Lacks x a → cut (x ∷ []) (a ++ (x ∷ b)) ≡ some (a, b)
unfolding cut strip_prefix?
cut-append x [] b h = ground arith
cut-append x (c ∷ a) b h = ground (arith, cut-append x a b)

split_loop-join :
    (fuel x : ℕ) (p : Bytes) (ps : List Bytes)
    → All (Lacks x) (p ∷ ps)
    → length (join (x ∷ []) (p ∷ ps)) < fuel
    → split_loop fuel (x ∷ []) (join (x ∷ []) (p ∷ ps)) ≡ p ∷ ps
unfolding split_loop join
split_loop-join zero x p ps h l = elim l [ ]
split_loop-join (suc fuel) x p [] h l = rw (h.0, split_loop) refl
split_loop-join (suc fuel) x p (q ∷ ps) h l =
    rw (cut-append x p (join (x ∷ []) (q ∷ ps)) h.0, split_loop)
      (ap (◌∷◌ p) (
        split_loop-join fuel x q ps h.1
          (omega (arith, length-append p (x ∷ join (x ∷ []) (q ∷ ps))))))

-- Pieces that lack the separator come back from the text that joins them.
pub split-join :
    (x : ℕ) (p : Bytes) (ps : List Bytes)
    → All (Lacks x) (p ∷ ps)
    → split (x ∷ []) (join (x ∷ []) (p ∷ ps)) ≡ p ∷ ps
unfolding split
split-join x p ps h = split_loop-join _ x p ps h (omega arith)

abbrev pub Parts : ℕ → Bytes → Type 0
Parts x s =
    (p : Bytes) × (ps : List Bytes) × ((split (x ∷ []) s ≡ p ∷ ps)
      × (join (x ∷ []) (p ∷ ps) ≡ s)
      × All (Lacks x) (p ∷ ps))

cons_view : (x : ℕ) (s : Bytes) (l : List Bytes) → l ≢ [] → split (x ∷ []) s ≡ l → Parts x s
cons_view x s [] h e = absurd (h refl)
cons_view x s (p ∷ ps) h e =
    let k = subst (Splits (x ∷ []) s) e (split-Splits (x ∷ []) s (λ q. cc q)) in
    (p, ps, (e, k.0, k.1))

-- There is a first piece.
pub split-Parts : (x : ℕ) (s : Bytes) → Parts x s
unfolding split
split-Parts x s = cons_view x s _ (split_loop-ne-nil _ (x ∷ []) s) refl

-- a separator in front is an empty piece
pub split-separator : (x : ℕ) (s : Bytes) → split (x ∷ []) (x ∷ s) ≡ [] ∷ split (x ∷ []) s
unfolding join cut strip_prefix?
split-separator x s =
    let (p, ps, (e, j, l)) = split-Parts x s in
    subst (λ t. split (x ∷ []) (x ∷ t) ≡ [] ∷ split (x ∷ []) s) j
      (split-join x [] (p ∷ ps) (refl, l) ∙ ap (◌∷◌ []) (sym e))

join-cons_head :
    (x c : ℕ) (p : Bytes) (ps : List Bytes)
    → join (x ∷ []) ((c ∷ p) ∷ ps) ≡ c ∷ join (x ∷ []) (p ∷ ps)
unfolding join
join-cons_head x c p [] = refl
join-cons_head x c p (q ∷ ps) = refl

Lacks-cons : (x c : ℕ) (p : Bytes) → (x == c) ≡ false → Lacks x p → Lacks x (c ∷ p)
unfolding cut strip_prefix?
Lacks-cons x c p h l = ground arith

-- another byte in front belongs to the first piece
pub split-other :
    (x c : ℕ) (s p : Bytes) (ps : List Bytes)
    → (x == c) ≡ false
    → split (x ∷ []) s ≡ p ∷ ps
    → split (x ∷ []) (c ∷ s) ≡ (c ∷ p) ∷ ps
split-other x c s p ps h e =
    let k = subst (Splits (x ∷ []) s) e (split-Splits (x ∷ []) s (λ q. cc q)) in
    subst (λ t. split (x ∷ []) t ≡ (c ∷ p) ∷ ps) (join-cons_head x c p ps ∙ ap (◌∷◌ c) k.0)
      (split-join x (c ∷ p) ps (Lacks-cons x c p h k.1.0, k.1.1))
