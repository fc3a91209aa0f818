-- ===== src/Snmp/Prefixes.antt =====
-- internal/monitor/snmp.go: `TranslateOID` visits the entries of a Go map, whose order differs from
-- run to run.
use mathlib.Core.List.{Memᴰ, Permᴰ}
use mathlib.Core.List.Memᴰ.{head, tail}
use mathlib.Core.List.Permᴰ
use mathlib.Core.List.Permᴰ.{nil, cons, swap, trans}
use redborder_monitor.Base.{
  ◌≡◌, ◌⊎◌, inl, inr, refl, sym, ◌∙◌, ap, Bool, true, false, not, ◌&&◌, ◌||◌, Option, none, some,
  [], ◌∷◌, ◌++◌, arith, is_some, Option-cases,
}
use redborder_monitor.Base.Text.{Bytes, strip_prefix?, trim_space}
use redborder_monitor.Base.Map.{Map}
use redborder_monitor.Snmp.Oid.{MibEngine, prefix_map, tidy, replace_prefix, translate_oid}

-- one of the texts is a prefix of the other
abbrev comparable : Bytes → Bytes → Bool
comparable p q = is_some (strip_prefix? p q) || is_some (strip_prefix? q p)

abbrev apart_from : Bytes → Map Bytes → Bool
apart_from p [] = true
apart_from p ((q, r) ∷ m) = not (comparable p q) && not (comparable q p) && apart_from p m

abbrev all_apart : Map Bytes → Bool
all_apart [] = true
all_apart ((p, r) ∷ m) = apart_from p m && all_apart m

prefix_map-apart : all_apart prefix_map ≡ true
unfolding strip_prefix?
prefix_map-apart = refl

-- Two prefixes of one text are comparable.
prefixes_comparable :
    (p q s r t : Bytes)
    → strip_prefix? p s ≡ some r
    → strip_prefix? q s ≡ some t
    → comparable p q ≡ true
unfolding strip_prefix?
prefixes_comparable [] q s r t h k = refl
prefixes_comparable (x ∷ p) [] s r t h k = ground arith
prefixes_comparable (x ∷ p) (y ∷ q) [] r t h k = cc h
prefixes_comparable (x ∷ p) (y ∷ q) (c ∷ s) r t h k = ground (arith, prefixes_comparable p q s r t)

apart_from-Memᴰ :
    (p : Bytes) (e : Bytes × Bytes) (m : Map Bytes)
    → apart_from p m ≡ true
    → Memᴰ e m
    → (comparable p e.0 ≡ false) × (comparable e.0 p ≡ false)
apart_from-Memᴰ p e [] h k = elim k [ ]
apart_from-Memᴰ p e (f ∷ m) h (head q) = rw q (ground arith, ground arith)
apart_from-Memᴰ p e (f ∷ m) h (tail k) = apart_from-Memᴰ p e m (ground arith) k

comparable_eq :
    (m : Map Bytes) (e f : Bytes × Bytes)
    → all_apart m ≡ true
    → Memᴰ e m
    → Memᴰ f m
    → comparable e.0 f.0 ≡ true
    → e ≡ f
comparable_eq [] e f h i j c = elim i [ ]
comparable_eq (g ∷ m) e f h (head p) (head q) c = p ∙ sym q
comparable_eq (g ∷ m) e f h (head p) (tail j) c =
    let a = apart_from-Memᴰ g.0 f m (ground arith) j in
    absurd (cc (a.0, c, ap (λ u. comparable u.0 f.0) p))
comparable_eq (g ∷ m) e f h (tail i) (head q) c =
    let a = apart_from-Memᴰ g.0 e m (ground arith) i in
    absurd (cc (a.1, c, ap (λ u. comparable e.0 u.0) q))
comparable_eq (g ∷ m) e f h (tail i) (tail j) c = comparable_eq m e f (ground arith) i j c

abbrev Missed : Map Bytes → Bytes → Type 0
Missed m s =
    (replace_prefix m s ≡ none) × ((e : Bytes × Bytes) → Memᴰ e m → strip_prefix? e.0 s ≡ none)

abbrev Found : Map Bytes → Bytes → Type 0
Found m s =
    (e : Bytes × Bytes) × (r : Bytes) × (Memᴰ e m
      × ((strip_prefix? e.0 s ≡ some r) × (replace_prefix m s ≡ some (tidy (e.1 ++ r)))))

Missed-cons :
    (e : Bytes × Bytes) (m : Map Bytes) (s : Bytes)
    → strip_prefix? e.0 s ≡ none
    → Missed m s
    → Missed (e ∷ m) s
unfolding replace_prefix
Missed-cons e m s h k = (
  rw (h, replace_prefix) k.0,
  λ f j. elim j [ head p ↦ ap (λ u. strip_prefix? u.0 s) p ∙ h | tail j ↦ k.1 f j ],
)

search_prefix : (m : Map Bytes) (s : Bytes) → Missed m s ⊎ Found m s
unfolding replace_prefix
search_prefix [] s = inl (refl, λ e k. elim k [ ])
search_prefix ((p, x) ∷ m) s = elim (Option-cases (strip_prefix? p s)) [
  | inr (r, h) ↦ inr ((p, x), r, (head refl, (h, rw (h, replace_prefix) refl)))
  | inl h ↦ elim (search_prefix m s) [
    | inl k ↦ inl (Missed-cons (p, x) m s h k)
    | inr (e, r, (k, (l, o))) ↦ inr (e, r, (tail k, (l, rw (h, replace_prefix) o)))
  ]
]

mem_perm : {m n : Map Bytes} {e : Bytes × Bytes} → Permᴰ m n → Memᴰ e m → Memᴰ e n
mem_perm nil k = elim k [ ]
mem_perm (cons p h) (head q) = head (q ∙ p)
mem_perm (cons p h) (tail k) = tail (mem_perm h k)
mem_perm (swap p q) (head r) = tail (head (r ∙ p))
mem_perm (swap p q) (tail (head r)) = head (r ∙ q)
mem_perm (swap p q) (tail (tail k)) = tail (tail k)
mem_perm (trans h k) l = mem_perm k (mem_perm h l)

same_search :
    (m n : Map Bytes) (s : Bytes)
    → all_apart n ≡ true
    → Permᴰ m n
    → Missed m s ⊎ Found m s
    → Missed n s ⊎ Found n s
    → replace_prefix m s ≡ replace_prefix n s
same_search m n s c h (inl a) (inl b) = a.0 ∙ sym b.0
same_search m n s c h (inl a) (inr (f, r, (k, (l, o)))) =
    absurd (cc (l, a.1 f (mem_perm (Permᴰ.symm h) k)))
same_search m n s c h (inr (e, r, (k, (l, o)))) (inl b) = absurd (cc (l, b.1 e (mem_perm h k)))
same_search m n s c h (inr (e, r, (k, (l, o)))) (inr (f, t, (k', (l', o')))) =
    let p : e ≡ f =
      comparable_eq n e f c (mem_perm h k) k' (prefixes_comparable e.0 f.0 s r t l l') in
    cc (o, o', l, l', p)

-- In whatever order the entries of the table of prefixes are visited, with MIBs or without, a name
-- is translated to the same object.
pub translate_oid_order :
    (engine : Option MibEngine) (order : Map Bytes) (oid : Bytes)
    → Permᴰ order prefix_map
    → translate_oid engine order oid ≡ translate_oid engine prefix_map oid
unfolding translate_oid
translate_oid_order engine order oid h =
    rw
      (same_search order prefix_map (trim_space oid) prefix_map-apart h (search_prefix order _)
        (search_prefix prefix_map _))
      refl
