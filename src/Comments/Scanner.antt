-- ===== src/Comments/Scanner.antt =====
-- The same routine as a scanner that reads byte by byte.
use redborder_monitor.Base.{
  ℕ, zero, suc, ◌≤◌, ◌≡◌, refl, sym, ap, ◌∙◌, Bool, true, false, ◌||◌, [], ◌∷◌, ◌++◌, length, ◌==◌,
  ==_iff, arith, if◌then◌else◌, Bool-cases, inl, inr,
}
use redborder_monitor.Base.Text.{Bytes}
use redborder_monitor.Comments.{
  Front, quote, comment, kept, skip_block, skip_line, second, front, strip_loop, strip_comments,
}

-- Where the scanner stands: in the text, in a string, behind a backslash in it, behind a slash, in a
-- block comment, behind a star in it, in a line comment.
pub data Mode : Type 0 where
  plain : Mode
  in_string : Mode
  in_escape : Mode
  slash : Mode
  block : Mode
  star : Mode
  line : Mode

abbrev pub next_plain : ℕ → Mode
next_plain c = if c == b'"' then in_string else if c == b'/' then slash else plain

abbrev pub next : Mode → ℕ → Mode
next plain c = next_plain c
next in_string c = if c == b'\\' then in_escape else if c == b'"' then plain else in_string
next in_escape c = in_string
next slash c = if c == b'*' then block else if c == b'/' then line else next_plain c
next block c = if c == b'*' then star else block
next star c = if c == b'/' then plain else if c == b'*' then star else block
next line c = if c == b'\n' then plain else line

abbrev pub out : Mode → ℕ → Bytes
out plain c = if c == b'/' then [] else c ∷ []
out in_string c = c ∷ []
out in_escape c = c ∷ []
out slash c = if c == b'*' || c == b'/' then [] else b'/' ∷ c ∷ []
out block c = []
out star c = []
out line c = if c == b'\n' then c ∷ [] else []

-- a slash at the end of the text
abbrev pub at_end : Mode → Bytes
at_end slash = b'/' ∷ []
at_end _ = []

unfoldable pub scan : Mode → Bytes → Bytes
scan m [] = at_end m
scan m (c ∷ s) = out m c ++ scan (next m c) s

scan-block : (s : Bytes) → scan block s ≡ scan plain (skip_block s)
unfolding scan skip_block
scan-block [] = refl
scan-block (c ∷ []) = ground arith
scan-block (c ∷ d ∷ s) = let ih = scan-block (d ∷ s) in ground arith

scan-line : (s : Bytes) → scan line s ≡ scan plain (skip_line s)
unfolding scan skip_line
scan-line [] = refl
scan-line (c ∷ s) = let ih = scan-line s in ground arith

length-skip_block : (s : Bytes) → length (skip_block s) ≤ length s
unfolding skip_block
length-skip_block [] = omega arith
length-skip_block (c ∷ []) = omega arith
length-skip_block (c ∷ d ∷ s) = let ih = length-skip_block (d ∷ s) in ground arith

length-skip_line : (s : Bytes) → length (skip_line s) ≤ length s
unfolding skip_line
length-skip_line [] = omega arith
length-skip_line (c ∷ s) = let ih = length-skip_line s in ground arith

-- What the scanner does behind a slash, by what stands there.
abbrev After : Front → Bytes → Type 0
After quote s = ⊥
After (comment rest) s = (scan slash s ≡ scan plain rest) × (length rest ≤ length s)
After kept s = scan slash s ≡ b'/' ∷ scan plain s

slash_star : (d : ℕ) (s : Bytes) → (d == b'*') ≡ true → scan slash (d ∷ s) ≡ scan block s
unfolding scan
slash_star d s e = rw e refl

slash_slash :
    (d : ℕ) (s : Bytes)
    → (d == b'*') ≡ false
    → (d == b'/') ≡ true
    → scan slash (d ∷ s) ≡ scan line s
unfolding scan
slash_slash d s e k = rw (e, k) refl

slash_other :
    (d : ℕ) (s : Bytes)
    → (d == b'*') ≡ false
    → (d == b'/') ≡ false
    → scan slash (d ∷ s) ≡ b'/' ∷ scan plain (d ∷ s)
unfolding scan
slash_other d s e k = rw (e, k) refl

second-After : (s : Bytes) → After (second s) s
unfolding scan
second-After [] = refl
second-After (d ∷ s) = elim (Bool-cases (d == b'*')) [
  | inl e ↦ rw e (slash_star d s e ∙ scan-block s, omega (arith, length-skip_block s))
  | inr e ↦ elim (Bool-cases (d == b'/')) [
    | inl k ↦ rw (e, k) (slash_slash d s e k ∙ scan-line s, omega (arith, length-skip_line s))
    | inr k ↦ rw (e, k) (slash_other d s e k)
  ]
]

-- The three places of the loop, as its two variables.
data Place : Type 0 where
  outside : Place
  inside : Place
  escaped : Place

abbrev is_inside : Place → Bool
is_inside outside = false
is_inside inside = true
is_inside escaped = true

abbrev is_escaped : Place → Bool
is_escaped outside = false
is_escaped inside = false
is_escaped escaped = true

abbrev mode_of : Place → Mode
mode_of outside = plain
mode_of inside = in_string
mode_of escaped = in_escape

abbrev at_front : ℕ → ℕ → Bytes → Front → Bytes
at_front fuel c s quote = c ∷ strip_loop fuel true false s
at_front fuel c s (comment rest) = strip_loop fuel false false rest
at_front fuel c s kept = c ∷ strip_loop fuel false false s

strip_loop-front :
    (fuel c : ℕ) (s : Bytes)
    → strip_loop (suc fuel) false false (c ∷ s) ≡ at_front fuel c s (front c s)
unfolding strip_loop
strip_loop-front fuel c s = go (front c s)
  where
    go :
        (f : Front)
        → (elim f as (λ g. Bytes) [
          | quote ↦ c ∷ strip_loop fuel true false s
          | comment rest ↦ strip_loop fuel false false rest
          | kept ↦ c ∷ strip_loop fuel false false s
        ])
          ≡ at_front fuel c s f
    go quote = refl
    go (comment rest) = refl
    go kept = refl

front_slash : (c : ℕ) (s : Bytes) → (c == b'"') ≡ false → (c == b'/') ≡ true → front c s ≡ second s
front_slash c s e k = rw (e, k) refl

plain_slash :
    (c : ℕ) (s : Bytes)
    → (c == b'"') ≡ false
    → (c == b'/') ≡ true
    → scan plain (c ∷ s) ≡ scan slash s
unfolding scan
plain_slash c s e k = rw (e, k) refl

front_kept : (c : ℕ) (s : Bytes) → (c == b'"') ≡ false → (c == b'/') ≡ false → front c s ≡ kept
front_kept c s e k = rw (e, k) refl

plain_kept :
    (c : ℕ) (s : Bytes)
    → (c == b'"') ≡ false
    → (c == b'/') ≡ false
    → scan plain (c ∷ s) ≡ c ∷ scan plain s
unfolding scan
plain_kept c s e k = rw (e, k) refl

-- the loop at a slash
slash_step :
    (fuel c : ℕ) (s : Bytes) (f : Front)
    → c ≡ b'/'
    → After f s
    → ((t : Bytes) → length t ≤ length s → strip_loop fuel false false t ≡ scan plain t)
    → at_front fuel c s f ≡ scan slash s
slash_step fuel c s quote e a ih = absurd a
slash_step fuel c s (comment rest) e a ih = ih rest a.1 ∙ sym a.0
slash_step fuel c s kept e a ih = rw e (ap (λ l. b'/' ∷ l) (ih s (omega arith)) ∙ sym a)

strip_loop-scan :
    (fuel : ℕ) (p : Place) (s : Bytes)
    → length s ≤ fuel
    → strip_loop fuel (is_inside p) (is_escaped p) s ≡ scan (mode_of p) s
unfolding strip_loop scan
strip_loop-scan zero outside [] h = refl
strip_loop-scan zero inside [] h = refl
strip_loop-scan zero escaped [] h = refl
strip_loop-scan zero p (c ∷ s) h = let e : ⊥ = omega arith in absurd e
strip_loop-scan (suc fuel) outside [] h = refl
strip_loop-scan (suc fuel) inside [] h = refl
strip_loop-scan (suc fuel) escaped [] h = refl
strip_loop-scan (suc fuel) escaped (c ∷ s) h =
    ap (λ l. c ∷ l) (strip_loop-scan fuel inside s (omega arith))
strip_loop-scan (suc fuel) inside (c ∷ s) h = elim (Bool-cases (c == b'\\')) [
  | inl e ↦ rw e (ap (λ l. c ∷ l) (strip_loop-scan fuel escaped s (omega arith)))
  | inr e ↦ elim (Bool-cases (c == b'"')) [
    | inl k ↦ rw (e, k) (ap (λ l. c ∷ l) (strip_loop-scan fuel outside s (omega arith)))
    | inr k ↦ rw (e, k) (ap (λ l. c ∷ l) (strip_loop-scan fuel inside s (omega arith)))
  ]
]
strip_loop-scan (suc fuel) outside (c ∷ s) h = elim (Bool-cases (c == b'"')) [
  | inl e ↦
      let p : c ≡ b'"' = (==_iff c b'"').0 e in
      rw p (ap (λ l. b'"' ∷ l) (strip_loop-scan fuel inside s (omega arith)))
  | inr e ↦ elim (Bool-cases (c == b'/')) [
    | inl k ↦
        strip_loop-front fuel c s
        ∙ ap (at_front fuel c s) (front_slash c s e k)
        ∙ slash_step fuel c s (second s) ((==_iff c b'/').0 k) (second-After s)
            (λ t n. strip_loop-scan fuel outside t (omega arith))
        ∙ sym (plain_slash c s e k)
    | inr k ↦
        strip_loop-front fuel c s
        ∙ ap (at_front fuel c s) (front_kept c s e k)
        ∙ ap (λ l. c ∷ l) (strip_loop-scan fuel outside s (omega arith))
        ∙ sym (plain_kept c s e k)
  ]
]

-- For every text the loop does what the scanner does.
pub strip_comments-scan : (s : Bytes) → strip_comments s ≡ scan plain s
unfolding strip_comments
strip_comments-scan s = strip_loop-scan (length s) outside s (omega arith)
