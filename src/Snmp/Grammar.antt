-- ===== src/Snmp/Grammar.antt =====
-- internal/monitor/snmp.go: what `isValidNumericOID` accepts.
use redborder_monitor.Base.{
  ◌≡◌, ◌↔◌, ◌≢◌, ◌⊎◌, inl, inr, refl, sym, ap, ◌∙◌, Bool, true, false, not, ◌&&◌, none, some, List,
  [], ◌∷◌, All, arith, Option-cases,
}
use redborder_monitor.Base.Text.{
  Bytes, codes, is_digit, is_empty, strip_prefix?, trim_prefix_of, cut,
}
use redborder_monitor.Base.Split.{split, join, split-Splits}
use redborder_monitor.Base.Join.{Lacks, split-join}
use redborder_monitor.Snmp.Oid.{all_digits, all_numbers, is_valid_numeric_oid}

-- a number in digits
abbrev pub IsNumber : Bytes → Type 0
IsNumber s = (s ≢ []) × All (λ c. is_digit c ≡ true) s

-- numbers with a dot between each two, and possibly a dot in front
abbrev pub IsNumericOid : Bytes → Type 0
IsNumericOid oid =
    (n : Bytes) × (ns : List Bytes) × (All IsNumber (n ∷ ns)
      × ((oid ≡ join (codes ".") (n ∷ ns)) ⊎ (oid ≡ b'.' ∷ join (codes ".") (n ∷ ns))))

all_digits-All : (s : Bytes) → (all_digits s ≡ true) ↔ All (λ c. is_digit c ≡ true) s
unfolding all_digits
all_digits-All [] = ((λ h. tt), (λ h. refl))
all_digits-All (c ∷ s) = (
  (λ h. (ground arith, (all_digits-All s).0 (ground arith))),
  (λ h. let k = (all_digits-All s).1 h.1 in rw (h.0, k) refl),
)

all_numbers-All : (ps : List Bytes) → (all_numbers ps ≡ true) ↔ All IsNumber ps
all_numbers-All [] = ((λ h. tt), (λ h. refl))
all_numbers-All ([] ∷ ps) = ((λ h. cc h), (λ h. absurd (h.0.0 refl)))
all_numbers-All ((c ∷ p) ∷ ps) = (
  (λ h. (
    ((λ e. cc e), (all_digits-All (c ∷ p)).0 (ground arith)),
    (all_numbers-All ps).0 (ground arith),
  )),
  (λ h.
      let k = (all_digits-All (c ∷ p)).1 h.0.1 in
      let l = (all_numbers-All ps).1 h.1 in rw (k, l) refl),
)

digits-Lacks : (s : Bytes) → All (λ c. is_digit c ≡ true) s → Lacks b'.' s
unfolding cut strip_prefix? is_digit
digits-Lacks [] h = refl
digits-Lacks (c ∷ s) h = let k = digits-Lacks s h.1 in ground arith

numbers-Lack : (ps : List Bytes) → All IsNumber ps → All (Lacks b'.') ps
numbers-Lack [] h = tt
numbers-Lack (p ∷ ps) h = (digits-Lacks p h.0.1, numbers-Lack ps h.1)

-- what stands behind the dot in front
abbrev RestIsNumeric : Bytes → Type 0
RestIsNumeric rest =
    (n : Bytes) × (ns : List Bytes) × (All IsNumber (n ∷ ns) × (rest ≡ join (codes ".") (n ∷ ns)))

abbrev rest_is_valid : Bytes → Bool
rest_is_valid rest = not (is_empty rest) && all_numbers (split (codes ".") rest)

parts-RestIsNumeric :
    (rest : Bytes) (parts : List Bytes)
    → is_empty rest ≡ false
    → join (codes ".") parts ≡ rest
    → all_numbers parts ≡ true
    → RestIsNumeric rest
unfolding join
parts-RestIsNumeric rest [] h e k = absurd (let p : rest ≡ [] = sym e in cc (h, ap is_empty p))
parts-RestIsNumeric rest (n ∷ ns) h e k = (n, ns, ((all_numbers-All (n ∷ ns)).0 k, sym e))

join-number-not_empty :
    (n : Bytes) (ns : List Bytes) → n ≢ [] → is_empty (join (codes ".") (n ∷ ns)) ≡ false
unfolding join
join-number-not_empty [] ns h = absurd (h refl)
join-number-not_empty (c ∷ n) [] h = refl
join-number-not_empty (c ∷ n) (m ∷ ns) h = refl

rest_is_valid_iff : (rest : Bytes) → (rest_is_valid rest ≡ true) ↔ RestIsNumeric rest
rest_is_valid_iff rest = (
  (λ h.
      parts-RestIsNumeric rest (split (codes ".") rest) (ground arith)
        (split-Splits (codes ".") rest (λ e. cc e)).0 (ground arith)),
  (λ (n, ns, (h, e)).
      rw (e, join-number-not_empty n ns h.0.0, split-join b'.' n ns (numbers-Lack (n ∷ ns) h))
        ((all_numbers-All (n ∷ ns)).1 h)),
)

-- A number does not begin with a dot.
join-no-dot :
    (n : Bytes) (ns : List Bytes)
    → IsNumber n
    → strip_prefix? (codes ".") (join (codes ".") (n ∷ ns)) ≡ none
unfolding join strip_prefix? is_digit
join-no-dot [] ns h = absurd (h.0 refl)
join-no-dot (c ∷ n) [] h = let k = h.1.0 in ground arith
join-no-dot (c ∷ n) (m ∷ ns) h = let k = h.1.0 in ground arith

strip-dot : (oid rest : Bytes) → strip_prefix? (codes ".") oid ≡ some rest → oid ≡ b'.' ∷ rest
unfolding strip_prefix?
strip-dot [] rest e = cc e
strip-dot (c ∷ s) rest e = ground arith

dot_first : (rest : Bytes) → strip_prefix? (codes ".") (b'.' ∷ rest) ≡ some rest
unfolding strip_prefix?
dot_first rest = refl

valid_to_numeric : (oid : Bytes) → is_valid_numeric_oid oid ≡ true → IsNumericOid oid
unfolding is_valid_numeric_oid
valid_to_numeric oid h = elim (Option-cases (strip_prefix? (codes ".") oid)) [
  | inl e ↦
      let (n, ns, (k, p)) = (rest_is_valid_iff oid).0 (rw (← ap (λ o. trim_prefix_of o oid) e) h) in
      (n, ns, (k, inl p))
  | inr (rest, e) ↦
      let (n, ns, (k, p)) =
        (rest_is_valid_iff rest).0 (rw (← ap (λ o. trim_prefix_of o oid) e) h) in
      (n, ns, (k, inr (strip-dot oid rest e ∙ ap (◌∷◌ b'.') p)))
]

numeric_to_valid : (oid : Bytes) → IsNumericOid oid → is_valid_numeric_oid oid ≡ true
unfolding is_valid_numeric_oid
numeric_to_valid oid (n, ns, (k, inl e)) =
    rw (e, join-no-dot n ns k.0) ((rest_is_valid_iff _).1 (n, ns, (k, refl)))
numeric_to_valid oid (n, ns, (k, inr e)) =
    rw (e, dot_first) ((rest_is_valid_iff _).1 (n, ns, (k, refl)))

-- An object's name passes the check exactly if it is numbers in decimal digits with one dot between
-- each two of them, with or without a dot in front.
pub is_valid_numeric_oid_iff : (oid : Bytes) → (is_valid_numeric_oid oid ≡ true) ↔ IsNumericOid oid
is_valid_numeric_oid_iff oid = (valid_to_numeric oid, numeric_to_valid oid)
