-- ===== src/Values/Split.antt =====
-- A vector output: where its children come from, and what the aggregate adds up.
use mathlib.Core.Path.{subst}
use mathlib.Core.List.{append_assoc, append-nil}
use redborder_monitor.Base.Decimal.{parse_int}
use redborder_monitor.Base.{
  Bool-cases, Option-cases, inl, inr, true, false, ◌+◌, ◌≡◌, ◌≢◌, refl, sym, ◌∙◌, Option, none,
  some, List, [], ◌∷◌, ◌++◌, map, length, arith, if◌then◌else◌,
}
use redborder_monitor.Base.Text.{Bytes, codes, same, is_empty, is_empty_of_ne, trim_space, cut}
use redborder_monitor.Base.Split.{split, Splits, split-Splits}
use redborder_monitor.Base.Int.{ℤ}
use redborder_monitor.Base.Float.{Float}
use redborder_monitor.Model.{Monitor}
use redborder_monitor.Values.{
  is_one, split_stamp, MonitorValue, MonitorState, Gathered, nothing_gathered, gather, aggregate,
  read_part, read_parts, split_output, parse_raw_output_with_value,
}

-- the values of the children that are there, in order
abbrev pub present : {F : Type 0} → List (Option (MonitorValue F)) → List F
present [] = []
present (none ∷ cs) = present cs
present (some v ∷ cs) = v.value ∷ present cs

nil_of_empty : (s : Bytes) → is_empty s ≡ true → s ≡ []
nil_of_empty [] e = refl
nil_of_empty (c ∷ s) e = cc e

ne_of_not_empty : (s : Bytes) → is_empty s ≡ false → s ≢ []
ne_of_not_empty [] e = cc e
ne_of_not_empty (c ∷ s) e = λ f. cc f

module _ {F : Type 0} ⦃fl : Float F⦄ where
  -- the sum from the left, which fixes the order of the rounding
  abbrev pub sum_from : F → List F → F
  sum_from acc [] = acc
  sum_from acc (x ∷ xs) = sum_from (fl.add acc x) xs

  -- The aggregate of a vector: none without an operator or without a value; else the sum, or for
  -- `mean` the sum by the number of the values.
  abbrev pub Aggregates : Bytes → ℤ → List F → Option (MonitorValue F) → Type 0
  Aggregates op now [] r = r ≡ none
  Aggregates op now (x ∷ xs) r =
      let total = sum_from fl.zero_value (x ∷ xs) in
      let mean = fl.div total (fl.of_ℕ (length (x ∷ xs))) in
      let res = if same op (codes "mean") then mean else total in
      r ≡ (
        if is_empty op
        then none
        else some (record { timestamp = now; value = res; text = fl.format_f res }))

  -- What a loop has gathered over the items `cs`, from `g` on.
  pub record Gathers (g : Gathered F) (cs : List (Option (MonitorValue F))) (h : Gathered F)
      : Type 0 where
    pub children : h.children ≡ g.children ++ cs
    pub sum : h.sum ≡ sum_from g.sum (present cs)
    pub count : h.count ≡ g.count + length (present cs)

  pub Gathers-none : (g : Gathered F) → Gathers g [] g
  Gathers-none g = record { children = sym (append-nil _); sum = refl; count = omega arith }

  pub Gathers-cons :
      (g : Gathered F) (c : Option (MonitorValue F)) (cs : List (Option (MonitorValue F)))
      (h : Gathered F)
      → Gathers (gather g c) cs h
      → Gathers g (c ∷ cs) h
  Gathers-cons g none cs h k = record {
    children = k.children ∙ append_assoc g.children (none ∷ []) cs;
    sum = k.sum;
    count = k.count;
  }
  Gathers-cons g (some v) cs h k = record {
    children = k.children ∙ append_assoc g.children (some v ∷ []) cs;
    sum = k.sum;
    count = omega (arith, k.count);
  }

  -- What stands before the first colon of a piece is its time, if the monitor has times: the time and
  -- the text of the number, where `now` is used if there is no time or it is no integer.
  pub data Stamped (m : Monitor F) (now : ℤ) : Bytes → ℤ → Bytes → Type 0 where
    untimed : {s : Bytes} → is_one m.timestamp_given ≡ false → Stamped m now s now s
    no_colon : {s : Bytes} → cut (codes ":") s ≡ none → Stamped m now s now s
    timed :
        {s t rest : Bytes} {at : ℤ}
        → is_one m.timestamp_given ≡ true
        → cut (codes ":") s ≡ some (t, rest)
        → parse_int t ≡ some at
        → Stamped m now s at rest
    bad_time :
        {s t rest : Bytes}
        → is_one m.timestamp_given ≡ true
        → cut (codes ":") s ≡ some (t, rest)
        → parse_int t ≡ none
        → Stamped m now s now rest

  -- The child of a piece between separators: none for a blank piece and where no number stands, and
  -- else the number with its time and its text.
  pub data ReadsAs (m : Monitor F) (now : ℤ) (piece : Bytes)
      : Option (MonitorValue F) → Type 0 where
    blank : trim_space piece ≡ [] → ReadsAs m now piece none
    no_number :
        {at : ℤ} {s : Bytes}
        → trim_space piece ≢ []
        → Stamped m now (trim_space piece) at s
        → fl.parse_float s ≡ none
        → ReadsAs m now piece none
    number :
        {at : ℤ} {s : Bytes} {x : F}
        → trim_space piece ≢ []
        → Stamped m now (trim_space piece) at s
        → fl.parse_float s ≡ some x
        → ReadsAs m now piece (some (record { timestamp = at; value = x; text = s }))

  -- one child for each piece, in order
  abbrev pub ReadAll : Monitor F → ℤ → List Bytes → List (Option (MonitorValue F)) → Type 0
  ReadAll m now [] [] = Unit
  ReadAll m now (p ∷ ps) (c ∷ cs) = ReadsAs m now p c × ReadAll m now ps cs
  ReadAll m now _ _ = ⊥

  split_stamp-Stamped :
      (m : Monitor F) (now : ℤ) (s : Bytes)
      → let r = split_stamp (is_one m.timestamp_given) now s in Stamped m now s r.0 r.1
  unfolding split_stamp
  split_stamp-Stamped m now s = elim (Bool-cases (is_one m.timestamp_given)) [
    | inl e ↦ elim (Option-cases (cut (codes ":") s)) [
      | inl n ↦ rw (e, split_stamp, n) (no_colon n)
      | inr ((t, rest), c) ↦ elim (Option-cases (parse_int t)) [
        | inl n ↦ rw (e, split_stamp, c, n) (bad_time e c n)
        | inr (at, i) ↦ rw (e, split_stamp, c, i) (timed e c i)
      ]
    ]
    | inr e ↦ rw (e, split_stamp) (untimed e)
  ]

  read_part-ReadsAs :
      (m : Monitor F) (now : ℤ) (piece : Bytes) → ReadsAs m now piece (read_part m now piece)
  unfolding read_part
  read_part-ReadsAs m now piece =
      let k = split_stamp-Stamped m now (trim_space piece) in
      let text = (split_stamp (is_one m.timestamp_given) now (trim_space piece)).1 in
      elim (Bool-cases (is_empty (trim_space piece))) [
        | inl e ↦ rw e (blank (nil_of_empty _ e))
        | inr e ↦ elim (Option-cases (fl.parse_float text)) [
          | inl n ↦ rw (e, n) (no_number (ne_of_not_empty _ e) k n)
          | inr (x, n) ↦ rw (e, n) (number (ne_of_not_empty _ e) k n)
        ]
      ]

  read_part-ReadAll :
      (m : Monitor F) (now : ℤ) (pieces : List Bytes)
      → ReadAll m now pieces (map (read_part m now) pieces)
  read_part-ReadAll m now [] = tt
  read_part-ReadAll m now (p ∷ ps) = (read_part-ReadsAs m now p, read_part-ReadAll m now ps)

  read_parts-Gathers :
      (m : Monitor F) (now : ℤ) (parts : List Bytes) (g : Gathered F)
      → Gathers g (map (read_part m now) parts) (read_parts m now parts g)
  unfolding read_parts
  read_parts-Gathers m now [] g = Gathers-none g
  read_parts-Gathers m now (p ∷ parts) g =
      Gathers-cons g (read_part m now p) _ _ (read_parts-Gathers m now parts _)

  pub aggregate-Aggregates :
      (op : Bytes) (now : ℤ) (cs : List (Option (MonitorValue F))) (h : Gathered F)
      → Gathers nothing_gathered cs h
      → Aggregates op now (present cs) (aggregate op now h)
  aggregate-Aggregates op now cs h k = go (present cs) k.sum k.count
    where
      go :
          (xs : List F)
          → h.sum ≡ sum_from fl.zero_value xs
          → h.count ≡ 0 + length xs
          → Aggregates op now xs (aggregate op now h)
      go [] s c = unfold aggregate in ground arith
      go (x ∷ xs) s c = unfold aggregate in ground arith

  -- The state that a vector output gives: no scalar; a child for each piece between separators,
  -- in order, as it reads; and the aggregate of those that are there.
  pub record IsVector (m : Monitor F) (now : ℤ) (out : Bytes) (st : MonitorState F) : Type 0 where
    pub parts : List Bytes
    pub splits : Splits m.split out parts
    pub scalar : st.scalar ≡ none
    pub children : ReadAll m now parts st.children
    pub aggregates : Aggregates m.split_op now (present st.children) st.split_op

  split_output-IsVector :
      (m : Monitor F) (now : ℤ) (out : Bytes)
      → m.split ≢ []
      → IsVector m now out (split_output m now out)
  unfolding split_output
  split_output-IsVector m now out h =
      let k = read_parts-Gathers m now (split m.split out) nothing_gathered in
      record {
        parts = split m.split out;
        splits = split-Splits m.split out h;
        scalar = refl;
        children =
            subst (ReadAll m now (split m.split out)) (sym k.children)
              (read_part-ReadAll m now (split m.split out));
        aggregates =
            subst
              (λ cs.
                Aggregates m.split_op now (present cs) (
                  aggregate m.split_op now (read_parts m now (split m.split out) nothing_gathered)))
              (sym k.children) (aggregate-Aggregates m.split_op now _ _ k);
      }

  -- With a separator, raw output becomes a vector: a child for each piece between separators, in
  -- order, which is none for a blank piece and where no number stands, and else the number with its
  -- text and its time, which stands before the first colon if the monitor has times; and the aggregate
  -- of those that are there. The number that comes with the output is not used.
  pub parse_raw_output-IsVector :
      (out : Bytes) (x : F) (m : Monitor F) (now : ℤ)
      → m.split ≢ []
      → IsVector m now out (parse_raw_output_with_value out x m now)
  unfolding parse_raw_output_with_value
  parse_raw_output-IsVector out x m now h =
      simp (is_empty_of_ne m.split h) (split_output-IsVector m now out h)
