-- ===== src/Op/Vector.antt =====
-- A formula over vectors: which states it reads, and what its children are.
use mathlib.Core.Path.{subst}
use mathlib.Core.List.{append_assoc, append-nil, map-append}
use redborder_monitor.Base.{
  ℕ, zero, suc, ◌+◌, ◌<◌, ◌≡◌, ◌≢◌, refl, sym, ap, ◌∙◌, ◌⊎◌, inl, inr, Option, none, some, List, [],
  ◌∷◌, ◌++◌, map, length, get_elem?, All, All-append, arith, ◌==◌, if◌then◌else◌, Bool-cases,
  Option-cases,
}
use redborder_monitor.Base.Text.{Bytes}
use redborder_monitor.Base.Int.{ℤ}
use redborder_monitor.Base.Map.{Map}
use redborder_monitor.Base.Float.{Float}
use redborder_monitor.Base.Result.{Result, ok, err}
use redborder_monitor.Tokenizer.{EvalError, extract_variables}
use redborder_monitor.Model.{Monitor}
use redborder_monitor.Values.{MonitorValue, MonitorState, Gathered, nothing_gathered, aggregate}
use redborder_monitor.Values.Split.{
  Gathers, Gathers-none, Gathers-cons, aggregate-Aggregates, Aggregates, present,
}
use redborder_monitor.Op.Items.{IsItem, values_at, op_item-IsItem}
use redborder_monitor.Op.{
  ParsedGroup, Deps, merge_size, find_dependency, op_item, op_items, scalar_op, vector_op, resolve,
  parse_group_id, process_op_monitor,
}

merge_size_cases :
    (size n size' : ℕ)
    → merge_size size n ≡ some size'
    → ((size ≡ size') ⊎ (size ≡ 0)) × ((n ≡ 0) ⊎ (n ≡ size'))
merge_size_cases size n size' e = ground arith

module _ {F : Type 0} ⦃fl : Float F⦄ where
  -- A state that fits a vector of `size` items: a scalar, or a vector of that size.
  abbrev pub Fits : ℕ → Bytes × MonitorState F → Type 0
  Fits size d = (length d.1.children ≡ 0) ⊎ (length d.1.children ≡ size)

  abbrev pub Found : ParsedGroup → Map (MonitorState F) → Bytes × MonitorState F → Type 0
  Found gid current d = find_dependency d.0 gid current ≡ some d.1

  abbrev pub names_of : Deps F → List Bytes
  names_of = map (λ d. d.0)

  -- The states that a formula reads: one for each variable, in order, as the lookup finds it.
  pub record Resolves (names : List Bytes) (gid : ParsedGroup) (current : Map (MonitorState F))
      (deps : Deps F) (size : ℕ) : Type 0 where
    pub named : names_of deps ≡ names
    pub found : All (Found gid current) deps
    pub fits : All (Fits size) deps

  Fits-grow : (size : ℕ) (deps : Deps F) → All (Fits 0) deps → All (Fits size) deps
  Fits-grow size [] h = tt
  Fits-grow size (d ∷ deps) h = (ground arith, Fits-grow size deps h.1)

  Fits-merge :
      (size size' : ℕ) (deps : Deps F)
      → (size ≡ size') ⊎ (size ≡ 0)
      → All (Fits size) deps
      → All (Fits size') deps
  Fits-merge size size' deps (inl e) h = subst (λ k. All (Fits k) deps) e h
  Fits-merge size size' deps (inr e) h = Fits-grow size' deps (subst (λ k. All (Fits k) deps) e h)

  abbrev ResolvesTo : List Bytes → ParsedGroup → Map (MonitorState F) → Option (Deps F × ℕ) → Type 0
  ResolvesTo names gid current none = Unit
  ResolvesTo names gid current (some (deps, size)) = Resolves names gid current deps size

  resolve_add :
      (before : List Bytes) (name : Bytes) (gid : ParsedGroup) (current : Map (MonitorState F))
      (deps : Deps F) (size size' : ℕ) (st : MonitorState F)
      → Resolves before gid current deps size
      → find_dependency name gid current ≡ some st
      → merge_size size (length st.children) ≡ some size'
      → Resolves (before ++ name ∷ []) gid current (deps ++ (name, st) ∷ []) size'
  resolve_add before name gid current deps size size' st r f e =
      let (grown, fit) = merge_size_cases size (length st.children) size' e in
      record {
        named = map-append _ deps _ ∙ ap (λ x. x ++ name ∷ []) r.named;
        found = All-append (Found gid current) deps _ r.found (f, tt);
        fits = All-append (Fits size') deps _ (Fits-merge size size' deps grown r.fits) (fit, tt);
      }

  resolve-ResolvesTo :
      (names before : List Bytes) (gid : ParsedGroup) (current : Map (MonitorState F))
      (deps : Deps F) (size : ℕ)
      → Resolves before gid current deps size
      → ResolvesTo (before ++ names) gid current (resolve names gid current deps size)
  unfolding resolve
  resolve-ResolvesTo [] before gid current deps size r = rw append-nil r
  resolve-ResolvesTo (name ∷ names) before gid current deps size r =
      elim (Option-cases (find_dependency name gid current)) [
        | inl e ↦ rw (e, resolve) tt
        | inr (st, e) ↦ elim (Option-cases (merge_size size (length st.children))) [
          | inl k ↦ rw (e, resolve, k) tt
          | inr (size', k) ↦
              rw (e, resolve, k)
                (subst
                  (λ x.
                    ResolvesTo x gid current
                      (resolve names gid current (deps ++ (name, st) ∷ []) size'))
                  (append_assoc before (name ∷ []) names)
                  (resolve-ResolvesTo names (before ++ name ∷ []) gid current _ size'
                    (resolve_add before name gid current deps size size' st r e k)))
        ]
      ]

  -- The children that the loop over the items gathers: one for each item, in order.
  items : Bytes → Deps F → ℤ → ℕ → ℕ → List (Option (MonitorValue F))
  items op deps now zero k = []
  items op deps now (suc rounds) k = op_item op deps now k ∷ items op deps now rounds (k + 1)

  op_items-Gathers :
      (op : Bytes) (deps : Deps F) (now : ℤ) (rounds k : ℕ) (g : Gathered F)
      → Gathers g (items op deps now rounds k) (op_items op deps now rounds k g)
  unfolding op_items items
  op_items-Gathers op deps now zero k g = Gathers-none g
  op_items-Gathers op deps now (suc rounds) k g =
      Gathers-cons g (op_item op deps now k) _ _ (op_items-Gathers op deps now rounds (k + 1) _)

  length-items :
      (op : Bytes) (deps : Deps F) (now : ℤ) (rounds k : ℕ)
      → length (items op deps now rounds k) ≡ rounds
  unfolding items
  length-items op deps now zero k = refl
  length-items op deps now (suc rounds) k = ap suc (length-items op deps now rounds (k + 1))

  get_elem?-items :
      (op : Bytes) (deps : Deps F) (now : ℤ) (rounds k i j : ℕ)
      → i < rounds
      → k + i ≡ j
      → get_elem? (items op deps now rounds k) i ≡ some (op_item op deps now j)
  unfolding items
  get_elem?-items op deps now zero k i j h e = elim h [ ]
  get_elem?-items op deps now (suc rounds) k zero j h e = let e' : k ≡ j = omega arith in rw e'
  get_elem?-items op deps now (suc rounds) k (suc i) j h e =
      get_elem?-items op deps now rounds (k + 1) i j (omega arith) (omega arith)

  -- The state of a formula over vectors.
  pub record IsVectorOp (m : Monitor F) (current : Map (MonitorState F)) (now : ℤ)
      (names : List Bytes) (st : MonitorState F) : Type 0 where
    pub deps : Deps F
    pub size : ℕ
    pub resolves : Resolves names (parse_group_id m.group_id) current deps size
    pub scalar : st.scalar ≡ none
    pub sized : length st.children ≡ size
    pub children :
        (k : ℕ)
        → k < size
        → (c : Option (MonitorValue F)) × (get_elem? st.children k ≡ some c)
          × IsItem m.op deps now (values_at deps k) c
    pub aggregates : Aggregates m.split_op now (present st.children) st.split_op

  vector_op-IsVectorOp :
      (m : Monitor F) (current : Map (MonitorState F)) (now : ℤ) (names : List Bytes)
      (deps : Deps F) (size : ℕ)
      → Resolves names (parse_group_id m.group_id) current deps size
      → IsVectorOp m current now names (vector_op m deps now size)
  unfolding vector_op
  vector_op-IsVectorOp m current now names deps size r =
      let k = op_items-Gathers m.op deps now size 0 nothing_gathered in
      record {
        deps = deps;
        size = size;
        resolves = r;
        scalar = refl;
        sized = ap length k.children ∙ length-items m.op deps now size 0;
        children = λ i h. (
          op_item m.op deps now i,
          ap (λ cs. get_elem? cs i) k.children
              ∙ get_elem?-items m.op deps now size 0 i i h (omega arith),
          op_item-IsItem m.op deps now i,
        );
        aggregates =
            subst
              (λ cs.
                Aggregates m.split_op now (present cs)
                  (aggregate m.split_op now (op_items m.op deps now size 0 nothing_gathered)))
              (sym k.children) (aggregate-Aggregates m.split_op now _ _ k);
      }

  abbrev NoChildren : Option (MonitorState F) → Type 0
  NoChildren none = Unit
  NoChildren (some st) = st.children ≡ []

  scalar_op-NoChildren : (op : Bytes) (deps : Deps F) (now : ℤ) → NoChildren (scalar_op op deps now)
  unfolding scalar_op
  scalar_op-NoChildren op deps now = ground arith

  abbrev VectorOpIn :
      Monitor F → Map (MonitorState F) → ℤ → List Bytes → Option (MonitorState F) → Type 0
  VectorOpIn m current now names none = Unit
  VectorOpIn m current now names (some st) = st.children ≢ [] → IsVectorOp m current now names st

  scalar_op-VectorOpIn :
      (m : Monitor F) (current : Map (MonitorState F)) (now : ℤ) (names : List Bytes)
      (deps : Deps F)
      → VectorOpIn m current now names (scalar_op m.op deps now)
  scalar_op-VectorOpIn m current now names deps =
      go (scalar_op m.op deps now) (scalar_op-NoChildren m.op deps now)
    where
      go : (o : Option (MonitorState F)) → NoChildren o → VectorOpIn m current now names o
      go none h = tt
      go (some st) h = λ n. elim (n h) [ ]

  -- Where the formula's variables are `names`, a state with children is the result over vectors: one
  -- state was found for each variable, each is a scalar or a vector of one common size; there are
  -- that many children; child `k` is the formula over the values of the states at `k`, with the
  -- first time of a vector's value that is not 0, and is none where a value is missing, the formula
  -- fails or the number is not finite; the aggregate is that of the children that are there.
  pub process_op_monitor-IsVectorOp :
      (m : Monitor F) (current : Map (MonitorState F)) (now : ℤ) {names : List Bytes}
      {st : MonitorState F}
      → extract_variables m.op ≡ ok names
      → process_op_monitor m current now ≡ some st
      → st.children ≢ []
      → IsVectorOp m current now names st
  unfolding process_op_monitor
  process_op_monitor-IsVectorOp m current now {names} {st} e p =
      subst (VectorOpIn m current now names) p (
        subst
          (λ (r : Result EvalError (List Bytes)). VectorOpIn m current now names (elim r [
            | err e ↦ none
            | ok names ↦ elim (resolve names (parse_group_id m.group_id) current [] 0) [
              | none ↦ none
              | some (deps, size) ↦
                  if size == 0 then scalar_op m.op deps now else some (vector_op m deps now size)
            ]
          ]))
          (sym e)
          (resolved (resolve names (parse_group_id m.group_id) current [] 0) (
            resolve-ResolvesTo names [] (parse_group_id m.group_id) current [] 0
              (record { named = refl; found = tt; fits = tt }))))
    where
      chosen :
          (deps : Deps F) (size : ℕ)
          → Resolves names (parse_group_id m.group_id) current deps size
          → VectorOpIn m current now names
              (if size == 0 then scalar_op m.op deps now else some (vector_op m deps now size))
      chosen deps size r = elim (Bool-cases (size == 0)) [
        | inl h ↦ rw h (scalar_op-VectorOpIn m current now names deps)
        | inr h ↦ rw h (λ n. vector_op-IsVectorOp m current now names deps size r)
      ]

      resolved :
          (o : Option (Deps F × ℕ))
          → ResolvesTo names (parse_group_id m.group_id) current o
          → VectorOpIn m current now names (elim o [
            | none ↦ none
            | some (deps, size) ↦
                if size == 0 then scalar_op m.op deps now else some (vector_op m deps now size)
          ])
      resolved none r = tt
      resolved (some (deps, size)) r = chosen deps size r
