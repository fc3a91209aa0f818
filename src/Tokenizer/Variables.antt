-- ===== src/Tokenizer/Variables.antt =====
-- The names that `ExtractVariables` returns.
use redborder_monitor.Base.{
  ◌≡◌, refl, inl, inr, Bool, true, false, ◌||◌, List, [], ◌∷◌, ◌++◌, arith, Bool-cases,
}
use redborder_monitor.Base.Text.{Bytes, same, same_iff}
use redborder_monitor.Base.Result.{ok}
use redborder_monitor.Tokenizer.{
  TokenType, variable, Token, tokenize, elem, collect, add_variable, extract_variables,
}

-- some token is the variable `v`
abbrev pub mentions_in : TokenType → Bytes → Bytes → Bool
mentions_in variable v x = same x v
mentions_in _ v x = false

abbrev pub mentions : Bytes → List Token → Bool
mentions v [] = false
mentions v (t ∷ ts) = mentions_in t.type v t.value || mentions v ts

abbrev pub Distinct : List Bytes → Type 0
Distinct [] = Unit
Distinct (x ∷ xs) = (elem x xs ≡ false) × Distinct xs

elem-concat : (v x : Bytes) (xs : List Bytes) → elem v (xs ++ x ∷ []) ≡ (elem v xs || same x v)
unfolding elem
elem-concat v x [] = ground arith
elem-concat v x (y ∷ xs) = ground (arith, elem-concat v x xs)

Distinct-concat :
    (x : Bytes) (xs : List Bytes) → Distinct xs → elem x xs ≡ false → Distinct (xs ++ x ∷ [])
unfolding elem
Distinct-concat x [] d h = (refl, tt)
Distinct-concat x (y ∷ xs) d h =
    ground (arith, elem-concat y x xs, Distinct-concat x xs, same_iff y x, same_iff x y)

-- a name that is there already adds nothing
elem_absorbs :
    (v x : Bytes) (xs : List Bytes) → elem x xs ≡ true → elem v xs ≡ (elem v xs || same x v)
elem_absorbs v x xs h = elim (Bool-cases (same x v)) [
  | inl e ↦ rw (← (same_iff x v).0 e, h) (ground arith)
  | inr e ↦ rw e (ground arith)
]

add_variable-elem :
    (t : TokenType) (v x : Bytes) (xs : List Bytes)
    → elem v (add_variable t x xs) ≡ (elem v xs || mentions_in t v x)
add_variable-elem variable v x xs = elim (Bool-cases (elem x xs)) [
  | inl h ↦ rw h (elem_absorbs v x xs h)
  | inr h ↦ rw h (elem-concat v x xs)
]
add_variable-elem _ v x xs = ground arith

add_variable-Distinct :
    (t : TokenType) (x : Bytes) (xs : List Bytes) → Distinct xs → Distinct (add_variable t x xs)
add_variable-Distinct variable x xs d = elim (Bool-cases (elem x xs)) [
  | inl h ↦ rw h d
  | inr h ↦ rw h (Distinct-concat x xs d h)
]
add_variable-Distinct _ x xs d = d

collect-elem :
    (v : Bytes) (ts : List Token) (xs : List Bytes)
    → elem v (collect ts xs) ≡ (elem v xs || mentions v ts)
unfolding collect
collect-elem v [] xs = ground arith
collect-elem v (t ∷ ts) xs = ground (
  arith,
  collect-elem v ts (add_variable t.type t.value xs),
  add_variable-elem t.type v t.value xs,
)

collect-Distinct : (ts : List Token) (xs : List Bytes) → Distinct xs → Distinct (collect ts xs)
unfolding collect
collect-Distinct [] xs d = d
collect-Distinct (t ∷ ts) xs d = collect-Distinct ts _ (add_variable-Distinct t.type t.value xs d)

-- The extracted names are distinct, and they are exactly the variables among the tokens.
pub extract_variables_lem :
    (expr : Bytes) {ts : List Token}
    → tokenize expr ≡ ok ts
    → (vars : List Bytes) × (extract_variables expr ≡ ok vars)
      × Distinct vars
      × ((v : Bytes) → elem v vars ≡ mentions v ts)
unfolding extract_variables
extract_variables_lem expr {ts} h =
    (collect ts [], rw h, collect-Distinct ts [] tt, λ v. collect-elem v ts [])
