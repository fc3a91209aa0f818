-- ===== src/Evaluator/Closed.antt =====
-- A formula all of whose variables have values never fails for want of one.
use mathlib.Core.Path.{subst}
use redborder_monitor.Base.{
  ◌≡◌, ◌≢◌, inl, inr, refl, ◌∙◌, true, Option, none, some, List, [], ◌∷◌, ◌++◌, All, All-append,
  arith, Bool-cases,
}
use redborder_monitor.Base.Text.{Bytes, same_refl}
use redborder_monitor.Base.Result.{Result, ok, err, ◌>>=◌, bind-eq-ok}
use redborder_monitor.Base.Map.{Map, lookup}
use redborder_monitor.Base.Float.{Float}
use redborder_monitor.Tokenizer.{
  TokenType, number, variable, operator, lparen, rparen, Token, EvalError, undefined_variable,
  mismatched_parens, tokenize, extract_variables, elem,
}
use redborder_monitor.Tokenizer.Variables.{mentions, mentions_in, extract_variables_lem}
use redborder_monitor.Evaluator.{
  pop_to_paren, pop_operators, Yard, close_paren, yard_step, flush, yard_loop, shunting_yard,
  is_lparen, unary_name, yields_to, rpn_step, rpn_loop, evaluate_rpn, evaluate_expression, single,
}

-- `P` holds of the names of the variables among the tokens.
abbrev Named : (Bytes → Type 0) → TokenType → Bytes → Type 0
Named P variable v = P v
Named P _ v = Unit

abbrev Names : (Bytes → Type 0) → Token → Type 0
Names P t = Named P t.type t.value

module _ (P : Bytes → Type 0) where
  -- both lists of a state
  abbrev Both : List Token → List Token → Type 0
  Both q s = All (Names P) q × All (Names P) s

  abbrev Kept : Option (List Token × List Token) → Type 0
  Kept none = Unit
  Kept (some (q, s)) = Both q s

  abbrev KeptYard : Result EvalError Yard → Type 0
  KeptYard (ok y) = Both y.queue y.stack
  KeptYard (err e) = e ≡ mismatched_parens

  abbrev KeptTokens : Result EvalError (List Token) → Type 0
  KeptTokens (ok ts) = All (Names P) ts
  KeptTokens (err e) = e ≡ mismatched_parens

  pop_to_paren-Kept : (q s : List Token) → Both q s → Kept (pop_to_paren q s)
  unfolding pop_to_paren
  pop_to_paren-Kept q [] b = tt
  pop_to_paren-Kept q (x ∷ s) b =
      ground
        (arith, pop_to_paren-Kept (q ++ x ∷ []) s, All-append (Names P) q (x ∷ []) b.0 (b.1.0, tt))

  pop_operators-Both :
      (op : Bytes) (q s : List Token)
      → Both q s
      → Both (pop_operators op q s).0 (pop_operators op q s).1
  unfolding pop_operators
  pop_operators-Both op q [] b = b
  pop_operators-Both op q (x ∷ s) b = elim (Bool-cases (is_lparen x.type)) [
    | inl h ↦ simp h b
    | inr h ↦ simp h (elim (Bool-cases (yields_to op x.value)) [
      | inl y ↦ simp y (
          pop_operators-Both op (q ++ x ∷ []) s
            (All-append (Names P) q (x ∷ []) b.0 (b.1.0, tt), b.1.1))
      | inr y ↦ simp y b
    ])
  ]

  flush-KeptTokens : (q s : List Token) → Both q s → KeptTokens (flush q s)
  unfolding flush
  flush-KeptTokens q [] b = b.0
  flush-KeptTokens q (x ∷ s) b =
      ground
        (arith, flush-KeptTokens (q ++ x ∷ []) s, All-append (Names P) q (x ∷ []) b.0 (b.1.0, tt))

  closed_paren : (r : Option (List Token × List Token)) → Kept r → KeptYard (close_paren r)
  closed_paren none k = refl
  closed_paren (some (q, s)) k = k

  yard_step-KeptYard :
      (t : TokenType) (tok : Token) (y : Yard)
      → Names P tok
      → Both y.queue y.stack
      → KeptYard (yard_step t tok y)
  unfolding yard_step
  yard_step-KeptYard number tok y n b = (All-append (Names P) y.queue (tok ∷ []) b.0 (n, tt), b.1)
  yard_step-KeptYard variable tok y n b = (All-append (Names P) y.queue (tok ∷ []) b.0 (n, tt), b.1)
  yard_step-KeptYard lparen tok y n b = (b.0, (n, b.1))
  yard_step-KeptYard rparen tok y n b = closed_paren _ (pop_to_paren-Kept y.queue y.stack b)
  yard_step-KeptYard operator tok y n b =
      let (q, s) =
        pop_operators-Both (unary_name tok.value y.prev_was_op_or_start) y.queue y.stack b in
      (q, (tt, s))

  yard_loop-KeptTokens :
      (ts : List Token) (y : Yard)
      → All (Names P) ts
      → Both y.queue y.stack
      → KeptTokens (yard_loop ts y)
  unfolding yard_loop
  yard_loop-KeptTokens [] y n b = flush-KeptTokens y.queue y.stack b
  yard_loop-KeptTokens (t ∷ ts) y n b =
      go (yard_step t.type t y) (yard_step-KeptYard t.type t y n.0 b) (yard_loop-KeptTokens ts)
    where
      go :
          (r : Result EvalError Yard)
          → KeptYard r
          → ((z : Yard) → All (Names P) ts → Both z.queue z.stack → KeptTokens (yard_loop ts z))
          → KeptTokens (r >>= yard_loop ts)
      go (ok z) k later = later z n.1 k
      go (err e) k later = k

  -- The shunting yard brings in no variable.
  shunting_yard-KeptTokens : (ts : List Token) → All (Names P) ts → KeptTokens (shunting_yard ts)
  unfolding shunting_yard
  shunting_yard-KeptTokens ts n = yard_loop-KeptTokens ts _ n (tt, tt)

  -- Every name that the tokens mention satisfies `P`.
  Names-mentions : (ts : List Token) → ((v : Bytes) → mentions v ts ≡ true → P v) → All (Names P) ts
  Names-mentions [] h = tt
  Names-mentions (t ∷ ts) h = (
    named t.type t.value (λ v e. h v (ground arith)),
    Names-mentions ts (λ v e. h v (ground arith)),
  )
    where
      named :
          (k : TokenType) (x : Bytes) → ((v : Bytes) → mentions_in k v x ≡ true → P v) → Named P k x
      named variable x f = f x (same_refl x)
      named number x f = tt
      named operator x f = tt
      named lparen x f = tt
      named rparen x f = tt

module _ {F : Type 0} ⦃fl : Float F⦄ (vars : Map F) where
  abbrev HasValue : Bytes → Type 0
  HasValue v = (x : F) × (lookup v vars ≡ some x)

  abbrev IsDefined : EvalError → Type 0
  IsDefined (undefined_variable v) = ⊥
  IsDefined _ = Unit

  abbrev Defined {ℓ} : {A : Type ℓ} → Result EvalError A → Type 0
  Defined (ok a) = Unit
  Defined (err e) = IsDefined e

  rpn_step-Defined :
      (t : TokenType) (v : Bytes) (stack : List F)
      → Named HasValue t v
      → Defined (rpn_step t v vars stack)
  unfolding rpn_step
  rpn_step-Defined number v stack n = ground arith
  rpn_step-Defined variable v stack (x, e) = rw e tt
  rpn_step-Defined operator v [] n = ground arith
  rpn_step-Defined operator v (a ∷ []) n = ground arith
  rpn_step-Defined operator v (a ∷ b ∷ stack) n = ground arith
  rpn_step-Defined lparen v stack n = tt
  rpn_step-Defined rparen v stack n = tt

  single-Defined : (stack : List F) → Defined (single stack)
  single-Defined [] = tt
  single-Defined (a ∷ []) = tt
  single-Defined (a ∷ b ∷ stack) = tt

  Defined-bind {ℓ κ} :
      {A : Type ℓ} {B : Type κ} (r : Result EvalError A) (f : A → Result EvalError B)
      → Defined r
      → ((a : A) → Defined (f a))
      → Defined (r >>= f)
  Defined-bind (ok a) f h k = k a
  Defined-bind (err e) f h k = h

  rpn_loop-Defined :
      (ts : List Token) (stack : List F)
      → All (Names HasValue) ts
      → Defined (rpn_loop ts vars stack)
  unfolding rpn_loop
  rpn_loop-Defined [] stack n = single-Defined stack
  rpn_loop-Defined (t ∷ ts) stack n =
      Defined-bind (rpn_step t.type t.value vars stack) (rpn_loop ts vars)
        (rpn_step-Defined t.type t.value stack n.0) (λ s. rpn_loop-Defined ts s n.1)

  shunting_yard-Defined :
      (ts : List Token)
      → All (Names HasValue) ts
      → Defined (shunting_yard ts >>= λ rpn. evaluate_rpn rpn vars)
  shunting_yard-Defined ts n = go (shunting_yard ts) (shunting_yard-KeptTokens HasValue ts n)
    where
      go :
          (r : Result EvalError (List Token))
          → KeptTokens HasValue r
          → Defined (r >>= λ rpn. evaluate_rpn rpn vars)
      go (ok rpn) k = unfold evaluate_rpn in rpn_loop-Defined rpn [] k
      go (err e) k = rw k tt

  -- If every extracted variable has a value, the evaluation does not fail with an undefined
  -- variable: it gives a value or fails for another reason.
  pub evaluate_expression-Defined :
      (expr : Bytes) (names : List Bytes)
      → extract_variables expr ≡ ok names
      → ((v : Bytes) → elem v names ≡ true → HasValue v)
      → (v : Bytes) → evaluate_expression expr vars ≢ err (undefined_variable v)
  unfolding evaluate_expression extract_variables
  evaluate_expression-Defined expr names e h v failed =
      let (ts, read, collected) = bind-eq-ok (tokenize expr) _ e in
      let (names', e', distinct, all) = extract_variables_lem expr read in
      let agree : names ≡ names' = cc (e, e') in
      let named = Names-mentions HasValue ts (λ x m. h x (rw agree (all x ∙ m))) in
      subst Defined (rw read at failed) (shunting_yard-Defined ts named)
