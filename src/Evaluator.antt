-- ===== src/Evaluator.antt =====
-- internal/monitor/evaluator.go: the shunting yard and the postfix machine behind the `op` field of a
-- monitor. The head of a stack here is the end of the slice there.
pub mod Grammar
pub mod Parsing
pub mod Pipeline
pub mod Closed
mod Tests
use redborder_monitor.Base.{
  ℕ, zero, suc, ◌+◌, ◌≡◌, Bool, true, false, not, ◌&&◌, ◌||◌, Option, none, some, List, [], ◌∷◌,
  ◌++◌, ltb, leb, ◌==◌, if◌then◌else◌, length,
}
use redborder_monitor.Base.Text.{Bytes, codes, same, is_space, is_digit}
use redborder_monitor.Base.Result.{Result, ok, err, ◌>>=◌}
use redborder_monitor.Base.Map.{Map, lookup}
use redborder_monitor.Base.Float.{Float}
use redborder_monitor.Tokenizer.{
  TokenType, number, variable, operator, lparen, rparen, Token, EvalError, out_of_fuel, bad_number,
  undefined_variable, bad_unary, missing_operands, bad_stack_size, mismatched_parens, token,
  tokenize,
}

unfoldable pub get_precedence : Bytes → ℕ
unfolding same
get_precedence op =
    if same op (codes "+") || same op (codes "-")
    then 1
    else if same op (codes "*") || same op (codes "/")
    then 2
    else if same op (codes "u-")
    then 3
    else 0

-- The variables of `shuntingYard`.
pub record Yard : Type 0 where
  pub queue : List Token
  pub stack : List Token
  pub prev_was_op_or_start : Bool

abbrev pub yard : List Token → List Token → Bool → Yard
yard q s b = record { queue = q; stack = s; prev_was_op_or_start = b }

abbrev pub is_lparen : TokenType → Bool
is_lparen lparen = true
is_lparen _ = false

-- the loop of `case TokenRParen`; `none` is `!found`
unfoldable pub pop_to_paren : List Token → List Token → Option (List Token × List Token)
pop_to_paren queue [] = none
pop_to_paren queue (top ∷ stack) =
    if is_lparen top.type then some (queue, stack) else pop_to_paren (queue ++ top ∷ []) stack

-- the test under which the operator `op` sends the operator `top` to the queue
unfoldable pub yields_to : Bytes → Bytes → Bool
unfolding get_precedence same
yields_to op top =
    ltb (get_precedence op) (get_precedence top)
    || (get_precedence op == get_precedence top && not (same op (codes "u-")))

-- the loop of `case TokenOperator`
unfoldable pub pop_operators : Bytes → List Token → List Token → List Token × List Token
unfolding yields_to
pop_operators op queue [] = (queue, [])
pop_operators op queue (top ∷ stack) =
    if is_lparen top.type
    then (queue, top ∷ stack)
    else if yields_to op top.value
    then pop_operators op (queue ++ top ∷ []) stack
    else (queue, top ∷ stack)

abbrev pub unary_name : Bytes → Bool → Bytes
unary_name op prev = if same op (codes "-") && prev then codes "u-" else op

abbrev pub push_operator : Bytes → List Token × List Token → Yard
push_operator op (queue, stack) = yard queue (token operator op ∷ stack) true

abbrev pub close_paren : Option (List Token × List Token) → Result EvalError Yard
close_paren none = err mismatched_parens
close_paren (some (queue, stack)) = ok (yard queue stack false)

unfoldable pub yard_step : TokenType → Token → Yard → Result EvalError Yard
unfolding pop_to_paren pop_operators same
yard_step number tok y = ok (yard (y.queue ++ tok ∷ []) y.stack false)
yard_step variable tok y = ok (yard (y.queue ++ tok ∷ []) y.stack false)
yard_step lparen tok y = ok (yard y.queue (tok ∷ y.stack) true)
yard_step rparen tok y = close_paren (pop_to_paren y.queue y.stack)
yard_step operator tok y =
    let op = unary_name tok.value y.prev_was_op_or_start in
    ok (push_operator op (pop_operators op y.queue y.stack))

-- the loop behind the token loop
unfoldable pub flush : List Token → List Token → Result EvalError (List Token)
flush queue [] = ok queue
flush queue (top ∷ stack) =
    if is_lparen top.type then err mismatched_parens else flush (queue ++ top ∷ []) stack

unfoldable pub yard_loop : List Token → Yard → Result EvalError (List Token)
unfolding yard_step flush
yard_loop [] y = flush y.queue y.stack
yard_loop (tok ∷ toks) y = yard_step tok.type tok y >>= yard_loop toks

unfoldable pub shunting_yard : List Token → Result EvalError (List Token)
unfolding yard_loop
shunting_yard tokens = yard_loop tokens (yard [] [] true)

module _ {F : Type 0} ⦃fl : Float F⦄ where
  -- the inner switch; `res` keeps its zero value at any other operator
  unfoldable pub apply : Bytes → F → F → F
  unfolding same
  apply op a b =
      if same op (codes "+")
      then fl.add a b
      else if same op (codes "-")
      then fl.sub a b
      else if same op (codes "*")
      then fl.mul a b
      else if same op (codes "/")
      then (if fl.is_zero b then fl.nan else fl.div a b)
      else fl.zero_value

  unfoldable pub apply_unary : List F → Result EvalError (List F)
  apply_unary [] = err bad_unary
  apply_unary (val ∷ stack) = ok (fl.neg val ∷ stack)

  unfoldable pub apply_binary : Bytes → List F → Result EvalError (List F)
  unfolding apply
  apply_binary op (b ∷ a ∷ stack) = ok (apply op a b ∷ stack)
  apply_binary op _ = err (missing_operands op)

  abbrev pub or_fail : Option F → EvalError → Result EvalError F
  or_fail none e = err e
  or_fail (some x) e = ok x

  unfoldable pub rpn_step : TokenType → Bytes → Map F → List F → Result EvalError (List F)
  unfolding apply_unary apply_binary lookup same
  rpn_step number v vars stack = do
    val ← or_fail (fl.parse_float v) (bad_number v)
    ok (val ∷ stack)
  rpn_step variable v vars stack = do
    val ← or_fail (lookup v vars) (undefined_variable v)
    ok (val ∷ stack)
  rpn_step operator v vars stack =
      if same v (codes "u-") then apply_unary stack else apply_binary v stack
  rpn_step _ v vars stack = ok stack

  abbrev pub single : List F → Result EvalError F
  single (x ∷ []) = ok x
  single stack = err (bad_stack_size (length stack))

  unfoldable pub rpn_loop : List Token → Map F → List F → Result EvalError F
  unfolding rpn_step
  rpn_loop [] vars stack = single stack
  rpn_loop (tok ∷ toks) vars stack = rpn_step tok.type tok.value vars stack >>= rpn_loop toks vars

  unfoldable pub evaluate_rpn : List Token → Map F → Result EvalError F
  unfolding rpn_loop
  evaluate_rpn rpn vars = rpn_loop rpn vars []

  unfoldable pub evaluate_expression : Bytes → Map F → Result EvalError F
  evaluate_expression expr vars = do
    tokens ← tokenize expr
    rpn ← shunting_yard tokens
    evaluate_rpn rpn vars
