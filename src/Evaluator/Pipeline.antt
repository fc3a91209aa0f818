-- ===== src/Evaluator/Pipeline.antt =====
-- What the evaluator computes of a formula: the meaning that the grammar gives it.
use mathlib.Core.List.{append-nil, append_assoc}
use redborder_monitor.Base.{◌≡◌, refl, sym, ap, ◌∙◌, List, [], ◌∷◌, ◌++◌, All, arith}
use redborder_monitor.Base.Result.{◌>>=◌, bind_assoc, bind_congr, bind-ok}
use redborder_monitor.Base.Map.{Map}
use redborder_monitor.Base.Float.{Float}
use redborder_monitor.Tokenizer.{operator, Token, token}
use redborder_monitor.Tokenizer.Render.{render, IsToken, tokenize-render}
use redborder_monitor.Evaluator.{rpn_loop, evaluate_rpn, evaluate_expression}
use redborder_monitor.Evaluator.Grammar.{
  BinOp, plus, minus, times, over, Expr, num, var, negated, bin, sum, symbol, Derives, postfix,
  meaning, eval,
}
use redborder_monitor.Evaluator.Parsing.{shunting_yard-postfix}

module _ {F : Type 0} ⦃fl : Float F⦄ where
  rpn_loop-symbol :
      (o : BinOp) (rest : List Token) (vars : Map F) (a b : F) (stack : List F)
      → rpn_loop (token operator (symbol o) ∷ rest) vars (b ∷ a ∷ stack)
        ≡ rpn_loop rest vars (meaning o a b ∷ stack)
  unfolding rpn_loop
  rpn_loop-symbol plus rest vars a b stack = refl
  rpn_loop-symbol minus rest vars a b stack = refl
  rpn_loop-symbol times rest vars a b stack = refl
  rpn_loop-symbol over rest vars a b stack = refl

  rpn_loop-postfix :
      (e : Expr) (rest : List Token) (vars : Map F) (stack : List F)
      → rpn_loop (postfix e ++ rest) vars stack
        ≡ (eval e vars >>= λ x. rpn_loop rest vars (x ∷ stack))
  unfolding rpn_loop eval
  rpn_loop-postfix (num v) rest vars stack = ground (arith)
  rpn_loop-postfix (var v) rest vars stack = ground (arith)
  rpn_loop-postfix (negated e) rest vars stack =
      rw append_assoc (rpn_loop-postfix e _ vars stack ∙ sym (bind_assoc (eval e vars) _ _))
  rpn_loop-postfix (bin o a b) rest vars stack = rw append_assoc (
      rpn_loop-postfix a _ vars stack
      ∙ bind_congr (eval a vars) (λ x. rw append_assoc (
          rpn_loop-postfix b _ vars (x ∷ stack)
          ∙ bind_congr (eval b vars) (λ y. rpn_loop-symbol o rest vars x y stack)
          ∙ sym (bind_assoc (eval b vars) _ _)))
      ∙ sym (bind_assoc (eval a vars) _ _))

  -- The postfix machine computes the meaning of a formula from its postfix form.
  pub evaluate_rpn-postfix : (e : Expr) (vars : Map F) → evaluate_rpn (postfix e) vars ≡ eval e vars
  unfolding evaluate_rpn rpn_loop
  evaluate_rpn-postfix e vars =
      ap (λ x. rpn_loop x vars []) (sym (append-nil (postfix e)))
      ∙ rpn_loop-postfix e [] vars []
      ∙ bind-ok (eval e vars)

  -- A formula that is written out token by token, with a space behind each token, evaluates to the
  -- meaning that the grammar gives it, or to the error that this meaning has.
  pub evaluate_expression-eval :
      {e : Expr} {w : List Token} (vars : Map F)
      → Derives sum e w
      → All IsToken w
      → evaluate_expression (render w) vars ≡ eval e vars
  unfolding evaluate_expression
  evaluate_expression-eval {e} {w} vars d h =
      rw (tokenize-render w h) (rw (shunting_yard-postfix d) (evaluate_rpn-postfix e vars))
