-- ===== src/Evaluator/Grammar.antt =====
-- The grammar of infix arithmetic that users write, independent of the shunting yard: sums of
-- products of signed atoms, binary operators to the left, and the meaning of a formula.
use redborder_monitor.Base.{List, [], ◌∷◌, ◌++◌, if◌then◌else◌}
use redborder_monitor.Base.Text.{Bytes, codes}
use redborder_monitor.Base.Result.{Result, ok, ◌>>=◌}
use redborder_monitor.Base.Map.{Map, lookup}
use redborder_monitor.Base.Float.{Float}
use redborder_monitor.Tokenizer.{
  number, variable, operator, lparen, rparen, Token, EvalError, bad_number, undefined_variable,
  token,
}
use redborder_monitor.Evaluator.{or_fail}

pub data BinOp : Type 0 where
  plus minus times over : BinOp

pub data Expr : Type 0 where
  num : Bytes → Expr
  var : Bytes → Expr
  negated : Expr → Expr
  bin : BinOp → Expr → Expr → Expr

pub data Level : Type 0 where
  sum product signed atom : Level

abbrev pub symbol : BinOp → Bytes
symbol plus = codes "+"
symbol minus = codes "-"
symbol times = codes "*"
symbol over = codes "/"

abbrev pub level : BinOp → Level
level plus = sum
level minus = sum
level times = product
level over = product

-- the level of the right operand
abbrev pub above : BinOp → Level
above plus = product
above minus = product
above times = signed
above over = signed

-- `Derives l e w`: the tokens `w` are a phrase of level `l` that stands for `e`.
pub data Derives : Level → Expr → List Token → Type 0 where
  a_number : (v : Bytes) → Derives atom (num v) (token number v ∷ [])
  a_variable : (v : Bytes) → Derives atom (var v) (token variable v ∷ [])
  group :
      {e : Expr} {w : List Token}
      → Derives sum e w
      → Derives atom e (token lparen (codes "(") ∷ (w ++ token rparen (codes ")") ∷ []))
  minus_sign :
      {e : Expr} {w : List Token}
      → Derives signed e w
      → Derives signed (negated e) (token operator (codes "-") ∷ w)
  binary :
      (o : BinOp) {a b : Expr} {v w : List Token}
      → Derives (level o) a v
      → Derives (above o) b w
      → Derives (level o) (bin o a b) (v ++ token operator (symbol o) ∷ w)
  product_sum : {e : Expr} {w : List Token} → Derives product e w → Derives sum e w
  signed_product : {e : Expr} {w : List Token} → Derives signed e w → Derives product e w
  atom_signed : {e : Expr} {w : List Token} → Derives atom e w → Derives signed e w

-- the operands before the operator
abbrev pub postfix : Expr → List Token
postfix (num v) = token number v ∷ []
postfix (var v) = token variable v ∷ []
postfix (negated e) = postfix e ++ token operator (codes "u-") ∷ []
postfix (bin o a b) = postfix a ++ (postfix b ++ token operator (symbol o) ∷ [])

module _ {F : Type 0} ⦃fl : Float F⦄ where
  abbrev pub meaning : BinOp → F → F → F
  meaning plus a b = fl.add a b
  meaning minus a b = fl.sub a b
  meaning times a b = fl.mul a b
  meaning over a b = if fl.is_zero b then fl.nan else fl.div a b

  unfoldable pub eval : Expr → Map F → Result EvalError F
  eval (num v) vars = or_fail (fl.parse_float v) (bad_number v)
  eval (var v) vars = or_fail (lookup v vars) (undefined_variable v)
  eval (negated e) vars = do x ← eval e vars; ok (fl.neg x)
  eval (bin o a b) vars = do x ← eval a vars; y ← eval b vars; ok (meaning o x y)
