-- ===== src/Tokenizer.antt =====
-- internal/monitor/evaluator.go: the tokens, `tokenize` and `ExtractVariables`.
pub mod Total
pub mod Variables
pub mod Render
use redborder_monitor.Base.{
  ℕ, zero, suc, ◌+◌, ◌≡◌, Bool, true, false, not, ◌&&◌, ◌||◌, Option, none, some, List, [], ◌∷◌,
  ◌++◌, ltb, leb, ◌==◌, if◌then◌else◌, length,
}
use redborder_monitor.Base.Text.{Bytes, codes, same, is_space, is_digit}
use redborder_monitor.Base.Result.{Result, ok, err, ◌>>=◌}
use redborder_monitor.Base.Map.{Map, lookup}
use redborder_monitor.Base.Float.{Float}

pub data TokenType : Type 0 where
  number variable operator lparen rparen : TokenType

pub record Token : Type 0 where
  pub type : TokenType
  pub value : Bytes

pub data EvalError : Type 0 where
  unexpected_char : ℕ → EvalError
  mismatched_parens : EvalError
  bad_number : Bytes → EvalError
  undefined_variable : Bytes → EvalError
  bad_unary : EvalError
  missing_operands : Bytes → EvalError
  bad_stack_size : ℕ → EvalError
  -- the fuel of the tokenizer's loop ran out; `tokenize_total` shows that it never does
  out_of_fuel : EvalError

abbrev pub token : TokenType → Bytes → Token
token t v = record { type = t; value = v }

-- unicode.IsLetter on a byte read as a rune (Latin-1)
unfoldable pub is_letter : ℕ → Bool
is_letter c =
    (leb b'a' c && leb c b'z')
    || (leb b'A' c && leb c b'Z')
    || c == 170
    || c == 181
    || c == 186
    || (leb 192 c && leb c 255 && not (c == 215) && not (c == 247))

unfoldable pub is_number_byte : ℕ → Bool
unfolding is_digit
is_number_byte c = is_digit c || c == b'.'

unfoldable pub is_word_start : ℕ → Bool
unfolding is_letter
is_word_start c = is_letter c || c == b'_'

unfoldable pub is_word_byte : ℕ → Bool
unfolding is_letter is_digit
is_word_byte c = is_letter c || is_digit c || c == b'_'

unfoldable pub is_operator_byte : ℕ → Bool
is_operator_byte c = c == b'+' || c == b'-' || c == b'*' || c == b'/'

-- the inner loops `for i < n && test(expr[i]) { i++ }`: what they pass over, and where they stop
unfoldable pub take_while : (ℕ → Bool) → Bytes → Bytes
take_while p [] = []
take_while p (c ∷ s) = if p c then c ∷ take_while p s else []

unfoldable pub drop_while : (ℕ → Bool) → Bytes → Bytes
drop_while p [] = []
drop_while p (c ∷ s) = if p c then drop_while p s else c ∷ s

-- One round of the loop of `tokenize` at a byte `c` with `s` behind it.
pub data Lexed : Type 0 where
  skipped : Bytes → Lexed
  lexed : Token → Bytes → Lexed
  refused : ℕ → Lexed

unfoldable pub lex : ℕ → Bytes → Lexed
lex c s =
    if is_space c
    then skipped s
    else if is_number_byte c
    then lexed (token number (take_while is_number_byte (c ∷ s)))
        (drop_while is_number_byte (c ∷ s))
    else if is_word_start c
    then lexed (token variable (take_while is_word_byte (c ∷ s))) (drop_while is_word_byte (c ∷ s))
    else if is_operator_byte c
    then lexed (token operator (c ∷ [])) s
    else if c == b'('
    then lexed (token lparen (codes "(")) s
    else if c == b')'
    then lexed (token rparen (codes ")")) s
    else refused c

unfoldable pub tokenize_loop : ℕ → Bytes → List Token → Result EvalError (List Token)
tokenize_loop zero s tokens = err out_of_fuel
tokenize_loop (suc fuel) [] tokens = ok tokens
tokenize_loop (suc fuel) (c ∷ s) tokens = elim (lex c s) [
  | skipped rest ↦ tokenize_loop fuel rest tokens
  | lexed tok rest ↦ tokenize_loop fuel rest (tokens ++ tok ∷ [])
  | refused ch ↦ err (unexpected_char ch)
]

unfoldable pub tokenize : Bytes → Result EvalError (List Token)
tokenize expr = tokenize_loop (length expr + 1) expr []

-- `seen` is tested by membership in the names collected so far: the map and the slice agree.
unfoldable pub elem : Bytes → List Bytes → Bool
unfolding same
elem v [] = false
elem v (x ∷ xs) = same x v || elem v xs

abbrev pub add_variable : TokenType → Bytes → List Bytes → List Bytes
add_variable variable v vars = if elem v vars then vars else vars ++ v ∷ []
add_variable _ v vars = vars

unfoldable pub collect : List Token → List Bytes → List Bytes
unfolding elem
collect [] vars = vars
collect (tok ∷ toks) vars = collect toks (add_variable tok.type tok.value vars)

unfoldable pub extract_variables : Bytes → Result EvalError (List Bytes)
unfolding tokenize collect
extract_variables expr = do tokens ← tokenize expr; ok (collect tokens [])
