-- ===== src/Evaluator/Tests.antt =====
-- Runs of the evaluator, and the theorems at concrete inputs, over integers as a stand-in for doubles.
use redborder_monitor.Base.{◌≡◌, ◌≢◌, refl, inl, inr, Bool-cases, true, some, List, [], ◌∷◌, All}
use redborder_monitor.Base.Text.{Bytes, codes, is_space, same}
use redborder_monitor.Base.Result.{ok, err}
use redborder_monitor.Base.Map.{Map, lookup}
use redborder_monitor.Base.Float.Sample.{sample}
use redborder_monitor.Base.Float.Sample.{Sample, value}
use redborder_monitor.Base.Int.{pos, negsuc}
use redborder_monitor.Tokenizer.{
  Token, token, number, variable, operator, lparen, rparen, undefined_variable, is_number_byte,
  is_word_start, is_word_byte, is_operator_byte, take_while, drop_while, lex, tokenize_loop,
  tokenize, elem, collect, extract_variables,
}
use redborder_monitor.Tokenizer.Total.{Tokenizes, tokenize_total}
use redborder_monitor.Tokenizer.Render.{IsToken, render, tokenize-render}
use redborder_monitor.Tokenizer.Variables.{Distinct, mentions, extract_variables_lem}
use redborder_monitor.Evaluator.{shunting_yard, evaluate_rpn, evaluate_expression}
use redborder_monitor.Evaluator.Grammar.{
  Expr, num, var, negated, bin, plus, times, Derives, sum, a_number, a_variable, group, minus_sign,
  binary, product_sum, signed_product, atom_signed, eval,
}
use redborder_monitor.Evaluator.Pipeline.{evaluate_expression-eval}
use redborder_monitor.Evaluator.Closed.{evaluate_expression-Defined}

abbrev two_vars : Map Sample
two_vars = (codes "a", value (pos 3)) ∷ (codes "b", value (pos 4)) ∷ []

abbrev formula : Bytes
formula = codes "-a * (b + 2)"

formula_value : evaluate_expression formula two_vars ≡ ok (value (negsuc 17))
unfolding evaluate_expression tokenize tokenize_loop lex is_space is_number_byte is_word_start
    is_word_byte is_operator_byte take_while drop_while shunting_yard evaluate_rpn
formula_value = refl

-- a formula that is no infix formula, and that the evaluator takes all the same
postfix_accepted : evaluate_expression {F = Sample} (codes "1 2 +") [] ≡ ok (value (pos 3))
unfolding evaluate_expression tokenize tokenize_loop lex is_space is_number_byte is_word_start
    is_word_byte is_operator_byte take_while drop_while shunting_yard evaluate_rpn
postfix_accepted = refl

abbrev sign : Token
sign = token operator (codes "-")

-- - a * ( b + 2 )
abbrev words : List Token
words =
    sign
    ∷ token variable (codes "a")
    ∷ token operator (codes "*")
    ∷ token lparen (codes "(")
    ∷ token variable (codes "b")
    ∷ token operator (codes "+")
    ∷ token number (codes "2")
    ∷ token rparen (codes ")")
    ∷ []

abbrev tree : Expr
tree = bin times (negated (var (codes "a"))) (bin plus (var (codes "b")) (num (codes "2")))

words-tree : Derives sum tree words
words-tree = product_sum (
    binary times (signed_product (minus_sign (atom_signed (a_variable (codes "a"))))) (
      atom_signed (
        group (
          binary plus (product_sum (signed_product (atom_signed (a_variable (codes "b")))))
            (signed_product (atom_signed (a_number (codes "2"))))))))

tokenize_total_example : Tokenizes formula (tokenize formula)
tokenize_total_example = tokenize_total formula

words-IsToken : All IsToken words
unfolding is_number_byte is_word_start is_word_byte is_operator_byte
words-IsToken = (
  (b'-', refl, refl),
  (
    (refl, tt),
    ((b'*', refl, refl), (refl, ((refl, tt), ((b'+', refl, refl), ((refl, tt), (refl, tt)))))),
  ),
)

tokenize-render_example : tokenize (render words) ≡ ok words
tokenize-render_example = tokenize-render words words-IsToken

evaluate_expression-eval_example : evaluate_expression (render words) two_vars ≡ eval tree two_vars
evaluate_expression-eval_example = evaluate_expression-eval two_vars words-tree words-IsToken

formula_tokens : tokenize formula ≡ ok words
unfolding tokenize tokenize_loop lex is_space is_number_byte is_word_start is_word_byte
    is_operator_byte take_while drop_while
formula_tokens = refl

extract_variables_lem_example :
    (vars : List Bytes) × (extract_variables formula ≡ ok vars)
    × Distinct vars
    × ((v : Bytes) → elem v vars ≡ mentions v words)
extract_variables_lem_example = extract_variables_lem formula formula_tokens

extracted : extract_variables formula ≡ ok (codes "a" ∷ codes "b" ∷ [])
unfolding extract_variables
extracted = rw formula_tokens (unfold collect elem same in refl)

covered :
    (v : Bytes)
    → elem v (codes "a" ∷ codes "b" ∷ []) ≡ true
    → (x : Sample) × (lookup v two_vars ≡ some x)
unfolding elem lookup
covered v h = elim (Bool-cases (same (codes "a") v)) [
  | inl e ↦ (value (pos 3), simp e)
  | inr e ↦ elim (Bool-cases (same (codes "b") v)) [
    | inl k ↦ (value (pos 4), simp (e, k))
    | inr k ↦ cc (simp (e, k) at h)
  ]
]

evaluate_expression-Defined_example :
    evaluate_expression formula two_vars ≢ err (undefined_variable (codes "a"))
evaluate_expression-Defined_example =
    evaluate_expression-Defined two_vars formula _ extracted covered (codes "a")
