-- ===== src/Op/Tests.antt =====
-- Formulas over scalars and vectors, run over integers as a stand-in for doubles.
use redborder_monitor.Base.{◌≡◌, refl, some, none, [], ◌∷◌}
use redborder_monitor.Base.Text.{Bytes, codes, is_space, same}
use redborder_monitor.Base.Result.{ok}
use redborder_monitor.Base.Map.{Map, lookup, insert}
use redborder_monitor.Base.Int.{ℤ, pos}
use redborder_monitor.Base.Float.Sample.{Sample, sample, value}
use redborder_monitor.Tokenizer.{
  is_number_byte, is_word_start, is_word_byte, is_operator_byte, take_while, drop_while, lex,
  tokenize_loop, tokenize, elem, collect, extract_variables,
}
use redborder_monitor.Evaluator.{shunting_yard, evaluate_rpn, evaluate_expression}
use redborder_monitor.Model.{Monitor}
use redborder_monitor.Model.Sample.{blank_monitor}
use redborder_monitor.Values.{MonitorValue, MonitorState, aggregate}
use redborder_monitor.Op.{
  parse_group_id, find_dependency, resolve, item_vars, finite_value, op_item, op_items, vector_op,
  process_op_monitor,
}
use redborder_monitor.Op.Finite.{IsFiniteState, process_op_monitor-IsFiniteState}
use redborder_monitor.Op.Vector.{IsVectorOp, process_op_monitor-IsVectorOp}

abbrev used : Monitor Sample
used = record blank_monitor { name = codes "used"; op = codes "total - free" }

abbrev reading : Bytes → MonitorValue Sample
reading s = record { timestamp = pos 5; value = value (pos 1); text = s }

abbrev at_nine : ℤ → Bytes → MonitorValue Sample
at_nine n s = record { timestamp = pos 9; value = value n; text = s }

abbrev at_five : ℤ → Bytes → MonitorValue Sample
at_five n s = record { timestamp = pos 5; value = value n; text = s }

-- a scalar `total` and a vector `free` of two items, one of them missing
abbrev known : Map (MonitorState Sample)
known =
    (
      codes "total",
      record { scalar = some (at_five (pos 8) (codes "8")); children = []; split_op = none },
    )
    ∷ (
      codes "free",
      record {
        scalar = none;
        children = some (at_five (pos 6) (codes "6")) ∷ none ∷ [];
        split_op = none;
      },
    )
    ∷ []

abbrev result : MonitorState Sample
result = record {
  scalar = none;
  children = some (at_five (pos 2) (codes "11")) ∷ none ∷ [];
  split_op = none;
}

variables : extract_variables used.op ≡ ok (codes "total" ∷ codes "free" ∷ [])
unfolding extract_variables tokenize tokenize_loop lex is_space is_number_byte is_word_start
    is_word_byte is_operator_byte take_while drop_while collect elem same
variables = refl

runs : process_op_monitor used known (pos 9) ≡ some result
unfolding process_op_monitor extract_variables tokenize tokenize_loop lex is_space is_number_byte
    is_word_start is_word_byte is_operator_byte take_while drop_while collect elem same
    parse_group_id find_dependency resolve item_vars finite_value op_item op_items vector_op lookup
    insert aggregate evaluate_expression shunting_yard evaluate_rpn
runs = refl

process_op_monitor-IsFiniteState_example : IsFiniteState (process_op_monitor used known (pos 9))
process_op_monitor-IsFiniteState_example = process_op_monitor-IsFiniteState used known (pos 9)

process_op_monitor-IsVectorOp_example :
    IsVectorOp used known (pos 9) (codes "total" ∷ codes "free" ∷ []) result
process_op_monitor-IsVectorOp_example =
    process_op_monitor-IsVectorOp used known (pos 9) variables runs (λ e. cc e)
