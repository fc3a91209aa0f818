-- ===== src/Values/Tests.antt =====
-- The vector split on an output of three pieces, one of them no number.
use redborder_monitor.Base.{◌≡◌, refl, some, none, [], ◌∷◌}
use redborder_monitor.Base.Text.{
  Bytes, codes, cut, trim_space, trim_left, is_space, same, strip_prefix?,
}
use redborder_monitor.Base.Split.{split, split_loop}
use redborder_monitor.Base.Int.{pos}
use redborder_monitor.Base.Float.Sample.{Sample, sample, value}
use redborder_monitor.Model.{Monitor}
use redborder_monitor.Model.Sample.{blank_monitor}
use redborder_monitor.Values.{
  parse_raw_output_with_value, split_output, read_part, read_parts, split_stamp, aggregate,
}
use redborder_monitor.Values.Split.{IsVector, parse_raw_output-IsVector}

abbrev cores : Monitor Sample
cores = record blank_monitor { name = codes "cpu"; split = codes ";"; split_op = codes "sum" }

abbrev output : Bytes
output = codes "1;x;4"

parse_raw_output-IsVector_example :
    IsVector cores (pos 9) output (parse_raw_output_with_value output (value (pos 1)) cores (pos 9))
parse_raw_output-IsVector_example =
    parse_raw_output-IsVector output (value (pos 1)) cores (pos 9) (λ e. cc e)

three_children : parse_raw_output_with_value output (value (pos 1)) cores (pos 9) ≡ record {
  scalar = none;
  children =
      some (record { timestamp = pos 9; value = value (pos 1); text = codes "1" })
      ∷ none
      ∷ some (record { timestamp = pos 9; value = value (pos 4); text = codes "4" })
      ∷ [];
  split_op = some (record { timestamp = pos 9; value = value (pos 5); text = codes "11111" });
}
unfolding parse_raw_output_with_value split_output read_part read_parts split_stamp aggregate split
    split_loop cut trim_space trim_left is_space strip_prefix? same
three_children = refl
