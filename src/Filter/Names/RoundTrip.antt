-- ===== src/Filter/Names/RoundTrip.antt =====
-- Printing and parsing filter operators.
use lampd.Prelude.{◌≡◌, refl, ◌≢◌}
use lampd.Prelude.Bytes.{◌=b◌}
use lampd.Filter.{Operator, unset}
use lampd.Filter.Names.{operator_string, parse_filter_op, reparsed}
use lampd.Result.{ok, ◌>>=◌}

-- Every operator but the zero value prints to a text that `parseFilterOp` accepts. It comes back as
-- itself, and the internal string matches as the regular expressions that they stand for, with the
-- flag isRegex set exactly for regular expressions.
pub parse_filter_op-operator_string :
    (op : Operator) → op ≢ unset → (operator_string op >>= parse_filter_op) ≡ ok (reparsed op)
unfolding operator_string parse_filter_op ◌=b◌
parse_filter_op-operator_string unset h = absurd (h refl)
parse_filter_op-operator_string _ h = refl
