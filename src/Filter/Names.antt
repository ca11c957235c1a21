-- ===== src/Filter/Names.antt =====
-- The texts of the filter operators: `parseFilterOp` and the String methods of lmd/filter.go.
pub mod RoundTrip
use lampd.Prelude.{Bool, true, false, List, [], ◌∷◌, if◌then◌else◌}
use lampd.Prelude.Bytes.{Bytes, codes, ◌=b◌}
use lampd.Filter.{
  Operator, unset, equal, unequal, equal_nocase, unequal_nocase, regex_match, regex_match_not,
  regex_no_case_match, regex_no_case_match_not, contains, contains_not, contains_no_case,
  contains_no_case_not, less, less_than, greater, greater_than, group_contains_not, StatsType, sum,
  average, min, max, GroupOperator, ungrouped, and, or,
}
use lampd.Result.{Result, ok, err, panic, unrecognized_operator}

-- `(*Operator).String`; the zero value panics.
unfoldable pub operator_string : Operator → Result Bytes
operator_string unset = err panic
operator_string equal = ok (codes "=")
operator_string unequal = ok (codes "!=")
operator_string equal_nocase = ok (codes "=~")
operator_string unequal_nocase = ok (codes "!=~")
operator_string regex_match = ok (codes "~")
operator_string regex_match_not = ok (codes "!~")
operator_string regex_no_case_match = ok (codes "~~")
operator_string regex_no_case_match_not = ok (codes "!~~")
operator_string contains = ok (codes "~")
operator_string contains_not = ok (codes "!~")
operator_string contains_no_case = ok (codes "~~")
operator_string contains_no_case_not = ok (codes "!~~")
operator_string less = ok (codes "<")
operator_string less_than = ok (codes "<=")
operator_string greater = ok (codes ">")
operator_string greater_than = ok (codes ">=")
operator_string group_contains_not = ok (codes "!>=")

-- `(*StatsType).String`
unfoldable pub stats_type_string : StatsType → Result Bytes
stats_type_string average = ok (codes "avg")
stats_type_string sum = ok (codes "sum")
stats_type_string min = ok (codes "min")
stats_type_string max = ok (codes "Max")
stats_type_string _ = err panic

-- `(*GroupOperator).String`
unfoldable pub group_operator_string : GroupOperator → Result Bytes
group_operator_string and = ok (codes "And")
group_operator_string or = ok (codes "Or")
group_operator_string ungrouped = err panic

-- the cases of the switch in `parseFilterOp`, with the flag isRegex
abbrev pub operator_table : List (Bytes × Operator × Bool)
operator_table =
    (codes "=", equal, false)
    ∷ (codes "=~", equal_nocase, false)
    ∷ (codes "~", regex_match, true)
    ∷ (codes "!~", regex_match_not, true)
    ∷ (codes "~~", regex_no_case_match, true)
    ∷ (codes "!~~", regex_no_case_match_not, true)
    ∷ (codes "!=", unequal, false)
    ∷ (codes "!=~", unequal_nocase, false)
    ∷ (codes "<", less, false)
    ∷ (codes "<=", less_than, false)
    ∷ (codes ">", greater, false)
    ∷ (codes ">=", greater_than, false)
    ∷ (codes "!>=", group_contains_not, false)
    ∷ (codes "like", contains, false)
    ∷ (codes "unlike", contains_not, false)
    ∷ (codes "ilike", contains_no_case, false)
    ∷ (codes "iunlike", contains_no_case_not, false)
    ∷ []

unfoldable pub lookup_operator : Bytes → List (Bytes × Operator × Bool) → Result (Operator × Bool)
lookup_operator text [] = err unrecognized_operator
lookup_operator text ((t, op, is_regex) ∷ table) =
    if text =b t then ok (op, is_regex) else lookup_operator text table

-- `parseFilterOp`
unfoldable pub parse_filter_op : Bytes → Result (Operator × Bool)
unfolding lookup_operator
parse_filter_op text = lookup_operator text operator_table

-- What an operator comes back as when it is printed and parsed again: the string matches, which
-- are made from regular expressions, come back as these.
abbrev pub reparsed : Operator → Operator × Bool
reparsed contains = (regex_match, true)
reparsed contains_not = (regex_match_not, true)
reparsed contains_no_case = (regex_no_case_match, true)
reparsed contains_no_case_not = (regex_no_case_match_not, true)
reparsed regex_match = (regex_match, true)
reparsed regex_match_not = (regex_match_not, true)
reparsed regex_no_case_match = (regex_no_case_match, true)
reparsed regex_no_case_match_not = (regex_no_case_match_not, true)
reparsed op = (op, false)
