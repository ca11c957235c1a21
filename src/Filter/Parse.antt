-- ===== src/Filter/Parse.antt =====
-- Parsing a filter or stats header: `ParseFilter`, `ParseStats` and what they call (lmd/filter.go).
pub mod Regexp
pub mod Plain
pub mod Ready
use lampd.Prelude.{
  ℕ, Bool, true, false, not, ◌&&◌, ◌||◌, Option, none, some, List, [], ◌∷◌, ◌++◌, ◌==◌, ltb, leb,
  length, if◌then◌else◌,
}
use lampd.Prelude.Bytes.{
  Bytes, codes, ◌=b◌, contains as contains_part, contains_any, trim_prefix, trim_suffix, to_lower,
  cut,
}
use lampd.Column.{
  Column, Table, Schema, TableName, hosts, services, DataType, int_col, int64_col, int64_list_col,
  float_col, custom_var_col, get_column_with_fallback,
}
use lampd.Filter.{
  Operator, equal, unequal, regex_match, regex_match_not, regex_no_case_match,
  regex_no_case_match_not, contains, contains_not, contains_no_case, contains_no_case_not, less,
  less_than, greater, greater_than, StatsType, counter, sum, average, min, max, Fields, Filter,
  filter, nil, zero_fields,
}
use lampd.Filter.Names.{parse_filter_op}
use lampd.Platform.{Platform}
use lampd.Result.{
  Result, ok, err, ◌>>=◌, panic, filter_header, stats_header, number_conversion,
  custom_variable_form, invalid_regex,
}

unfoldable pub is_alpha : ℕ → Bool
is_alpha c = (leb b'a' c && leb c b'z') || (leb b'A' c && leb c b'Z')

unfoldable pub is_digit : ℕ → Bool
is_digit c = leb b'0' c && leb c b'9'

-- `reRegexDotReplace.ReplaceAllString(val, "")`, for the pattern `[a-zA-Z0-9]\.[a-zA-Z]`
unfoldable pub remove_inner_dots : Bytes → Bytes
unfolding is_alpha is_digit
remove_inner_dots (a ∷ b ∷ c ∷ s) =
    let removed = remove_inner_dots s in
    let kept = a ∷ remove_inner_dots (b ∷ c ∷ s) in
    if (is_alpha a || is_digit a) && b == b'.' && is_alpha c then removed else kept
remove_inner_dots s = s

-- RegexDotMinSize
abbrev pub regex_dot_min_size : ℕ
regex_dot_min_size = 4

abbrev pub special_characters : Bytes
special_characters = codes "|([{*+?^\\$"

-- `hasRegexpCharacters`
unfoldable pub has_regexp_characters : Bytes → Bool
unfolding remove_inner_dots contains_any contains_part
has_regexp_characters val =
    contains_any special_characters val
    || (contains_part (codes ".") val
        && (ltb (length val) regex_dot_min_size
            || contains_part (codes ".") (remove_inner_dots val)))

-- the value without ".*" at its ends
unfoldable pub trim_wildcards : Bytes → Bytes
unfolding trim_prefix trim_suffix
trim_wildcards val = trim_suffix (codes ".*") (trim_prefix (codes ".*") val)

module _ ⦃p : Platform⦄ where
  -- The switch of `setRegexFilter` for a value that is no regular expression.
  unfoldable pub set_contains : Operator → Bytes → Fields → Fields
  unfolding to_lower
  set_contains regex_match val f = record f { operator = contains; str_value = val }
  set_contains regex_match_not val f = record f { operator = contains_not; str_value = val }
  set_contains regex_no_case_match val f = record f {
    operator = contains_no_case;
    str_value = to_lower val;
  }
  set_contains regex_no_case_match_not val f = record f {
    operator = contains_no_case_not;
    str_value = to_lower val;
  }
  set_contains _ val f = f

  abbrev ignores_case : Operator → Bool
  ignores_case regex_no_case_match = true
  ignores_case regex_no_case_match_not = true
  ignores_case _ = false

  unfoldable pub set_compiled : Bytes → Fields → Result Fields
  set_compiled val f =
      elim (p.compile (if ignores_case f.operator then codes "(?i)" ++ val else val)) [
        | none ↦ err invalid_regex
        | some regex ↦ ok (record f { regexp = some regex })
      ]

  -- `setRegexFilter`; the flag is `options&ParseOptimize != 0`.
  unfoldable pub set_regex_filter : Bool → Fields → Result Fields
  unfolding set_contains set_compiled
  set_regex_filter optimize f =
      let val = trim_wildcards f.str_value in
      if optimize && not (has_regexp_characters val)
      then ok (set_contains f.operator val f)
      else set_compiled val f

  abbrev is_numeric : Operator → Bool
  is_numeric equal = true
  is_numeric unequal = true
  is_numeric greater = true
  is_numeric greater_than = true
  is_numeric less = true
  is_numeric less_than = true
  is_numeric _ = false

  -- The numeric column types of `setFilterValue`.
  unfoldable pub set_number : Fields → Bytes → Result Fields
  set_number f val =
      if is_numeric f.operator && not f.is_empty
      then elim (p.parse_float val) [
        | none ↦ err number_conversion
        | some n ↦ ok (record f { float_value = n })
      ]
      else ok f

  -- `vars` of `setFilterValue`: the variable's name, and its value if one is given.
  unfoldable pub set_custom_variable : Fields → (Bytes × Option Bytes) → Result Fields
  set_custom_variable f ([], value) = err custom_variable_form
  set_custom_variable f (c ∷ name, none) = ok (record f { is_empty = true; custom_tag = c ∷ name })
  set_custom_variable f (c ∷ name, some value) =
      ok (record f { str_value = value; custom_tag = c ∷ name })

  unfoldable pub set_value_type : DataType → Fields → Bytes → Result Fields
  unfolding set_number set_custom_variable cut
  set_value_type int64_list_col f val = set_number f val
  set_value_type int_col f val = set_number f val
  set_value_type int64_col f val = set_number f val
  set_value_type float_col f val = set_number f val
  set_value_type custom_var_col f val = set_custom_variable f (cut b' ' val)
  set_value_type _ f val = ok f

  -- `setFilterValue` of a filter on the column `c`
  unfoldable pub set_filter_value : Column → Fields → Bytes → Result Fields
  unfolding set_value_type ◌=b◌
  set_filter_value c f val =
      set_value_type c.data_type (record f { is_empty = val =b [] || f.is_empty; str_value = val })
        val

  -- The operator on a lower case column, for the case-insensitive operators.
  unfoldable pub lower_case_operator : Operator → Option Operator
  lower_case_operator contains_no_case = some contains
  lower_case_operator contains_no_case_not = some contains_not
  lower_case_operator regex_no_case_match = some regex_match
  lower_case_operator regex_no_case_match_not = some regex_match_not
  lower_case_operator _ = none

  abbrev has_lower_case_fields : TableName → Bool
  has_lower_case_fields hosts = true
  has_lower_case_fields services = true
  has_lower_case_fields _ = false

  abbrev lower_case_column : Option Table → Column → Option Column
  lower_case_column none c = none
  lower_case_column (some t) c =
      if has_lower_case_fields t.name then t.columns_index (c.name ++ codes "_lc") else none

  -- `setLowerCaseColumn`; `table` is the table of the column.
  unfoldable pub set_lower_case_column : Schema → Column → Fields → Fields
  unfolding lower_case_operator to_lower
  set_lower_case_column schema c f = elim (lower_case_operator f.operator) [
    | none ↦ f
    | some op ↦ elim (lower_case_column (schema c.table) c) [
      | none ↦ f
      | some lc ↦ record f { column = some lc; operator = op; str_value = to_lower f.str_value }
    ]
  ]

  abbrev pub or_empty : Option Bytes → Bytes
  or_empty none = []
  or_empty (some s) = s

  -- The rest of `ParseFilter` behind the split of the header.
  unfoldable pub parse_filter_parts :
      Schema → Bool → ℕ → TableName → Bytes → Bytes → Bytes → Result Fields
  unfolding parse_filter_op get_column_with_fallback set_filter_value set_lower_case_column
      set_regex_filter
  parse_filter_parts schema optimize fresh table name op_text val = do
    (op, is_regex) ← parse_filter_op op_text
    t ← elim (schema table) [ none ↦ err panic | some t ↦ ok t ]
    let col = get_column_with_fallback t fresh name
    f ← set_filter_value col (record zero_fields { operator = op; column = some col }) val
    let f' = if optimize then set_lower_case_column schema col f else f
    g ← if is_regex then set_regex_filter optimize f' else ok f'
    ok (record g { column_optional = col.optional })

  -- `ParseFilter`: the new stack. A column that is not in the table is allocated at `fresh`.
  unfoldable pub parse_filter :
      Schema → Bool → ℕ → TableName → Bytes → List Filter → Result (List Filter)
  unfolding parse_filter_parts cut
  parse_filter schema optimize fresh table value stack =
      let (name, behind) = cut b' ' value in
      elim behind [
        | none ↦ err filter_header
        | some rest ↦
            let (op, val) = cut b' ' rest in
            do
              f ← parse_filter_parts schema optimize fresh table name op (or_empty val)
              ok (stack ++ filter f nil ∷ [])
      ]

  -- The aggregation that a stats header names, with the value that it starts with.
  unfoldable pub stats_operator : Bytes → Option (StatsType × p.Float)
  unfolding to_lower ◌=b◌
  stats_operator name =
      let low = to_lower name in
      if low =b codes "avg"
      then some (average, p.from_nat 0)
      else if low =b codes "min"
      then some (min, p.minus_one)
      else if low =b codes "max"
      then some (max, p.from_nat 0)
      else if low =b codes "sum"
      then some (sum, p.from_nat 0)
      else none

  -- `(*stack)[len(*stack)-1].StatsType = Counter`; an index of -1 panics.
  unfoldable pub set_last_counter : List Filter → Result (List Filter)
  set_last_counter [] = err panic
  set_last_counter (filter f fs ∷ []) = ok (filter (record f { stats_type = counter }) fs ∷ [])
  set_last_counter (f ∷ g ∷ stack) = do rest ← set_last_counter (g ∷ stack); ok (f ∷ rest)

  -- `ParseStats`: the new stack
  unfoldable pub parse_stats :
      Schema → Bool → ℕ → TableName → Bytes → List Filter → Result (List Filter)
  unfolding parse_filter stats_operator set_last_counter get_column_with_fallback
  parse_stats schema optimize fresh table value stack =
      let (name, behind) = cut b' ' value in
      elim behind [
        | none ↦ err stats_header
        | some column ↦ elim (stats_operator name) [
          | none ↦ do
            pushed ← parse_filter schema optimize fresh table value stack
            set_last_counter pushed
          | some (op, start) ↦ elim (schema table) [
            | none ↦ err panic
            | some t ↦
                let col = get_column_with_fallback t fresh column in
                ok (
                  stack
                  ++ filter
                      (record zero_fields { column = some col; stats_type = op; stats = start }) nil
                    ∷ [])
          ]
        ]
      ]
