-- ===== src/Filter/Parse/Ready.antt =====
-- A filter that the parser accepts is matched without a panic (lmd/filter.go).
use lampd.Prelude.{
  ℕ, ◌≡◌, refl, Bool, true, false, ◌||◌, Option, none, some, List, [], ◌∷◌, ◌++◌, arith,
  if◌then◌else◌,
}
use lampd.Prelude.Bytes.{Bytes, cut, ◌=b◌}
use lampd.Column.{
  Column, Schema, TableName, DataType, int_col, int64_col, int64_list_col, float_col,
  custom_var_col, get_column_with_fallback,
}
use lampd.Filter.{
  Operator, unset, regex_match, regex_match_not, regex_no_case_match, regex_no_case_match_not,
  Fields, Filter, filter, nil, zero_fields, ungrouped,
}
use lampd.Filter.Match.{Row, match_filter}
use lampd.Filter.Names.{parse_filter_op}
use lampd.Filter.Parse.{
  set_number, set_custom_variable, set_value_type, set_filter_value, set_lower_case_column,
  lower_case_operator, set_contains, set_compiled, set_regex_filter, trim_wildcards,
  parse_filter_parts, parse_filter,
}
use lampd.Platform.{Platform}
use lampd.Result.{ok, err, panic, bind_ok}
use lampd.Filter.Match.Returns.{is_some, is_ok, has_operand, HasCustomVars, match_single-is_ok}
use lampd.Filter.Parse.Plain.{parse_filter-parse_filter_parts, parse_filter_parts-IsPlain}

module _ ⦃p : Platform⦄ where
  -- Set for matching: an operand, a column, and the flag isRegex for regular expressions.
  abbrev needs_regex : Operator → Bool
  needs_regex regex_match = true
  needs_regex regex_match_not = true
  needs_regex regex_no_case_match = true
  needs_regex regex_no_case_match_not = true
  needs_regex _ = false

  abbrev is_set : Operator → Bool
  is_set unset = false
  is_set _ = true

  parse_filter_op-flag :
      (text : Bytes) (op : Operator) (is_regex : Bool)
      → parse_filter_op text ≡ ok (op, is_regex)
      → (is_regex ≡ needs_regex op) × (is_set op ≡ true)
  unfolding parse_filter_op
  parse_filter_op-flag text op is_regex h = ground arith

  -- The state of a filter between the steps of ParseFilter.
  abbrev IsParsed : Bool → Fields → Type 0
  IsParsed is_regex f =
      (is_regex ≡ needs_regex f.operator) × ((is_set f.operator ≡ true) × (is_some f.column ≡ true))

  set_number-IsParsed :
      (b : Bool) (f g : Fields) (v : Bytes) → IsParsed b f → set_number f v ≡ ok g → IsParsed b g
  unfolding set_number
  set_number-IsParsed b f g v parsed h = ground (arith, parsed)

  set_custom_variable-IsParsed :
      (b : Bool) (f g : Fields) (vars : Bytes × Option Bytes)
      → IsParsed b f
      → set_custom_variable f vars ≡ ok g
      → IsParsed b g
  unfolding set_custom_variable
  set_custom_variable-IsParsed b f g ([], value) parsed h = absurd (cc)
  set_custom_variable-IsParsed b f g (c ∷ name, none) parsed h = ground (arith, parsed)
  set_custom_variable-IsParsed b f g (c ∷ name, some value) parsed h = ground (arith, parsed)

  set_value_type-IsParsed :
      (b : Bool) (t : DataType) (f g : Fields) (v : Bytes)
      → IsParsed b f
      → set_value_type t f v ≡ ok g
      → IsParsed b g
  unfolding set_value_type
  set_value_type-IsParsed b int64_list_col f g v parsed h = set_number-IsParsed b f g v parsed h
  set_value_type-IsParsed b int_col f g v parsed h = set_number-IsParsed b f g v parsed h
  set_value_type-IsParsed b int64_col f g v parsed h = set_number-IsParsed b f g v parsed h
  set_value_type-IsParsed b float_col f g v parsed h = set_number-IsParsed b f g v parsed h
  set_value_type-IsParsed b custom_var_col f g v parsed h =
      set_custom_variable-IsParsed b f g (cut b' ' v) parsed h
  set_value_type-IsParsed b _ f g v parsed h = ground (arith, parsed)

  set_filter_value-IsParsed :
      (b : Bool) (c : Column) (f g : Fields) (v : Bytes)
      → IsParsed b f
      → set_filter_value c f v ≡ ok g
      → IsParsed b g
  unfolding set_filter_value
  set_filter_value-IsParsed b c f g v parsed h =
      set_value_type-IsParsed b c.data_type
        (record f { is_empty = v =b [] || f.is_empty; str_value = v }) g v parsed h

  set_lower_case_column-IsParsed :
      (b : Bool) (schema : Schema) (c : Column) (f : Fields)
      → IsParsed b f
      → IsParsed b (set_lower_case_column schema c f)
  unfolding set_lower_case_column lower_case_operator
  set_lower_case_column-IsParsed b schema c f parsed = ground (arith, parsed)

  -- What matching needs of a filter.
  abbrev IsReady : Fields → Type 0
  IsReady f = (has_operand f.operator f.regexp ≡ true) × (is_some f.column ≡ true)

  set_contains-IsReady :
      (op : Operator) (v : Bytes) (f : Fields)
      → f.operator ≡ op
      → IsParsed true f
      → IsReady (set_contains op v f)
  unfolding set_contains
  set_contains-IsReady regex_match v f e parsed = ground (arith, parsed)
  set_contains-IsReady _ v f e parsed = ground (arith, parsed)

  set_compiled-IsReady :
      (v : Bytes) (f g : Fields) → IsParsed true f → set_compiled v f ≡ ok g → IsReady g
  unfolding set_compiled
  set_compiled-IsReady v f g parsed h = ground (arith, parsed)

  set_regex_filter-IsReady :
      (optimize : Bool) (f g : Fields)
      → IsParsed true f
      → set_regex_filter optimize f ≡ ok g
      → IsReady g
  unfolding set_regex_filter
  set_regex_filter-IsReady optimize f g parsed h =
      let val = trim_wildcards f.str_value in
      ground (
        arith,
        set_contains-IsReady f.operator val f refl parsed,
        set_compiled-IsReady val f g parsed,
      )

  plain-IsReady : (f : Fields) → IsParsed false f → IsReady f
  plain-IsReady f parsed = ground (arith, parsed)

  pub parse_filter_parts-IsReady :
      (schema : Schema) (optimize : Bool) (fresh : ℕ) (table : TableName) (name op v : Bytes)
      (f : Fields)
      → parse_filter_parts schema optimize fresh table name op v ≡ ok f
      → IsReady f
  unfolding parse_filter_parts
  parse_filter_parts-IsReady schema optimize fresh table name op v f h =
      let ((o, is_regex), e1, h1) = bind_ok (parse_filter_op op) _ h in
      let (t, e2, h2) = bind_ok (elim (schema table) [ none ↦ err panic | some t ↦ ok t ]) _ h1 in
      let col = get_column_with_fallback t fresh name in
      let start : Fields = record zero_fields { operator = o; column = some col } in
      let (g, e3, h3) = bind_ok (set_filter_value col start v) _ h2 in
      let flag = parse_filter_op-flag op o is_regex e1 in
      let parsed = set_filter_value-IsParsed is_regex col start g v (flag.0, (flag.1, refl)) e3 in
      let lower = set_lower_case_column-IsParsed is_regex schema col g parsed in
      let lowered = if optimize then set_lower_case_column schema col g else g in
      let lowered-IsParsed =
        if_parsed is_regex optimize (set_lower_case_column schema col g) g lower parsed in
      let (k, e4, h4) =
        bind_ok (if is_regex then set_regex_filter optimize lowered else ok lowered) _ h3 in
      finish is_regex lowered k lowered-IsParsed e4 h4
    where
      if_parsed :
          (r b : Bool) (x y : Fields)
          → IsParsed r x
          → IsParsed r y
          → IsParsed r (if b then x else y)
      if_parsed r true x y a b = a
      if_parsed r false x y a b = b

      finish :
          (is_regex : Bool) (x k : Fields) {flags : ℕ}
          → IsParsed is_regex x
          → (if is_regex then set_regex_filter optimize x else ok x) ≡ ok k
          → ok (record k { column_optional = flags }) ≡ ok f
          → IsReady f
      finish true x k parsed e h =
          let ready = set_regex_filter-IsReady optimize x k parsed e in ground (arith, ready)
      finish false x k parsed e h = let ready = plain-IsReady x parsed in ground (arith, ready)

  match_filter-is_ok :
      (row : Row × Column) (f : Fields)
      → HasCustomVars row.0
      → f.group_operator ≡ ungrouped
      → IsReady f
      → is_ok (match_filter row (filter f nil)) ≡ true
  unfolding match_filter
  match_filter-is_ok row f vars single ready =
      ground (arith, match_single-is_ok f row.0 row.1 vars ready.0 ready.1)

  -- The filter that an accepted Filter header pushes is matched without a panic against every row
  -- whose custom variables can be read without one: it has a column, and a regular expression if its
  -- operator needs one.
  pub parse_filter-match_filter :
      (schema : Schema) (optimize : Bool) (fresh : ℕ) (table : TableName) (value : Bytes)
      (stack stack' : List Filter)
      → parse_filter schema optimize fresh table value stack ≡ ok stack'
      → (f : Fields) × (stack' ≡ stack ++ filter f nil ∷ [])
        × ((row : Row × Column)
            → HasCustomVars row.0
            → is_ok (match_filter row (filter f nil)) ≡ true)
  parse_filter-match_filter schema optimize fresh table value stack stack' h =
      let (f, op, v, parts, pushed) =
        parse_filter-parse_filter_parts schema optimize fresh table value stack stack' h in
      let name = (cut b' ' value).0 in
      let plain = parse_filter_parts-IsPlain schema optimize fresh table name op v f parts in
      let ready = parse_filter_parts-IsReady schema optimize fresh table name op v f parts in
      (f, pushed, (λ row vars. match_filter-is_ok row f vars plain.0 ready))
