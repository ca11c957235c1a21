-- ===== src/Filter/Match.antt =====
-- How a filter is matched against a row: `Match` and the functions it calls in lmd/filter.go, and
-- `MatchFilter` of lmd/datarow.go. What a row returns for a column is the interface `Row`.
pub mod Negate
pub mod Complement
pub mod Returns
use lampd.Prelude.{
  Bool, true, false, not, ◌&&◌, ◌||◌, Option, none, some, List, [], ◌∷◌, ◌==◌, length,
  if◌then◌else◌,
}
use lampd.Prelude.Int.{ℤ, ltb_ℤ, eq_ℤ}
use lampd.Prelude.Bytes.{
  Bytes, ◌=b◌, bytes_lt, contains as contains_part, equal_fold, to_lower, show_int,
}
use lampd.Column.{
  Column, DataType, OptionalFlags, string_col, string_list_col, int_col, int64_col, int64_list_col,
  float_col, json_col, custom_var_col, service_member_list_col, interface_list_col,
  string_large_col,
}
use lampd.Filter.{
  Operator, unset, equal, unequal, equal_nocase, unequal_nocase, regex_match, regex_match_not,
  regex_no_case_match, regex_no_case_match_not, contains, contains_not, contains_no_case,
  contains_no_case_not, less, less_than, greater, greater_than, group_contains_not, ungrouped, and,
  or, Fields, Filter, Filters, filter, nil, cons, zero_fields,
}
use lampd.Platform.{Platform}
use lampd.Result.{Result, ok, err, panic, ◌>>=◌}

unfoldable pub match_empty_filter : Operator → Result Bool
match_empty_filter equal = ok false
match_empty_filter unequal = ok true
match_empty_filter less = ok false
match_empty_filter less_than = ok false
match_empty_filter greater = ok true
match_empty_filter greater_than = ok true
match_empty_filter unset = err panic
match_empty_filter _ = ok false

module _ ⦃p : Platform⦄ where
  -- What the getters of a `DataRow` return for a column, and `HasFlag` of its peer. A custom variable
  -- of a reference that is nil, or of a row with fewer values than names, panics.
  pub record Row : Type 0 where
    pub get_string : Column → Bytes
    pub get_string_list : Column → List Bytes
    pub get_int : Column → ℤ
    pub get_int64 : Column → ℤ
    pub get_float : Column → p.Float
    pub get_int64_list : Column → List ℤ
    pub get_custom_var_value : Column → Bytes → Result Bytes
    pub peer_has_flag : OptionalFlags → Bool

  -- `f.Regexp.MatchString(value)`; a nil receiver panics.
  unfoldable pub match_regexp : Option p.Regex → Bytes → Result Bool
  match_regexp none value = err panic
  match_regexp (some r) value = ok (p.match_regex r value)

  unfoldable pub negated : Result Bool → Result Bool
  negated (ok b) = ok (not b)
  negated (err e) = err e

  unfoldable pub match_string_op : Operator → Fields → Bytes → Result Bool
  unfolding match_regexp negated
  match_string_op equal f value = ok (value =b f.str_value)
  match_string_op unequal f value = ok (not (value =b f.str_value))
  match_string_op equal_nocase f value = ok (equal_fold value f.str_value)
  match_string_op unequal_nocase f value = ok (not (equal_fold value f.str_value))
  match_string_op regex_match f value = match_regexp f.regexp value
  match_string_op regex_no_case_match f value = match_regexp f.regexp value
  match_string_op regex_match_not f value = negated (match_regexp f.regexp value)
  match_string_op regex_no_case_match_not f value = negated (match_regexp f.regexp value)
  match_string_op less f value = ok (bytes_lt value f.str_value)
  match_string_op less_than f value = ok (not (bytes_lt f.str_value value))
  match_string_op greater f value = ok (bytes_lt f.str_value value)
  match_string_op greater_than f value = ok (not (bytes_lt value f.str_value))
  match_string_op contains f value = ok (contains_part f.str_value value)
  match_string_op contains_not f value = ok (not (contains_part f.str_value value))
  match_string_op contains_no_case f value = ok (contains_part f.str_value (to_lower value))
  match_string_op contains_no_case_not f value =
      ok (not (contains_part f.str_value (to_lower value)))
  -- Operator.String panics in the warning
  match_string_op unset f value = err panic
  match_string_op group_contains_not f value = ok false

  unfoldable pub match_string : Fields → Bytes → Result Bool
  unfolding match_string_op
  match_string f value = match_string_op f.operator f value

  -- The loop `if f.MatchString(v) { return true }` with `return false` behind it.
  unfoldable pub any_match : Fields → List Bytes → Result Bool
  any_match f [] = ok false
  any_match f (v ∷ list) = do
    found ← match_string f v
    let rest = any_match f list
    if found then ok true else rest

  -- The loop `if !f.MatchString(v) { return false }` with `return true` behind it.
  unfoldable pub every_match : Fields → List Bytes → Result Bool
  every_match f [] = ok true
  every_match f (v ∷ list) = do
    held ← match_string f v
    let rest = every_match f list
    if held then rest else ok false

  -- The loop `if f.StrValue == v { return true }` with `return false` behind it.
  unfoldable pub is_listed : Bytes → List Bytes → Bool
  is_listed s [] = false
  is_listed s (v ∷ list) = if s =b v then true else is_listed s list

  unfoldable pub is_empty_list {ℓ} : {A : Type ℓ} → List A → Bool
  is_empty_list list = length list == 0

  unfoldable pub match_string_list_op : Operator → Fields → List Bytes → Result Bool
  unfolding any_match every_match is_listed is_empty_list
  match_string_list_op equal f list = ok (f.str_value =b [] && is_empty_list list)
  match_string_list_op unequal f list = ok (f.str_value =b [] && not (is_empty_list list))
  match_string_list_op greater_than f list = ok (is_listed f.str_value list)
  match_string_list_op group_contains_not f list = ok (not (is_listed f.str_value list))
  match_string_list_op less_than f list = ok (not (is_listed f.str_value list))
  match_string_list_op regex_match f list = any_match f list
  match_string_list_op regex_no_case_match f list = any_match f list
  match_string_list_op contains f list = any_match f list
  match_string_list_op contains_no_case f list = any_match f list
  match_string_list_op regex_match_not f list = every_match f list
  match_string_list_op regex_no_case_match_not f list = every_match f list
  match_string_list_op contains_not f list = every_match f list
  match_string_list_op contains_no_case_not f list = every_match f list
  match_string_list_op unset f list = err panic
  match_string_list_op _ f list = ok false

  unfoldable pub match_string_list : Fields → List Bytes → Result Bool
  unfolding match_string_list_op
  match_string_list f list = match_string_list_op f.operator f list

  unfoldable pub is_listed_int : ℤ → List ℤ → Bool
  is_listed_int n [] = false
  is_listed_int n (v ∷ list) = if eq_ℤ n v then true else is_listed_int n list

  unfoldable pub match_int64_list_op : Operator → Fields → List ℤ → Result Bool
  unfolding is_listed_int is_empty_list
  match_int64_list_op equal f list = ok (f.is_empty && is_empty_list list)
  match_int64_list_op unequal f list = ok (f.is_empty && not (is_empty_list list))
  match_int64_list_op greater_than f list = ok (is_listed_int (p.truncate f.float_value) list)
  match_int64_list_op group_contains_not f list =
      ok (not (is_listed_int (p.truncate f.float_value) list))
  match_int64_list_op unset f list = err panic
  match_int64_list_op _ f list = ok false

  unfoldable pub match_int64_list : Fields → List ℤ → Result Bool
  unfolding match_int64_list_op
  match_int64_list f list = match_int64_list_op f.operator f list

  -- MatchInt and MatchInt64, whose bodies agree.
  unfoldable pub match_int_op : Operator → Fields → ℤ → Result Bool
  unfolding match_string
  match_int_op equal f value = ok (eq_ℤ value (p.truncate f.float_value))
  match_int_op unequal f value = ok (not (eq_ℤ value (p.truncate f.float_value)))
  match_int_op less f value = ok (ltb_ℤ value (p.truncate f.float_value))
  match_int_op less_than f value = ok (not (ltb_ℤ (p.truncate f.float_value) value))
  match_int_op greater f value = ok (ltb_ℤ (p.truncate f.float_value) value)
  match_int_op greater_than f value = ok (not (ltb_ℤ value (p.truncate f.float_value)))
  match_int_op _ f value = match_string f (show_int value)

  unfoldable pub match_int : Fields → ℤ → Result Bool
  unfolding match_int_op
  match_int f value = match_int_op f.operator f value

  unfoldable pub match_float_op : Operator → Fields → p.Float → Result Bool
  unfolding match_string
  match_float_op equal f value = ok (p.float_eq value f.float_value)
  match_float_op unequal f value = ok (not (p.float_eq value f.float_value))
  match_float_op less f value = ok (p.float_lt value f.float_value)
  match_float_op less_than f value =
      ok (p.float_lt value f.float_value || p.float_eq value f.float_value)
  match_float_op greater f value = ok (p.float_lt f.float_value value)
  match_float_op greater_than f value =
      ok (p.float_lt f.float_value value || p.float_eq value f.float_value)
  match_float_op _ f value = match_string f (p.format_float value)

  unfoldable pub match_float : Fields → p.Float → Result Bool
  unfolding match_float_op
  match_float f value = match_float_op f.operator f value

  -- `Match` on the column's data type
  unfoldable pub match_type : DataType → Row → Fields → Column → Result Bool
  unfolding match_string match_string_list match_int match_float match_int64_list match_empty_filter
  match_type string_col row f c = match_string f (row.get_string c)
  match_type string_large_col row f c = match_string f (row.get_string c)
  match_type json_col row f c = match_string f (row.get_string c)
  match_type string_list_col row f c = match_string_list f (row.get_string_list c)
  match_type int_col row f c =
      if f.is_empty then match_empty_filter f.operator else match_int f (row.get_int c)
  match_type int64_col row f c =
      if f.is_empty then match_empty_filter f.operator else match_int f (row.get_int64 c)
  match_type float_col row f c =
      if f.is_empty then match_empty_filter f.operator else match_float f (row.get_float c)
  match_type int64_list_col row f c = match_int64_list f (row.get_int64_list c)
  match_type custom_var_col row f c = do
    value ← row.get_custom_var_value c f.custom_tag
    match_string f value
  match_type interface_list_col row f c = ok false
  match_type service_member_list_col row f c = ok false

  -- `Match`, with the nil pointer of a filter that has no column
  unfoldable pub match_column : Option Column → Row → Fields → Result Bool
  unfolding match_type
  match_column none row f = err panic
  match_column (some c) row f = match_type c.data_type row f c

  abbrev pub with_negate : Bool → Result Bool → Result Bool
  with_negate b r = if b then negated r else r

  -- The copy of a filter on an optional column that the peer does not have: `empty_column` is the
  -- column GetEmptyColumn returns, with the data type of the filter's own column.
  unfoldable pub empty_copy : Column → Fields → Fields
  empty_copy c f = record zero_fields {
    column = some c;
    operator = f.operator;
    str_value = f.str_value;
    regexp = f.regexp;
    is_empty = f.is_empty;
    custom_tag = f.custom_tag;
    negate = f.negate;
  }

  -- The part of `MatchFilter` below the groups. `empty_column` is GetEmptyColumn of the row's table.
  unfoldable pub match_single : (Row × Column) → Fields → Result Bool
  unfolding match_column empty_copy negated
  match_single (row, empty_column) f =
      if not (f.column_optional == 0)
      then elim f.column [
        | none ↦ err panic
        | some c ↦
            if row.peer_has_flag c.optional
            then with_negate f.negate (match_column f.column row f)
            else let e = record empty_column { data_type = c.data_type } in
              with_negate f.negate (match_column (some e) row (empty_copy e f))
      ]
      else with_negate f.negate (match_column f.column row f)

  unfoldable mutual
    unfolding match_single

    pub match_filter : (Row × Column) → Filter → Result Bool
    match_filter row (filter f fs) =
        let every = match_and row fs in
        let some_one = match_or row fs in
        elim f.group_operator [ and ↦ every | or ↦ some_one | ungrouped ↦ match_single row f ]

    -- the loop of the case And
    pub match_and : (Row × Column) → Filters → Result Bool
    match_and row nil = ok true
    match_and row (cons f fs) = do
      let rest = match_and row fs
      b ← match_filter row f
      if b then rest else ok false

    -- the loop of the case Or
    pub match_or : (Row × Column) → Filters → Result Bool
    match_or row nil = ok false
    match_or row (cons f fs) = do
      let rest = match_or row fs
      b ← match_filter row f
      if b then ok true else rest
