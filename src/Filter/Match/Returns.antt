-- ===== src/Filter/Match/Returns.antt =====
-- A filter with a column, an operator and the regular expression that the operator needs is matched
-- without a panic (lmd/filter.go).
use lampd.Prelude.{
  ◌≡◌, refl, Bool, true, false, Option, none, some, List, [], ◌∷◌, arith, Option-cases, inl, inr,
}
use lampd.Prelude.Int.{ℤ}
use lampd.Prelude.Bytes.{Bytes, show_int}
use lampd.Column.{Column, DataType}
use lampd.Filter.{
  Operator, unset, equal, regex_match, regex_match_not, regex_no_case_match,
  regex_no_case_match_not, Fields,
}
use lampd.Filter.Match.{
  Row, match_string_op, match_string, any_match, every_match, match_string_list_op,
  match_string_list, match_int64_list_op, match_int64_list, match_int_op, match_int, match_float_op,
  match_float, match_type, match_column, match_single, match_empty_filter, match_regexp, empty_copy,
  negated, with_negate,
}
use lampd.Platform.{Platform}
use lampd.Result.{Result, ok, err, ◌>>=◌}

abbrev pub is_some {ℓ} : {A : Type ℓ} → Option A → Bool
is_some none = false
is_some (some a) = true

abbrev pub is_ok {ℓ} : {A : Type ℓ} → Result A → Bool
is_ok (ok b) = true
is_ok (err e) = false

module _ ⦃p : Platform⦄ where
  -- Reading a custom variable of the row does not panic.
  abbrev pub HasCustomVars : Row → Type 0
  HasCustomVars row = (c : Column) (tag : Bytes) → is_ok (row.get_custom_var_value c tag) ≡ true

  -- The operator is set, and one that matches a regular expression has one.
  abbrev pub has_operand : Operator → Option p.Regex → Bool
  has_operand unset r = false
  has_operand regex_match r = is_some r
  has_operand regex_match_not r = is_some r
  has_operand regex_no_case_match r = is_some r
  has_operand regex_no_case_match_not r = is_some r
  has_operand _ r = true

  match_string_op-is_ok :
      (op : Operator) (f : Fields) (v : Bytes)
      → has_operand op f.regexp ≡ true
      → is_ok (match_string_op op f v) ≡ true
  unfolding match_string_op match_regexp negated
  match_string_op-is_ok unset f v h = absurd (cc)
  match_string_op-is_ok _ f v h = ground arith

  module _ (f : Fields) (h : has_operand f.operator f.regexp ≡ true) where
    pub match_string-is_ok : (v : Bytes) → is_ok (match_string f v) ≡ true
    unfolding match_string
    match_string-is_ok v = match_string_op-is_ok f.operator f v h

    any_match-is_ok : (list : List Bytes) → is_ok (any_match f list) ≡ true
    unfolding any_match
    any_match-is_ok [] = refl
    any_match-is_ok (v ∷ list) = ground (arith, match_string-is_ok v, any_match-is_ok list)

    every_match-is_ok : (list : List Bytes) → is_ok (every_match f list) ≡ true
    unfolding every_match
    every_match-is_ok [] = refl
    every_match-is_ok (v ∷ list) = ground (arith, match_string-is_ok v, every_match-is_ok list)

    match_string_list_op-is_ok :
        (op : Operator) (list : List Bytes)
        → has_operand op f.regexp ≡ true
        → is_ok (match_string_list_op op f list) ≡ true
    unfolding match_string_list_op
    match_string_list_op-is_ok unset list e = absurd (cc)
    match_string_list_op-is_ok _ list e =
        ground (arith, any_match-is_ok list, every_match-is_ok list)

    match_int64_list_op-is_ok :
        (op : Operator) (list : List ℤ)
        → has_operand op f.regexp ≡ true
        → is_ok (match_int64_list_op op f list) ≡ true
    unfolding match_int64_list_op
    match_int64_list_op-is_ok unset list e = absurd (cc)
    match_int64_list_op-is_ok _ list e = ground arith

    match_int_op-is_ok : (op : Operator) (v : ℤ) → is_ok (match_int_op op f v) ≡ true
    unfolding match_int_op
    match_int_op-is_ok equal v = refl
    match_int_op-is_ok _ v = ground (arith, match_string-is_ok (show_int v))

    match_float_op-is_ok : (op : Operator) (v : p.Float) → is_ok (match_float_op op f v) ≡ true
    unfolding match_float_op
    match_float_op-is_ok equal v = refl
    match_float_op-is_ok _ v = ground (arith, match_string-is_ok (p.format_float v))

    match_empty_filter-is_ok :
        (op : Operator) → has_operand op f.regexp ≡ true → is_ok (match_empty_filter op) ≡ true
    unfolding match_empty_filter
    match_empty_filter-is_ok unset e = absurd (cc)
    match_empty_filter-is_ok _ e = refl

    bound-is_ok :
        (value : Result Bytes) → is_ok value ≡ true → is_ok (value >>= match_string f) ≡ true
    bound-is_ok (ok v) e = match_string-is_ok v
    bound-is_ok (err wrong) e = absurd (cc)

    match_type-is_ok :
        (t : DataType) (row : Row) (c : Column)
        → HasCustomVars row
        → is_ok (match_type t row f c) ≡ true
    unfolding match_type match_int match_float match_string_list match_int64_list
    match_type-is_ok lampd.Column.custom_var_col row c vars =
        bound-is_ok (row.get_custom_var_value c f.custom_tag) (vars c f.custom_tag)
    match_type-is_ok _ row c vars = ground (
      arith,
      match_string-is_ok (row.get_string c),
      match_string_list_op-is_ok f.operator (row.get_string_list c) h,
      match_int64_list_op-is_ok f.operator (row.get_int64_list c) h,
      match_int_op-is_ok f.operator (row.get_int c),
      match_int_op-is_ok f.operator (row.get_int64 c),
      match_float_op-is_ok f.operator (row.get_float c),
      match_empty_filter-is_ok f.operator h,
    )

  match_column-is_ok :
      (f : Fields) (c : Option Column) (row : Row)
      → HasCustomVars row
      → has_operand f.operator f.regexp ≡ true
      → is_some c ≡ true
      → is_ok (match_column c row f) ≡ true
  unfolding match_column
  match_column-is_ok f none row vars h e = absurd (cc)
  match_column-is_ok f (some c) row vars h e = match_type-is_ok f h c.data_type row c vars

  is_ok-with_negate : (b : Bool) (r : Result Bool) → is_ok r ≡ true → is_ok (with_negate b r) ≡ true
  unfolding negated
  is_ok-with_negate b r h = ground arith

  pub match_single-is_ok :
      (f : Fields) (row : Row) (empty_column : Column)
      → HasCustomVars row
      → has_operand f.operator f.regexp ≡ true
      → is_some f.column ≡ true
      → is_ok (match_single (row, empty_column) f) ≡ true
  unfolding match_single empty_copy
  match_single-is_ok f row empty_column vars h e = elim (Option-cases f.column) [
    | inl nothing ↦ absurd (cc)
    | inr (c, found) ↦
        let e' = record empty_column { data_type = c.data_type } in
        let own = match_column f.column row f in
        let copied = match_column (some e') row (empty_copy e' f) in
        ground (
          arith,
          is_ok-with_negate f.negate own (match_column-is_ok f f.column row vars h e),
          is_ok-with_negate f.negate copied
              (match_column-is_ok (empty_copy e' f) (some e') row vars h refl),
        )
  ]
