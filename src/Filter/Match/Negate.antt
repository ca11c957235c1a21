-- ===== src/Filter/Match/Negate.antt =====
-- The tests of a filter's own fields do not read its flag `Negate`; only `MatchFilter` does.
use mathlib.Core.Path.{fun_ext}
use lampd.Prelude.{
  ◌≡◌, refl, ap, Bool, true, false, Option, none, some, List, [], ◌∷◌, arith, inl, inr,
  Option-cases,
}
use lampd.Prelude.Int.{ℤ}
use lampd.Prelude.Bytes.{Bytes}
use lampd.Column.{
  Column, DataType, string_col, string_list_col, int_col, int64_col, int64_list_col, float_col,
}
use lampd.Filter.{
  Operator, equal, unequal, greater_than, less_than, regex_match, regex_no_case_match,
  regex_match_not, regex_no_case_match_not, contains, contains_no_case, contains_not,
  contains_no_case_not, less, greater, Fields,
}
use lampd.Filter.Match.{
  Row, match_string_op, match_string, any_match, every_match, match_string_list_op,
  match_string_list, match_int64_list_op, match_int64_list, match_int_op, match_int, match_float_op,
  match_float, match_type, match_column, match_single, empty_copy, negated,
}
use lampd.Platform.{Platform}
use lampd.Result.{◌>>=◌}

module _ ⦃p : Platform⦄ (b : Bool) (f : Fields) where
  abbrev flagged : Fields
  flagged = record f { negate = b }

  match_string_op-flagged :
      (op : Operator) (v : Bytes) → match_string_op op flagged v ≡ match_string_op op f v
  unfolding match_string_op
  match_string_op-flagged equal v = refl
  match_string_op-flagged _ v = refl

  match_string-flagged : (v : Bytes) → match_string flagged v ≡ match_string f v
  unfolding match_string
  match_string-flagged v = match_string_op-flagged f.operator v

  any_match-flagged : (list : List Bytes) → any_match flagged list ≡ any_match f list
  unfolding any_match
  any_match-flagged [] = refl
  any_match-flagged (v ∷ list) = rw (match_string-flagged v, any_match-flagged list)

  every_match-flagged : (list : List Bytes) → every_match flagged list ≡ every_match f list
  unfolding every_match
  every_match-flagged [] = refl
  every_match-flagged (v ∷ list) = rw (match_string-flagged v, every_match-flagged list)

  match_string_list_op-flagged :
      (op : Operator) (list : List Bytes)
      → match_string_list_op op flagged list ≡ match_string_list_op op f list
  unfolding match_string_list_op
  match_string_list_op-flagged regex_match list = any_match-flagged list
  match_string_list_op-flagged regex_no_case_match list = any_match-flagged list
  match_string_list_op-flagged contains list = any_match-flagged list
  match_string_list_op-flagged contains_no_case list = any_match-flagged list
  match_string_list_op-flagged regex_match_not list = every_match-flagged list
  match_string_list_op-flagged regex_no_case_match_not list = every_match-flagged list
  match_string_list_op-flagged contains_not list = every_match-flagged list
  match_string_list_op-flagged contains_no_case_not list = every_match-flagged list
  match_string_list_op-flagged _ list = refl

  match_int_op-flagged : (op : Operator) (v : ℤ) → match_int_op op flagged v ≡ match_int_op op f v
  unfolding match_int_op match_string match_string_op
  match_int_op-flagged equal v = refl
  match_int_op-flagged unequal v = refl
  match_int_op-flagged less v = refl
  match_int_op-flagged less_than v = refl
  match_int_op-flagged greater v = refl
  match_int_op-flagged greater_than v = refl
  match_int_op-flagged _ v = match_string-flagged _

  match_float_op-flagged :
      (op : Operator) (v : p.Float) → match_float_op op flagged v ≡ match_float_op op f v
  unfolding match_float_op
  match_float_op-flagged equal v = refl
  match_float_op-flagged unequal v = refl
  match_float_op-flagged less v = refl
  match_float_op-flagged less_than v = refl
  match_float_op-flagged greater v = refl
  match_float_op-flagged greater_than v = refl
  match_float_op-flagged _ v = match_string-flagged _

  match_int64_list_op-flagged :
      (op : Operator) (v : List ℤ) → match_int64_list_op op flagged v ≡ match_int64_list_op op f v
  unfolding match_int64_list_op
  match_int64_list_op-flagged equal v = refl
  match_int64_list_op-flagged _ v = refl

  match_type-flagged :
      (t : DataType) (row : Row) (c : Column) → match_type t row flagged c ≡ match_type t row f c
  unfolding match_type match_int match_float match_string_list match_int64_list
  match_type-flagged string_list_col row c = match_string_list_op-flagged f.operator _
  match_type-flagged int_col row c = rw (match_int_op-flagged f.operator (row.get_int c))
  match_type-flagged int64_col row c = rw (match_int_op-flagged f.operator (row.get_int64 c))
  match_type-flagged float_col row c = rw (match_float_op-flagged f.operator (row.get_float c))
  match_type-flagged int64_list_col row c =
      match_int64_list_op-flagged f.operator (row.get_int64_list c)
  match_type-flagged lampd.Column.interface_list_col row c = refl
  match_type-flagged lampd.Column.service_member_list_col row c = refl
  match_type-flagged lampd.Column.custom_var_col row c =
      ap (λ m. row.get_custom_var_value c f.custom_tag >>= m) (fun_ext match_string-flagged)
  match_type-flagged _ row c = match_string-flagged _

  pub match_column-flagged :
      (o : Option Column) (row : Row) → match_column o row flagged ≡ match_column o row f
  unfolding match_column
  match_column-flagged none row = refl
  match_column-flagged (some c) row = match_type-flagged c.data_type row c

module _ ⦃p : Platform⦄ (f : Fields) where
  -- With the flag set, a filter that has no subfilters and had it not set gives the opposite answer,
  -- and panics where it did.
  pub match_single-negate :
      (row : Row) (empty_column : Column)
      → f.negate ≡ false
      → match_single (row, empty_column) (record f { negate = true })
        ≡ negated (match_single (row, empty_column) f)
  unfolding match_single empty_copy
  match_single-negate row e h = elim (Option-cases f.column) [
    | inl nothing ↦ ground (arith, match_column-flagged true f f.column row)
    | inr (c, found) ↦
        let e' = record e { data_type = c.data_type } in
        ground (
          arith,
          match_column-flagged true f f.column row,
          match_column-flagged true (empty_copy e' f) (some e') row,
        )
  ]
