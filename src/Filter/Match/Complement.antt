-- ===== src/Filter/Match/Complement.antt =====
-- Operators that come in pairs give opposite answers.
use lampd.Prelude.{◌≡◌, refl, sym, ap, ◌∙◌, List, [], ◌∷◌, arith}
use lampd.Prelude.Int.{ℤ}
use lampd.Prelude.Bytes.{Bytes, show_int}
use lampd.Filter.{
  Operator, unset, equal, unequal, equal_nocase, unequal_nocase, regex_match, regex_match_not,
  regex_no_case_match, regex_no_case_match_not, contains, contains_not, contains_no_case,
  contains_no_case_not, less, less_than, greater, greater_than, group_contains_not, Fields,
}
use lampd.Filter.Match.{
  match_string_op, match_string, any_match, every_match, match_string_list, match_string_list_op,
  negated, match_int, match_int_op,
}
use lampd.Platform.{Platform}

-- The operator that asks for the opposite, on strings and numbers.
abbrev pub opposite : Operator → Operator
opposite equal = unequal
opposite unequal = equal
opposite equal_nocase = unequal_nocase
opposite unequal_nocase = equal_nocase
opposite regex_match = regex_match_not
opposite regex_match_not = regex_match
opposite regex_no_case_match = regex_no_case_match_not
opposite regex_no_case_match_not = regex_no_case_match
opposite contains = contains_not
opposite contains_not = contains
opposite contains_no_case = contains_no_case_not
opposite contains_no_case_not = contains_no_case
opposite less = greater_than
opposite greater_than = less
opposite less_than = greater
opposite greater = less_than
opposite unset = unset
opposite group_contains_not = group_contains_not

abbrev pub HasOpposite : Operator → Type 0
HasOpposite unset = ⊥
HasOpposite group_contains_not = ⊥
HasOpposite _ = Unit

-- The operators on a list of strings that ask whether some string passes a test.
abbrev pub IsListTest : Operator → Type 0
IsListTest regex_match = Unit
IsListTest regex_no_case_match = Unit
IsListTest contains = Unit
IsListTest contains_no_case = Unit
IsListTest _ = ⊥

module _ ⦃p : Platform⦄ where
  match_string_op-opposite :
      (op o : Operator) (f : Fields) (v : Bytes)
      → HasOpposite op
      → match_string_op (opposite op) (record f { operator = o }) v
        ≡ negated (match_string_op op f v)
  unfolding match_string_op
  match_string_op-opposite unset o f v h = absurd h
  match_string_op-opposite _ o f v h = ground arith

  -- On a string, the operator that asks for the opposite gives the opposite answer, and panics
  -- where the other does.
  pub match_string-opposite :
      (f : Fields) (v : Bytes)
      → HasOpposite f.operator
      → match_string (record f { operator = opposite f.operator }) v ≡ negated (match_string f v)
  unfolding match_string
  match_string-opposite f v h = match_string_op-opposite f.operator (opposite f.operator) f v h

  match_int_op-opposite :
      (op : Operator) (f : Fields) (v : ℤ)
      → f.operator ≡ op
      → HasOpposite op
      → match_int_op (opposite op) (record f { operator = opposite op }) v
        ≡ negated (match_int_op op f v)
  unfolding match_int_op match_string
  match_int_op-opposite unset f v e h = absurd h
  match_int_op-opposite equal f v e h = ground arith
  match_int_op-opposite unequal f v e h = ground arith
  match_int_op-opposite less f v e h = ground arith
  match_int_op-opposite less_than f v e h = ground arith
  match_int_op-opposite greater f v e h = ground arith
  match_int_op-opposite greater_than f v e h = ground arith
  match_int_op-opposite group_contains_not f v e h = absurd h
  match_int_op-opposite op f v e h =
      match_string_op-opposite op (opposite op) f (show_int v) h
      ∙ ap (λ o. negated (match_string_op o f (show_int v))) (sym e)

  -- On an integer, compared as a number or by its decimal text, the operator that asks for the
  -- opposite gives the opposite answer, and panics where the other does.
  pub match_int-opposite :
      (f : Fields) (v : ℤ)
      → HasOpposite f.operator
      → match_int (record f { operator = opposite f.operator }) v ≡ negated (match_int f v)
  unfolding match_int
  match_int-opposite f v h = match_int_op-opposite f.operator f v refl h

  module _ (op : Operator) (f : Fields) (e : f.operator ≡ op) (h : HasOpposite op) where
    match_string-opposite_op :
        (v : Bytes)
        → match_string (record f { operator = opposite op }) v ≡ negated (match_string f v)
    unfolding match_string
    match_string-opposite_op v =
        match_string_op-opposite op (opposite op) f v h
        ∙ ap (λ o. negated (match_string_op o f v)) (sym e)

    every_match-opposite :
        (list : List Bytes)
        → every_match (record f { operator = opposite op }) list ≡ negated (any_match f list)
    unfolding every_match any_match negated
    every_match-opposite [] = refl
    every_match-opposite (v ∷ list) =
        ground (arith, match_string-opposite_op v, every_match-opposite list)

  match_string_list_op-opposite :
      (op : Operator) (f : Fields) (list : List Bytes)
      → f.operator ≡ op
      → IsListTest op
      → match_string_list_op (opposite op) (record f { operator = opposite op }) list
        ≡ negated (match_string_list_op op f list)
  unfolding match_string_list_op
  match_string_list_op-opposite regex_match f list e h = every_match-opposite regex_match f e h list
  match_string_list_op-opposite regex_no_case_match f list e h =
      every_match-opposite regex_no_case_match f e h list
  match_string_list_op-opposite contains f list e h = every_match-opposite contains f e h list
  match_string_list_op-opposite contains_no_case f list e h =
      every_match-opposite contains_no_case f e h list
  match_string_list_op-opposite _ f list e h = absurd h

  -- On a list of strings, the negative form of a regular expression or string match holds exactly
  -- if the positive form does not, and panics where it does.
  pub match_string_list-opposite :
      (f : Fields) (list : List Bytes)
      → IsListTest f.operator
      → match_string_list (record f { operator = opposite f.operator }) list
        ≡ negated (match_string_list f list)
  unfolding match_string_list
  match_string_list-opposite f list h = match_string_list_op-opposite f.operator f list refl h
