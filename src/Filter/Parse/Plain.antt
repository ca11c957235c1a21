-- ===== src/Filter/Parse/Plain.antt =====
-- A filter header (lmd/filter.go) pushes one filter, which is neither a group nor negated.
use lampd.Prelude.{
  ℕ, ◌≡◌, refl, Bool, true, false, ◌||◌, Option, none, some, List, [], ◌∷◌, ◌++◌, arith,
  if◌then◌else◌,
}
use lampd.Prelude.Bytes.{Bytes, cut, ◌=b◌}
use lampd.Column.{
  Column, Schema, TableName, DataType, int_col, int64_col, int64_list_col, float_col,
  custom_var_col, get_column_with_fallback,
}
use lampd.Filter.{Operator, regex_match, ungrouped, Fields, Filter, filter, nil, zero_fields}
use lampd.Filter.Names.{parse_filter_op}
use lampd.Filter.Parse.{
  set_number, set_custom_variable, set_value_type, set_filter_value, set_lower_case_column,
  set_contains, set_compiled, set_regex_filter, trim_wildcards, parse_filter_parts, parse_filter,
  or_empty,
}
use lampd.Platform.{Platform}
use lampd.Result.{ok, err, ◌>>=◌, panic, filter_header, bind_ok}

module _ ⦃p : Platform⦄ where
  -- Neither a group nor negated.
  abbrev pub IsPlain : Fields → Type 0
  IsPlain f = (f.group_operator ≡ ungrouped) × (f.negate ≡ false)

  set_number-IsPlain : (f g : Fields) (v : Bytes) → IsPlain f → set_number f v ≡ ok g → IsPlain g
  unfolding set_number
  set_number-IsPlain f g v plain h = ground (arith, plain)

  set_custom_variable-IsPlain :
      (f g : Fields) (vars : Bytes × Option Bytes)
      → IsPlain f
      → set_custom_variable f vars ≡ ok g
      → IsPlain g
  unfolding set_custom_variable
  set_custom_variable-IsPlain f g ([], value) plain h = absurd (cc)
  set_custom_variable-IsPlain f g (c ∷ name, none) plain h = ground (arith, plain)
  set_custom_variable-IsPlain f g (c ∷ name, some value) plain h = ground (arith, plain)

  set_value_type-IsPlain :
      (t : DataType) (f g : Fields) (v : Bytes)
      → IsPlain f
      → set_value_type t f v ≡ ok g
      → IsPlain g
  unfolding set_value_type
  set_value_type-IsPlain int64_list_col f g v plain h = set_number-IsPlain f g v plain h
  set_value_type-IsPlain int_col f g v plain h = set_number-IsPlain f g v plain h
  set_value_type-IsPlain int64_col f g v plain h = set_number-IsPlain f g v plain h
  set_value_type-IsPlain float_col f g v plain h = set_number-IsPlain f g v plain h
  set_value_type-IsPlain custom_var_col f g v plain h =
      set_custom_variable-IsPlain f g (cut b' ' v) plain h
  set_value_type-IsPlain _ f g v plain h = ground (arith, plain)

  set_filter_value-IsPlain :
      (c : Column) (f g : Fields) (v : Bytes)
      → IsPlain f
      → set_filter_value c f v ≡ ok g
      → IsPlain g
  unfolding set_filter_value
  set_filter_value-IsPlain c f g v plain h =
      set_value_type-IsPlain c.data_type
        (record f { is_empty = v =b [] || f.is_empty; str_value = v }) g v plain h

  set_lower_case_column-IsPlain :
      (schema : Schema) (c : Column) (f : Fields)
      → IsPlain f
      → IsPlain (set_lower_case_column schema c f)
  unfolding set_lower_case_column
  set_lower_case_column-IsPlain schema c f plain = ground (arith, plain)

  set_contains-IsPlain :
      (op : Operator) (v : Bytes) (f : Fields) → IsPlain f → IsPlain (set_contains op v f)
  unfolding set_contains
  set_contains-IsPlain regex_match v f plain = plain
  set_contains-IsPlain _ v f plain = plain

  set_regex_filter-IsPlain :
      (optimize : Bool) (f g : Fields) → IsPlain f → set_regex_filter optimize f ≡ ok g → IsPlain g
  unfolding set_regex_filter set_compiled
  set_regex_filter-IsPlain optimize f g plain h =
      ground (arith, plain, set_contains-IsPlain f.operator (trim_wildcards f.str_value) f plain)

  pub parse_filter_parts-IsPlain :
      (schema : Schema) (optimize : Bool) (fresh : ℕ) (table : TableName) (name op v : Bytes)
      (f : Fields)
      → parse_filter_parts schema optimize fresh table name op v ≡ ok f
      → IsPlain f
  unfolding parse_filter_parts
  parse_filter_parts-IsPlain schema optimize fresh table name op v f h =
      let ((o, is_regex), e1, h1) = bind_ok (parse_filter_op op) _ h in
      let (t, e2, h2) = bind_ok (elim (schema table) [ none ↦ err panic | some t ↦ ok t ]) _ h1 in
      let col = get_column_with_fallback t fresh name in
      let start : Fields = record zero_fields { operator = o; column = some col } in
      let (g, e3, h3) = bind_ok (set_filter_value col start v) _ h2 in
      let plain = set_filter_value-IsPlain col start g v (refl, refl) e3 in
      let plain' = set_lower_case_column-IsPlain schema col g plain in
      let lowered = if optimize then set_lower_case_column schema col g else g in
      let lowered-IsPlain : IsPlain lowered =
        if_plain optimize (set_lower_case_column schema col g) g plain' plain in
      let (k, e4, h4) =
        bind_ok (if is_regex then set_regex_filter optimize lowered else ok lowered) _ h3 in
      finish is_regex lowered k lowered-IsPlain e4 h4
    where
      if_plain : (b : Bool) (x y : Fields) → IsPlain x → IsPlain y → IsPlain (if b then x else y)
      if_plain true x y a b = a
      if_plain false x y a b = b

      finish :
          (is_regex : Bool) (x k : Fields) {flags : ℕ}
          → IsPlain x
          → (if is_regex then set_regex_filter optimize x else ok x) ≡ ok k
          → ok (record k { column_optional = flags }) ≡ ok f
          → IsPlain f
      finish true x k plain e h =
          let plain' = set_regex_filter-IsPlain optimize x k plain e in ground (arith, plain')
      finish false x k plain e h = ground (arith, plain)

  pub parse_filter-parse_filter_parts :
      (schema : Schema) (optimize : Bool) (fresh : ℕ) (table : TableName) (value : Bytes)
      (stack stack' : List Filter)
      → parse_filter schema optimize fresh table value stack ≡ ok stack'
      → (f : Fields) × (op : Bytes) × (v : Bytes) × (parse_filter_parts schema optimize fresh table
            (cut b' ' value).0
            op
            v
          ≡ ok f)
        × (stack' ≡ stack ++ filter f nil ∷ [])
  unfolding parse_filter
  parse_filter-parse_filter_parts schema optimize fresh table value stack stack' h =
      split (cut b' ' value).0 (cut b' ' value).1 h
    where
      split :
          (name : Bytes) (behind : Option Bytes)
          → elim behind [
            | none ↦ err filter_header
            | some rest ↦
                let (op, val) = cut b' ' rest in
                do
                  f ← parse_filter_parts schema optimize fresh table name op (or_empty val)
                  ok (stack ++ filter f nil ∷ [])
          ]
            ≡ ok stack'
          → (f : Fields) × (op : Bytes) × (v : Bytes) × (parse_filter_parts schema optimize fresh
                table name op v
              ≡ ok f)
            × (stack' ≡ stack ++ filter f nil ∷ [])
      split name none e = absurd (cc)
      split name (some rest) e =
          let op = (cut b' ' rest).0 in
          let v = or_empty (cut b' ' rest).1 in
          let (f, e1, e2) =
            bind_ok (parse_filter_parts schema optimize fresh table name op v)
              (λ f. ok (stack ++ filter f nil ∷ [])) e in
          (f, op, v, e1, cc)

  -- An accepted Filter header pushes exactly one filter on the stack, which is neither a group nor
  -- negated.
  pub parse_filter-pushes :
      (schema : Schema) (optimize : Bool) (fresh : ℕ) (table : TableName) (value : Bytes)
      (stack stack' : List Filter)
      → parse_filter schema optimize fresh table value stack ≡ ok stack'
      → (f : Fields) × (stack' ≡ stack ++ filter f nil ∷ []) × IsPlain f
  parse_filter-pushes schema optimize fresh table value stack stack' h =
      let (f, op, v, parts, pushed) =
        parse_filter-parse_filter_parts schema optimize fresh table value stack stack' h in
      (
        f,
        pushed,
        parse_filter_parts-IsPlain schema optimize fresh table (cut b' ' value).0 op v f parts,
      )
