-- ===== src/Filter/Group/Headers.antt =====
-- Which And and Or headers are accepted, and a Filter header followed by Negate (lmd/filter.go).
use lampd.Prelude.{
  ℕ, zero, suc, ◌≤◌, ◌≡◌, refl, ap, ◌∙◌, ◌↔◌, Bool, Option, none, some, List, [], ◌∷◌, ◌++◌, arith,
  length,
}
use lampd.Prelude.Int.{ℤ, pos, negsuc}
use lampd.Prelude.Bytes.{Bytes, atoi}
use lampd.Column.{Column, Schema, TableName}
use lampd.Filter.{GroupOperator, Filter, filter, nil}
use lampd.Filter.Match.{Row, match_filter, negated}
use lampd.Filter.Parse.{parse_filter}
use lampd.Filter.Parse.Plain.{parse_filter-pushes}
use lampd.Filter.Group.{group_last, group_filters, parse_filter_group, parse_filter_negate}
use lampd.Filter.Group.Meaning.{match_all, and_then}
use lampd.Filter.Group.Negate.{parse_filter_negate-last, parse_filter_negate-single}
use lampd.Platform.{Platform}
use lampd.Result.{ok}

module _ ⦃p : Platform⦄ where
  -- The value of an And or Or header is a number, no more than the filters on the stack.
  pub record FitsStack (value : Bytes) (stack : List Filter) : Type 0 where
    pub number : ℕ
    pub number_eq : atoi value ≡ some (pos number)
    pub enough : number ≤ length stack

  group_filters-rejects :
      (op : GroupOperator) (n : Option ℤ) (stack stack' : List Filter)
      → group_filters op n stack ≡ ok stack'
      → (k : ℕ) × (n ≡ some (pos k)) × (k ≤ length stack)
  unfolding group_filters
  group_filters-rejects op none stack stack' h = absurd (cc)
  group_filters-rejects op (some (negsuc n)) stack stack' h = absurd (cc)
  group_filters-rejects op (some (pos zero)) stack stack' h = (0, refl, omega arith)
  group_filters-rejects op (some (pos (suc n))) stack stack' h = (suc n, refl, ground arith)

  group_filters-accepts :
      (op : GroupOperator) (k : ℕ) (stack : List Filter)
      → k ≤ length stack
      → (stack' : List Filter) × (group_filters op (some (pos k)) stack ≡ ok stack')
  unfolding group_filters
  group_filters-accepts op zero stack h = (stack, refl)
  group_filters-accepts op (suc k) stack h = (group_last op (suc k) stack, ground arith)

  -- An And or Or header is accepted exactly if its value is a number that is not negative, and there
  -- are at least as many filters on the stack.
  pub parse_filter_group-accepts_iff :
      (op : GroupOperator) (value : Bytes) (stack : List Filter)
      → ((stack' : List Filter) × (parse_filter_group op value stack ≡ ok stack'))
        ↔ FitsStack value stack
  unfolding parse_filter_group
  parse_filter_group-accepts_iff op value stack = (
    (λ accepted.
        let (k, e, few) = group_filters-rejects op (atoi value) stack accepted.0 accepted.1 in
        record { number = k; number_eq = e; enough = few }),
    (λ fits.
        let (stack', e) = group_filters-accepts op fits.number stack fits.enough in
        (stack', ap (λ n. group_filters op n stack) fits.number_eq ∙ e)),
  )

  -- A Negate header behind an accepted Filter header is accepted, and then the stack selects the
  -- rows that match the filters that were there before and do not match the filter of this header.
  pub parse_filter-parse_filter_negate :
      (row : Row × Column) (schema : Schema) (optimize : Bool) (fresh : ℕ) (table : TableName)
      (value : Bytes) (stack pushed : List Filter)
      → parse_filter schema optimize fresh table value stack ≡ ok pushed
      → (f : Filter) × (stack' : List Filter) × (pushed ≡ stack ++ f ∷ [])
        × (parse_filter_negate pushed ≡ ok stack')
        × (match_all row stack' ≡ and_then (match_all row stack) (negated (match_filter row f)))
  parse_filter-parse_filter_negate row schema optimize fresh table value stack pushed h =
      let (f, e, (single, positive)) =
        parse_filter-pushes schema optimize fresh table value stack pushed h in
      let accepted = parse_filter_negate-last stack (filter f nil) in
      (
        filter f nil,
        _,
        e,
        ap parse_filter_negate e ∙ accepted,
        parse_filter_negate-single row stack (filter f nil) _ single positive accepted,
      )
