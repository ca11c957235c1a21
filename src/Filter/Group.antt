-- ===== src/Filter/Group.antt =====
-- Groups of filters: `ParseFilterOp` and `ParseFilterNegate` of lmd/filter.go, `parseStatsOp` and
-- `optimizeFilterIndentation` of lmd/request.go.
pub mod Meaning
pub mod Negate
pub mod Headers
pub mod Safe
use lampd.Prelude.{
  ℕ, zero, suc, ◌-◌, Bool, true, false, Option, none, some, List, [], ◌∷◌, ◌++◌, ltb, length, take,
  drop, if◌then◌else◌,
}
use lampd.Prelude.Int.{ℤ, pos, negsuc}
use lampd.Prelude.Bytes.{Bytes, codes, atoi}
use lampd.Column.{Schema, TableName}
use lampd.Filter.{
  GroupOperator, ungrouped, and, or, Filter, Filters, filter, nil, cons, to_list, from_list,
  zero_fields,
}
use lampd.Filter.Parse.{parse_stats, set_last_counter}
use lampd.Platform.{Platform}
use lampd.Result.{Result, ok, err, ◌>>=◌, not_positive, not_enough_filter, no_filter_to_negate}

module _ ⦃p : Platform⦄ where
  unfoldable pub new_group : GroupOperator → List Filter → Filter
  new_group op fs = filter (record zero_fields { group_operator = op }) (from_list fs)

  -- The last `num` filters of the stack become one group.
  unfoldable pub group_last : GroupOperator → ℕ → List Filter → List Filter
  unfolding new_group
  group_last op num stack =
      let remaining = length stack - num in
      take remaining stack ++ new_group op (drop remaining stack) ∷ []

  -- `ParseFilterOp` behind `strconv.Atoi`
  unfoldable pub group_filters : GroupOperator → Option ℤ → List Filter → Result (List Filter)
  unfolding group_last
  group_filters op none stack = err not_positive
  group_filters op (some (negsuc n)) stack = err not_positive
  group_filters op (some (pos zero)) stack = ok stack
  group_filters op (some (pos (suc n))) stack =
      if ltb (length stack) (suc n) then err not_enough_filter else ok (group_last op (suc n) stack)

  -- `ParseFilterOp`
  unfoldable pub parse_filter_group : GroupOperator → Bytes → List Filter → Result (List Filter)
  unfolding group_filters atoi
  parse_filter_group op value stack = group_filters op (atoi value) stack

  -- `ParseFilterNegate`: the last filter gets the flag.
  unfoldable pub parse_filter_negate : List Filter → Result (List Filter)
  parse_filter_negate [] = err no_filter_to_negate
  parse_filter_negate (filter f fs ∷ []) = ok (filter (record f { negate = true }) fs ∷ [])
  parse_filter_negate (f ∷ g ∷ stack) = do rest ← parse_filter_negate (g ∷ stack); ok (f ∷ rest)

  unfoldable pub group_stats :
      Schema → Bool → ℕ → TableName → GroupOperator → Option ℤ → List Filter → Result (List Filter)
  unfolding parse_stats group_filters set_last_counter
  group_stats schema optimize fresh t op (some (pos zero)) stack =
      parse_stats schema optimize fresh t (codes "state != 9999") stack
  group_stats schema optimize fresh t op num stack = do
    grouped ← group_filters op num stack
    set_last_counter grouped

  -- `parseStatsOp`
  unfoldable pub parse_stats_op :
      Schema → Bool → ℕ → TableName → GroupOperator → Bytes → List Filter → Result (List Filter)
  unfolding group_stats atoi
  parse_stats_op schema optimize fresh table op value stack =
      group_stats schema optimize fresh table op (atoi value) stack

  -- The loop of `optimizeFilterIndentation` on the only filter of the request: while it is an And
  -- group with subfilters, these take its place.
  unfoldable pub unwrap_filter : Filter → List Filter
  unwrap_filter (filter f nil) = filter f nil ∷ []
  unwrap_filter (filter f (cons g nil)) =
      let inner = unwrap_filter g in
      elim f.group_operator [ and ↦ inner | _ ↦ filter f (cons g nil) ∷ [] ]
  unwrap_filter (filter f (cons g (cons h fs))) = elim f.group_operator [
    | and ↦ g ∷ h ∷ to_list fs
    | _ ↦ filter f (cons g (cons h fs)) ∷ []
  ]

  -- `optimizeFilterIndentation`
  unfoldable pub optimize_filter_indentation : List Filter → List Filter
  unfolding unwrap_filter
  optimize_filter_indentation (f ∷ []) = unwrap_filter f
  optimize_filter_indentation stack = stack
