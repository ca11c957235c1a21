-- ===== src/Filter/Group/Negate.antt =====
-- What `ParseFilterNegate` (lmd/filter.go) does to the rows that a list of filters selects.
use lampd.Prelude.{◌≡◌, refl, ap, ◌∙◌, true, false, List, [], ◌∷◌, ◌++◌, arith}
use lampd.Column.{Column}
use lampd.Filter.{ungrouped, Filter, filter, fields}
use lampd.Filter.Match.{Row, match_filter, negated}
use lampd.Filter.Match.Negate.{match_single-negate}
use lampd.Filter.Group.{parse_filter_negate}
use lampd.Filter.Group.Meaning.{match_all, match_all-append, and_then, and_then-true}
use lampd.Platform.{Platform}
use lampd.Result.{ok, ◌>>=◌}

module _ ⦃p : Platform⦄ where
  abbrev pub set_negate : Filter → Filter
  set_negate (filter f fs) = filter (record f { negate = true }) fs

  pub parse_filter_negate-last :
      (below : List Filter) (f : Filter)
      → parse_filter_negate (below ++ f ∷ []) ≡ ok (below ++ set_negate f ∷ [])
  unfolding parse_filter_negate
  parse_filter_negate-last [] (filter f fs) = refl
  parse_filter_negate-last (g ∷ []) (filter f fs) = refl
  parse_filter_negate-last (g ∷ h ∷ below) f =
      ap (λ r. r >>= λ rest. ok (g ∷ rest)) (parse_filter_negate-last (h ∷ below) f)

  module _ (row : Row × Column) where
    match_filter-set_negate_single :
        (f : Filter)
        → (fields f).group_operator ≡ ungrouped
        → (fields f).negate ≡ false
        → match_filter row (set_negate f) ≡ negated (match_filter row f)
    unfolding match_filter
    match_filter-set_negate_single (filter f fs) g h =
        ground (arith, match_single-negate f row.0 row.1 h)

    match_all-last :
        (below : List Filter) (f : Filter)
        → match_all row (below ++ f ∷ []) ≡ and_then (match_all row below) (match_filter row f)
    unfolding match_all
    match_all-last below f =
        match_all-append row below (f ∷ [])
        ∙ ap (and_then (match_all row below)) (and_then-true (match_filter row f))

    -- A `Negate:` header behind a filter that is no group, and not negated yet, makes the stack
    -- select the rows that match the filters below it and do not match this filter.
    pub parse_filter_negate-single :
        (below : List Filter) (f : Filter) (stack : List Filter)
        → (fields f).group_operator ≡ ungrouped
        → (fields f).negate ≡ false
        → parse_filter_negate (below ++ f ∷ []) ≡ ok stack
        → match_all row stack ≡ and_then (match_all row below) (negated (match_filter row f))
    parse_filter_negate-single below f stack g h e = ground (
      arith,
      parse_filter_negate-last below f,
      match_all-last below (set_negate f),
      match_filter-set_negate_single f g h,
    )
