-- ===== src/Filter/Group/Safe.antt =====
-- The filters of a request are matched without a panic, in groups too (lmd/filter.go, and
-- `MatchFilter` of lmd/datarow.go).
use lampd.Prelude.{
  ℕ, zero, suc, ◌-◌, ◌≡◌, refl, ap, ◌∙◌, ◌≢◌, Bool, true, ◌&&◌, Option, none, some, List, [], ◌∷◌,
  ◌++◌, arith, length, take, drop,
}
use lampd.Prelude.Int.{ℤ, pos, negsuc}
use lampd.Prelude.Bytes.{Bytes, atoi, cut}
use lampd.Column.{Column, Schema, TableName}
use lampd.Filter.{
  GroupOperator, ungrouped, and, or, Fields, Filter, Filters, filter, nil, cons, from_list,
}
use lampd.Filter.Match.{Row, match_filter, match_and, match_or}
use lampd.Filter.Match.Returns.{is_some, is_ok, has_operand, HasCustomVars, match_single-is_ok}
use lampd.Filter.Parse.{parse_filter}
use lampd.Filter.Parse.Plain.{parse_filter-parse_filter_parts, parse_filter_parts-IsPlain}
use lampd.Filter.Parse.Ready.{parse_filter_parts-IsReady}
use lampd.Filter.Group.{
  new_group, group_last, group_filters, parse_filter_group, parse_filter_negate,
}
use lampd.Filter.Group.Meaning.{match_all}
use lampd.Platform.{Platform}
use lampd.Result.{ok, bind_ok}

module _ ⦃p : Platform⦄ where
  abbrev pub is_ready : Fields → Bool
  is_ready f = has_operand f.operator f.regexp && is_some f.column

  unfoldable mutual
    pub is_safe : Filter → Bool
    is_safe (filter f fs) =
        let below = are_safe fs in
        elim f.group_operator [ ungrouped ↦ is_ready f | and ↦ below | or ↦ below ]

    pub are_safe : Filters → Bool
    are_safe nil = true
    are_safe (cons f fs) = is_safe f && are_safe fs

  unfoldable pub all_safe : List Filter → Bool
  unfolding is_safe
  all_safe [] = true
  all_safe (f ∷ fs) = is_safe f && all_safe fs

  pub all_safe-none : all_safe [] ≡ true
  unfolding all_safe
  all_safe-none = refl

  module _ (row : Row × Column) (vars : HasCustomVars row.0) where
    mutual
      unfolding is_safe match_filter

      pub is_safe-is_ok : (f : Filter) → is_safe f ≡ true → is_ok (match_filter row f) ≡ true
      is_safe-is_ok (filter f fs) h =
          let every = are_safe-and fs in
          let some_one = are_safe-or fs in
          ground (arith, every, some_one, match_single-is_ok f row.0 row.1 vars)

      are_safe-and : (fs : Filters) → are_safe fs ≡ true → is_ok (match_and row fs) ≡ true
      are_safe-and nil h = refl
      are_safe-and (cons f fs) h =
          let rest = are_safe-and fs in let here = is_safe-is_ok f in ground (arith, rest, here)

      are_safe-or : (fs : Filters) → are_safe fs ≡ true → is_ok (match_or row fs) ≡ true
      are_safe-or nil h = refl
      are_safe-or (cons f fs) h =
          let rest = are_safe-or fs in let here = is_safe-is_ok f in ground (arith, rest, here)

    pub all_safe-is_ok :
        (stack : List Filter) → all_safe stack ≡ true → is_ok (match_all row stack) ≡ true
    unfolding all_safe match_all
    all_safe-is_ok [] h = refl
    all_safe-is_ok (f ∷ stack) h = ground (arith, is_safe-is_ok f, all_safe-is_ok stack)

  all_safe-append : (xs ys : List Filter) → all_safe (xs ++ ys) ≡ (all_safe xs && all_safe ys)
  unfolding all_safe
  all_safe-append [] ys = refl
  all_safe-append (x ∷ xs) ys = ground (arith, all_safe-append xs ys)

  all_safe-take : (n : ℕ) (xs : List Filter) → all_safe xs ≡ true → all_safe (take n xs) ≡ true
  unfolding all_safe
  all_safe-take zero xs h = refl
  all_safe-take (suc n) [] h = refl
  all_safe-take (suc n) (x ∷ xs) h = ground (arith, all_safe-take n xs)

  all_safe-drop : (n : ℕ) (xs : List Filter) → all_safe xs ≡ true → all_safe (drop n xs) ≡ true
  unfolding all_safe
  all_safe-drop zero xs h = h
  all_safe-drop (suc n) [] h = refl
  all_safe-drop (suc n) (x ∷ xs) h = ground (arith, all_safe-drop n xs)

  pub are_safe-from_list : (xs : List Filter) → are_safe (from_list xs) ≡ all_safe xs
  unfolding all_safe is_safe
  are_safe-from_list [] = refl
  are_safe-from_list (x ∷ xs) = ap (λ b. is_safe x && b) (are_safe-from_list xs)

  is_safe-new_group :
      (op : GroupOperator) (xs : List Filter)
      → op ≢ ungrouped
      → is_safe (new_group op xs) ≡ all_safe xs
  unfolding new_group is_safe
  is_safe-new_group ungrouped xs h = absurd (h refl)
  is_safe-new_group and xs h = are_safe-from_list xs
  is_safe-new_group or xs h = are_safe-from_list xs

  all_safe-single : (f : Filter) → all_safe (f ∷ []) ≡ is_safe f
  unfolding all_safe
  all_safe-single f = ground arith

  group_last-all_safe :
      (op : GroupOperator) (n : ℕ) (stack : List Filter)
      → op ≢ ungrouped
      → all_safe stack ≡ true
      → all_safe (group_last op n stack) ≡ true
  unfolding group_last
  group_last-all_safe op n stack h safe =
      let keep = length stack - n in
      let group = new_group op (drop keep stack) in
      let joined = all_safe-append (take keep stack) (group ∷ []) in
      let below = all_safe-take keep stack safe in
      let above = all_safe-drop keep stack safe in
      let top : all_safe (group ∷ []) ≡ is_safe group = all_safe-single group in
      let inner = is_safe-new_group op (drop keep stack) h in
      ground (arith, joined, below, above, top, inner)

  pub parse_filter_group-all_safe :
      (op : GroupOperator) (value : Bytes) (stack stack' : List Filter)
      → op ≢ ungrouped
      → all_safe stack ≡ true
      → parse_filter_group op value stack ≡ ok stack'
      → all_safe stack' ≡ true
  unfolding parse_filter_group group_filters
  parse_filter_group-all_safe op value stack stack' h safe e = split (atoi value) e
    where
      split : (n : Option ℤ) → group_filters op n stack ≡ ok stack' → all_safe stack' ≡ true
      split none e = absurd (cc)
      split (some (negsuc n)) e = absurd (cc)
      split (some (pos zero)) e = ground (arith, safe)
      split (some (pos (suc n))) e = ground (arith, group_last-all_safe op (suc n) stack h safe)

  is_safe-negate :
      (f : Fields) (fs : Filters)
      → is_safe (filter (record f { negate = true }) fs) ≡ is_safe (filter f fs)
  unfolding is_safe
  is_safe-negate f fs = refl

  pub parse_filter_negate-all_safe :
      (stack stack' : List Filter)
      → all_safe stack ≡ true
      → parse_filter_negate stack ≡ ok stack'
      → all_safe stack' ≡ true
  unfolding parse_filter_negate all_safe
  parse_filter_negate-all_safe [] stack' safe e = absurd (cc)
  parse_filter_negate-all_safe (filter f fs ∷ []) stack' safe e =
      ground (arith, is_safe-negate f fs)
  parse_filter_negate-all_safe (f ∷ g ∷ stack) stack' safe e =
      let (rest, e1, e2) = bind_ok (parse_filter_negate (g ∷ stack)) (λ rest. ok (f ∷ rest)) e in
      let later : all_safe (g ∷ stack) ≡ true = ground arith in
      let kept = parse_filter_negate-all_safe (g ∷ stack) rest later e1 in ground (arith, kept)

  is_safe-single :
      (f : Fields)
      → f.group_operator ≡ ungrouped
      → is_ready f ≡ true
      → is_safe (filter f nil) ≡ true
  unfolding is_safe
  is_safe-single f single ready = ground arith

  pub parse_filter-all_safe :
      (schema : Schema) (optimize : Bool) (fresh : ℕ) (table : TableName) (value : Bytes)
      (stack stack' : List Filter)
      → all_safe stack ≡ true
      → parse_filter schema optimize fresh table value stack ≡ ok stack'
      → all_safe stack' ≡ true
  unfolding all_safe
  parse_filter-all_safe schema optimize fresh table value stack stack' safe h =
      let (f, op, v, parts, pushed) =
        parse_filter-parse_filter_parts schema optimize fresh table value stack stack' h in
      let name = (cut b' ' value).0 in
      let plain = parse_filter_parts-IsPlain schema optimize fresh table name op v f parts in
      let ready = parse_filter_parts-IsReady schema optimize fresh table name op v f parts in
      let top = is_safe-single f plain.0 (ground (arith, ready)) in
      let joined = all_safe-append stack (filter f nil ∷ []) in
      ap all_safe pushed ∙ joined ∙ ground (arith, top, safe)
