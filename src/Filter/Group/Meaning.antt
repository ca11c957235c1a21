-- ===== src/Filter/Group/Meaning.antt =====
-- What grouping does to the rows that a list of filters selects.
use lampd.Prelude.{
  ℕ, zero, suc, ◌-◌, ◌≡◌, refl, sym, ap, ◌∙◌, Bool, true, false, Option, none, some, List, [], ◌∷◌,
  ◌++◌, arith, ltb, length, take, drop, if◌then◌else◌, take-append-drop, length-drop, ltb-eq-false,
}
use lampd.Prelude.Int.{ℤ, pos, negsuc}
use lampd.Prelude.Bytes.{Bytes, atoi}
use lampd.Column.{Column}
use lampd.Filter.{GroupOperator, and, or, Filter, Filters, filter, nil, cons, to_list, from_list}
use lampd.Filter.Match.{Row, match_filter, match_and, match_or}
use lampd.Filter.Group.{
  new_group, group_last, group_filters, parse_filter_group, unwrap_filter,
  optimize_filter_indentation,
}
use lampd.Platform.{Platform}
use lampd.Result.{Result, ok, err, ◌>>=◌}

module _ ⦃p : Platform⦄ where
  -- A row is selected if each filter matches it: the loop over `req.Filter` that skips a row
  -- (lmd/response.go).
  unfoldable pub match_all : (Row × Column) → List Filter → Result Bool
  unfolding match_filter
  match_all row [] = ok true
  match_all row (f ∷ fs) = do
    let rest = match_all row fs
    b ← match_filter row f
    if b then rest else ok false

  -- The loop that stops at the first filter that matches.
  unfoldable pub match_any : (Row × Column) → List Filter → Result Bool
  unfolding match_filter
  match_any row [] = ok false
  match_any row (f ∷ fs) = do
    let rest = match_any row fs
    b ← match_filter row f
    if b then ok true else rest

  -- Short-circuit conjunction, with panics.
  abbrev pub and_then : Result Bool → Result Bool → Result Bool
  and_then a b = a >>= λ x. if x then b else ok false

  and_then_assoc : (a b c : Result Bool) → and_then (and_then a b) c ≡ and_then a (and_then b c)
  and_then_assoc (ok true) b c = refl
  and_then_assoc (ok false) b c = refl
  and_then_assoc (err e) b c = refl

  pub and_then-true : (a : Result Bool) → and_then a (ok true) ≡ a
  and_then-true (ok true) = refl
  and_then-true (ok false) = refl
  and_then-true (err e) = refl

  module _ (row : Row × Column) where
    pub match_all-append :
        (fs gs : List Filter)
        → match_all row (fs ++ gs) ≡ and_then (match_all row fs) (match_all row gs)
    unfolding match_all
    match_all-append [] gs = refl
    match_all-append (f ∷ fs) gs =
        ap (and_then (match_filter row f)) (match_all-append fs gs)
        ∙ sym (and_then_assoc (match_filter row f) (match_all row fs) (match_all row gs))

    pub match_and-from_list : (fs : List Filter) → match_and row (from_list fs) ≡ match_all row fs
    unfolding match_all match_filter
    match_and-from_list [] = refl
    match_and-from_list (f ∷ fs) = ap (and_then (match_filter row f)) (match_and-from_list fs)

    pub match_and-to_list : (fs : Filters) → match_and row fs ≡ match_all row (to_list fs)
    unfolding match_all match_filter
    match_and-to_list nil = refl
    match_and-to_list (cons f fs) = ap (and_then (match_filter row f)) (match_and-to_list fs)

    pub match_or-from_list : (fs : List Filter) → match_or row (from_list fs) ≡ match_any row fs
    unfolding match_any match_filter
    match_or-from_list [] = refl
    match_or-from_list (f ∷ fs) =
        ap (λ r. match_filter row f >>= λ x. if x then ok true else r) (match_or-from_list fs)

    pub match_filter-new_group_and :
        (fs : List Filter) → match_filter row (new_group and fs) ≡ match_all row fs
    unfolding match_filter new_group
    match_filter-new_group_and fs = match_and-from_list fs

    pub match_filter-new_group_or :
        (fs : List Filter) → match_filter row (new_group or fs) ≡ match_any row fs
    unfolding match_filter new_group
    match_filter-new_group_or fs = match_or-from_list fs

    match_all-single : (f : Filter) → match_all row (f ∷ []) ≡ match_filter row f
    unfolding match_all
    match_all-single f = and_then-true (match_filter row f)

    -- One step of the induction over the stack: the filters below the group stay.
    match_all-cut :
        (n : ℕ) (stack : List Filter)
        → match_all row stack
          ≡ and_then (match_all row (take n stack)) (match_all row (drop n stack))
    match_all-cut n stack =
        ap (match_all row) (sym (take-append-drop n stack))
        ∙ match_all-append (take n stack) (drop n stack)

    match_all-group_last :
        (op : GroupOperator) (n : ℕ) (stack : List Filter)
        → match_all row (group_last op n stack)
          ≡ and_then
              (match_all row (take (length stack - n) stack))
              (match_filter row (new_group op (drop (length stack - n) stack)))
    unfolding group_last
    match_all-group_last op n stack =
        match_all-append (take (length stack - n) stack) _
        ∙ ap (and_then (match_all row (take (length stack - n) stack))) (match_all-single _)

    group_filters_and :
        (n : Option ℤ) (stack : List Filter) {stack' : List Filter}
        → group_filters and n stack ≡ ok stack'
        → match_all row stack' ≡ match_all row stack
    unfolding group_filters
    group_filters_and none stack h = cc
    group_filters_and (some (negsuc n)) stack h = cc
    group_filters_and (some (pos zero)) stack {stack'} h = ground arith
    group_filters_and (some (pos (suc n))) stack {stack'} h = ground (
      arith,
      match_all-cut (length stack - suc n) stack,
      match_all-group_last and (suc n) stack,
      match_filter-new_group_and (drop (length stack - suc n) stack),
    )

    -- An `And:` header does not change which rows the filters on the stack select, nor whether a
    -- match panics: the group holds for a row exactly when all of its members do.
    pub parse_filter_group-and :
        (value : Bytes) (stack stack' : List Filter)
        → parse_filter_group and value stack ≡ ok stack'
        → match_all row stack' ≡ match_all row stack
    unfolding parse_filter_group
    parse_filter_group-and value stack stack' h = group_filters_and (atoi value) stack h

    -- An `Or: n` header with n > 0 that is accepted takes the last n filters of the stack, and a row
    -- is then selected if the filters below match it and one of those n does.
    pub parse_filter_group-or :
        (value : Bytes) (n : ℕ) (stack stack' : List Filter)
        → atoi value ≡ some (pos (suc n))
        → parse_filter_group or value stack ≡ ok stack'
        → (below : List Filter) × (members : List Filter) × (stack ≡ below ++ members)
          × (length members ≡ suc n)
          × (match_all row stack' ≡ and_then (match_all row below) (match_any row members))
    unfolding parse_filter_group group_filters
    parse_filter_group-or value n stack stack' num h =
        let keep : ℕ = length stack - suc n in
        let enough : ltb (length stack) (suc n) ≡ false = ground arith in
        (
          take keep stack,
          drop keep stack,
          sym (take-append-drop keep stack),
          omega (arith, length-drop keep stack, ltb-eq-false (length stack) (suc n) enough),
          ground (
            arith,
            match_all-group_last or (suc n) stack,
            match_filter-new_group_or (drop keep stack),
          ),
        )

    match_all-unwrap_filter : (f : Filter) → match_all row (unwrap_filter f) ≡ match_filter row f
    unfolding unwrap_filter match_filter
    match_all-unwrap_filter (filter f nil) = match_all-single (filter f nil)
    match_all-unwrap_filter (filter f (cons g nil)) = ground (
      arith,
      match_all-unwrap_filter g,
      match_all-single (filter f (cons g nil)),
      match_and-to_list (cons g nil),
      match_all-single g,
    )
    match_all-unwrap_filter (filter f (cons g (cons h fs))) = ground (
      arith,
      match_all-single (filter f (cons g (cons h fs))),
      match_and-to_list (cons g (cons h fs)),
    )

    -- Removing the indentation of the only filter changes neither the rows that are selected nor
    -- the panics.
    pub optimize_filter_indentation_lem :
        (stack : List Filter)
        → match_all row (optimize_filter_indentation stack) ≡ match_all row stack
    unfolding optimize_filter_indentation
    optimize_filter_indentation_lem [] = refl
    optimize_filter_indentation_lem (f ∷ []) = match_all-unwrap_filter f ∙ sym (match_all-single f)
    optimize_filter_indentation_lem (f ∷ g ∷ stack) = refl
