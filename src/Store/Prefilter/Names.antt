-- ===== src/Store/Prefilter/Names.antt =====
-- `TryFilterIndex` (lmd/datastore.go) collects the host of every row that the filters select.
use lampd.Prelude.{
  ℕ, ◌+◌, ◌<◌, ◌≡◌, refl, ◌⊎◌, inl, inr, Bool, true, false, ◌&&◌, ◌||◌, Option, none, some, List,
  [], ◌∷◌, ◌++◌, arith, Bool-cases,
}
use lampd.Prelude.Bytes.{Bytes, ◌=b◌}
use lampd.Column.{Column}
use lampd.Filter.{GroupOperator, ungrouped, and, or, Fields, Filter, Filters, filter, nil, cons}
use lampd.Filter.Match.{Row, match_filter, match_and, match_or, match_single}
use lampd.Platform.{Platform}
use lampd.Store.Prefilter.{refused, skipped, used, try_single, try_filters, try_one, group_outcome}
use lampd.Result.{Result, ok, err, ◌>>=◌, Result-cases}

unfoldable pub is_in : Bytes → List Bytes → Bool
is_in k [] = false
is_in k (x ∷ xs) = x =b k || is_in k xs

pub is_in-append :
    (k : Bytes) (xs ys : List Bytes) → is_in k (xs ++ ys) ≡ (is_in k xs || is_in k ys)
unfolding is_in
is_in-append k [] ys = refl
is_in-append k (x ∷ xs) ys = ground (arith, is_in-append k xs ys)

module _ ⦃p : Platform⦄ (has : Column → Bool) where
  -- The filter is on a column that the table has, if it is on a column.
  abbrev pub is_on : Fields → Bool
  is_on f = elim f.column [ none ↦ true | some c ↦ has c ]

  unfoldable mutual
    pub is_from : Filter → Bool
    is_from (filter f fs) = is_on f && are_from fs

    pub are_from : Filters → Bool
    are_from nil = true
    are_from (cons f fs) = is_from f && are_from fs

module _ ⦃p : Platform⦄ (has : Column → Bool) (row : Row × Column) (host : Bytes)
    (fn : Fields → Result (Option (List Bytes)))
    (fn_finds : (f : Fields) (names : List Bytes)
      → is_on has f ≡ true
      → f.negate ≡ false
      → fn f ≡ ok (some names)
      → match_single row f ≡ ok true
      → is_in host names ≡ true) where
  single-keeps :
      (brk : Bool) (before : List Bytes) (f : Fields) (names : List Bytes)
      → try_single fn brk before f ≡ ok (used names)
      → is_in host before ≡ true
      → is_in host names ≡ true
  unfolding try_single
  single-keeps brk before f names h b = elim (Result-cases (fn f)) [
    | inl (none, e) ↦ ground (arith, e)
    | inl (some added, e) ↦ ground (arith, e, is_in-append host before added)
    | inr (wrong, e) ↦ ground (arith, e)
  ]

  single-finds :
      (brk : Bool) (before : List Bytes) (f : Fields) (names : List Bytes)
      → try_single fn brk before f ≡ ok (used names)
      → is_on has f ≡ true
      → match_single row f ≡ ok true
      → is_in host names ≡ true
  unfolding try_single
  single-finds brk before f names h own matches = elim (Result-cases (fn f)) [
    | inl (none, e) ↦ ground (arith, e)
    | inl (some added, e) ↦ elim (Bool-cases f.negate) [
      | inl negated ↦ ground (arith, e)
      | inr positive ↦
          let found = fn_finds f added own positive e matches in
          ground (arith, e, found, is_in-append host before added)
    ]
    | inr (wrong, e) ↦ ground (arith, e)
  ]

  single-never_skips :
      (before : List Bytes) (f : Fields) → try_single fn true before f ≡ ok skipped → ⊥
  unfolding try_single
  single-never_skips before f h = elim (Result-cases (fn f)) [
    | inl (none, e) ↦ ground (arith, e)
    | inl (some added, e) ↦ ground (arith, e)
    | inr (wrong, e) ↦ ground (arith, e)
  ]

  group_outcome_inv :
      (r : Result (Option (List Bytes))) (names : List Bytes)
      → (r >>= λ x. ok (group_outcome fn x)) ≡ ok (used names)
      → r ≡ ok (some names)
  group_outcome_inv (ok none) names h = absurd (cc)
  group_outcome_inv (ok (some x)) names h = cc
  group_outcome_inv (err e) names h = absurd (cc)

  group_never_skipped :
      (r : Result (Option (List Bytes))) → (r >>= λ x. ok (group_outcome fn x)) ≡ ok skipped → ⊥
  group_never_skipped (ok none) h = cc
  group_never_skipped (ok (some x)) h = cc
  group_never_skipped (err e) h = cc

  one-never_skips : (before : List Bytes) (f : Filter) → try_one fn true before f ≡ ok skipped → ⊥
  unfolding try_filters
  one-never_skips before (filter f fs) h = ground (
    arith,
    single-never_skips before f,
    group_never_skipped (try_filters fn false before 0 fs),
    group_never_skipped (try_filters fn true before 0 fs),
  )

  -- Where the names of a counted filter come from.
  data Source (brk : Bool) (before : List Bytes) (f : Fields) (fs : Filters) (names : List Bytes)
      : Type 0 where
    of_and :
        f.group_operator ≡ and
        → try_filters fn false before 0 fs ≡ ok (some names)
        → Source brk before f fs names
    of_or :
        f.group_operator ≡ or
        → try_filters fn true before 0 fs ≡ ok (some names)
        → Source brk before f fs names
    of_single :
        f.group_operator ≡ ungrouped
        → try_single fn brk before f ≡ ok (used names)
        → Source brk before f fs names

  source :
      (brk : Bool) (before : List Bytes) (f : Fields) (fs : Filters) (names : List Bytes)
      → try_one fn brk before (filter f fs) ≡ ok (used names)
      → Source brk before f fs names
  unfolding try_filters
  source brk before f fs names h = split f.group_operator refl
    where
      split : (op : GroupOperator) → f.group_operator ≡ op → Source brk before f fs names
      split and e =
          of_and e (group_outcome_inv (try_filters fn false before 0 fs) names (ground (arith, e)))
      split or e =
          of_or e (group_outcome_inv (try_filters fn true before 0 fs) names (ground (arith, e)))
      split ungrouped e = of_single e (ground (arith, e))

  mutual
    unfolding try_filters

    filters-keeps :
        (brk : Bool) (before : List Bytes) (found : ℕ) (fs : Filters) (names : List Bytes)
        → try_filters fn brk before found fs ≡ ok (some names)
        → is_in host before ≡ true
        → is_in host names ≡ true
    filters-keeps brk before found nil names h b = ground arith
    filters-keeps brk before found (cons f fs) names h b =
        elim (Result-cases (try_one fn brk before f)) [
          | inl (refused, e) ↦ absurd (ground (arith, e))
          | inl (skipped, e) ↦ filters-keeps brk before found fs names (ground (arith, e)) b
          | inl (used now, e) ↦
              filters-keeps brk now (found + 1) fs names (ground (arith, e))
                (one-keeps brk before f now e b)
          | inr (wrong, e) ↦ absurd (ground (arith, e))
        ]

    one-keeps :
        (brk : Bool) (before : List Bytes) (f : Filter) (names : List Bytes)
        → try_one fn brk before f ≡ ok (used names)
        → is_in host before ≡ true
        → is_in host names ≡ true
    one-keeps brk before (filter f fs) names h b = elim (source brk before f fs names h) [
      | of_and g e ↦ filters-keeps false before 0 fs names e b
      | of_or g e ↦ filters-keeps true before 0 fs names e b
      | of_single g e ↦ single-keeps brk before f names e b
    ]

  match_and_inv :
      (f : Filter) (fs : Filters)
      → match_and row (cons f fs) ≡ ok true
      → (match_filter row f ≡ ok true) × (match_and row fs ≡ ok true)
  unfolding match_filter
  match_and_inv f fs h = ground arith

  match_or_inv :
      (f : Filter) (fs : Filters)
      → match_or row (cons f fs) ≡ ok true
      → (match_filter row f ≡ ok true) ⊎ (match_or row fs ≡ ok true)
  unfolding match_filter
  match_or_inv f fs h = ground arith

  match_group_inv :
      (f : Fields) (fs : Filters)
      → match_filter row (filter f fs) ≡ ok true
      → (f.group_operator ≡ and → match_and row fs ≡ ok true)
        × (f.group_operator ≡ or → match_or row fs ≡ ok true)
        × (f.group_operator ≡ ungrouped → match_single row f ≡ ok true)
  unfolding match_filter
  match_group_inv f fs h =
      ((λ e. ground (arith, e)), (λ e. ground (arith, e)), (λ e. ground (arith, e)))

  mutual
    unfolding try_filters match_filter is_from

    and-finds :
        (before : List Bytes) (found : ℕ) (fs : Filters) (names : List Bytes)
        → try_filters fn false before found fs ≡ ok (some names)
        → (0 < found → is_in host before ≡ true)
        → are_from has fs ≡ true
        → match_and row fs ≡ ok true
        → is_in host names ≡ true
    and-finds before found nil names h b own matches = ground arith
    and-finds before found (cons f fs) names h b own matches =
        let (here, later) = match_and_inv f fs matches in
        elim (Result-cases (try_one fn false before f)) [
          | inl (refused, e) ↦ absurd (ground (arith, e))
          | inl (skipped, e) ↦
              and-finds before found fs names (ground (arith, e)) b (ground arith) later
          | inl (used now, e) ↦
              let held = one-finds false before f now e (ground arith) here in
              and-finds now (found + 1) fs names (ground (arith, e)) (λ z. held) (ground arith)
                later
          | inr (wrong, e) ↦ absurd (ground (arith, e))
        ]

    or-finds :
        (before : List Bytes) (found : ℕ) (fs : Filters) (names : List Bytes)
        → try_filters fn true before found fs ≡ ok (some names)
        → are_from has fs ≡ true
        → match_or row fs ≡ ok true
        → is_in host names ≡ true
    or-finds before found nil names h own matches = absurd (cc)
    or-finds before found (cons f fs) names h own matches =
        elim (Result-cases (try_one fn true before f)) [
          | inl (refused, e) ↦ absurd (ground (arith, e))
          | inl (skipped, e) ↦ absurd (one-never_skips before f e)
          | inl (used now, e) ↦ elim (match_or_inv f fs matches) [
            | inl here ↦
                let held = one-finds true before f now e (ground arith) here in
                filters-keeps true now (found + 1) fs names (ground (arith, e)) held
            | inr later ↦ or-finds now (found + 1) fs names (ground (arith, e)) (ground arith) later
          ]
          | inr (wrong, e) ↦ absurd (ground (arith, e))
        ]

    one-finds :
        (brk : Bool) (before : List Bytes) (f : Filter) (names : List Bytes)
        → try_one fn brk before f ≡ ok (used names)
        → is_from has f ≡ true
        → match_filter row f ≡ ok true
        → is_in host names ≡ true
    one-finds brk before (filter f fs) names h own matches =
        let (for_and, for_or, for_single) = match_group_inv f fs matches in
        elim (source brk before f fs names h) [
          | of_and g e ↦
              and-finds before 0 fs names e (λ z. absurd (omega arith)) (ground arith) (for_and g)
          | of_or g e ↦ or-finds before 0 fs names e (ground arith) (for_or g)
          | of_single g e ↦ single-finds brk before f names e (ground arith) (for_single g)
        ]

  pub try_filters-finds :
      (fs : Filters) (names : List Bytes)
      → try_filters fn false [] 0 fs ≡ ok (some names)
      → are_from has fs ≡ true
      → match_and row fs ≡ ok true
      → is_in host names ≡ true
  try_filters-finds fs names h own matches =
      and-finds [] 0 fs names h (λ z. absurd (omega arith)) own matches
