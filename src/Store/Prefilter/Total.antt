-- ===== src/Store/Prefilter/Total.antt =====
-- `GetPreFilteredData` (lmd/datastore.go) does not panic on filters that are matched without a panic.
use lampd.Prelude.{
  ℕ, ◌+◌, ◌≡◌, refl, ◌∙◌, inl, inr, Bool, true, false, Option, none, some, List, [], ◌∷◌, arith,
}
use lampd.Prelude.Bytes.{Bytes}
use lampd.Prelude.Dict.{Dict}
use lampd.Column.{TableName, hosts, services}
use lampd.Filter.{Filter, Filters, Fields, filter, nil, cons, from_list}
use lampd.Filter.Match.Returns.{has_operand, match_string-is_ok}
use lampd.Filter.Group.Safe.{is_safe, are_safe, all_safe, is_ready, are_safe-from_list}
use lampd.Platform.{Platform}
use lampd.Store.{Item, DataStore}
use lampd.Store.Prefilter.{
  Tables, refused, skipped, used, matching_names, matching_members, group_hosts,
  hosts_from_host_columns, hosts_from_service_columns, try_single, try_filters, try_one,
  try_filter_index_data, get_pre_filtered_data, first_parts,
}
use lampd.Result.{Result, ok, err, Result-cases}

abbrev pub returns {ℓ} : {X : Type ℓ} → Result X → Bool
returns (ok a) = true
returns (err e) = false

module _ ⦃p : Platform⦄ where
  module _ (f : Fields) (ready : has_operand f.operator f.regexp ≡ true) where
    matching_names-returns : (names : List Bytes) → returns (matching_names f names) ≡ true
    unfolding matching_names
    matching_names-returns [] = refl
    matching_names-returns (n ∷ names) =
        ground (arith, match_string-is_ok f ready n, matching_names-returns names)

    matching_members-returns :
        {B : Type 0} (groups : Dict (List B)) → returns (matching_members f groups) ≡ true
    unfolding matching_members
    matching_members-returns [] = refl
    matching_members-returns ((n, members) ∷ groups) =
        ground (arith, match_string-is_ok f ready n, matching_members-returns groups)

    group_hosts-returns :
        {B : Type 0} (names : List B → List Bytes) (groups : Dict (List B))
        → returns (group_hosts names groups f) ≡ true
    unfolding group_hosts
    group_hosts-returns names groups = ground (arith, matching_members-returns groups)

  pub hosts_from_host_columns-returns :
      (t : Tables) (f : Fields) → is_ready f ≡ true → returns (hosts_from_host_columns t f) ≡ true
  unfolding hosts_from_host_columns
  hosts_from_host_columns-returns t f ready = ground (
    arith,
    group_hosts-returns f (ground (arith, ready)) (λ (members : List Bytes). members) t.hostgroups,
  )

  pub hosts_from_service_columns-returns :
      (t : Tables) (f : Fields)
      → is_ready f ≡ true
      → returns (hosts_from_service_columns t f) ≡ true
  unfolding hosts_from_service_columns
  hosts_from_service_columns-returns t f ready =
      let operand : has_operand f.operator f.regexp ≡ true = ground (arith, ready) in
      ground (
        arith,
        group_hosts-returns f operand (λ (members : List Bytes). members) t.hostgroups,
        group_hosts-returns f operand first_parts t.servicegroups,
        matching_names-returns f operand t.host_names,
      )

  module _ (fn : Fields → Result (Option (List Bytes)))
      (fn-returns : (f : Fields) → is_ready f ≡ true → returns (fn f) ≡ true) where
    single-returns :
        (brk : Bool) (before : List Bytes) (f : Fields)
        → is_ready f ≡ true
        → returns (try_single fn brk before f) ≡ true
    unfolding try_single
    single-returns brk before f ready = ground (arith, fn-returns f ready)

    mutual
      unfolding try_filters is_safe

      filters-returns :
          (brk : Bool) (before : List Bytes) (found : ℕ) (fs : Filters)
          → are_safe fs ≡ true
          → returns (try_filters fn brk before found fs) ≡ true
      filters-returns brk before found nil safe = refl
      filters-returns brk before found (cons f fs) safe =
          let here = one-returns brk before f (ground arith) in
          elim (Result-cases (try_one fn brk before f)) [
            | inl (refused, e) ↦ ground (arith, e)
            | inl (skipped, e) ↦
                let rest = filters-returns brk before found fs (ground arith) in
                ground (arith, e, rest)
            | inl (used now, e) ↦
                let rest = filters-returns brk now (found + 1) fs (ground arith) in
                ground (arith, e, rest)
            | inr (wrong, e) ↦ absurd (ground (arith, e, here))
          ]

      one-returns :
          (brk : Bool) (before : List Bytes) (f : Filter)
          → is_safe f ≡ true
          → returns (try_one fn brk before f) ≡ true
      one-returns brk before (filter f fs) safe =
          let every = filters-returns false before 0 fs in
          let some_one = filters-returns true before 0 fs in
          let leaf = single-returns brk before f in ground (arith, every, some_one, leaf)

    module _ {A : Type 0} (visit : Dict (Item A) → List (Item A)) (d : DataStore A) where
      pub try_filter_index_data-returns :
          (of_table : TableName) (filters : List Filter)
          → all_safe filters ≡ true
          → returns (try_filter_index_data visit d of_table fn filters) ≡ true
      unfolding try_filter_index_data
      try_filter_index_data-returns of_table filters safe =
          let found =
            filters-returns false [] 0 (from_list filters) (are_safe-from_list filters ∙ safe) in
          elim (Result-cases (try_filters fn false [] 0 (from_list filters))) [
            | inl (none, e) ↦ ground (arith, e)
            | inl (some names, e) ↦ ground (arith, e)
            | inr (wrong, e) ↦ absurd (ground (arith, e, found))
          ]

  module _ {A : Type 0} (visit : Dict (Item A) → List (Item A)) (d : DataStore A) (t : Tables) where
    pub get_pre_filtered_data-returns :
        (of_table : TableName) (filters : List Filter)
        → all_safe filters ≡ true
        → (items : List (Item A)) × (get_pre_filtered_data visit d of_table t filters ≡ ok items)
    unfolding get_pre_filtered_data
    get_pre_filtered_data-returns of_table filters safe =
        value (get_pre_filtered_data visit d of_table t filters) (by_table of_table)
      where
        value :
            (r : Result (List (Item A)))
            → returns r ≡ true
            → (items : List (Item A)) × (r ≡ ok items)
        value (ok items) e = (items, refl)
        value (err wrong) e = absurd (cc)

        by_table : (k : TableName) → returns (get_pre_filtered_data visit d k t filters) ≡ true
        by_table hosts =
            let tried =
              try_filter_index_data-returns (hosts_from_host_columns t)
                (hosts_from_host_columns-returns t) visit d hosts filters safe in
            ground (arith, tried)
        by_table services =
            let tried =
              try_filter_index_data-returns (hosts_from_service_columns t)
                (hosts_from_service_columns-returns t) visit d services filters safe in
            ground (arith, tried)
        by_table _ = ground arith
