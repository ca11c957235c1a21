-- ===== src/Store/Prefilter/Complete.antt =====
-- `GetPreFilteredData` (lmd/datastore.go) drops no row that the filters select.
use mathlib.Core.Path.{subst}
use lampd.Prelude.{
  ◌≡◌, ◌∙◌, ◌⊎◌, inl, inr, Bool, true, false, Option, none, some, List, [], ◌∷◌, arith,
}
use lampd.Prelude.Bytes.{Bytes, codes}
use lampd.Prelude.Dict.{Dict, lookup}
use lampd.Column.{Column, TableName, hosts, services}
use lampd.Filter.{Filter, Fields, from_list}
use lampd.Filter.Match.{Row}
use lampd.Filter.Group.Meaning.{match_all, match_and-from_list}
use lampd.Platform.{Platform}
use lampd.Store.{Item, DataStore}
use lampd.Store.Index.{IsIndexed, IsDistinct}
use lampd.Store.Held.{Holds, last_item-Holds}
use lampd.Store.Prefilter.{
  Tables, hosts_from_host_columns, hosts_from_service_columns, try_filters, sorted_names,
  items_of_names, try_filter_index_data, get_pre_filtered_data,
}
use lampd.Store.Prefilter.Names.{is_in, are_from, try_filters-finds}
use lampd.Filter.Group.Safe.{all_safe}
use lampd.Store.Prefilter.Total.{get_pre_filtered_data-returns}
use lampd.Store.Prefilter.Columns.{
  FindsLower, IsHostRow, IsServiceRow, hosts_from_host_columns-finds,
  hosts_from_service_columns-finds,
}
use lampd.Result.{Result, ok, Result-cases}
use lampd.Store.Prefilter.Visited.{
  is_in-sorted_names, hosts_of_names-Holds, services_of_names-Holds,
}

module _ ⦃p : Platform⦄ (has : Column → Bool) (visit : Dict (Item Row) → List (Item Row))
    (d : DataStore Row) (t : Tables) (empty_column : Column) (filters : List Filter) where
  try_filter_index_data_inv :
      (of_table : TableName) (fn : Fields → Result (Option (List Bytes))) (items : List (Item Row))
      → try_filter_index_data visit d of_table fn filters ≡ ok items
      → (d.items ≡ items)
        ⊎ ((names : List Bytes) × (try_filters fn false [] 0 (from_list filters) ≡ ok (some names))
            × (items_of_names visit d of_table (sorted_names names) ≡ items))
  unfolding try_filter_index_data
  try_filter_index_data_inv of_table fn items h =
      elim (Result-cases (try_filters fn false [] 0 (from_list filters))) [
        | inl (none, e) ↦ inl (ground (arith, e))
        | inl (some names, e) ↦ inr (names, e, ground (arith, e))
        | inr (wrong, e) ↦ absurd (ground (arith, e))
      ]

  hosts_inv :
      (items : List (Item Row))
      → get_pre_filtered_data visit d hosts t filters ≡ ok items
      → (d.items ≡ items)
        ⊎ (try_filter_index_data visit d hosts (hosts_from_host_columns t) filters ≡ ok items)
  unfolding get_pre_filtered_data
  hosts_inv items h = split filters h
    where
      split :
          (fs : List Filter)
          → get_pre_filtered_data visit d hosts t fs ≡ ok items
          → (d.items ≡ items)
            ⊎ (try_filter_index_data visit d hosts (hosts_from_host_columns t) fs ≡ ok items)
      split [] e = inl (cc)
      split (f ∷ fs) e = inr e

  services_inv :
      (items : List (Item Row))
      → get_pre_filtered_data visit d services t filters ≡ ok items
      → (d.items ≡ items)
        ⊎ (try_filter_index_data visit d services (hosts_from_service_columns t) filters ≡ ok items)
  unfolding get_pre_filtered_data
  services_inv items h = split filters h
    where
      split :
          (fs : List Filter)
          → get_pre_filtered_data visit d services t fs ≡ ok items
          → (d.items ≡ items)
            ⊎ (try_filter_index_data visit d services (hosts_from_service_columns t) fs ≡ ok items)
      split [] e = inl (cc)
      split (f ∷ fs) e = inr e

  names-Holds :
      (of_table : TableName) (names : List Bytes) (x : Item Row) (items : List (Item Row))
      → Holds d.items x
      → ((names : List Bytes)
          → is_in x.id1 names ≡ true
          → Holds (items_of_names visit d of_table names) x)
      → is_in x.id1 names ≡ true
      → items_of_names visit d of_table (sorted_names names) ≡ items
      → Holds items x
  names-Holds of_table names x items held by_names here e =
      subst (λ l. Holds l x) e
        (by_names (sorted_names names) (is_in-sorted_names x.id1 names ∙ here))

  items_of_names-hosts :
      (x : Item Row) (names : List Bytes)
      → lookup x.id1 d.index ≡ some x
      → is_in x.id1 names ≡ true
      → Holds (items_of_names visit d hosts names) x
  unfolding items_of_names is_in
  items_of_names-hosts x [] found here = absurd (cc)
  items_of_names-hosts x (n ∷ names) found here =
      hosts_of_names-Holds d.index (n ∷ names) x found here

  host_found :
      (x : Item Row) (items : List (Item Row))
      → IsIndexed d
      → IsDistinct d.items
      → IsHostRow has t x.row x.id1
      → FindsLower has x.id1 (codes "name")
      → Holds d.items x
      → are_from has (from_list filters) ≡ true
      → match_all (x.row, empty_column) filters ≡ ok true
      → get_pre_filtered_data visit d hosts t filters ≡ ok items
      → Holds items x
  host_found x items indexed distinct good lower held own matches h = elim (hosts_inv items h) [
    | inl e ↦ subst (λ l. Holds l x) e held
    | inr h' ↦ elim (try_filter_index_data_inv hosts (hosts_from_host_columns t) items h') [
      | inl e ↦ subst (λ l. Holds l x) e held
      | inr (names, e, e') ↦
          let found = indexed x.id1 ∙ last_item-Holds d.items x distinct held in
          let here =
            try_filters-finds has (x.row, empty_column) x.id1 (hosts_from_host_columns t)
              (hosts_from_host_columns-finds has t x.row x.id1 empty_column good lower)
              (from_list filters) names e own
              (match_and-from_list (x.row, empty_column) filters ∙ matches) in
          names-Holds hosts names x items held (λ ns i. items_of_names-hosts x ns found i) here e'
    ]
  ]

  module _
      (visit-Holds : (m : Dict (Item Row)) (k : Bytes) (x : Item Row)
        → lookup k m ≡ some x
        → Holds (visit m) x) where
    items_of_names-services :
        (x : Item Row) (m : Dict (Item Row)) (names : List Bytes)
        → lookup x.id1 d.index2 ≡ some m
        → lookup x.id2 m ≡ some x
        → is_in x.id1 names ≡ true
        → Holds (items_of_names visit d services names) x
    unfolding items_of_names is_in
    items_of_names-services x m [] found inner here = absurd (cc)
    items_of_names-services x m (n ∷ names) found inner here =
        services_of_names-Holds visit visit-Holds d.index2 (n ∷ names) x m found inner here

    service_found :
        (x : Item Row) (m : Dict (Item Row)) (items : List (Item Row))
        → lookup x.id1 d.index2 ≡ some m
        → lookup x.id2 m ≡ some x
        → IsServiceRow has t x.row x.id1
        → FindsLower has x.id1 (codes "host_name")
        → Holds d.items x
        → are_from has (from_list filters) ≡ true
        → match_all (x.row, empty_column) filters ≡ ok true
        → get_pre_filtered_data visit d services t filters ≡ ok items
        → Holds items x
    service_found x m items found inner good lower held own matches h =
        elim (services_inv items h) [
          | inl e ↦ subst (λ l. Holds l x) e held
          | inr h' ↦
              elim (try_filter_index_data_inv services (hosts_from_service_columns t) items h') [
                | inl e ↦ subst (λ l. Holds l x) e held
                | inr (names, e, e') ↦
                    let here =
                      try_filters-finds has (x.row, empty_column) x.id1
                        (hosts_from_service_columns t)
                        (hosts_from_service_columns-finds has t x.row x.id1 empty_column good lower)
                        (from_list filters) names e own
                        (match_and-from_list (x.row, empty_column) filters ∙ matches) in
                    names-Holds services names x items held
                      (λ ns i. items_of_names-services x m ns found inner i) here e'
              ]
        ]

    -- Suppose that reading a map of services visits every entry, the index of the store of services
    -- finds a row, the row agrees with the host and group tables in the columns of `has`, and its
    -- host's name is in lower case if one of these is the lower case column of that name. When the
    -- filters, all of them safe to match and on columns of `has`, select this row of the store, then
    -- `GetPreFilteredData` does not panic and returns this row.
    pub get_pre_filtered_data-services :
        (x : Item Row) (m : Dict (Item Row))
        → all_safe filters ≡ true
        → lookup x.id1 d.index2 ≡ some m
        → lookup x.id2 m ≡ some x
        → IsServiceRow has t x.row x.id1
        → FindsLower has x.id1 (codes "host_name")
        → Holds d.items x
        → are_from has (from_list filters) ≡ true
        → match_all (x.row, empty_column) filters ≡ ok true
        → (items : List (Item Row)) × (get_pre_filtered_data visit d services t filters ≡ ok items)
          × Holds items x
    get_pre_filtered_data-services x m safe found inner good lower held own matches =
        let (items, e) = get_pre_filtered_data-returns visit d t services filters safe in
        (items, e, service_found x m items found inner good lower held own matches e)

  -- Suppose that the index of the store of hosts finds its rows, which have different names, that a
  -- row agrees with the group tables in the columns of `has`, and that its name is in lower case if
  -- one of these is the lower case column of the name. When the filters, all of them safe to match and
  -- on columns of `has`, select this row of the store, then `GetPreFilteredData` does not panic and
  -- returns this row.
  pub get_pre_filtered_data-hosts :
      (x : Item Row)
      → all_safe filters ≡ true
      → IsIndexed d
      → IsDistinct d.items
      → IsHostRow has t x.row x.id1
      → FindsLower has x.id1 (codes "name")
      → Holds d.items x
      → are_from has (from_list filters) ≡ true
      → match_all (x.row, empty_column) filters ≡ ok true
      → (items : List (Item Row)) × (get_pre_filtered_data visit d hosts t filters ≡ ok items)
        × Holds items x
  get_pre_filtered_data-hosts x safe indexed distinct good lower held own matches =
      let (items, e) = get_pre_filtered_data-returns visit d t hosts filters safe in
      (items, e, host_found x items indexed distinct good lower held own matches e)
