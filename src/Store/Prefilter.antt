-- ===== src/Store/Prefilter.antt =====
-- Reading only the rows of some hosts: `GetPreFilteredData`, `TryFilterIndex` and what they call in
-- lmd/datastore.go.
pub mod Names
pub mod Groups
pub mod Columns
pub mod Total
pub mod Visited
pub mod Complete
use mathlib.Core.List.{map}
use lampd.Prelude.{
  ℕ, zero, suc, ◌+◌, Bool, true, false, not, ◌&&◌, ◌||◌, Option, none, some, List, [], ◌∷◌, ◌++◌,
  ltb, if◌then◌else◌,
}
use lampd.Prelude.Bytes.{Bytes, codes, ◌=b◌, bytes_lt, trim_suffix}
use lampd.Prelude.Dict.{Dict, lookup}
use lampd.Column.{Column, TableName, hosts, services}
use lampd.Filter.{
  Operator, equal, equal_nocase, regex_match, regex_no_case_match, contains, contains_no_case,
  greater_than, GroupOperator, ungrouped, and, or, Fields, Filter, Filters, filter, nil, cons,
  from_list,
}
use lampd.Filter.Match.{match_string}
use lampd.Platform.{Platform}
use lampd.Store.{Item, DataStore}
use lampd.Result.{Result, ok, err, ◌>>=◌, panic}

-- What the index reads of the other tables of the peer.
pub record Tables : Type 0 where
  -- the keys of tables[TableHosts].Index
  pub host_names : List Bytes
  -- tables[TableHostgroups].Index, with the column members
  pub hostgroups : Dict (List Bytes)
  -- tables[TableServicegroups].Index, with the column members
  pub servicegroups : Dict (List (Bytes × Bytes))

-- The result of one filter in `TryFilterIndex`: it makes the function return false, it is passed
-- over, or it is counted and leaves these host names.
pub data Outcome : Type 0 where
  refused skipped : Outcome
  used : List Bytes → Outcome

abbrev pub or_no_members {ℓ} : {B : Type ℓ} → Option (List B) → List B
or_no_members none = []
or_no_members (some members) = members

abbrev pub first_parts : List (Bytes × Bytes) → List Bytes
first_parts [] = []
first_parts ((host, service) ∷ members) = host ∷ first_parts members

module _ ⦃p : Platform⦄ where
  -- The loops over an index that keep the names, or the members, of what matches.
  unfoldable pub matching_names : Fields → List Bytes → Result (List Bytes)
  unfolding match_string
  matching_names f [] = ok []
  matching_names f (name ∷ names) = do
    b ← match_string f name
    rest ← matching_names f names
    ok (if b then name ∷ rest else rest)

  unfoldable pub matching_members : {B : Type 0} → Fields → Dict (List B) → Result (List B)
  unfolding match_string
  matching_members f [] = ok []
  matching_members f ((name, members) ∷ groups) = do
    b ← match_string f name
    rest ← matching_members f groups
    ok (if b then members ++ rest else rest)

  abbrev pub is_part_operator : Operator → Bool
  is_part_operator regex_match = true
  is_part_operator regex_no_case_match = true
  is_part_operator contains = true
  is_part_operator contains_no_case = true
  is_part_operator _ = false

  abbrev is_equal : Operator → Bool
  is_equal equal = true
  is_equal _ = false

  abbrev is_equal_nocase : Operator → Bool
  is_equal_nocase equal_nocase = true
  is_equal_nocase _ = false

  abbrev is_greater_than : Operator → Bool
  is_greater_than greater_than = true
  is_greater_than _ = false

  -- The switch on the operator for a list of groups.
  unfoldable pub group_hosts :
      {B : Type 0} → (List B → List Bytes) → Dict (List B) → Fields → Result (Option (List Bytes))
  unfolding lookup matching_members
  group_hosts names groups f =
      if is_greater_than f.operator
      then ok (some (names (or_no_members (lookup f.str_value groups))))
      else if is_part_operator f.operator
      then (matching_members f groups >>= λ members. ok (some (names members)))
      else ok none

  -- `appendIndexHostsFromHostColumns`: the hosts that it adds, and `none` for false.
  unfoldable pub hosts_from_host_columns : Tables → Fields → Result (Option (List Bytes))
  unfolding group_hosts trim_suffix
  hosts_from_host_columns t f = elim f.column [
    | none ↦ err panic
    | some c ↦
        let name = trim_suffix (codes "_lc") c.name in
        if name =b codes "name"
        then ok (if is_equal f.operator then some (f.str_value ∷ []) else none)
        else if name =b codes "groups"
        then group_hosts (λ members. members) t.hostgroups f
        else ok none
  ]

  -- `appendIndexHostsFromServiceColumns`
  unfoldable pub hosts_from_service_columns : Tables → Fields → Result (Option (List Bytes))
  unfolding group_hosts matching_names trim_suffix
  hosts_from_service_columns t f = elim f.column [
    | none ↦ err panic
    | some c ↦
        let name = trim_suffix (codes "_lc") c.name in
        if name =b codes "host_name"
        then (if is_equal f.operator
            then ok (some (f.str_value ∷ []))
            else if is_part_operator f.operator || is_equal_nocase f.operator
            then (matching_names f t.host_names >>= λ names. ok (some names))
            else ok none)
        else if name =b codes "host_groups"
        then group_hosts (λ members. members) t.hostgroups f
        else if name =b codes "groups"
        then group_hosts first_parts t.servicegroups f
        else ok none
  ]

  module _ (fn : Fields → Result (Option (List Bytes))) where
    -- The default case of the switch.
    unfoldable pub try_single : Bool → List Bytes → Fields → Result Outcome
    try_single break_on_none uniq_hosts f =
        if f.negate
        then ok refused
        else fn f >>= λ added. elim added [
          | some names ↦ ok (used (uniq_hosts ++ names))
          | none ↦ ok (if break_on_none then refused else skipped)
        ]

    abbrev pub group_outcome : Option (List Bytes) → Outcome
    group_outcome none = refused
    group_outcome (some uniq_hosts) = used uniq_hosts

    unfoldable mutual
      unfolding try_single

      -- `TryFilterIndex`; `none` is false. The map of host names is a list.
      pub try_filters : Bool → List Bytes → ℕ → Filters → Result (Option (List Bytes))
      try_filters break_on_none uniq_hosts found nil =
          ok (if ltb 0 found then some uniq_hosts else none)
      try_filters break_on_none uniq_hosts found (cons f fs) =
          try_one break_on_none uniq_hosts f >>= λ outcome. elim outcome [
            | refused ↦ ok none
            | skipped ↦ try_filters break_on_none uniq_hosts found fs
            | used names ↦ try_filters break_on_none names (found + 1) fs
          ]

      pub try_one : Bool → List Bytes → Filter → Result Outcome
      try_one break_on_none uniq_hosts (filter f fs) =
          let every = try_filters false uniq_hosts 0 fs >>= λ r. ok (group_outcome r) in
          let some_one = try_filters true uniq_hosts 0 fs >>= λ r. ok (group_outcome r) in
          elim f.group_operator [
            | and ↦ if f.negate then ok refused else every
            | or ↦ if f.negate then ok refused else some_one
            | ungrouped ↦ try_single break_on_none uniq_hosts f
          ]

abbrev is_none {ℓ} : {B : Type ℓ} → List B → Bool
is_none [] = true
is_none (x ∷ xs) = false

-- The keys of a map of names, sorted by sort.Strings: each name once.
unfoldable pub insert_name : Bytes → List Bytes → List Bytes
unfolding ◌=b◌ bytes_lt
insert_name n [] = n ∷ []
insert_name n (m ∷ names) =
    let rest = insert_name n names in
    if n =b m then m ∷ names else if bytes_lt n m then n ∷ m ∷ names else m ∷ rest

unfoldable pub sorted_names : List Bytes → List Bytes
unfolding insert_name
sorted_names [] = []
sorted_names (n ∷ names) = insert_name n (sorted_names names)

module _ {A : Type 0} where
  -- The loop for hosts.
  unfoldable pub hosts_of_names : Dict (Item A) → List Bytes → List (Item A)
  unfolding lookup
  hosts_of_names index [] = []
  hosts_of_names index (name ∷ names) =
      let rest = hosts_of_names index names in
      elim (lookup name index) [ none ↦ rest | some item ↦ item ∷ rest ]

  -- The loop for services; `visit` is the order in which a map of services is read.
  unfoldable pub services_of_names :
      (Dict (Item A) → List (Item A)) → Dict (Dict (Item A)) → List Bytes → List (Item A)
  unfolding lookup
  services_of_names visit index2 [] = []
  services_of_names visit index2 (name ∷ names) =
      let rest = services_of_names visit index2 names in
      elim (lookup name index2) [ none ↦ rest | some items ↦ visit items ++ rest ]

  -- `tryFilterIndexData` behind `TryFilterIndex`, on the sorted names.
  unfoldable pub items_of_names :
      (Dict (Item A) → List (Item A)) → DataStore A → TableName → List Bytes → List (Item A)
  unfolding hosts_of_names services_of_names
  items_of_names visit d hosts names =
      if is_none names then d.items else hosts_of_names d.index names
  items_of_names visit d services names =
      if is_none names then d.items else services_of_names visit d.index2 names
  items_of_names visit d _ names = if is_none names then d.items else []

  module _ ⦃p : Platform⦄ where
    -- `tryFilterIndexData`
    unfoldable pub try_filter_index_data :
        (Dict (Item A) → List (Item A))
        → DataStore A
        → TableName
        → (Fields → Result (Option (List Bytes)))
        → List Filter
        → Result (List (Item A))
    unfolding try_filters sorted_names items_of_names
    try_filter_index_data visit d table fn filters =
        try_filters fn false [] 0 (from_list filters) >>= λ r. elim r [
          | none ↦ ok d.items
          | some names ↦ ok (items_of_names visit d table (sorted_names names))
        ]

    -- `GetPreFilteredData` of the store of a table.
    unfoldable pub get_pre_filtered_data :
        (Dict (Item A) → List (Item A))
        → DataStore A
        → TableName
        → Tables
        → List Filter
        → Result (List (Item A))
    unfolding try_filter_index_data hosts_from_host_columns hosts_from_service_columns
    get_pre_filtered_data visit d hosts t filters =
        if is_none filters
        then ok d.items
        else try_filter_index_data visit d hosts (hosts_from_host_columns t) filters
    get_pre_filtered_data visit d services t filters =
        if is_none filters
        then ok d.items
        else try_filter_index_data visit d services (hosts_from_service_columns t) filters
    get_pre_filtered_data visit d _ t filters = ok d.items
