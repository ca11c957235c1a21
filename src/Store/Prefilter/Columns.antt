-- ===== src/Store/Prefilter/Columns.antt =====
-- The filters on the columns of hosts and services that `TryFilterIndex` counts
-- (lmd/datastore.go) give a set of hosts that holds the host of each row that they match.
use lampd.Prelude.{
  ◌≡◌, refl, sym, ap, ◌∙◌, inl, inr, Bool, not, if◌then◌else◌, true, false, some, List, [], ◌∷◌,
  ◌++◌, arith, Bool-cases, Option-cases,
}
use lampd.Prelude.Bytes.{Bytes, codes, ◌=b◌, =b_iff, to_lower, trim_suffix}
use lampd.Prelude.Dict.{Dict}
use lampd.Column.{Column, string_col, string_list_col}
use lampd.Filter.{
  Operator, equal, equal_nocase, regex_match, regex_no_case_match, contains, contains_no_case,
  Fields,
}
use lampd.Filter.Match.{
  Row, match_string, match_string_op, match_string_list, match_type, match_column, match_single,
}
use lampd.Platform.{Platform}
use lampd.Store.Prefilter.{
  Tables, hosts_from_host_columns, hosts_from_service_columns, matching_names, first_parts,
}
use lampd.Store.Prefilter.Names.{is_in, is_on}
use lampd.Store.Prefilter.Groups.{AreGroupsOf, group_hosts-finds, matching_names-finds}
use lampd.Result.{ok, ◌>>=◌, Result-cases}

-- A column of this name, or the lower case column of it.
abbrev pub IsNamed : Bytes → Column → Type 0
IsNamed name c = trim_suffix (codes "_lc") c.name ≡ name

-- A lower case column: its name ends in "_lc".
abbrev pub is_lower : Column → Bool
is_lower c = not (trim_suffix (codes "_lc") c.name =b c.name)

-- The index holds the names as they are, so it serves a lower case column among the columns of `has`
-- only for a host whose name is in lower case.
abbrev pub FindsLower : (Column → Bool) → Bytes → Bytes → Type 0
FindsLower has host name =
    (c : Column) → has c ≡ true → IsNamed name c → is_lower c ≡ true → to_lower host ≡ host

first_parts-append :
    (xs ys : List (Bytes × Bytes)) → first_parts (xs ++ ys) ≡ first_parts xs ++ first_parts ys
first_parts-append [] ys = refl
first_parts-append ((host, service) ∷ xs) ys = ap (◌∷◌ host) (first_parts-append xs ys)

module _ ⦃p : Platform⦄ (has : Column → Bool) (t : Tables) (row : Row) (host : Bytes) where
  -- A text column that holds the name of the row's host, in lower case if it is a lower case column,
  -- and that the peer has.
  pub record HoldsHost (c : Column) : Type 0 where
    pub text : c.data_type ≡ string_col
    pub flag : row.peer_has_flag c.optional ≡ true
    pub same : row.get_string c ≡ (if is_lower c then to_lower host else host)

  -- A list column that holds groups of the row, as the group table knows them.
  pub record HoldsGroups {B : Type 0} (names : List B → List Bytes) (groups : Dict (List B))
      (c : Column) : Type 0 where
    pub texts : c.data_type ≡ string_list_col
    pub flag : row.peer_has_flag c.optional ≡ true
    pub members : AreGroupsOf names groups host (row.get_string_list c)

  -- A row of the table hosts agrees with the other tables: in the columns of
  -- `has`, its name is the one that the index has, and its groups have it as a member.
  pub record IsHostRow : Type 0 where
    pub named : (c : Column) → has c ≡ true → IsNamed (codes "name") c → HoldsHost c
    pub grouped :
        (c : Column)
        → has c ≡ true
        → IsNamed (codes "groups") c
        → HoldsGroups (λ members. members) t.hostgroups c

  -- A row of the table services agrees with the other tables.
  pub record IsServiceRow : Type 0 where
    pub known : is_in host t.host_names ≡ true
    pub named : (c : Column) → has c ≡ true → IsNamed (codes "host_name") c → HoldsHost c
    pub host_grouped :
        (c : Column)
        → has c ≡ true
        → IsNamed (codes "host_groups") c
        → HoldsGroups (λ members. members) t.hostgroups c
    pub grouped :
        (c : Column)
        → has c ≡ true
        → IsNamed (codes "groups") c
        → HoldsGroups first_parts t.servicegroups c

  match_single-own :
      (f : Fields) (empty_column c : Column)
      → f.negate ≡ false
      → f.column ≡ some c
      → row.peer_has_flag c.optional ≡ true
      → match_single (row, empty_column) f ≡ match_type c.data_type row f c
  unfolding match_single match_column
  match_single-own f empty_column c positive found flag = ground (arith, positive, found, flag)

  on_host :
      (f : Fields) (empty_column c : Column)
      → f.negate ≡ false
      → f.column ≡ some c
      → HoldsHost c
      → (is_lower c ≡ true → to_lower host ≡ host)
      → match_single (row, empty_column) f ≡ ok true
      → match_string f host ≡ ok true
  unfolding match_type
  on_host f empty_column c positive found holds lower h =
      ap (match_string f) (sym (holds.same ∙ by_case (is_lower c) lower))
      ∙ ap (λ t. match_type t row f c) (sym holds.text)
      ∙ sym (match_single-own f empty_column c positive found holds.flag)
      ∙ h
    where
      by_case :
          (b : Bool)
          → (b ≡ true → to_lower host ≡ host)
          → (if b then to_lower host else host) ≡ host
      by_case true e = e refl
      by_case false e = refl

  on_groups :
      {B : Type 0} (names : List B → List Bytes) (groups : Dict (List B)) (f : Fields)
      (empty_column c : Column)
      → f.negate ≡ false
      → f.column ≡ some c
      → HoldsGroups names groups c
      → match_single (row, empty_column) f ≡ ok true
      → match_string_list f (row.get_string_list c) ≡ ok true
  unfolding match_type
  on_groups names groups f empty_column c positive found holds h =
      ap (λ t. match_type t row f c) (sym holds.texts)
      ∙ sym (match_single-own f empty_column c positive found holds.flag)
      ∙ h

  equal-is_in :
      (f : Fields)
      → f.operator ≡ equal
      → match_string f host ≡ ok true
      → is_in host (f.str_value ∷ []) ≡ true
  unfolding match_string match_string_op is_in
  equal-is_in f e h = ground (arith, e, h, =b_iff host f.str_value, =b_iff f.str_value host)

  pub hosts_from_host_columns-finds :
      (empty_column : Column)
      → IsHostRow
      → FindsLower has host (codes "name")
      → (f : Fields) (found : List Bytes) → is_on has f ≡ true
      → f.negate ≡ false
      → hosts_from_host_columns t f ≡ ok (some found)
      → match_single (row, empty_column) f ≡ ok true
      → is_in host found ≡ true
  unfolding hosts_from_host_columns
  hosts_from_host_columns-finds empty_column good lower f found own positive h matches =
      elim (Option-cases f.column) [
        | inl e ↦ absurd (ground (arith, e))
        | inr (c, e) ↦
            let name = trim_suffix (codes "_lc") c.name in
            elim (Bool-cases (name =b codes "name")) [
              | inl is_name ↦
                  let named = (=b_iff name (codes "name")).0 is_name in
                  let text =
                    on_host f empty_column c positive e (good.named c (own_column c e) named)
                      (lower c (own_column c e) named) matches in
                  equal_name c e is_name h text
              | inr no_name ↦ elim (Bool-cases (name =b codes "groups")) [
                | inl is_groups ↦
                    let named = (=b_iff name (codes "groups")).0 is_groups in
                    let holds = good.grouped c (own_column c e) named in
                    let list =
                      on_groups (λ members. members) t.hostgroups f empty_column c positive e holds
                        matches in
                    group_hosts-finds (λ members. members) (λ xs ys. refl) t.hostgroups host f
                      (row.get_string_list c) found holds.members
                      (ground (arith, e, no_name, is_groups)) list
                | inr no_groups ↦ absurd (ground (arith, e, no_name, no_groups))
              ]
            ]
      ]
    where
      own_column : (c : Column) → f.column ≡ some c → has c ≡ true
      own_column c e = ground (arith, e, own)

      equal_name :
          (c : Column)
          → f.column ≡ some c
          → (trim_suffix (codes "_lc") c.name =b codes "name") ≡ true
          → hosts_from_host_columns t f ≡ ok (some found)
          → match_string f host ≡ ok true
          → is_in host found ≡ true
      equal_name c e is_name h text = split f.operator refl
        where
          split : (op : Operator) → f.operator ≡ op → is_in host found ≡ true
          split equal o = let held = equal-is_in f o text in ground (arith, e, is_name, o, held)
          split _ o = absurd (ground (arith, e, is_name, o))

  pub hosts_from_service_columns-finds :
      (empty_column : Column)
      → IsServiceRow
      → FindsLower has host (codes "host_name")
      → (f : Fields) (found : List Bytes) → is_on has f ≡ true
      → f.negate ≡ false
      → hosts_from_service_columns t f ≡ ok (some found)
      → match_single (row, empty_column) f ≡ ok true
      → is_in host found ≡ true
  unfolding hosts_from_service_columns
  hosts_from_service_columns-finds empty_column good lower f found own positive h matches =
      elim (Option-cases f.column) [
        | inl e ↦ absurd (ground (arith, e))
        | inr (c, e) ↦
            let name = trim_suffix (codes "_lc") c.name in
            elim (Bool-cases (name =b codes "host_name")) [
              | inl is_name ↦
                  let named = (=b_iff name (codes "host_name")).0 is_name in
                  let text =
                    on_host f empty_column c positive e (good.named c (own_column c e) named)
                      (lower c (own_column c e) named) matches in
                  by_name c e is_name h text
              | inr no_name ↦ elim (Bool-cases (name =b codes "host_groups")) [
                | inl is_groups ↦
                    let named = (=b_iff name (codes "host_groups")).0 is_groups in
                    let holds = good.host_grouped c (own_column c e) named in
                    let list =
                      on_groups (λ members. members) t.hostgroups f empty_column c positive e holds
                        matches in
                    group_hosts-finds (λ members. members) (λ xs ys. refl) t.hostgroups host f
                      (row.get_string_list c) found holds.members
                      (ground (arith, e, no_name, is_groups)) list
                | inr no_groups ↦ elim (Bool-cases (name =b codes "groups")) [
                  | inl is_own ↦
                      let named = (=b_iff name (codes "groups")).0 is_own in
                      let holds = good.grouped c (own_column c e) named in
                      let list =
                        on_groups first_parts t.servicegroups f empty_column c positive e holds
                          matches in
                      group_hosts-finds first_parts first_parts-append t.servicegroups host f
                        (row.get_string_list c) found holds.members
                        (ground (arith, e, no_name, no_groups, is_own)) list
                  | inr no_own ↦ absurd (ground (arith, e, no_name, no_groups, no_own))
                ]
              ]
            ]
      ]
    where
      own_column : (c : Column) → f.column ≡ some c → has c ≡ true
      own_column c e = ground (arith, e, own)

      by_name :
          (c : Column)
          → f.column ≡ some c
          → (trim_suffix (codes "_lc") c.name =b codes "host_name") ≡ true
          → hosts_from_service_columns t f ≡ ok (some found)
          → match_string f host ≡ ok true
          → is_in host found ≡ true
      by_name c e is_name h text = split f.operator refl
        where
          some_names :
              matching_names f t.host_names >>= (λ names. ok (some names)) ≡ ok (some found)
              → is_in host found ≡ true
          some_names h' = elim (Result-cases (matching_names f t.host_names)) [
            | inl (names, e') ↦
                let held = matching_names-finds f t.host_names names host good.known text e' in
                ground (arith, e', held)
            | inr (wrong, e') ↦ absurd (ground (arith, e'))
          ]

          split : (op : Operator) → f.operator ≡ op → is_in host found ≡ true
          split equal o = let held = equal-is_in f o text in ground (arith, e, is_name, o, held)
          split equal_nocase o = some_names (ground (arith, e, is_name, o))
          split regex_match o = some_names (ground (arith, e, is_name, o))
          split regex_no_case_match o = some_names (ground (arith, e, is_name, o))
          split contains o = some_names (ground (arith, e, is_name, o))
          split contains_no_case o = some_names (ground (arith, e, is_name, o))
          split _ o = absurd (ground (arith, e, is_name, o))
