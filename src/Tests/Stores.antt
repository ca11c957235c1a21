-- ===== src/Tests/Stores.antt =====
-- Runs of the model of the data store.
use lampd.Prelude.{
  ℕ, ◌≡◌, refl, sym, ap, ◌∙◌, inl, inr, Bool, true, false, ◌&&◌, none, some, List, [], ◌∷◌, map,
  arith, Bool-cases, not, if◌then◌else◌,
}
use lampd.Prelude.Bytes.{Bytes, codes, ◌=b◌, =b_iff, to_lower, trim_suffix}
use lampd.Prelude.Dict.{Dict, lookup}
use lampd.Column.{Column, DataType, string_col, hosts, services}
use lampd.Filter.{Filter, filter, nil, equal, from_list}
use lampd.Filter.Match.{Row, match_filter}
use lampd.Filter.Group.Meaning.{match_all}
use lampd.Filter.Group.Safe.{all_safe}
use lampd.Store.{Item, DataStore, remove_item, insert_data, cut_item}
use lampd.Store.Index.{
  last_item, IsIndexed, IsDistinct, insert_data-IsIndexed, remove_item-IsIndexed,
}
use lampd.Store.Held.{Holds}
use lampd.Store.Prefilter.{Tables, get_pre_filtered_data}
use lampd.Store.Prefilter.Names.{is_in, are_from}
use lampd.Store.Prefilter.Columns.{FindsLower, IsHostRow, IsServiceRow, is_lower}
use lampd.Store.Prefilter.Complete.{get_pre_filtered_data-hosts, get_pre_filtered_data-services}
use lampd.Result.{ok}
use lampd.Tests.Data.{integers, row_of, name_column, fields_for}

abbrev plain : ℕ → Bytes → Item ℕ
plain ref name = record { ref = ref; id1 = name; id2 = []; row = 0 }

abbrev two_hosts : List (Item ℕ)
two_hosts = plain 1 (codes "web") ∷ plain 2 (codes "db") ∷ []

abbrev old_store : DataStore ℕ
old_store = record {
  keys = 1;
  items = plain 7 (codes "old") ∷ [];
  index = (codes "old", plain 7 (codes "old")) ∷ [];
  index2 = [];
}

insert_data-IsIndexed_example :
    (d' : DataStore ℕ) × (insert_data old_store (map ok two_hosts) ≡ ok (d', none))
    × IsIndexed d'
    × (d'.items ≡ two_hosts)
insert_data-IsIndexed_example = insert_data-IsIndexed old_store two_hosts refl

old_store-IsIndexed : IsIndexed old_store
unfolding lookup last_item
old_store-IsIndexed k = refl

old_store-cut : cut_item 7 old_store.items ≡ some []
unfolding cut_item
old_store-cut = refl

old_store-IsDistinct : IsDistinct old_store.items
unfolding last_item
old_store-IsDistinct = (refl, tt)

remove_item-IsIndexed_example :
    (d' : DataStore ℕ) × (remove_item old_store (plain 7 (codes "old")) ≡ ok d')
    × IsIndexed d'
    × (d'.items ≡ [])
    × (d'.keys ≡ 1)
remove_item-IsIndexed_example =
    remove_item-IsIndexed old_store (plain 7 (codes "old")) [] refl old_store-IsIndexed
      old_store-IsDistinct ((λ e. refl), tt) old_store-cut

-- The text columns of a name.
abbrev is_text : DataType → Bool
is_text string_col = true
is_text _ = false

abbrev has_only : Bytes → Column → Bool
has_only name c = is_text c.data_type && c.name =b name

is_text-string : (k : DataType) → is_text k ≡ true → k ≡ string_col
is_text-string string_col e = refl
is_text-string _ e = absurd (cc)

not_named :
    (own other : Bytes) (c : Column)
    → has_only own c ≡ true
    → trim_suffix (codes "_lc") c.name ≡ other
    → trim_suffix (codes "_lc") own ≡ other
not_named own other c h named =
    let same = (=b_iff c.name own).0 (ground (arith, h)) in
    ap (trim_suffix (codes "_lc")) (sym same) ∙ named

-- The column is no lower case column.
not_lower :
    (own : Bytes) (c : Column)
    → (trim_suffix (codes "_lc") own =b own) ≡ true
    → has_only own c ≡ true
    → is_lower c ≡ false
not_lower own c e h =
    let same = (=b_iff c.name own).0 (ground (arith, h)) in
    ap (λ n. not (trim_suffix (codes "_lc") n =b n)) same ∙ ap not e

finds_lower :
    (own : Bytes) {host name : Bytes}
    → (trim_suffix (codes "_lc") own =b own) ≡ true
    → FindsLower (has_only own) host name
finds_lower own e c h named lower = absurd (ground (arith, not_lower own c e h, lower))

abbrev no_groups : Tables
no_groups = record { host_names = codes "Web" ∷ []; hostgroups = []; servicegroups = [] }

web_row-IsHostRow :
    IsHostRow (has_only (codes "name")) no_groups (row_of (codes "Web")) (codes "Web")
unfolding trim_suffix ◌=b◌
web_row-IsHostRow = record {
  named = λ c h e. record {
    text = is_text-string c.data_type (ground (arith, h));
    flag = refl;
    same = shown c h;
  };
  grouped = λ c h e. absurd (differ (not_named (codes "name") (codes "groups") c h e));
}
  where
    shown :
        (c : Column)
        → has_only (codes "name") c ≡ true
        → codes "Web" ≡ (if is_lower c then to_lower (codes "Web") else codes "Web")
    shown c h =
        ap (λ b. if b then to_lower (codes "Web") else codes "Web")
          (sym (not_lower (codes "name") c refl h))

    differ : trim_suffix (codes "_lc") (codes "name") ≡ codes "groups" → ⊥
    differ e = cc

abbrev web_host : Item Row
web_host = record { ref = 1; id1 = codes "Web"; id2 = []; row = row_of (codes "Web") }

abbrev host_store : DataStore Row
host_store = record {
  keys = 1;
  items = web_host ∷ [];
  index = (codes "Web", web_host) ∷ [];
  index2 = [];
}

host_store-IsIndexed : IsIndexed host_store
unfolding lookup last_item
host_store-IsIndexed k = refl

host_store-IsDistinct : IsDistinct host_store.items
unfolding last_item
host_store-IsDistinct = (refl, tt)

abbrev by_name : Bytes → List Filter
by_name column =
    filter
      (record (fields_for equal (codes "Web")) {
        column = some (record name_column { name = column });
      })
      nil
    ∷ []

by_name-all_safe : (column : Bytes) → all_safe (by_name column) ≡ true
unfolding all_safe
by_name-all_safe column = refl

by_name-match_all :
    (column : Bytes) → match_all (row_of (codes "Web"), name_column) (by_name column) ≡ ok true
unfolding match_all match_filter ◌=b◌
by_name-match_all column = refl

by_name-are_from : are_from (has_only (codes "name")) (from_list (by_name (codes "name"))) ≡ true
unfolding are_from ◌=b◌
by_name-are_from = refl

abbrev values : Dict (Item Row) → List (Item Row)
values [] = []
values ((k, x) ∷ m) = x ∷ values m

get_pre_filtered_data-hosts_example :
    (items : List (Item Row)) × (get_pre_filtered_data values host_store hosts no_groups
        (by_name (codes "name"))
      ≡ ok items)
    × Holds items web_host
unfolding ◌=b◌ trim_suffix
get_pre_filtered_data-hosts_example =
    get_pre_filtered_data-hosts (has_only (codes "name")) values host_store no_groups name_column
      (by_name (codes "name")) web_host (by_name-all_safe (codes "name")) host_store-IsIndexed
      host_store-IsDistinct web_row-IsHostRow (finds_lower (codes "name") refl) (inl refl)
      by_name-are_from (by_name-match_all (codes "name"))

-- The service http of the host web
abbrev web_service : Item Row
web_service = record { ref = 1; id1 = codes "Web"; id2 = codes "http"; row = row_of (codes "Web") }

abbrev service_store : DataStore Row
service_store = record {
  keys = 2;
  items = web_service ∷ [];
  index = [];
  index2 = (codes "Web", (codes "http", web_service) ∷ []) ∷ [];
}

web_row-IsServiceRow :
    IsServiceRow (has_only (codes "host_name")) no_groups (row_of (codes "Web")) (codes "Web")
unfolding trim_suffix is_in ◌=b◌
web_row-IsServiceRow = record {
  known = refl;
  named = λ c h e. record {
    text = is_text-string c.data_type (ground (arith, h));
    flag = refl;
    same = shown c h;
  };
  host_grouped =
      λ c h e. absurd (differ_host (not_named (codes "host_name") (codes "host_groups") c h e));
  grouped = λ c h e. absurd (differ (not_named (codes "host_name") (codes "groups") c h e));
}
  where
    shown :
        (c : Column)
        → has_only (codes "host_name") c ≡ true
        → codes "Web" ≡ (if is_lower c then to_lower (codes "Web") else codes "Web")
    shown c h =
        ap (λ b. if b then to_lower (codes "Web") else codes "Web")
          (sym (not_lower (codes "host_name") c refl h))

    differ : trim_suffix (codes "_lc") (codes "host_name") ≡ codes "groups" → ⊥
    differ e = cc

    differ_host : trim_suffix (codes "_lc") (codes "host_name") ≡ codes "host_groups" → ⊥
    differ_host e = cc

service_store-lookup :
    lookup (codes "Web") service_store.index2 ≡ some ((codes "http", web_service) ∷ [])
unfolding lookup ◌=b◌
service_store-lookup = refl

web_services-lookup :
    lookup {A = Item Row} (codes "http") ((codes "http", web_service) ∷ []) ≡ some web_service
unfolding lookup ◌=b◌
web_services-lookup = refl

by_host_name-are_from :
    are_from (has_only (codes "host_name")) (from_list (by_name (codes "host_name"))) ≡ true
unfolding are_from ◌=b◌
by_host_name-are_from = refl

values-Holds :
    (m : Dict (Item Row)) (k : Bytes) (x : Item Row) → lookup k m ≡ some x → Holds (values m) x
unfolding lookup
values-Holds [] k x e = absurd (cc)
values-Holds ((j, y) ∷ m) k x e = elim (Bool-cases (j =b k)) [
  | inl here ↦ inl (ground (arith, here, e))
  | inr other ↦ inr (values-Holds m k x (ground (arith, other, e)))
]

get_pre_filtered_data-services_example :
    (items : List (Item Row)) × (get_pre_filtered_data values service_store services no_groups
        (by_name (codes "host_name"))
      ≡ ok items)
    × Holds items web_service
unfolding ◌=b◌ trim_suffix
get_pre_filtered_data-services_example =
    get_pre_filtered_data-services (has_only (codes "host_name")) values service_store no_groups
      name_column (by_name (codes "host_name")) values-Holds web_service
      ((codes "http", web_service) ∷ []) (by_name-all_safe (codes "host_name")) service_store-lookup
      web_services-lookup web_row-IsServiceRow (finds_lower (codes "host_name") refl) (inl refl)
      by_host_name-are_from (by_name-match_all (codes "host_name"))
