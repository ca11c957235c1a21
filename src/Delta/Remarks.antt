-- ===== src/Delta/Remarks.antt =====
-- `buildDowntimeCommentsList` (lmd/datastoreset.go): the lists of comments or of downtimes that the
-- hosts and the services hold.
pub mod Owners
use lampd.Prelude.{
  ℕ, Bool, true, false, Option, none, some, List, [], ◌∷◌, ◌++◌, map, ◌==◌, if◌then◌else◌,
}
use lampd.Prelude.Int.{ℤ}
use lampd.Prelude.Bytes.{Bytes, ◌=b◌}
use lampd.Prelude.Dict.{Dict, lookup}
use lampd.Store.{Item, DataStore, lookup2}
use lampd.Result.{Result, ok, err, panic}

-- A row of the table comments or downtimes.
pub record Remark : Type 0 where
  pub id : ℤ
  pub host_name : Bytes
  pub service_description : Bytes

-- The `*DataRow` of the object of a remark: nil, or a row of hosts or of services by its address.
pub data Owner : Type 0 where
  missing : Owner
  host : ℕ → Owner
  service : ℕ → Owner

abbrev pub is_same : Owner → Owner → Bool
is_same missing missing = true
is_same (host a) (host b) = a == b
is_same (service a) (service b) = a == b
is_same a b = false

-- The hosts and the services of a peer. The row of an item is its list of ids.
pub record Objects : Type 0 where
  pub hosts : DataStore (List ℤ)
  pub services : DataStore (List ℤ)

abbrev pub as_host : Option (Item (List ℤ)) → Owner
as_host none = missing
as_host (some x) = host x.ref

abbrev pub as_service : Option (Item (List ℤ)) → Owner
as_service none = missing
as_service (some x) = service x.ref

-- obj
unfoldable pub owner : Objects → Remark → Owner
unfolding lookup lookup2
owner o r =
    if r.service_description =b []
    then as_host (lookup r.host_name o.hosts.index)
    else as_service (lookup2 r.host_name r.service_description o.services.index2)

-- list[obj] = append(list[obj], id)
unfoldable pub append_id : Owner → ℤ → List (Owner × List ℤ) → List (Owner × List ℤ)
append_id k id [] = (k, id ∷ []) ∷ []
append_id k id ((j, ids) ∷ lists) =
    let rest = append_id k id lists in
    if is_same j k then (j, ids ++ id ∷ []) ∷ lists else (j, ids) ∷ rest

-- The loop over the remarks.
unfoldable pub collect_ids : Objects → List Remark → List (Owner × List ℤ) → List (Owner × List ℤ)
unfolding owner append_id
collect_ids o [] lists = lists
collect_ids o (r ∷ remarks) lists = collect_ids o remarks (append_id (owner o r) r.id lists)

-- d.dataInt64List[idx] = ids, for the row at an address.
unfoldable pub set_ids : ℕ → List ℤ → List (Item (List ℤ)) → List (Item (List ℤ))
set_ids ref ids items = map (λ x. if x.ref == ref then record x { row = ids } else x) items

-- The last loop; a nil row panics.
unfoldable pub set_lists :
    List (Owner × List ℤ)
    → List (Item (List ℤ))
    → List (Item (List ℤ))
    → Result (List (Item (List ℤ)) × List (Item (List ℤ)))
unfolding set_ids
set_lists [] hosts services = ok (hosts, services)
set_lists ((missing, ids) ∷ lists) hosts services = err panic
set_lists ((host ref, ids) ∷ lists) hosts services =
    set_lists lists (set_ids ref ids hosts) services
set_lists ((service ref, ids) ∷ lists) hosts services =
    set_lists lists hosts (set_ids ref ids services)

abbrev pub emptied : List (Item (List ℤ)) → List (Item (List ℤ))
emptied items = map (λ (x : Item (List ℤ)). record x { row = [] }) items

-- `buildDowntimeCommentsList`: the new rows of the hosts and of the services.
unfoldable pub build_downtime_comments_list :
    Objects → List Remark → Result (List (Item (List ℤ)) × List (Item (List ℤ)))
unfolding collect_ids set_lists
build_downtime_comments_list o remarks =
    set_lists (collect_ids o remarks []) (emptied o.hosts.items) (emptied o.services.items)
