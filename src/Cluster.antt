-- ===== src/Cluster.antt =====
-- The cluster of LMD nodes (lmd/nodes.go): which node is responsible for which backends, and which
-- peers are started and stopped. `getSubBackends` is of lmd/request.go.
pub mod Shares
pub mod Running
pub mod Owner
use lampd.Prelude.{
  ℕ, zero, suc, ◌+◌, ◌/◌, ◌%◌, Bool, true, false, not, ◌&&◌, ◌||◌, Option, none, some, List, [],
  ◌∷◌, ◌++◌, ltb, leb, ◌==◌, length, get_elem?, if◌then◌else◌,
}
use lampd.Prelude.Bytes.{Bytes, ◌=b◌}
use lampd.Result.{Result, ok, err, ◌>>=◌, panic}

-- NodeAddress, without the fields that only the HTTP client reads
pub record Node : Type 0 where
  pub id : Bytes
  pub url : Bytes
  pub is_me : Bool

-- A `Peer` of the map PeerMap, as far as the cluster reads it.
pub record PeerEntry : Type 0 where
  pub id : Bytes
  pub parent_id : Bytes

-- What is done to the peers, in order.
pub data Action : Type 0 where
  stop_and_clear start : Bytes → Action

pub record Nodes : Type 0 where
  pub backends : List Bytes
  pub node_addresses : List Node
  pub online_nodes : List Node
  pub assigned_backends : List Bytes
  -- the map from a node's id to its backends
  pub node_backends : List (Bytes × List Bytes)

unfoldable pub member : Bytes → List Bytes → Bool
member b [] = false
member b (x ∷ xs) = if x =b b then true else member b xs

unfoldable pub has_url : Bytes → List Node → Bool
has_url url [] = false
has_url url (n ∷ ns) = if n.url =b url then true else has_url url ns

-- nodeOnline of `getOnlineNodes`
unfoldable pub node_online : List Node → List Node → List Bool
unfolding has_url
node_online online [] = []
node_online online (n ∷ ns) = has_url n.url online ∷ node_online online ns

-- numberAvailableNodes of `getOnlineNodes`
unfoldable pub count_online : List Bool → ℕ
count_online [] = 0
count_online (b ∷ flags) = (if b then 1 else 0) + count_online flags

-- ownIndex of `getOnlineNodes`, from position `i`: the last node that is this one, and `none` for -1.
unfoldable pub own_index : ℕ → Option ℕ → List Node → Option ℕ
own_index i found [] = found
own_index i found (n ∷ ns) = own_index (i + 1) (if n.is_me then some i else found) ns

-- The number of backends of an online node.
unfoldable pub number_per_node : ℕ → ℕ → ℕ
number_per_node backends available =
    if leb backends available
    then 1
    else (backends / available) + (if backends % available == 0 then 0 else 1)

-- assignedNumberBackends
unfoldable pub assigned_numbers : ℕ → ℕ → List Bool → List ℕ
unfolding number_per_node
assigned_numbers backends available [] = []
assigned_numbers backends available (online ∷ flags) =
    (if online then number_per_node backends available else 0)
    ∷ assigned_numbers backends available flags

-- The inner loop: the backends at the `number` positions from `position`, but the empty names.
unfoldable pub collect : List Bytes → ℕ → ℕ → List Bytes
unfolding ◌=b◌
collect backends zero position = []
collect backends (suc number) position =
    let rest = collect backends number (position + 1) in
    elim (get_elem? backends position) [ none ↦ rest | some b ↦ if b =b [] then rest else b ∷ rest ]

-- The outer loop: assignedBackends, from distributedCount on.
unfoldable pub distribute : List Bytes → ℕ → List ℕ → List (List Bytes)
unfolding collect
distribute backends count [] = []
distribute backends count (number ∷ numbers) =
    collect backends number count ∷ distribute backends (count + number) numbers

unfoldable pub put : Bytes → List Bytes → List (Bytes × List Bytes) → List (Bytes × List Bytes)
put k v [] = (k, v) ∷ []
put k v ((j, w) ∷ m) = if j =b k then (k, v) ∷ m else (j, w) ∷ put k v m

-- nodeBackends of `redistribute`: a node with no share has no entry.
unfoldable pub node_backends_of :
    List Node → List ℕ → List (List Bytes) → List (Bytes × List Bytes) → List (Bytes × List Bytes)
unfolding put
node_backends_of (n ∷ ns) (zero ∷ numbers) (list ∷ lists) m = node_backends_of ns numbers lists m
node_backends_of (n ∷ ns) (suc k ∷ numbers) (list ∷ lists) m =
    node_backends_of ns numbers lists (put n.id list m)
node_backends_of _ _ _ m = m

-- assignedBackends for each node, in the order of the addresses
unfoldable pub shares : Nodes → List (List Bytes)
unfolding node_online count_online assigned_numbers distribute
shares n =
    let flags = node_online n.online_nodes n.node_addresses in
    distribute n.backends 0 (assigned_numbers (length n.backends) (count_online flags) flags)

-- The loop over PeerMap of `updateBackends`, for the order in which the map is read.
unfoldable pub append_sub_peers : List PeerEntry → List Bytes → List Bytes
unfolding member ◌=b◌
append_sub_peers [] ours = ours
append_sub_peers (p ∷ peers) ours =
    append_sub_peers peers
      (if not (p.parent_id =b []) && member p.parent_id ours then ours ++ p.id ∷ [] else ours)

-- addBackends and rmvBackends of `updateBackends`
unfoldable pub added : List Bytes → List Bytes → List Bytes → List Bytes
unfolding member
added before now [] = []
added before now (b ∷ backends) =
    let rest = added before now backends in
    if member b now && not (member b before) then b ∷ rest else rest

unfoldable pub start_all : List Bytes → List Action
start_all [] = []
start_all (b ∷ bs) = start b ∷ start_all bs

unfoldable pub stop_all : List Bytes → List Action
stop_all [] = []
stop_all (b ∷ bs) = stop_and_clear b ∷ stop_all bs

-- `updateBackends`: the new state, and what is done to the peers.
unfoldable pub update_backends : List PeerEntry → List Bytes → Nodes → Nodes × List Action
unfolding append_sub_peers added start_all stop_all
update_backends peers ours n =
    let now = append_sub_peers peers ours in
    let started = added n.assigned_backends now n.backends in
    let stopped = added now n.assigned_backends n.backends in
    (record n { assigned_backends = now }, stop_all stopped ++ start_all started)

-- `redistribute`; an own index of -1 panics.
unfoldable pub redistribute : List PeerEntry → Nodes → Result (Nodes × List Action)
unfolding shares node_backends_of own_index update_backends
redistribute peers n = do
  let flags = node_online n.online_nodes n.node_addresses
  let numbers = assigned_numbers (length n.backends) (count_online flags) flags
  let lists = shares n
  let n' = record n { node_backends = node_backends_of n.node_addresses numbers lists [] }
  own ← elim (own_index 0 none n.node_addresses) [ none ↦ err panic | some i ↦ ok i ]
  ours ← elim (get_elem? lists own) [ none ↦ err panic | some list ↦ ok list ]
  ok (update_backends peers ours n')

-- `IsClustered`
unfoldable pub is_clustered : Nodes → Bool
is_clustered n = ltb 1 (length n.node_addresses)

-- `IsOurBackend`
unfoldable pub is_our_backend : Nodes → Bytes → Bool
unfolding is_clustered member
is_our_backend n backend = if not (is_clustered n) then true else member backend n.assigned_backends

-- `getSubBackends` for the requested backends
unfoldable pub get_sub_backends : Bool → List Bytes → List Bytes → List Bytes
unfolding member ◌=b◌
get_sub_backends all_requested requested [] = []
get_sub_backends all_requested requested (b ∷ backends) =
    let rest = get_sub_backends all_requested requested backends in
    if b =b [] then rest else if all_requested || member b requested then b ∷ rest else rest
