-- ===== src/Auth.antt =====
-- Which rows an AuthUser may see: `isAuthorizedFor` and `checkAuth` of lmd/datarow.go, and the
-- authorization settings of lmd/config.go.
pub mod Rules
pub mod Groups
use lampd.Prelude.{
  ℕ, Bool, true, false, not, ◌&&◌, ◌||◌, Option, none, some, List, [], ◌∷◌, if◌then◌else◌,
}
use lampd.Prelude.Bytes.{Bytes, codes, ◌=b◌, to_lower}
use lampd.Column.{
  TableName, hosts, services, hostgroups, servicegroups, hostsbygroup, servicesbygroup,
  servicesbyhostgroup, downtimes, comments,
}

pub data Authorization : Type 0 where
  loose strict : Authorization

unfoldable pub parse_authorization : Authorization → Bytes → Authorization
unfolding to_lower ◌=b◌
parse_authorization fallback text =
    let low = to_lower text in
    if low =b codes "loose" then loose else if low =b codes "strict" then strict else fallback

-- `SetServiceAuthorization`
unfoldable pub set_service_authorization : Bytes → Authorization
unfolding parse_authorization
set_service_authorization text = parse_authorization loose text

-- `SetGroupAuthorization`
unfoldable pub set_group_authorization : Bytes → Authorization
unfolding parse_authorization
set_group_authorization text = parse_authorization strict text

-- The objects of a peer's data store set that the checks look up, and the two settings.
pub record Directory : Type 0 where
  -- contacts of tables[TableHosts].Index[host]
  pub host_contacts : Bytes → Option (List Bytes)
  -- contacts of tables[TableServices].Index2[host][service]
  pub service_contacts : Bytes → Bytes → Option (List Bytes)
  pub hostgroup_members : Bytes → Option (List Bytes)
  pub servicegroup_members : Bytes → Option (List (Bytes × Bytes))
  pub service_authorization : Authorization
  pub group_authorization : Authorization

unfoldable pub is_contact : Bytes → List Bytes → Bool
is_contact user [] = false
is_contact user (c ∷ contacts) = if c =b user then true else is_contact user contacts

abbrev is_loose : Authorization → Bool
is_loose loose = true
is_loose strict = false

-- The second part of `isAuthorizedFor`, for services.
unfoldable pub is_service_contact : Directory → Bytes → Bytes → Bytes → Bool
unfolding is_contact
is_service_contact d user host service =
    if not (service =b [])
    then elim (d.service_contacts host service) [
      | none ↦ false
      | some contacts ↦ is_contact user contacts
    ]
    else false

-- `isAuthorizedFor`
unfoldable pub is_authorized_for : Directory → Bytes → Bytes → Bytes → Bool
is_authorized_for d user host service =
    if (not (service =b []) && is_loose d.service_authorization) || service =b []
    then elim (d.host_contacts host) [
      | none ↦ false
      | some contacts ↦
          if is_contact user contacts then true else is_service_contact d user host service
    ]
    else is_service_contact d user host service

-- The loop over the members of a group, for AuthLoose.
unfoldable pub any_member : Directory → Bytes → List (Bytes × Bytes) → Bool
unfolding is_authorized_for
any_member d user [] = false
any_member d user ((host, service) ∷ members) =
    if is_authorized_for d user host service then true else any_member d user members

-- The loop for AuthStrict: the result turns true at the last member.
unfoldable pub every_member : Directory → Bytes → List (Bytes × Bytes) → Bool
unfolding is_authorized_for
every_member d user [] = false
every_member d user ((host, service) ∷ []) =
    if not (is_authorized_for d user host service) then false else true
every_member d user ((host, service) ∷ m ∷ members) =
    if not (is_authorized_for d user host service) then false else every_member d user (m ∷ members)

unfoldable pub group_members : Directory → Bytes → Option (List (Bytes × Bytes)) → Bool
unfolding any_member every_member
group_members d user none = false
group_members d user (some members) = elim d.group_authorization [
  | loose ↦ any_member d user members
  | strict ↦ every_member d user members
]

abbrev pub as_hosts : List Bytes → List (Bytes × Bytes)
as_hosts [] = []
as_hosts (h ∷ hs) = (h, []) ∷ as_hosts hs

abbrev pub hosts_of : Option (List Bytes) → Option (List (Bytes × Bytes))
hosts_of none = none
hosts_of (some hs) = some (as_hosts hs)

-- `isAuthorizedForHostGroup`
unfoldable pub is_authorized_for_host_group : Directory → Bytes → Bytes → Bool
unfolding group_members
is_authorized_for_host_group d user group =
    group_members d user (hosts_of (d.hostgroup_members group))

-- `isAuthorizedForServiceGroup`
unfoldable pub is_authorized_for_service_group : Directory → Bytes → Bytes → Bool
unfolding group_members
is_authorized_for_service_group d user group = group_members d user (d.servicegroup_members group)

-- The switch of `checkAuth`; `field` reads a string column of the row.
unfoldable pub check_table : Directory → Bytes → TableName → (Bytes → Bytes) → Bool
check_table d user hosts field = is_authorized_for d user (field (codes "name")) []
check_table d user services field =
    is_authorized_for d user (field (codes "host_name")) (field (codes "description"))
check_table d user hostgroups field = is_authorized_for_host_group d user (field (codes "name"))
check_table d user servicegroups field =
    is_authorized_for_service_group d user (field (codes "name"))
check_table d user hostsbygroup field =
    is_authorized_for d user (field (codes "name")) []
    && is_authorized_for_host_group d user (field (codes "hostgroup_name"))
check_table d user servicesbygroup field =
    is_authorized_for d user (field (codes "host_name")) (field (codes "description"))
    && is_authorized_for_service_group d user (field (codes "servicegroup_name"))
check_table d user servicesbyhostgroup field =
    is_authorized_for d user (field (codes "host_name")) (field (codes "description"))
    && is_authorized_for_host_group d user (field (codes "hostgroup_name"))
check_table d user downtimes field =
    is_authorized_for d user (field (codes "host_name")) (field (codes "service_description"))
check_table d user comments field =
    is_authorized_for d user (field (codes "host_name")) (field (codes "service_description"))
check_table d user _ field = true

-- `checkAuth`
unfoldable pub check_auth : Directory → Bytes → TableName → (Bytes → Bytes) → Bool
check_auth d user table field = if user =b [] then true else check_table d user table field
