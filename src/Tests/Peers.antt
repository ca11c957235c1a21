-- ===== src/Tests/Peers.antt =====
-- Runs of the models of the cluster and of the authorization.
use lampd.Prelude.{◌≡◌, refl, ◌↔◌, ◌<◌, Bool, true, false, none, some, [], ◌∷◌, arith}
use lampd.Prelude.Bytes.{Bytes, codes, ◌=b◌}
use lampd.Column.{hostgroups}
use lampd.Cluster.{Node, Nodes, node_online, has_url, count_online, shares, member, update_backends}
use lampd.Cluster.Shares.{named, concat, available, shares-cover, IsBalanced, shares-IsBalanced}
use lampd.Cluster.Running.{Running, act, RunsAssigned, update_backends-RunsAssigned}
use lampd.Cluster.Owner.{holders, shares-owner}
use lampd.Auth.{
  loose, strict, Directory, is_authorized_for, is_contact, group_members, check_auth, check_table,
  is_authorized_for_host_group, every_member,
}
use lampd.Auth.Rules.{MaySee, is_authorized_for_iff}
use lampd.Auth.Groups.{MaySeeGroup, group_members_iff, with_groups, check_auth-loosen}
use lampd.Result.{ok}

abbrev node_at : Bytes → Bool → Node
node_at url me = record { id = url; url = url; is_me = me }

-- Two nodes, both online, and three backends, of which this node runs the first.
abbrev two_nodes : Nodes
two_nodes = record {
  backends = codes "a" ∷ codes "b" ∷ codes "c" ∷ [];
  node_addresses = node_at (codes "x") true ∷ node_at (codes "y") false ∷ [];
  online_nodes = node_at (codes "x") true ∷ node_at (codes "y") false ∷ [];
  assigned_backends = codes "a" ∷ [];
  node_backends = [];
}

some_online : 0 < available two_nodes
unfolding node_online has_url count_online ◌=b◌
some_online = omega arith

shares-cover_example : concat (shares two_nodes) ≡ named two_nodes.backends
shares-cover_example = shares-cover two_nodes some_online

shares-IsBalanced_example :
    IsBalanced 3
      (available two_nodes)
      (node_online two_nodes.online_nodes two_nodes.node_addresses)
      (shares two_nodes)
shares-IsBalanced_example = shares-IsBalanced two_nodes some_online

shares-owner_example : holders (codes "b") (shares two_nodes) ≡ 1
unfolding member ◌=b◌
shares-owner_example =
    shares-owner two_nodes (codes "b") some_online (refl, (refl, (refl, tt))) (λ e. cc) refl

unfoldable first_runs : Running
unfolding member
first_runs b = member b (codes "a" ∷ [])

first_runs-RunsAssigned : RunsAssigned two_nodes first_runs
unfolding first_runs
first_runs-RunsAssigned b h = refl

update_backends-RunsAssigned_example :
    (running' : Running) × (act first_runs
        (update_backends [] (codes "b" ∷ codes "c" ∷ []) two_nodes).1
      ≡ ok running')
    × RunsAssigned (update_backends [] (codes "b" ∷ codes "c" ∷ []) two_nodes).0 running'
unfolding member ◌=b◌
update_backends-RunsAssigned_example =
    update_backends-RunsAssigned [] (codes "b" ∷ codes "c" ∷ []) two_nodes first_runs
      (refl, (refl, (refl, tt))) first_runs-RunsAssigned

-- One host with the contact `joe`, who is no contact of its service, and a group of the host.
abbrev directory : Directory
directory = record {
  host_contacts = λ host. some (codes "joe" ∷ []);
  service_contacts = λ host service. some [];
  hostgroup_members = λ group. some (codes "web" ∷ []);
  servicegroup_members = λ group. none;
  service_authorization = strict;
  group_authorization = strict;
}

is_authorized_for_iff_example :
    (is_authorized_for directory (codes "joe") (codes "web") (codes "http") ≡ true)
    ↔ MaySee directory (codes "joe") (codes "web") (codes "http")
is_authorized_for_iff_example =
    is_authorized_for_iff directory (codes "joe") (codes "web") (codes "http")

group_members_iff_example :
    (group_members directory (codes "joe") (some ((codes "web", []) ∷ [])) ≡ true)
    ↔ MaySeeGroup directory (codes "joe") ((codes "web", []) ∷ [])
group_members_iff_example = group_members_iff directory (codes "joe") ((codes "web", []) ∷ [])

check_auth-loosen_example :
    check_auth (with_groups loose directory) (codes "joe") hostgroups (λ column. codes "servers")
    ≡ true
unfolding check_auth check_table is_authorized_for_host_group group_members every_member
    is_authorized_for is_contact ◌=b◌
check_auth-loosen_example =
    check_auth-loosen directory (codes "joe") hostgroups (λ column. codes "servers") refl
