-- ===== src/Auth/Groups.antt =====
-- Authorization for groups: the loose and the strict setting.
use lampd.Prelude.{
  ◌≡◌, refl, sym, ◌∙◌, ◌≢◌, ◌⊎◌, inl, inr, ◌↔◌, Bool, true, false, ◌&&◌, Option, none, some, List,
  [], ◌∷◌, arith, Bool-cases,
}
use lampd.Prelude.Bytes.{Bytes, ◌=b◌}
use lampd.Column.{
  TableName, hosts, services, hostgroups, servicegroups, hostsbygroup, servicesbygroup,
  servicesbyhostgroup, downtimes, comments,
}
use lampd.Auth.{
  Authorization, loose, strict, Directory, is_service_contact, is_authorized_for, any_member,
  every_member, group_members, is_authorized_for_host_group, is_authorized_for_service_group,
  check_table, check_auth, hosts_of,
}

abbrev All : (Bytes × Bytes → Type 0) → List (Bytes × Bytes) → Type 0
All P [] = Unit
All P (m ∷ ms) = P m × All P ms

abbrev Some : (Bytes × Bytes → Type 0) → List (Bytes × Bytes) → Type 0
Some P [] = ⊥
Some P (m ∷ ms) = P m ⊎ Some P ms

module _ (d : Directory) (user : Bytes) where
  abbrev Authorized : Bytes × Bytes → Type 0
  Authorized m = is_authorized_for d user m.0 m.1 ≡ true

  any-Some : (ms : List (Bytes × Bytes)) → any_member d user ms ≡ true → Some Authorized ms
  unfolding any_member
  any-Some [] h = absurd (ground arith)
  any-Some ((host, service) ∷ ms) h = elim (Bool-cases (is_authorized_for d user host service)) [
    | inl seen ↦ inl seen
    | inr hidden ↦ inr (any-Some ms (rw hidden at h))
  ]

  Some-any : (ms : List (Bytes × Bytes)) → Some Authorized ms → any_member d user ms ≡ true
  unfolding any_member
  Some-any [] h = absurd h
  Some-any ((host, service) ∷ ms) (inl seen) = rw seen
  Some-any ((host, service) ∷ ms) (inr later) = ground (arith, Some-any ms later)

  every-All :
      (ms : List (Bytes × Bytes)) → every_member d user ms ≡ true → (ms ≢ []) × All Authorized ms
  unfolding every_member
  every-All [] h = absurd (ground arith)
  every-All ((host, service) ∷ []) h = ((λ e. cc), (ground arith, tt))
  every-All ((host, service) ∷ m ∷ ms) h =
      elim (Bool-cases (is_authorized_for d user host service)) [
        | inl seen ↦ ((λ e. cc), (seen, (every-All (m ∷ ms) (rw seen at h)).1))
        | inr hidden ↦ absurd (ground arith)
      ]

  All-every :
      (ms : List (Bytes × Bytes)) → ms ≢ [] → All Authorized ms → every_member d user ms ≡ true
  unfolding every_member
  All-every [] ne h = absurd (ne refl)
  All-every ((host, service) ∷ []) ne h = ground arith
  All-every ((host, service) ∷ m ∷ ms) ne h = ground (arith, All-every (m ∷ ms) (λ e. cc) h.1)

-- Who may see a group with these members.
pub data MaySeeGroup (d : Directory) (user : Bytes) (ms : List (Bytes × Bytes)) : Type 0 where
  of_some_member :
      d.group_authorization ≡ loose → Some (Authorized d user) ms → MaySeeGroup d user ms
  of_all_members :
      d.group_authorization ≡ strict → ms ≢ [] → All (Authorized d user) ms → MaySeeGroup d user ms

module _ (d : Directory) (user : Bytes) (ms : List (Bytes × Bytes)) where
  seen_group : group_members d user (some ms) ≡ true → MaySeeGroup d user ms
  unfolding group_members is_service_contact
  seen_group h = split d.group_authorization refl
    where
      split : (a : Authorization) → d.group_authorization ≡ a → MaySeeGroup d user ms
      split loose e = of_some_member e (any-Some d user ms (rw e at h))
      split strict e = let (ne, all) = every-All d user ms (rw e at h) in of_all_members e ne all

  sees_group : MaySeeGroup d user ms → group_members d user (some ms) ≡ true
  unfolding group_members is_service_contact
  sees_group (of_some_member e h) = rw e (Some-any d user ms h)
  sees_group (of_all_members e ne h) = rw e (All-every d user ms ne h)

  -- A group is visible to a user who may see one of its members, where group authorization is loose,
  -- and to a user who may see every member, of which there is one at least, where it is strict.
  pub group_members_iff : (group_members d user (some ms) ≡ true) ↔ MaySeeGroup d user ms
  group_members_iff = (seen_group, sees_group)

abbrev pub with_groups : Authorization → Directory → Directory
with_groups a d = record d { group_authorization = a }

module _ (d : Directory) (user : Bytes) where
  is_authorized_for-with_groups :
      (a : Authorization) (host service : Bytes)
      → is_authorized_for (with_groups a d) user host service
        ≡ is_authorized_for d user host service
  unfolding is_authorized_for is_service_contact
  is_authorized_for-with_groups a host service = refl

  every-any :
      (ms : List (Bytes × Bytes))
      → every_member (with_groups strict d) user ms ≡ true
      → any_member (with_groups loose d) user ms ≡ true
  unfolding every_member any_member
  every-any [] h = absurd (ground arith)
  every-any ((host, service) ∷ []) h = ground (
    arith,
    is_authorized_for-with_groups strict host service,
    is_authorized_for-with_groups loose host service,
  )
  every-any ((host, service) ∷ m ∷ ms) h = ground (
    arith,
    is_authorized_for-with_groups strict host service,
    is_authorized_for-with_groups loose host service,
  )

  group_members-loosen :
      (found : Option (List (Bytes × Bytes)))
      → group_members (with_groups strict d) user found ≡ true
      → group_members (with_groups loose d) user found ≡ true
  unfolding group_members
  group_members-loosen none h = h
  group_members-loosen (some ms) h = every-any ms h

  keeps :
      (host service : Bytes)
      → is_authorized_for (with_groups strict d) user host service ≡ true
      → is_authorized_for (with_groups loose d) user host service ≡ true
  keeps host service h =
      is_authorized_for-with_groups loose host service
      ∙ sym (is_authorized_for-with_groups strict host service)
      ∙ h

  and_mono :
      (a b a' b' : Bool)
      → (a ≡ true → a' ≡ true)
      → (b ≡ true → b' ≡ true)
      → (a && b) ≡ true
      → (a' && b') ≡ true
  and_mono true true a' b' f g h = rw (f refl, g refl)
  and_mono true false a' b' f g h = cc
  and_mono false b a' b' f g h = cc

  host_group-loosen :
      (group : Bytes)
      → is_authorized_for_host_group (with_groups strict d) user group ≡ true
      → is_authorized_for_host_group (with_groups loose d) user group ≡ true
  unfolding is_authorized_for_host_group
  host_group-loosen group = group_members-loosen (hosts_of (d.hostgroup_members group))

  service_group-loosen :
      (group : Bytes)
      → is_authorized_for_service_group (with_groups strict d) user group ≡ true
      → is_authorized_for_service_group (with_groups loose d) user group ≡ true
  unfolding is_authorized_for_service_group
  service_group-loosen group = group_members-loosen (d.servicegroup_members group)

  check_table-loosen :
      (table : TableName) (field : Bytes → Bytes)
      → check_table (with_groups strict d) user table field ≡ true
      → check_table (with_groups loose d) user table field ≡ true
  unfolding check_table
  check_table-loosen hosts field h = keeps _ _ h
  check_table-loosen services field h = keeps _ _ h
  check_table-loosen downtimes field h = keeps _ _ h
  check_table-loosen comments field h = keeps _ _ h
  check_table-loosen hostgroups field h = host_group-loosen _ h
  check_table-loosen servicegroups field h = service_group-loosen _ h
  check_table-loosen hostsbygroup field h = and_mono _ _ _ _ (keeps _ _) (host_group-loosen _) h
  check_table-loosen servicesbygroup field h =
      and_mono _ _ _ _ (keeps _ _) (service_group-loosen _) h
  check_table-loosen servicesbyhostgroup field h =
      and_mono _ _ _ _ (keeps _ _) (host_group-loosen _) h
  check_table-loosen _ field h = refl

  -- A row that a user may see under strict group authorization is visible under the loose setting
  -- too, whatever the table.
  pub check_auth-loosen :
      (table : TableName) (field : Bytes → Bytes)
      → check_auth (with_groups strict d) user table field ≡ true
      → check_auth (with_groups loose d) user table field ≡ true
  unfolding check_auth
  check_auth-loosen table field h = elim (Bool-cases (user =b [])) [
    | inl anyone ↦ rw anyone
    | inr someone ↦ rw someone (check_table-loosen table field (rw someone at h))
  ]
