-- ===== src/Delta/Remarks/Owners.antt =====
-- Each host and each service gets its own comments (lmd/datastoreset.go).
use lampd.Prelude.{
  ℕ, ◌≡◌, refl, sym, ap, ◌∙◌, inl, inr, Bool, true, false, not, ◌&&◌, List, [], ◌∷◌, ◌++◌, map,
  arith, ◌==◌, ==_iff, if◌then◌else◌, Bool-cases,
}
use mathlib.Core.List.{append-nil, append_assoc}
use lampd.Prelude.Int.{ℤ}
use lampd.Store.{Item}
use lampd.Delta.Remarks.{
  Remark, Owner, missing, host, service, is_same, Objects, owner, append_id, collect_ids, set_ids,
  set_lists, emptied, build_downtime_comments_list,
}
use lampd.Result.{ok}

is_same_iff : (a b : Owner) → is_same a b ≡ true → a ≡ b
is_same_iff missing missing e = refl
is_same_iff (host a) (host b) e = ap host ((==_iff a b).0 e)
is_same_iff (service a) (service b) e = ap service ((==_iff a b).0 e)
is_same_iff _ _ e = absurd (cc)

is_same_refl : (a : Owner) → is_same a a ≡ true
is_same_refl missing = refl
is_same_refl (host a) = (==_iff a a).1 refl
is_same_refl (service a) = (==_iff a a).1 refl

-- The ids of the remarks on an object, in their order.
unfoldable pub ids_of : Objects → Owner → List Remark → List ℤ
unfolding owner
ids_of o k [] = []
ids_of o k (r ∷ remarks) =
    if is_same (owner o r) k then r.id ∷ ids_of o k remarks else ids_of o k remarks

-- Each remark is on a known object.
unfoldable pub are_known : Objects → List Remark → Bool
unfolding owner
are_known o [] = true
are_known o (r ∷ remarks) = not (is_same (owner o r) missing) && are_known o remarks

-- list[obj]; nil is the empty list.
unfoldable ids_at : Owner → List (Owner × List ℤ) → List ℤ
ids_at k [] = []
ids_at k ((j, ids) ∷ lists) = if is_same j k then ids else ids_at k lists

unfoldable is_key : Owner → List (Owner × List ℤ) → Bool
is_key k [] = false
is_key k ((j, ids) ∷ lists) = if is_same j k then true else is_key k lists

-- No key stands twice, and nil is no key.
unfoldable are_owners : List (Owner × List ℤ) → Bool
unfolding is_key
are_owners [] = true
are_owners ((j, ids) ∷ lists) = not (is_same j missing) && not (is_key j lists) && are_owners lists

ids_at-append_id :
    (k j : Owner) (id : ℤ) (lists : List (Owner × List ℤ))
    → ids_at k (append_id j id lists)
      ≡ (if is_same j k then ids_at k lists ++ id ∷ [] else ids_at k lists)
unfolding ids_at append_id
ids_at-append_id k j id [] = refl
ids_at-append_id k j id ((i, ids) ∷ lists) =
    let rest = ids_at-append_id k j id lists in
    ground (arith, rest, is_same_iff i j, is_same_iff i k, is_same_iff j k, is_same_refl i)

is_key-append_id :
    (k j : Owner) (id : ℤ) (lists : List (Owner × List ℤ))
    → is_key k (append_id j id lists) ≡ (if is_same j k then true else is_key k lists)
unfolding is_key append_id
is_key-append_id k j id [] = refl
is_key-append_id k j id ((i, ids) ∷ lists) =
    let rest = is_key-append_id k j id lists in
    ground (arith, rest, is_same_iff i j, is_same_iff i k, is_same_iff j k, is_same_refl i)

are_owners-append_id :
    (j : Owner) (id : ℤ) (lists : List (Owner × List ℤ))
    → is_same j missing ≡ false
    → are_owners lists ≡ true
    → are_owners (append_id j id lists) ≡ true
unfolding are_owners is_key append_id
are_owners-append_id j id [] known good = ground (arith, known)
are_owners-append_id j id ((i, ids) ∷ lists) known good = elim (Bool-cases (is_same i j)) [
  | inl here ↦ ground (arith, here, good)
  | inr other ↦
      let rest = are_owners-append_id j id lists known (ground (arith, good)) in
      let key = is_key-append_id i j id lists in
      ground (arith, other, good, rest, key, is_same_iff j i, is_same_refl j)
]

collect_ids-ids_of :
    (o : Objects) (remarks : List Remark) (lists : List (Owner × List ℤ))
    → are_known o remarks ≡ true
    → are_owners lists ≡ true
    → ((k : Owner) → ids_at k (collect_ids o remarks lists) ≡ ids_at k lists ++ ids_of o k remarks)
      × (are_owners (collect_ids o remarks lists) ≡ true)
unfolding collect_ids ids_of are_known
collect_ids-ids_of o [] lists known good = ((λ k. sym (append-nil (ids_at k lists))), good)
collect_ids-ids_of o (r ∷ remarks) lists known good =
    let next = are_owners-append_id (owner o r) r.id lists (ground (arith, known)) good in
    let (at, last) =
      collect_ids-ids_of o remarks (append_id (owner o r) r.id lists) (ground (arith, known))
        next in
    (
      (λ k.
          at k
          ∙ (let first = ids_at-append_id k (owner o r) r.id lists in
              let flat = append_assoc (ids_at k lists) (r.id ∷ []) (ids_of o k remarks) in
              ground (arith, first, flat))),
      last,
    )

-- The rows with the lists of a table of lists.
abbrev with_lists :
    (ℕ → Owner) → List (Owner × List ℤ) → List (Item (List ℤ)) → List (Item (List ℤ))
with_lists key lists items =
    map (λ x. if is_key (key x.ref) lists then record x { row = ids_at (key x.ref) lists } else x)
      items

with_lists-nil : (key : ℕ → Owner) (items : List (Item (List ℤ))) → with_lists key [] items ≡ items
unfolding is_key
with_lists-nil key [] = refl
with_lists-nil key (x ∷ items) = ap (◌∷◌ x) (with_lists-nil key items)

module _ (key : ℕ → Owner) (same : (a b : ℕ) → is_same (key a) (key b) ≡ (a == b)) where
  with_lists-set_ids :
      (ref : ℕ) (ids : List ℤ) (lists : List (Owner × List ℤ)) (items : List (Item (List ℤ)))
      → is_key (key ref) lists ≡ false
      → with_lists key lists (set_ids ref ids items) ≡ with_lists key ((key ref, ids) ∷ lists) items
  unfolding is_key ids_at set_ids
  with_lists-set_ids ref ids lists [] fresh = refl
  with_lists-set_ids ref ids lists (x ∷ items) fresh =
      let rest = with_lists-set_ids ref ids lists items fresh in
      let matched = same ref x.ref in
      elim (Bool-cases (x.ref == ref)) [
        | inl here ↦
            let r = (==_iff x.ref ref).0 here in
            let back : (ref == x.ref) ≡ true = (==_iff ref x.ref).1 (sym r) in
            let unkeyed : is_key (key x.ref) lists ≡ false =
              ap (λ n. is_key (key n) lists) r ∙ fresh in
            ground (arith, here, back, matched, unkeyed, rest)
        | inr other ↦
            let back : (ref == x.ref) ≡ false =
              ground (arith, other, ==_iff x.ref ref, ==_iff ref x.ref) in
            ground (arith, other, back, matched, rest)
      ]

set_lists-with_lists :
    (lists : List (Owner × List ℤ)) (hosts services : List (Item (List ℤ)))
    → are_owners lists ≡ true
    → set_lists lists hosts services
      ≡ ok (with_lists host lists hosts, with_lists service lists services)
unfolding set_lists are_owners is_key ids_at
set_lists-with_lists [] hosts services good =
    ap (λ hs. ok (hs, services)) (sym (with_lists-nil host hosts))
    ∙ ap (λ ss. ok (with_lists host [] hosts, ss)) (sym (with_lists-nil service services))
set_lists-with_lists ((missing, ids) ∷ lists) hosts services good = absurd (cc)
set_lists-with_lists ((host ref, ids) ∷ lists) hosts services good =
    set_lists-with_lists lists (set_ids ref ids hosts) services (ground (arith, good))
    ∙ ap (λ hs. ok (hs, with_lists service lists services))
        (with_lists-set_ids host (λ a b. refl) ref ids lists hosts (ground (arith, good)))
set_lists-with_lists ((service ref, ids) ∷ lists) hosts services good =
    set_lists-with_lists lists hosts (set_ids ref ids services) (ground (arith, good))
    ∙ ap (λ ss. ok (with_lists host lists hosts, ss))
        (with_lists-set_ids service (λ a b. refl) ref ids lists services (ground (arith, good)))

-- The rows with the ids of their own remarks.
abbrev pub with_own_ids :
    Objects → (ℕ → Owner) → List Remark → List (Item (List ℤ)) → List (Item (List ℤ))
with_own_ids o key remarks items =
    map (λ (x : Item (List ℤ)). record x { row = ids_of o (key x.ref) remarks }) items

ids_at-none :
    (k : Owner) (lists : List (Owner × List ℤ)) → is_key k lists ≡ false → ids_at k lists ≡ []
unfolding is_key ids_at
ids_at-none k [] e = refl
ids_at-none k ((j, ids) ∷ lists) e = ground (arith, ids_at-none k lists, e)

with_lists-emptied :
    (o : Objects) (key : ℕ → Owner) (remarks : List Remark) (lists : List (Owner × List ℤ))
    (items : List (Item (List ℤ)))
    → ((k : Owner) → ids_at k lists ≡ ids_of o k remarks)
    → with_lists key lists (emptied items) ≡ with_own_ids o key remarks items
with_lists-emptied o key remarks lists [] at = refl
with_lists-emptied o key remarks lists (x ∷ items) at =
    let rest = with_lists-emptied o key remarks lists items at in
    let own = at (key x.ref) in
    let none_at = ids_at-none (key x.ref) lists in ground (arith, rest, own, none_at)

-- If each comment is on a host or a service that the indexes know, then the lists are built without
-- a panic, and each host and each service holds exactly the ids of its own comments, in the order of
-- the comments.
pub build_downtime_comments_list-own :
    (o : Objects) (remarks : List Remark)
    → are_known o remarks ≡ true
    → build_downtime_comments_list o remarks
      ≡ ok (
        with_own_ids o host remarks o.hosts.items,
        with_own_ids o service remarks o.services.items,
      )
unfolding build_downtime_comments_list ids_at are_owners
build_downtime_comments_list-own o remarks known =
    let lists = collect_ids o remarks [] in
    let (at, good) = collect_ids-ids_of o remarks [] known refl in
    set_lists-with_lists lists (emptied o.hosts.items) (emptied o.services.items) good
    ∙ ap (λ hs. ok (hs, with_lists service lists (emptied o.services.items)))
        (with_lists-emptied o host remarks lists o.hosts.items at)
    ∙ ap (λ ss. ok (with_own_ids o host remarks o.hosts.items, ss))
        (with_lists-emptied o service remarks lists o.services.items at)
