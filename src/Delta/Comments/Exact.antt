-- ===== src/Delta/Comments/Exact.antt =====
-- What `UpdateDeltaCommentsOrDowntimes` (lmd/datastoreset.go) leaves in the store and in the lists of
-- the hosts and of the services.
use lampd.Prelude.{
  ℕ, ◌≡◌, refl, ap, ◌∙◌, ◌⊎◌, inl, inr, true, false, Option, none, some, List, [], ◌∷◌, map, arith,
  if◌then◌else◌, Bool-cases,
}
use lampd.Prelude.Int.{ℤ}
use lampd.Prelude.Bytes.{Bytes}
use lampd.Prelude.Dict.{lookup, IsUnique}
use lampd.Platform.{Platform}
use lampd.Delta.{missing_ids, is_remote_id, update_delta_ids, max_id_or_size_changed}
use lampd.Delta.Ids.{IsSound, IsAnswer, update_delta_ids-refines}
use lampd.Delta.Comments.{Lists, rebuild_list, update_delta_comments_or_downtimes}
use lampd.Delta.Remarks.{Remark, missing, host, service, is_same, Objects, owner}
use lampd.Delta.Remarks.Owners.{are_known, with_own_ids, build_downtime_comments_list-own}
use lampd.Filter.Match.Returns.{is_some}
use lampd.Store.{Item, DataStore}
use lampd.Store.Index.{IsIndexed}
use lampd.Store.Held.{Holds}
use lampd.Result.{ok, ◌>>=◌}

module _ {A : Type 0} (remark_of : Item A → Remark) (o : Objects) where
  -- Each row is a comment on a host or a service that the indexes know.
  abbrev pub OnKnown : List (Item A) → Type 0
  OnKnown items = (x : Item A) → Holds items x → is_same (owner o (remark_of x)) missing ≡ false

  OnKnown-are_known :
      (items : List (Item A)) → OnKnown items → are_known o (map remark_of items) ≡ true
  unfolding are_known
  OnKnown-are_known [] known = refl
  OnKnown-are_known (x ∷ items) known =
      ground (arith, known x (inl refl), OnKnown-are_known items (λ y held. known y (inr held)))

  -- The store knows exactly the ids of the remote site, by an index of its rows, and has kept the
  -- rows that are still listed; and each host and each service holds the ids of its own comments.
  pub record IsExact (ids : List ℤ) (d d' : DataStore A) (lists : Lists) : Type 0 where
    pub indexed : IsIndexed d'
    pub exact : (k : Bytes) → is_some (lookup k d'.index) ≡ is_remote_id k ids
    pub kept :
        (k : Bytes) (x : Item A)
        → lookup k d.index ≡ some x
        → is_remote_id k ids ≡ true
        → lookup k d'.index ≡ some x
    pub owned : lists ≡ (
      with_own_ids o host (map remark_of d'.items) o.hosts.items,
      with_own_ids o service (map remark_of d'.items) o.services.items,
    )

  -- Nothing is changed.
  abbrev pub IsSame : DataStore A → DataStore A → Lists → Type 0
  IsSame d d' lists = (d' ≡ d) × (lists ≡ (o.hosts.items, o.services.items))

  -- Suppose that the store has one primary key, an index of its rows without double keys, rows with
  -- different ids, and an own address for each row, that the remote site answers the query for the
  -- missing ids by rows with these ids, and that all these rows are on hosts and services that the
  -- peer knows. Then the update succeeds. If the number of rows and the maximal id of the remote site
  -- are those of the store, or the answer has no row, nothing changes. Otherwise the index of the
  -- store finds its rows, it knows exactly the ids that the remote site lists, it keeps the rows of
  -- the ids that it knew among these, and each host and each service holds the ids of its comments.
  pub update_delta_comments_or_downtimes-IsExact :
      ⦃p : Platform⦄ (id : Item A → ℕ) (count : Option (p.Float × p.Float))
      (rows : List ℤ → List (Item A)) (ids : List ℤ) (d : DataStore A)
      → IsAnswer rows
      → IsUnique d.index
      → IsSound d
      → OnKnown d.items
      → OnKnown (rows (missing_ids d.index ids))
      → (d' : DataStore A) × (lists : Lists) × (update_delta_comments_or_downtimes remark_of id
            count
            (λ missing. map ok (rows missing))
            ids
            o
            d
          ≡ ok ((d', lists), none))
        × (((max_id_or_size_changed id count d.items ≡ false) × IsSame d d' lists)
            ⊎ ((max_id_or_size_changed id count d.items ≡ true) × IsExact ids d d' lists))
  unfolding update_delta_comments_or_downtimes rebuild_list
  update_delta_comments_or_downtimes-IsExact id count rows ids d answer unique sound known fresh =
      elim (Bool-cases (max_id_or_size_changed id count d.items)) [
        | inr same ↦
            (d, (o.hosts.items, o.services.items), ground (arith, same), inl (same, (refl, refl)))
        | inl changed ↦
            let (d', e, indexed, exact, kept, origin) =
              update_delta_ids-refines rows ids d answer unique sound in
            let on_known : OnKnown d'.items =
              λ x held. elim (origin x held) [ inl old ↦ known x old | inr new ↦ fresh x new ] in
            let own =
              build_downtime_comments_list-own o (map remark_of d'.items)
                (OnKnown-are_known d'.items on_known) in
            (
              d',
              (
                with_own_ids o host (map remark_of d'.items) o.hosts.items,
                with_own_ids o service (map remark_of d'.items) o.services.items,
              ),
              ap
                    (λ b.
                      if b
                      then (update_delta_ids (λ missing. map ok (rows missing)) ids d >>= λ r.
                          rebuild_list remark_of o r.0 r.1)
                      else ok ((d, (o.hosts.items, o.services.items)), none))
                    changed
                  ∙ ap (λ r. r >>= λ r. rebuild_list remark_of o r.0 r.1) e
                  ∙ ap (λ r. r >>= λ lists. ok ((d', lists), none)) own,
              inr (changed, record { indexed = indexed; exact = exact; kept = kept; owned = refl }),
            )
      ]
