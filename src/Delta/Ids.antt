-- ===== src/Delta/Ids.antt =====
-- `UpdateDeltaCommentsOrDowntimes` (lmd/datastoreset.go) brings a store to the ids of the remote site.
use mathlib.Core.Path.{subst}
use mathlib.Core.List.{append-nil}
use lampd.Prelude.{
  ◌≡◌, refl, sym, ap, ◌∙◌, ◌⊎◌, inl, inr, true, not, ◌&&◌, Option, none, some, List, [], ◌∷◌, ◌++◌,
  map, arith, ltb, length, if◌then◌else◌, Bool-cases, Option-cases,
}
use lampd.Prelude.Int.{ℤ}
use lampd.Prelude.Bytes.{Bytes, ◌=b◌, =b_iff, show_int}
use lampd.Prelude.Dict.{Dict, lookup, IsUnique}
use lampd.Delta.{missing_ids, is_remote_id, remove_unlisted, update_delta_ids}
use lampd.Filter.Match.Returns.{is_some}
use lampd.Store.{Item, DataStore, remove_item, append_data}
use lampd.Store.Index.{
  last_item, IsIndexed, IsDistinct, remove_item-IsIndexed, last_item-cut_item, add_items-IsIndexed,
}
use lampd.Store.Held.{
  Holds, HaveOwnRefs, last_item-some, cut_item-found, cut_item-Holds, cut_item-IsDistinct,
  HaveOwnRefs-RefersTo,
}
use lampd.Result.{ok, ◌>>=◌}

module _ {A : Type 0} where
  -- A store of comments or downtimes: one primary key, an index that finds the rows, rows with
  -- different ids, and an own address for each row.
  abbrev pub IsSound : DataStore A → Type 0
  IsSound d = (d.keys ≡ 1) × IsIndexed d × IsDistinct d.items × HaveOwnRefs d.items

  remove_item-IsSound :
      (d : DataStore A) (key : Bytes) (x : Item A)
      → IsSound d
      → lookup key d.index ≡ some x
      → (d' : DataStore A) × (remove_item d x ≡ ok d')
        × IsSound d'
        × ((j : Bytes) → lookup j d'.index ≡ (if key =b j then none else lookup j d.index))
        × ((y : Item A) → Holds d'.items y → Holds d.items y)
  remove_item-IsSound d key x (one, indexed, distinct, own) found =
      let (held, named) = last_item-some key d.items x (sym (indexed key) ∙ found) in
      let (rest, cut) = cut_item-found d.items x held in
      let refers = HaveOwnRefs-RefersTo x d.items (λ y h. own x y held h) in
      let (d', e, indexed', items', one') =
        remove_item-IsIndexed d x rest one indexed distinct refers cut in
      (
        d',
        e,
        (
          one',
          indexed',
          subst IsDistinct (sym items') (cut_item-IsDistinct x.ref d.items rest cut distinct),
          λ y z hy hz.
              own y z (cut_item-Holds x.ref d.items rest y cut (subst (λ l. Holds l y) items' hy))
                (cut_item-Holds x.ref d.items rest z cut (subst (λ l. Holds l z) items' hz)),
        ),
        λ j.
            indexed' j
            ∙ ap (last_item j) items'
            ∙ last_item-cut_item j x d.items rest distinct refers cut
            ∙ ap (λ k. if k =b j then none else last_item j d.items) named
            ∙ ap (λ o. if key =b j then none else o) (sym (indexed j)),
        λ y h. cut_item-Holds x.ref d.items rest y cut (subst (λ l. Holds l y) items' h),
      )

  remove_unlisted-IsSound :
      (ids : List ℤ) (entries : Dict (Item A)) (d : DataStore A)
      → IsUnique entries
      → ((k : Bytes) (x : Item A) → lookup k entries ≡ some x → lookup k d.index ≡ some x)
      → IsSound d
      → (d' : DataStore A) × (remove_unlisted ids entries d ≡ ok d')
        × IsSound d'
        × ((j : Bytes)
            → lookup j d'.index ≡ (
                if is_some (lookup j entries) && not (is_remote_id j ids)
                then none
                else lookup j d.index))
        × ((y : Item A) → Holds d'.items y → Holds d.items y)
  unfolding remove_unlisted lookup
  remove_unlisted-IsSound ids [] d unique known sound = (d, refl, sound, (λ j. refl), λ y h. h)
  remove_unlisted-IsSound ids ((key, x) ∷ entries) d unique known sound =
      elim (Bool-cases (is_remote_id key ids)) [
        | inl listed ↦
            let (d', e, sound', at, within) =
              remove_unlisted-IsSound ids entries d unique.1 (λ k y h. known k y (later k y h))
                sound in
            (
              d',
              ground (arith, listed, e),
              sound',
              (λ j. at j ∙ ground (arith, listed, =b_iff key j)),
              within,
            )
        | inr gone ↦
            let (d1, e1, sound1, at1, within1) =
              remove_item-IsSound d key x sound (known key x first) in
            let (d', e, sound', at, within) =
              remove_unlisted-IsSound ids entries d1 unique.1
                (λ k y h.
                  at1 k
                  ∙ (let at_k = known k y (later k y h) in
                      ground (arith, at_k, h, unique.0, =b_iff key k)))
                sound1 in
            (
              d',
              ground (arith, gone, e1, e),
              sound',
              (λ j.
                  at j ∙ (let at_j = at1 j in ground (arith, gone, at_j, unique.0, =b_iff key j))),
              λ y h. within1 y (within y h),
            )
      ]
    where
      first : lookup key ((key, x) ∷ entries) ≡ some x
      first = let own = (=b_iff key key).1 refl in ground (arith, own)

      later :
          (k : Bytes) (y : Item A)
          → lookup k entries ≡ some y
          → lookup k ((key, x) ∷ entries) ≡ some y
      later k y h = ground (arith, h, unique.0, =b_iff key k)

  abbrev joined : Option (Item A) → Option (Item A) → Option (Item A)
  joined none old = old
  joined (some y) old = some y

  last_item-append_list :
      (k : Bytes) (xs ys : List (Item A))
      → last_item k (xs ++ ys) ≡ joined (last_item k ys) (last_item k xs)
  unfolding last_item
  last_item-append_list k [] ys = elim (Option-cases (last_item k ys)) [
    | inl e ↦ ground (arith, e)
    | inr (y, e) ↦ ground (arith, e)
  ]
  last_item-append_list k (x ∷ xs) ys =
      let rest = last_item-append_list k xs ys in
      elim (Option-cases (last_item k ys)) [
        | inl e ↦ ground (arith, e, rest)
        | inr (y, e) ↦ ground (arith, e, rest)
      ]

  is_remote_id-missing_ids :
      (k : Bytes) (index : Dict (Item A)) (ids : List ℤ)
      → is_remote_id k (missing_ids index ids)
        ≡ (is_remote_id k ids && not (is_some (lookup k index)))
  unfolding is_remote_id missing_ids
  is_remote_id-missing_ids k index [] = refl
  is_remote_id-missing_ids k index (id ∷ ids) =
      let rest = is_remote_id-missing_ids k index ids in
      let same = (=b_iff (show_int id) k) in
      elim (Option-cases (lookup (show_int id) index)) [
        | inl e ↦ ground (arith, e, rest, same)
        | inr (y, e) ↦ ground (arith, e, rest, same)
      ]

  -- The remote site answers a query for ids by rows with these ids, in any order.
  abbrev pub IsAnswer : (List ℤ → List (Item A)) → Type 0
  IsAnswer rows = (ids : List ℤ) (k : Bytes) → is_some (last_item k (rows ids)) ≡ is_remote_id k ids

  fetch_missing :
      (rows : List ℤ → List (Item A)) (missing : List ℤ) (d : DataStore A)
      → IsAnswer rows
      → d.keys ≡ 1
      → IsIndexed d
      → (d' : DataStore A) × ((if ltb 0 (length missing)
            then append_data d (map ok (rows missing))
            else ok (d, none))
          ≡ ok (d', none))
        × IsIndexed d'
        × (added : List (Item A)) × ((k : Bytes)
            → is_some (last_item k added) ≡ is_remote_id k missing)
        × ((y : Item A) → Holds added y → Holds (rows missing) y)
        × (d'.items ≡ d.items ++ added)
  unfolding append_data last_item is_remote_id
  fetch_missing rows [] d answer one indexed =
      (d, refl, indexed, [], (λ k. refl), (λ y h. absurd h), sym (append-nil d.items))
  fetch_missing rows (id ∷ missing) d answer one indexed =
      let (d', e, indexed', items') = add_items-IsIndexed d (rows (id ∷ missing)) one indexed in
      (
        d',
        ground (arith, e),
        indexed',
        rows (id ∷ missing),
        answer (id ∷ missing),
        (λ y h. h),
        items',
      )

  Holds-append : (xs ys : List (Item A)) (y : Item A) → Holds (xs ++ ys) y → Holds xs y ⊎ Holds ys y
  Holds-append [] ys y h = inr h
  Holds-append (x ∷ xs) ys y (inl here) = inl (inl here)
  Holds-append (x ∷ xs) ys y (inr h) = elim (Holds-append xs ys y h) [
    | inl there ↦ inl (inr there)
    | inr later ↦ inr later
  ]

  -- Suppose that the store has one primary key, an index of its rows without double keys, rows with
  -- different ids, and an own address for each row, and that the remote site answers the query for
  -- the missing ids by rows with these ids. Then the update succeeds, its index finds the rows of the
  -- new data, it knows exactly the ids that the remote site lists, it keeps the rows of the ids that
  -- it knew among these, and each row is an old one or a fetched one.
  pub update_delta_ids-refines :
      (rows : List ℤ → List (Item A)) (ids : List ℤ) (d : DataStore A)
      → IsAnswer rows
      → IsUnique d.index
      → IsSound d
      → (d' : DataStore A) × (update_delta_ids (λ missing. map ok (rows missing)) ids d
          ≡ ok (d', none))
        × IsIndexed d'
        × ((k : Bytes) → is_some (lookup k d'.index) ≡ is_remote_id k ids)
        × ((k : Bytes) (x : Item A)
            → lookup k d.index ≡ some x
            → is_remote_id k ids ≡ true
            → lookup k d'.index ≡ some x)
        × ((y : Item A)
            → Holds d'.items y
            → Holds d.items y ⊎ Holds (rows (missing_ids d.index ids)) y)
  unfolding update_delta_ids
  update_delta_ids-refines rows ids d answer unique sound =
      let missing = missing_ids d.index ids in
      let (d1, e1, (one, indexed, _, _), at, within) =
        remove_unlisted-IsSound ids d.index d unique (λ k x h. h) sound in
      let (d2, e2, indexed2, added, named, from, items2) =
        fetch_missing rows missing d1 answer one indexed in
      let found : (k : Bytes) → lookup k d2.index ≡ joined (last_item k added) (lookup k d1.index) =
        λ k.
          indexed2 k
          ∙ ap (last_item k) items2
          ∙ last_item-append_list k d1.items added
          ∙ ap (joined (last_item k added)) (sym (indexed k)) in
      (
        d2,
        ap
              (λ r. r >>= λ d'.
                if ltb 0 (length missing)
                then append_data d' (map ok (rows missing))
                else ok (d', none))
              e1
            ∙ e2,
        indexed2,
        (λ k.
            ap (λ o. is_some o) (found k)
            ∙ known_after k (last_item k added) (lookup k d.index) (lookup k d1.index)
                (named k ∙ is_remote_id-missing_ids k d.index ids) (at k)),
        (λ k x held listed.
            found k
            ∙ kept k (last_item k added) (lookup k d.index) (lookup k d1.index) x
                (named k ∙ is_remote_id-missing_ids k d.index ids) (at k) held listed),
        λ y h. elim (Holds-append d1.items added y (subst (λ l. Holds l y) items2 h)) [
          | inl old ↦ inl (within y old)
          | inr new ↦ inr (from y new)
        ],
      )
    where
      known_after :
          (k : Bytes) (new old left : Option (Item A))
          → is_some new ≡ (is_remote_id k ids && not (is_some old))
          → left ≡ (if is_some old && not (is_remote_id k ids) then none else old)
          → is_some (joined new left) ≡ is_remote_id k ids
      known_after k new old left e at = ground (arith, e, at)

      kept :
          (k : Bytes) (new old left : Option (Item A)) (x : Item A)
          → is_some new ≡ (is_remote_id k ids && not (is_some old))
          → left ≡ (if is_some old && not (is_remote_id k ids) then none else old)
          → old ≡ some x
          → is_remote_id k ids ≡ true
          → joined new left ≡ some x
      kept k new old left x e at held listed = ground (arith, e, at, held, listed)
