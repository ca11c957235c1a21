-- ===== src/Store/Index.antt =====
-- The indexes of a store find the rows of its data.
use mathlib.Core.List.{append-nil, append_assoc}
use lampd.Prelude.{
  map, ◌≡◌, refl, sym, ap, ◌∙◌, inl, inr, true, Option, none, some, List, [], ◌∷◌, ◌++◌, arith,
  ◌==◌, if◌then◌else◌, Bool-cases, Option-cases,
}
use lampd.Prelude.Bytes.{Bytes, ◌=b◌, =b_iff}
use lampd.Prelude.Dict.{lookup, insert, delete, lookup-insert, lookup-delete}
use lampd.Store.{
  Item, DataStore, index_item, add_item, cut_item, remove_item, unindex_item, add_items, reset,
  insert_data,
}
use lampd.Result.{ok, ◌>>=◌}

module _ {A : Type 0} where
  -- The last item with a given first key, or with two given keys.
  unfoldable pub last_item : Bytes → List (Item A) → Option (Item A)
  last_item k [] = none
  last_item k (x ∷ items) = elim (last_item k items) [
    | none ↦ if x.id1 =b k then some x else none
    | some y ↦ some y
  ]

  -- The abstract view of a store with one primary key: its index finds the last item of a name.
  abbrev pub IsIndexed : DataStore A → Type 0
  IsIndexed d = (k : Bytes) → lookup k d.index ≡ last_item k d.items

  pub last_item-append :
      (k : Bytes) (items : List (Item A)) (x : Item A)
      → last_item k (items ++ x ∷ []) ≡ (if x.id1 =b k then some x else last_item k items)
  unfolding last_item
  last_item-append k [] x = refl
  last_item-append k (y ∷ items) x = ground (arith, last_item-append k items x)

  pub add_item-IsIndexed :
      (d : DataStore A) (x : Item A)
      → d.keys ≡ 1
      → IsIndexed d
      → (d' : DataStore A) × (add_item d x ≡ ok d')
        × IsIndexed d'
        × (d'.items ≡ d.items ++ x ∷ [])
        × (d'.keys ≡ 1)
  unfolding add_item index_item
  add_item-IsIndexed d x one indexed = (
    record d { items = d.items ++ x ∷ []; index = insert x.id1 x d.index },
    ground (arith, one),
    (λ k.
        lookup-insert k x.id1 x d.index
        ∙ ap (λ o. if x.id1 =b k then some x else o) (indexed k)
        ∙ sym (last_item-append k d.items x)),
    refl,
    one,
  )

  -- Items with different names.
  abbrev pub IsDistinct : List (Item A) → Type 0
  IsDistinct [] = Unit
  IsDistinct (x ∷ items) = (last_item x.id1 items ≡ none) × IsDistinct items

  -- An item with the address of `x` has the name of `x`.
  abbrev pub RefersTo : Item A → List (Item A) → Type 0
  RefersTo x [] = Unit
  RefersTo x (y ∷ items) = ((y.ref == x.ref) ≡ true → y.id1 ≡ x.id1) × RefersTo x items

  last_item-found :
      (x : Item A) (items rest : List (Item A))
      → RefersTo x items
      → cut_item x.ref items ≡ some rest
      → last_item x.id1 items ≡ none
      → ⊥
  unfolding last_item cut_item
  last_item-found x [] rest refers h none_left = cc
  last_item-found x (y ∷ items) rest refers h none_left = elim (Bool-cases (y.ref == x.ref)) [
    | inl here ↦ let same = refers.0 here in ground (arith, same, =b_iff y.id1 x.id1)
    | inr later ↦ elim (Option-cases (cut_item x.ref items)) [
      | inl e ↦ ground (arith, later)
      | inr (r, e) ↦ last_item-found x items r refers.1 e (ground arith)
    ]
  ]

  pub last_item-cut_item :
      (j : Bytes) (x : Item A) (items rest : List (Item A))
      → IsDistinct items
      → RefersTo x items
      → cut_item x.ref items ≡ some rest
      → last_item j rest ≡ (if x.id1 =b j then none else last_item j items)
  unfolding last_item cut_item
  last_item-cut_item j x [] rest distinct refers h = absurd (cc)
  last_item-cut_item j x (y ∷ items) rest distinct refers h = elim (Bool-cases (y.ref == x.ref)) [
    | inl here ↦
        let same = refers.0 here in
        ground (arith, here, same, distinct.0, h, =b_iff x.id1 j, =b_iff y.id1 j)
    | inr later ↦ elim (Option-cases (cut_item x.ref items)) [
      | inl e ↦ absurd (ground arith)
      | inr (r, e) ↦
          let ih = last_item-cut_item j x items r distinct.1 refers.1 e in
          let found = last_item-found x items r refers.1 e in
          let apart = distinct.0 in
          ground (arith, ih, e, found, apart, later, =b_iff x.id1 j, =b_iff y.id1 j)
    ]
  ]

  -- In a store with one primary key, whose rows have different names and an index that finds them,
  -- `RemoveItem` of a row that the data holds, and that has its address alone there, succeeds: the
  -- data is that without this row, and the index finds its rows.
  pub remove_item-IsIndexed :
      (d : DataStore A) (x : Item A) (rest : List (Item A))
      → d.keys ≡ 1
      → IsIndexed d
      → IsDistinct d.items
      → RefersTo x d.items
      → cut_item x.ref d.items ≡ some rest
      → (d' : DataStore A) × (remove_item d x ≡ ok d')
        × IsIndexed d'
        × (d'.items ≡ rest)
        × (d'.keys ≡ 1)
  unfolding remove_item unindex_item
  remove_item-IsIndexed d x rest one indexed distinct refers h = (
    record d { items = rest; index = delete x.id1 d.index },
    ground (arith, one, h),
    (λ k.
        lookup-delete k x.id1 d.index
        ∙ ap (λ o. if x.id1 =b k then none else o) (indexed k)
        ∙ sym (last_item-cut_item k x d.items rest distinct refers h)),
    refl,
    one,
  )

  pub add_items-IsIndexed :
      (d : DataStore A) (items : List (Item A))
      → d.keys ≡ 1
      → IsIndexed d
      → (d' : DataStore A) × (add_items d (map ok items) ≡ ok (d', none))
        × IsIndexed d'
        × (d'.items ≡ d.items ++ items)
  unfolding add_items
  add_items-IsIndexed d [] one indexed = (d, refl, indexed, sym (append-nil d.items))
  add_items-IsIndexed d (x ∷ items) one indexed =
      let (d1, e1, indexed1, items1, one1) = add_item-IsIndexed d x one indexed in
      let (d2, e2, indexed2, items2) = add_items-IsIndexed d1 items one1 indexed1 in
      (
        d2,
        ap (λ r. r >>= λ d'. add_items d' (map ok items)) e1 ∙ e2,
        indexed2,
        items2 ∙ ap (λ l. l ++ items) items1 ∙ append_assoc d.items (x ∷ []) items,
      )

  -- `InsertData` of rows that are all accepted, into a table with one primary key: the store holds
  -- these rows in their order, and its index finds the last row of each name, whatever was there.
  pub insert_data-IsIndexed :
      (d : DataStore A) (items : List (Item A))
      → d.keys ≡ 1
      → (d' : DataStore A) × (insert_data d (map ok items) ≡ ok (d', none))
        × IsIndexed d'
        × (d'.items ≡ items)
  unfolding insert_data reset lookup last_item
  insert_data-IsIndexed d items one =
      let empty : DataStore A = record d { items = []; index = [] } in
      let start : IsIndexed empty = λ k. nothing k in
      let (d', e, indexed, held) = add_items-IsIndexed empty items one start in
      (d', ground (arith, one, e), indexed, held)
    where
      nothing : (k : Bytes) → lookup {A = Item A} k [] ≡ last_item k []
      nothing k = refl
