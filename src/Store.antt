-- ===== src/Store.antt =====
-- The rows of one table of a peer and their indexes: `DataStore` of lmd/datastore.go.
-- The primary key values of a row, which `GetID` and `GetID2` read, are fields of `Item`.
pub mod Index
pub mod Held
pub mod Prefilter
use lampd.Prelude.{
  ℕ, zero, suc, ◌+◌, Bool, true, false, Option, none, some, List, [], ◌∷◌, ◌++◌, ◌==◌,
  if◌then◌else◌,
}
use lampd.Prelude.Bytes.{Bytes, codes, ◌=b◌, cut}
use lampd.Prelude.Dict.{Dict, lookup, insert, delete}
use lampd.Column.{TableName, services}
use lampd.Result.{Error, Result, ok, err, ◌>>=◌, panic}

-- A `*DataRow`: its address, its primary key values, and what else the row holds.
pub record Item (A : Type 0) : Type 0 where
  pub ref : ℕ
  pub id1 : Bytes
  pub id2 : Bytes
  pub row : A

pub record DataStore (A : Type 0) : Type 0 where
  -- len(Table.PrimaryKey)
  pub keys : ℕ
  -- Data
  pub items : List (Item A)
  pub index : Dict (Item A)
  pub index2 : Dict (Dict (Item A))

module _ {A : Type 0} where
  -- NewDataStore, for a table with `keys` primary keys
  abbrev pub new_data_store : ℕ → DataStore A
  new_data_store keys = record { keys = keys; items = []; index = []; index2 = [] }

  abbrev pub or_new : Option (Dict (Item A)) → Dict (Item A)
  or_new none = []
  or_new (some m) = m

  -- The switch of `InsertItem` and `AddItem`.
  unfoldable pub index_item : DataStore A → Item A → Result (DataStore A)
  unfolding lookup insert
  index_item d item =
      if d.keys == 0
      then ok d
      else if d.keys == 1
      then ok (record d { index = insert item.id1 item d.index })
      else if d.keys == 2
      then ok (record d {
        index2 =
            insert item.id1 (insert item.id2 item (or_new (lookup item.id1 d.index2))) d.index2;
      })
      else err panic

  -- `AddItem`
  unfoldable pub add_item : DataStore A → Item A → Result (DataStore A)
  unfolding index_item
  add_item d item = index_item (record d { items = d.items ++ item ∷ [] }) item

  -- The loop of `RemoveItem` over the data, for the address of the item; `none` if it is not there.
  unfoldable pub cut_item : ℕ → List (Item A) → Option (List (Item A))
  cut_item ref [] = none
  cut_item ref (x ∷ items) =
      let rest = cut_item ref items in
      if x.ref == ref then some items else elim rest [ none ↦ none | some r ↦ some (x ∷ r) ]

  -- The switch of `RemoveItem`
  unfoldable pub unindex_item : DataStore A → Item A → Result (DataStore A)
  unfolding delete
  unindex_item d item =
      if d.keys == 0
      then ok d
      else if d.keys == 1
      then ok (record d { index = delete item.id1 d.index })
      else err panic

  -- `RemoveItem`
  unfoldable pub remove_item : DataStore A → Item A → Result (DataStore A)
  unfolding unindex_item cut_item
  remove_item d item = do
    d' ← unindex_item d item
    elim (cut_item item.ref d'.items) [
      | none ↦ err panic
      | some items ↦ ok (record d' { items = items })
    ]

  -- The loops of `InsertData` and `AppendData` over the results of NewDataRow: the store they
  -- leave, and the error they return.
  unfoldable pub add_items :
      DataStore A → List (Result (Item A)) → Result (DataStore A × Option Error)
  unfolding add_item
  add_items d [] = ok (d, none)
  add_items d (err e ∷ rows) = ok (d, some e)
  add_items d (ok item ∷ rows) = add_item d item >>= λ d'. add_items d' rows

  -- The switch at the start of `InsertData`, and the new data.
  unfoldable pub reset : DataStore A → Result (DataStore A)
  reset d =
      let fresh = record d { items = [] } in
      if d.keys == 0
      then ok fresh
      else if d.keys == 1
      then ok (record fresh { index = [] })
      else if d.keys == 2
      then ok (record fresh { index2 = [] })
      else err panic

  -- `InsertData`; the positions of the new data are filled from the first one on. The nil rows that
  -- stay behind the row of an error are left out.
  unfoldable pub insert_data :
      DataStore A → List (Result (Item A)) → Result (DataStore A × Option Error)
  unfolding reset add_items
  insert_data d rows = reset d >>= λ d'. add_items d' rows

  -- `AppendData`; the index is never nil, since `NewDataStore` makes it.
  unfoldable pub append_data :
      DataStore A → List (Result (Item A)) → Result (DataStore A × Option Error)
  unfolding add_items
  append_data d rows = add_items d rows

  -- d.Index2[id1][id2]; a missing map has no entries
  unfoldable pub lookup2 : Bytes → Bytes → Dict (Dict (Item A)) → Option (Item A)
  unfolding lookup
  lookup2 id1 id2 m = lookup id2 (or_new (lookup id1 m))

  -- `GetWaitObject`; a service object without a semicolon panics
  unfoldable pub get_wait_object : DataStore A → TableName → Bytes → Result (Option (Item A))
  unfolding lookup2 cut
  get_wait_object d services object =
      let (host, rest) = cut b';' object in
      elim rest [ none ↦ err panic | some service ↦ ok (lookup2 host service d.index2) ]
  get_wait_object d _ object = ok (lookup object d.index)
