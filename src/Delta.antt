-- ===== src/Delta.antt =====
-- Delta updates of a peer's tables: `composeTimestampFilter`, `UpdateDeltaCommentsOrDowntimes` and
-- `maxIDOrSizeChanged` of lmd/datastoreset.go.
pub mod Timestamps
pub mod Ids
pub mod Remarks
pub mod Comments
use lampd.Prelude.{
  ℕ, zero, suc, ◌+◌, ◌-◌, Bool, true, false, not, ◌&&◌, ◌||◌, Option, none, some, List, [], ◌∷◌,
  ◌++◌, map, ltb, ◌==◌, length, if◌then◌else◌,
}
use lampd.Prelude.Int.{ℤ, pos, negsuc, ◌-ℤ◌, eq_ℤ}
use lampd.Prelude.Bytes.{Bytes, codes, show_int, ◌=b◌}
use lampd.Prelude.Dict.{Dict, lookup}
use lampd.Platform.{Platform}
use lampd.Result.{Error, Result, ok, err, ◌>>=◌}
use lampd.Store.{Item, DataStore, remove_item, append_data}

-- The blocks that the loop of `composeTimestampFilter` finds, from a block on; -1 is its start if
-- there is none.
unfoldable pub timestamp_blocks : ℤ → ℤ → List ℤ → List (ℤ × ℤ)
timestamp_blocks start end [] = if eq_ℤ start (negsuc 0) then [] else (start, end) ∷ []
timestamp_blocks start end (ts ∷ timestamps) =
    let fresh = timestamp_blocks ts ts timestamps in
    let longer = timestamp_blocks start ts timestamps in
    if eq_ℤ start (negsuc 0)
    then fresh
    else if eq_ℤ end (ts -ℤ pos 1)
    then longer
    else (start, end) ∷ fresh

-- fmt.Sprintf("Filter: %s <op> %d\n", attribute, value)
unfoldable pub filter_line : Bytes → Bytes → ℤ → Bytes
filter_line attribute op value =
    codes "Filter: " ++ attribute ++ codes " " ++ op ++ codes " " ++ show_int value ++ codes "\n"

unfoldable pub block_text : Bytes → ℤ × ℤ → Bytes
unfolding filter_line
block_text attribute (start, end) =
    if eq_ℤ start end
    then filter_line attribute (codes "=") start
    else filter_line attribute (codes ">=") start
      ++ filter_line attribute (codes "<=") end
      ++ codes "And: 2\n"

-- `composeTimestampFilter`
unfoldable pub compose_timestamp_filter : List ℤ → Bytes → List Bytes
unfolding timestamp_blocks block_text
compose_timestamp_filter timestamps attribute =
    let filter = map (block_text attribute) (timestamp_blocks (negsuc 0) (negsuc 0) timestamps) in
    if ltb 1 (length filter)
    then filter ++ (codes "Or: " ++ show_int (pos (length filter)) ++ codes "\n") ∷ []
    else filter

-- resIndex[id]
unfoldable pub is_remote_id : Bytes → List ℤ → Bool
is_remote_id key [] = false
is_remote_id key (id ∷ ids) = (show_int id =b key) || is_remote_id key ids

module _ {A : Type 0} where
  -- The loop of `UpdateDeltaCommentsOrDowntimes` over the ids of the remote site: the missing ones.
  unfoldable pub missing_ids : Dict (Item A) → List ℤ → List ℤ
  unfolding lookup
  missing_ids index [] = []
  missing_ids index (id ∷ ids) =
      let rest = missing_ids index ids in
      elim (lookup (show_int id) index) [ none ↦ id ∷ rest | some x ↦ rest ]

  -- The loop that removes the items of the index that the remote site does not list.
  unfoldable pub remove_unlisted : List ℤ → Dict (Item A) → DataStore A → Result (DataStore A)
  unfolding is_remote_id remove_item
  remove_unlisted ids [] d = ok d
  remove_unlisted ids ((key, x) ∷ index) d =
      (if is_remote_id key ids then ok d else remove_item d x) >>= λ d'.
      remove_unlisted ids index d'

  -- `UpdateDeltaCommentsOrDowntimes` on the store, behind the query of the ids; `fetch` is the rows
  -- that the query for the missing ids and NewDataRow give.
  unfoldable pub update_delta_ids :
      (List ℤ → List (Result (Item A))) → List ℤ → DataStore A → Result (DataStore A × Option Error)
  unfolding missing_ids remove_unlisted append_data
  update_delta_ids fetch ids d =
      let missing = missing_ids d.index ids in
      remove_unlisted ids d.index d >>= λ d'.
      if ltb 0 (length missing) then append_data d' (fetch missing) else ok (d', none)

  -- The id of the last row, or 0.
  abbrev pub last_id : (Item A → ℕ) → List (Item A) → ℕ
  last_id id [] = 0
  last_id id (x ∷ []) = id x
  last_id id (x ∷ y ∷ items) = last_id id (y ∷ items)

  -- `maxIDOrSizeChanged` for the answer of the query, a count and a maximum, if it has a row.
  unfoldable pub max_id_or_size_changed :
      ⦃p : Platform⦄ → (Item A → ℕ) → Option (p.Float × p.Float) → List (Item A) → Bool
  max_id_or_size_changed id none items = false
  max_id_or_size_changed ⦃p = p⦄ id (some (count, max_id)) items = not (
      p.float_eq (p.from_nat (length items)) count
      && (length items == 0 || p.float_eq max_id (p.from_nat (last_id id items))))
