-- ===== src/Rows/Unchanged.antt =====
-- An update of a data row leaves no difference that `CheckChangedIntValues` sees (lmd/datarow.go).
use lampd.Prelude.{
  ℕ, ◌+◌, ◌≡◌, refl, sym, ap, ◌∙◌, inl, inr, Bool, true, false, Option, some, get_elem?, List, [],
  ◌∷◌, arith, ◌==◌, length, drop, if◌then◌else◌, Bool-cases,
}
use lampd.Prelude.Int.{ℤ, eq_ℤ_iff}
use lampd.Column.{Column, DataType, OptionalFlags, int_col, int64_col}
use lampd.Platform.{Platform}
use lampd.Rows.{
  Value, Conversions, DataRow, store_value, store_all, is_skipped, update_values, differs,
  map_option, changed, check_columns, check_changed_int_values, interface2int, interface2int64,
}
use lampd.Result.{Result, ok, ◌>>=◌, bind_ok}
use lampd.Rows.Places.{
  is_int, is_int64, clash, clashes, are_stored, store_value-int_other, store_value-int64_other,
  store_value-int_self, store_value-int64_self,
}
use lampd.Rows.Total.{have_places, update_values-returns}

module _ ⦃p : Platform⦄ (c : Conversions) where
  module _ (skips : Column → Bool) where
    -- The step of the loop for the first column.
    abbrev step : Column → Value → DataRow → Result DataRow
    step col v row = if skips col then ok row else store_value c col.data_type col.index v row

    store_all_inv :
        (col : Column) (columns : List Column) (v : Value) (fetched : List Value)
        (row row' : DataRow)
        → store_all (store_value c) skips (col ∷ columns) (v ∷ fetched) row ≡ ok row'
        → (row1 : DataRow) × (step col v row ≡ ok row1)
          × (store_all (store_value c) skips columns fetched row1 ≡ ok row')
    unfolding store_all
    store_all_inv col columns v fetched row row' e =
        bind_ok (step col v row) (λ r. store_all (store_value c) skips columns fetched r)
          {end = row'} e

    step-other :
        (col a : Column) (v : Value) (row row1 : DataRow)
        → step col v row ≡ ok row1
        → clash col a ≡ false
        → (is_int a.data_type ≡ true
            → get_elem? row1.data_int a.index ≡ get_elem? row.data_int a.index)
          × (is_int64 a.data_type ≡ true
              → get_elem? row1.data_int64 a.index ≡ get_elem? row.data_int64 a.index)
    step-other col a v row row1 e apart = elim (Bool-cases (skips col)) [
      | inl skipped ↦
          let same : row ≡ row1 = ground (arith, skipped, e) in
          (
            (λ t. ap (λ (r : DataRow). get_elem? r.data_int a.index) (sym same)),
            λ t. ap (λ (r : DataRow). get_elem? r.data_int64 a.index) (sym same),
          )
      | inr kept ↦
          let stored : store_value c col.data_type col.index v row ≡ ok row1 =
            ground (arith, kept, e) in
          (
            (λ t.
                store_value-int_other c col.data_type col.index a.index v row row1 stored
                  (ground (arith, t, apart))),
            λ t.
                store_value-int64_other c col.data_type col.index a.index v row row1 stored
                  (ground (arith, t, apart)),
          )
    ]

    store_all-other :
        (a : Column) (columns : List Column) (fetched : List Value) (row row' : DataRow)
        → store_all (store_value c) skips columns fetched row ≡ ok row'
        → clashes a columns ≡ false
        → (is_int a.data_type ≡ true
            → get_elem? row'.data_int a.index ≡ get_elem? row.data_int a.index)
          × (is_int64 a.data_type ≡ true
              → get_elem? row'.data_int64 a.index ≡ get_elem? row.data_int64 a.index)
    unfolding store_all
    store_all-other a [] fetched row row' e apart =
        let same : row ≡ row' = ground (arith, e) in
        (
          (λ t. ap (λ (r : DataRow). get_elem? r.data_int a.index) (sym same)),
          λ t. ap (λ (r : DataRow). get_elem? r.data_int64 a.index) (sym same),
        )
    store_all-other a (col ∷ columns) [] row row' e apart = absurd (cc)
    store_all-other a (col ∷ columns) (v ∷ fetched) row row' e apart =
        let (row1, e1, e2) = store_all_inv col columns v fetched row row' e in
        let (first_int, first_int64) = step-other col a v row row1 e1 (ground (arith, apart)) in
        let (later_int, later_int64) =
          store_all-other a columns fetched row1 row' e2 (ground (arith, apart)) in
        ((λ t. later_int t ∙ first_int t), λ t. later_int64 t ∙ first_int64 t)

    no_difference : (z : ℤ) (a b : Option ℤ) → a ≡ some z → b ≡ some z → differs a b ≡ ok false
    no_difference z a b e f = let same = (eq_ℤ_iff z z).1 refl in ground (arith, e, f, same)

    not_changed :
        (k : DataType) (as_int as_int64 : Result Bool)
        → (is_int k ≡ true → as_int ≡ ok false)
        → (is_int64 k ≡ true → as_int64 ≡ ok false)
        → changed k as_int as_int64 ≡ ok false
    not_changed int_col a b h i = h refl
    not_changed int64_col a b h i = i refl
    not_changed _ a b h i = refl

    store_all-check_columns :
        (columns : List Column) (fetched : List Value) (row row' : DataRow)
        → store_all (store_value c) skips columns fetched row ≡ ok row'
        → are_stored skips columns ≡ true
        → check_columns c columns fetched row' ≡ ok false
    unfolding check_columns store_all
    store_all-check_columns [] fetched row row' e stored = refl
    store_all-check_columns (col ∷ columns) [] row row' e stored = absurd (cc)
    store_all-check_columns (col ∷ columns) (v ∷ fetched) row row' e stored =
        let (row1, e1, e2) = store_all_inv col columns v fetched row row' e in
        let kept : store_value c col.data_type col.index v row ≡ ok row1 =
          ground (arith, e1, stored) in
        let (same_int, same_int64) =
          store_all-other col columns fetched row1 row' e2 (ground (arith, stored)) in
        let rest = store_all-check_columns columns fetched row1 row' e2 (ground (arith, stored)) in
        let here =
          not_changed col.data_type
            (differs (some (interface2int c v)) (get_elem? row'.data_int col.index))
            (differs (some (interface2int64 c v)) (get_elem? row'.data_int64 col.index))
            (λ t.
              no_difference (interface2int c v) _ _ refl
                (same_int t ∙ store_value-int_self c col.data_type col.index v row row1 kept t))
            (λ t. no_difference (interface2int64 c v) _ _ refl (
              same_int64 t ∙ store_value-int64_self c col.data_type col.index v row row1 kept t)) in
        ap (λ r. r >>= λ b. if b then ok true else check_columns c columns fetched row') here ∙ rest

  check_columns-time :
      (columns : List Column) (fetched : List Value) (row : DataRow) (t : ℕ)
      → check_columns c columns fetched (record row { last_update = t })
        ≡ check_columns c columns fetched row
  unfolding check_columns
  check_columns-time [] fetched row t = refl
  check_columns-time (col ∷ columns) fetched row t =
      ap
        (λ rest.
          changed col.data_type
            (differs (map_option (interface2int c) (get_elem? fetched 0))
              (get_elem? row.data_int col.index))
            (differs (map_option (interface2int64 c) (get_elem? fetched 0))
              (get_elem? row.data_int64 col.index))
          >>= λ b. if b then ok true else rest)
        (check_columns-time columns (drop 1 fetched) row t)

  updated-unchanged :
      (peer_has_flag : OptionalFlags → Bool) (now offset timestamp : ℕ) (fetched : List Value)
      (columns : List Column) (row row' : DataRow)
      → are_stored (is_skipped peer_has_flag) columns ≡ true
      → update_values c peer_has_flag now offset fetched columns timestamp row ≡ ok row'
      → check_changed_int_values c offset fetched columns row' ≡ ok false
  unfolding update_values check_changed_int_values
  updated-unchanged peer_has_flag now offset timestamp fetched columns row row' stored e =
      elim (Bool-cases (length columns + offset == length fetched)) [
        | inl fits ↦
            let (row1, e1, e2) =
              bind_ok
                (store_all (store_value c) (is_skipped peer_has_flag) columns (drop offset fetched)
                  row)
                finished {end = row'} (ground (arith, fits, e)) in
            let t = if timestamp == 0 then now else timestamp in
            let made : record row1 { last_update = t } ≡ row' = ground (arith, e2) in
            let same =
              ap (check_columns c columns (drop offset fetched)) (sym made)
              ∙ check_columns-time columns (drop offset fetched) row1 t in
            same
            ∙ store_all-check_columns (is_skipped peer_has_flag) columns (drop offset fetched) row
                row1 e1 stored
        | inr short ↦ absurd (ground (arith, short, e))
      ]
    where
      finished : DataRow → Result DataRow
      finished r = ok (record r { last_update = if timestamp == 0 then now else timestamp })

  -- If the answer has a value for each column, and each column is stored at a place of the row, the
  -- int columns at different places, then `UpdateValues` succeeds, and `CheckChangedIntValues` finds
  -- no difference to the same values.
  pub update_values-check_changed_int_values :
      (peer_has_flag : OptionalFlags → Bool) (now offset timestamp : ℕ) (fetched : List Value)
      (columns : List Column) (row : DataRow)
      → (length columns + offset == length fetched) ≡ true
      → are_stored (is_skipped peer_has_flag) columns ≡ true
      → have_places row columns ≡ true
      → (row' : DataRow) × (update_values c peer_has_flag now offset fetched columns timestamp row
          ≡ ok row')
        × (check_changed_int_values c offset fetched columns row' ≡ ok false)
  update_values-check_changed_int_values peer_has_flag now offset timestamp fetched columns row fits
        stored places =
      let (row', e) =
        update_values-returns c peer_has_flag now offset timestamp fetched columns row fits
          places in
      (
        row',
        e,
        updated-unchanged peer_has_flag now offset timestamp fetched columns row row' stored e,
      )
