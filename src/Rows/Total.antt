-- ===== src/Rows/Total.antt =====
-- `UpdateValues` (lmd/datarow.go) succeeds on columns that have a place in the row.
use lampd.Prelude.{
  ℕ, zero, suc, ◌+◌, ◌≡◌, refl, sym, ap, ◌∙◌, inl, inr, Bool, true, ◌&&◌, List, [], ◌∷◌, arith,
  ◌==◌, ==_iff, length, drop, if◌then◌else◌, Bool-cases, ltb, tests, length-drop,
}
use lampd.Column.{
  Column, DataType, OptionalFlags, string_col, string_list_col, int_col, int64_col, int64_list_col,
  float_col, json_col, custom_var_col, service_member_list_col, interface_list_col,
  string_large_col,
}
use lampd.Platform.{Platform}
use lampd.Rows.{
  Value, Conversions, DataRow, put_at, store_value, store_all, is_skipped, update_values,
}
use lampd.Result.{ok, ◌>>=◌, update_at}

-- The number of values of a data type that a row has: `DataSizes`.
module _ ⦃p : Platform⦄ where
  unfoldable pub size : DataType → DataRow → ℕ
  size string_col row = length row.data_string
  size string_list_col row = length row.data_string_list
  size string_large_col row = length row.data_string_large
  size int_col row = length row.data_int
  size int64_col row = length row.data_int64
  size int64_list_col row = length row.data_int64_list
  size float_col row = length row.data_float
  size service_member_list_col row = length row.data_service_member_list
  size interface_list_col row = length row.data_interface_list
  size json_col row = 0
  size custom_var_col row = 0

  -- Each column has a place in the row.
  unfoldable pub have_places : DataRow → List Column → Bool
  unfolding size
  have_places row [] = true
  have_places row (col ∷ columns) =
      ltb col.index (size col.data_type row) && have_places row columns

  put_at-returns :
      {A : Type 0} (i : ℕ) (v : A) (xs : List A)
      → ltb i (length xs) ≡ true
      → (ys : List A) × (put_at i v xs ≡ ok ys) × (length ys ≡ length xs)
  unfolding put_at update_at
  put_at-returns i v [] h = absurd (omega (tests, h))
  put_at-returns zero v (x ∷ xs) h = (v ∷ xs, refl, refl)
  put_at-returns (suc i) v (x ∷ xs) h =
      let (ys, e, len) = put_at-returns i v xs (ground (arith, h)) in
      (x ∷ ys, ap (λ r. r >>= λ l. ok (x ∷ l)) e, ap suc len)

  -- The step behind `put_at`: it returns a row with the same sizes.
  filled :
      {A : Type 0} (i : ℕ) (v : A) (xs : List A) (make : List A → DataRow) (row : DataRow)
      → ltb i (length xs) ≡ true
      → ((ys : List A) → length ys ≡ length xs → (k : DataType) → size k (make ys) ≡ size k row)
      → (row' : DataRow) × ((put_at i v xs >>= λ ys. ok (make ys)) ≡ ok row')
        × ((k : DataType) → size k row' ≡ size k row)
  filled i v xs make row h same =
      let (ys, e, len) = put_at-returns i v xs h in
      (make ys, ap (λ r. r >>= λ l. ok (make l)) e, same ys len)

  module _ (c : Conversions) where
    store_value-returns :
        (k : DataType) (i : ℕ) (v : Value) (row : DataRow)
        → ltb i (size k row) ≡ true
        → (row' : DataRow) × (store_value c k i v row ≡ ok row')
          × ((k : DataType) → size k row' ≡ size k row)
    unfolding store_value size
    store_value-returns string_col i v row h =
        filled i _ row.data_string _ row h (λ ys len k. ground (arith, len))
    store_value-returns string_list_col i v row h =
        filled i _ row.data_string_list _ row h (λ ys len k. ground (arith, len))
    store_value-returns string_large_col i v row h =
        filled i _ row.data_string_large _ row h (λ ys len k. ground (arith, len))
    store_value-returns int_col i v row h =
        filled i _ row.data_int _ row h (λ ys len k. ground (arith, len))
    store_value-returns int64_col i v row h =
        filled i _ row.data_int64 _ row h (λ ys len k. ground (arith, len))
    store_value-returns int64_list_col i v row h =
        filled i _ row.data_int64_list _ row h (λ ys len k. ground (arith, len))
    store_value-returns float_col i v row h =
        filled i _ row.data_float _ row h (λ ys len k. ground (arith, len))
    store_value-returns service_member_list_col i v row h =
        filled i _ row.data_service_member_list _ row h (λ ys len k. ground (arith, len))
    store_value-returns interface_list_col i v row h =
        filled i _ row.data_interface_list _ row h (λ ys len k. ground (arith, len))
    store_value-returns json_col i v row h = absurd (omega (tests, h))
    store_value-returns custom_var_col i v row h = absurd (omega (tests, h))

    have_places-same :
        (row row' : DataRow) (columns : List Column)
        → ((k : DataType) → size k row' ≡ size k row)
        → have_places row' columns ≡ have_places row columns
    unfolding have_places
    have_places-same row row' [] same = refl
    have_places-same row row' (col ∷ columns) same =
        ap (λ n. ltb col.index n && have_places row' columns) (same col.data_type)
        ∙ ap (λ b. ltb col.index (size col.data_type row) && b)
            (have_places-same row row' columns same)

    store_all-returns :
        (skips : Column → Bool) (columns : List Column) (fetched : List Value) (row : DataRow)
        → length columns ≡ length fetched
        → have_places row columns ≡ true
        → (row' : DataRow) × (store_all (store_value c) skips columns fetched row ≡ ok row')
    unfolding store_all have_places
    store_all-returns skips [] fetched row same places = (row, refl)
    store_all-returns skips (col ∷ columns) [] row same places = absurd (omega arith)
    store_all-returns skips (col ∷ columns) (v ∷ fetched) row same places =
        elim (Bool-cases (skips col)) [
          | inl skipped ↦
              let (row', e) =
                store_all-returns skips columns fetched row (omega (arith, same))
                  (ground (arith, places)) in
              (row', ground (arith, skipped, e))
          | inr kept ↦
              let (row1, e1, sizes) =
                store_value-returns col.data_type col.index v row (ground (arith, places)) in
              let later : have_places row1 columns ≡ true =
                have_places-same row row1 columns sizes ∙ ground (arith, places) in
              let (row', e) =
                store_all-returns skips columns fetched row1 (omega (arith, same)) later in
              (row', ground (arith, kept, e1, e))
        ]

    pub update_values-returns :
        (peer_has_flag : OptionalFlags → Bool) (now offset timestamp : ℕ) (fetched : List Value)
        (columns : List Column) (row : DataRow)
        → (length columns + offset == length fetched) ≡ true
        → have_places row columns ≡ true
        → (row' : DataRow) × (update_values c peer_has_flag now offset fetched columns timestamp row
            ≡ ok row')
    unfolding update_values
    update_values-returns peer_has_flag now offset timestamp fetched columns row fits places =
        let size_fits = (==_iff (length columns + offset) (length fetched)).0 fits in
        let (row', e) =
          store_all-returns (is_skipped peer_has_flag) columns (drop offset fetched) row
            (sym (length-drop offset fetched ∙ omega (arith, size_fits))) places in
        (
          record row' { last_update = if timestamp == 0 then now else timestamp },
          ground (arith, fits, e),
        )
