-- ===== src/Rows.antt =====
-- The values of a data row and their updates: `DataRow` of lmd/datarow.go with `UpdateValues`,
-- `UpdateValuesNumberOnly` and `CheckChangedIntValues`, for the values that a decoded answer has.
pub mod Places
pub mod Total
pub mod Unchanged
use lampd.Prelude.{
  ℕ, ◌-◌, Bool, true, false, not, ◌||◌, ◌&&◌, ◌+◌, Option, none, some, get_elem?, List, [], ◌∷◌,
  map, ltb, ◌==◌, length, drop, if◌then◌else◌,
}
use lampd.Prelude.Int.{ℤ, pos, eq_ℤ}
use lampd.Prelude.Bytes.{Bytes}
use lampd.Column.{
  Column, DataType, OptionalFlags, string_col, string_list_col, int_col, int64_col, int64_list_col,
  float_col, json_col, custom_var_col, service_member_list_col, interface_list_col,
  string_large_col, StorageType, local_store, ref_store, virtual_store,
}
use lampd.Platform.{Platform}
use lampd.Result.{Result, ok, err, ◌>>=◌, panic, size_mismatch, update_at}

abbrev pub is_local : StorageType → Bool
is_local local_store = true
is_local ref_store = false
is_local virtual_store = false

-- xs[i] = v
unfoldable pub put_at : {A : Type 0} → ℕ → A → List A → Result (List A)
unfolding update_at
put_at i v xs = update_at (λ old. ok v) i xs

abbrev pub map_option : {A B : Type 0} → (A → B) → Option A → Option B
map_option f none = none
map_option f (some a) = some (f a)

-- The switch of `CheckChangedIntValues`: the comparison of the data type, if it has one.
abbrev pub changed : DataType → Result Bool → Result Bool → Result Bool
changed int_col as_int as_int64 = as_int
changed int64_col as_int as_int64 = as_int64
changed k as_int as_int64 = ok false

-- a != b, for two values of which one may be out of range
abbrev pub differs : Option ℤ → Option ℤ → Result Bool
differs none b = err panic
differs (some a) none = err panic
differs (some a) (some b) = ok (not (eq_ℤ a b))

-- Is the column not stored in the row, or does the peer not have it?
unfoldable pub is_skipped : (OptionalFlags → Bool) → Column → Bool
is_skipped peer_has_flag col =
    not (is_local col.storage_type) || (not (col.optional == 0) && not (peer_has_flag col.optional))

module _ ⦃p : Platform⦄ where
  -- What djson decodes: nil, a bool, a float64, a string, or a list.
  mutual
    pub data Value : Type 0 where
      null : Value
      truth : Bool → Value
      number : p.Float → Value
      text : Bytes → Value
      list : Values → Value

    pub data Values : Type 0 where
      no_values : Values
      add_value : Value → Values → Values

  abbrev pub values : Values → List Value
  values no_values = []
  values (add_value v vs) = v ∷ values vs

  -- The values that strconv.ParseInt and ParseFloat return, with an error too, and fmt's %v.
  pub record Conversions : Type 0 where
    pub parse_int_value : Bytes → ℤ
    pub parse_float_value : Bytes → p.Float
    pub format_value : Value → Bytes

  -- `DataRow`; a StringContainer is the text that it holds.
  pub record DataRow : Type 0 where
    pub data_string : List Bytes
    pub data_int : List ℤ
    pub data_int64 : List ℤ
    pub data_float : List p.Float
    pub data_string_list : List (List Bytes)
    pub data_int64_list : List (List ℤ)
    pub data_service_member_list : List (List (Bytes × Bytes))
    pub data_string_large : List Bytes
    pub data_interface_list : List (List Value)
    pub last_update : ℕ

  -- The loop of an update, for the values behind the offset; `skips` is its `continue`.
  unfoldable pub store_all :
      (DataType → ℕ → Value → DataRow → Result DataRow)
      → (Column → Bool)
      → List Column
      → List Value
      → DataRow
      → Result DataRow
  store_all store skips [] fetched row = ok row
  store_all store skips (col ∷ columns) [] row = err panic
  store_all store skips (col ∷ columns) (v ∷ fetched) row =
      (if skips col then ok row else store col.data_type col.index v row) >>= λ row'.
      store_all store skips columns fetched row'

  module _ (c : Conversions) where
    unfoldable pub interface2float64 : Value → p.Float
    interface2float64 (number f) = f
    interface2float64 (truth b) = p.from_nat (if b then 1 else 0)
    interface2float64 (text s) = c.parse_float_value s
    interface2float64 v = c.parse_float_value (c.format_value v)

    -- `interface2int` and `interface2int64`; the latter formats a false and gets 0 from "false".
    unfoldable pub interface2int : Value → ℤ
    interface2int (number f) = p.truncate f
    interface2int (truth b) = pos (if b then 1 else 0)
    interface2int (text s) = c.parse_int_value s
    interface2int v = c.parse_int_value (c.format_value v)

    unfoldable pub interface2int64 : Value → ℤ
    interface2int64 (number f) = p.truncate f
    interface2int64 (truth true) = pos 1
    interface2int64 (text s) = c.parse_int_value s
    interface2int64 v = c.parse_int_value (c.format_value v)

    unfoldable pub interface2string : Value → Bytes
    interface2string (text s) = s
    interface2string null = []
    interface2string v = c.format_value v

    -- A number is never equal to the int 0 that the code compares it with.
    unfoldable pub interface2stringlist : Value → List Bytes
    unfolding interface2string
    interface2stringlist (number f) = interface2string (number f) ∷ []
    interface2stringlist (text []) = []
    interface2stringlist (text (b ∷ s)) = (b ∷ s) ∷ []
    interface2stringlist (list vs) = map interface2string (values vs)
    interface2stringlist v = []

    unfoldable pub interface2int64list : Value → List ℤ
    unfolding interface2int64
    interface2int64list (list vs) = map interface2int64 (values vs)
    interface2int64list v = []

    -- One element of the list of `interface2servicememberlist`.
    unfoldable pub service_member : Value → Bytes × Bytes
    unfolding interface2string
    service_member (list (add_value a (add_value b no_values))) =
        (interface2string a, interface2string b)
    service_member v = ([], [])

    unfoldable pub interface2servicememberlist : Value → List (Bytes × Bytes)
    unfolding service_member
    interface2servicememberlist (list vs) = map service_member (values vs)
    interface2servicememberlist v = []

    unfoldable pub interface2interfacelist : Value → List Value
    interface2interfacelist (list vs) = values vs
    interface2interfacelist v = []

    -- The switch of `UpdateValues` on the data type of a column, for its place in the row.
    unfoldable pub store_value : DataType → ℕ → Value → DataRow → Result DataRow
    unfolding put_at interface2string interface2stringlist interface2int interface2int64
        interface2int64list interface2float64 interface2servicememberlist interface2interfacelist
    store_value string_col i v row =
        put_at i (interface2string v) row.data_string >>= λ xs. ok (record row { data_string = xs })
    store_value string_list_col i v row =
        put_at i (interface2stringlist v) row.data_string_list >>= λ xs.
        ok (record row { data_string_list = xs })
    store_value string_large_col i v row =
        put_at i (interface2string v) row.data_string_large >>= λ xs.
        ok (record row { data_string_large = xs })
    store_value int_col i v row =
        put_at i (interface2int v) row.data_int >>= λ xs. ok (record row { data_int = xs })
    store_value int64_col i v row =
        put_at i (interface2int64 v) row.data_int64 >>= λ xs. ok (record row { data_int64 = xs })
    store_value int64_list_col i v row =
        put_at i (interface2int64list v) row.data_int64_list >>= λ xs.
        ok (record row { data_int64_list = xs })
    store_value float_col i v row =
        put_at i (interface2float64 v) row.data_float >>= λ xs. ok (record row { data_float = xs })
    store_value service_member_list_col i v row =
        put_at i (interface2servicememberlist v) row.data_service_member_list >>= λ xs.
        ok (record row { data_service_member_list = xs })
    store_value interface_list_col i v row =
        put_at i (interface2interfacelist v) row.data_interface_list >>= λ xs.
        ok (record row { data_interface_list = xs })
    store_value json_col i v row = err panic
    store_value custom_var_col i v row = err panic

    -- The switch of `UpdateValuesNumberOnly`.
    unfoldable pub store_number : DataType → ℕ → Value → DataRow → Result DataRow
    unfolding store_value
    store_number int_col i v row = store_value int_col i v row
    store_number int64_col i v row = store_value int64_col i v row
    store_number int64_list_col i v row = store_value int64_list_col i v row
    store_number float_col i v row = store_value float_col i v row
    store_number interface_list_col i v row = store_value interface_list_col i v row
    store_number k i v row = ok row

    -- `UpdateValues` at the time `now`
    unfoldable pub update_values :
        (OptionalFlags → Bool) → ℕ → ℕ → List Value → List Column → ℕ → DataRow → Result DataRow
    unfolding store_all store_value is_skipped
    update_values peer_has_flag now offset fetched columns timestamp row =
        if length columns + offset == length fetched
        then (store_all store_value (is_skipped peer_has_flag) columns (drop offset fetched) row
            >>= λ row'.
                ok (record row' { last_update = if timestamp == 0 then now else timestamp }))
        else err size_mismatch

    -- `UpdateValuesNumberOnly`
    unfoldable pub update_values_number_only :
        ℕ → List Value → List Column → ℕ → DataRow → Result DataRow
    unfolding store_all store_number
    update_values_number_only offset fetched columns timestamp row =
        if length columns + offset == length fetched
        then (store_all store_number (λ col. false) columns (drop offset fetched) row >>= λ row'.
            ok (record row' { last_update = timestamp }))
        else err size_mismatch

    -- The loop of `CheckChangedIntValues`, for the values behind the offset.
    unfoldable pub check_columns : List Column → List Value → DataRow → Result Bool
    unfolding interface2int interface2int64 eq_ℤ
    check_columns [] fetched row = ok false
    check_columns (col ∷ columns) fetched row =
        let rest = check_columns columns (drop 1 fetched) row in
        let as_int =
          differs (map_option interface2int (get_elem? fetched 0))
            (get_elem? row.data_int col.index) in
        let as_int64 =
          differs (map_option interface2int64 (get_elem? fetched 0))
            (get_elem? row.data_int64 col.index) in
        changed col.data_type as_int as_int64 >>= λ b. if b then ok true else rest

    -- `CheckChangedIntValues`
    unfoldable pub check_changed_int_values : ℕ → List Value → List Column → DataRow → Result Bool
    unfolding check_columns
    check_changed_int_values offset fetched columns row =
        check_columns columns (drop offset fetched) row
