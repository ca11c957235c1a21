-- ===== src/Request.antt =====
-- The livestatus request of lmd/request.go: its fields, the header lines, and the order of the
-- result. Fields that hold run time objects (the result of a stats query, the maps of backends)
-- are not here.
pub mod Header
pub mod Reader
use lampd.Prelude.{
  ℕ, zero, suc, ◌+◌, Bool, true, false, ◌&&◌, Option, none, some, List, [], ◌∷◌, ◌++◌, ltb, length,
  if◌then◌else◌,
}
use lampd.Prelude.Int.{ℤ, pos, negsuc}
use lampd.Prelude.Bytes.{Bytes, codes, ◌=b◌}
use lampd.Column.{
  Column, TableName, none_table, hosts, services, Table, Schema, get_column_with_fallback,
}
use lampd.Filter.{Filter}
use lampd.Platform.{Platform}
use lampd.Result.{Result, ok, err, ◌>>=◌, panic, unknown_sort_column}

pub data SortDirection : Type 0 where
  asc desc : SortDirection

pub data OutputFormat : Type 0 where
  default_format json wrapped_json python : OutputFormat

pub record SortField : Type 0 where
  pub name : Bytes
  pub direction : SortDirection
  pub args : Bytes
  pub column : Option Column

module _ ⦃p : Platform⦄ where
  pub record Request : Type 0 where
    pub table : TableName
    pub command : Bytes
    pub columns : List Bytes
    pub request_columns : List Column
    pub filter : List Filter
    pub stats : List Filter
    pub limit : Option ℕ
    pub offset : ℕ
    pub sort : List SortField
    pub response_fixed16 : Bool
    pub output_format : OutputFormat
    pub backends : List Bytes
    pub columns_headers : Bool
    pub wait_timeout : ℕ
    pub wait_trigger : Bytes
    pub wait_condition : List Filter
    pub wait_object : Bytes
    pub wait_condition_negate : Bool
    pub keep_alive : Bool
    pub auth_user : Bytes
    -- the address of the next empty column
    pub fresh : ℕ

  -- &Request{}
  abbrev pub new_fields : Request
  new_fields = record {
    table = none_table;
    command = [];
    columns = [];
    request_columns = [];
    filter = [];
    stats = [];
    limit = none;
    offset = 0;
    sort = [];
    response_fixed16 = false;
    output_format = default_format;
    backends = [];
    columns_headers = false;
    wait_timeout = 0;
    wait_trigger = [];
    wait_condition = [];
    wait_object = [];
    wait_condition_negate = false;
    keep_alive = false;
    auth_user = [];
    fresh = 0;
  }

  abbrev is_asc : SortField → Bytes → Bool
  is_asc s name = s.name =b name && elim s.direction [ asc ↦ true | desc ↦ false ]

  -- The switch of `IsDefaultSortOrder`
  unfoldable pub is_default_sort : TableName → List SortField → Bool
  unfolding ◌=b◌
  is_default_sort _ [] = true
  is_default_sort services (a ∷ b ∷ []) =
      is_asc a (codes "host_name") && is_asc b (codes "description")
  is_default_sort hosts (a ∷ []) = is_asc a (codes "name")
  is_default_sort _ _ = false

  -- `IsDefaultSortOrder`
  unfoldable pub is_default_sort_order : Request → Bool
  unfolding is_default_sort
  is_default_sort_order req = is_default_sort req.table req.sort

  -- `optimizeResultLimit`; `none` is -1.
  unfoldable pub optimize_result_limit : Request → Option ℕ
  optimize_result_limit req = elim req.limit [
    | none ↦ none
    | some limit ↦ if is_default_sort_order req then some (limit + req.offset) else none
  ]

  unfoldable pub fallback_columns : Table → ℕ → List Bytes → List Column
  unfolding get_column_with_fallback
  fallback_columns t fresh [] = []
  fallback_columns t fresh (name ∷ names) =
      get_column_with_fallback t fresh name ∷ fallback_columns t (fresh + 1) names

  abbrev is_none {ℓ} : {A : Type ℓ} → List A → Bool
  is_none [] = true
  is_none (x ∷ xs) = false

  -- `SetRequestColumns` of a request that is no command
  unfoldable pub set_request_columns : Schema → Request → Result Request
  unfolding fallback_columns
  set_request_columns schema req =
      if is_none req.command
      then elim (schema req.table) [
        | none ↦ err panic
        | some t ↦
            let all = if is_none req.columns && is_none req.stats then t.columns else [] in
            ok (record req {
              request_columns = all ++ fallback_columns t req.fresh req.columns;
              fresh = req.fresh + length req.columns;
            })
      ]
      else ok req

  -- The loop of `SetSortColumns`: every field gets its column, and a missing one is an error at the
  -- end.
  unfoldable pub sort_columns : Table → List SortField → List SortField × Bool
  sort_columns t [] = ([], true)
  sort_columns t (s ∷ sort) =
      let (rest, found) = sort_columns t sort in
      let col = t.columns_index s.name in
      (record s { column = col } ∷ rest, elim col [ none ↦ false | some c ↦ found ])

  unfoldable pub set_sort_columns : Schema → Request → Result Request
  unfolding sort_columns
  set_sort_columns schema req =
      if is_none req.command
      then elim (schema req.table) [
        | none ↦ err panic
        | some t ↦
            let (sort, found) = sort_columns t req.sort in
            if found then ok (record req { sort = sort }) else err unknown_sort_column
      ]
      else ok req
