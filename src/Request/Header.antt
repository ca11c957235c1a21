-- ===== src/Request/Header.antt =====
-- One header line of a request: `ParseRequestHeaderLine` of lmd/request.go and what it calls.
pub mod User
pub mod Names
use lampd.Prelude.{
  ℕ, ◌+◌, Bool, true, false, ◌||◌, Option, none, some, List, [], ◌∷◌, ◌++◌, leb, if◌then◌else◌,
}
use lampd.Prelude.Int.{pos, negsuc}
use lampd.Prelude.Bytes.{
  Bytes, codes, ◌=b◌, to_lower, to_upper, equal_fold, cut, trim_left, fields, atoi,
}
use lampd.Column.{Schema}
use lampd.Filter.{and, or}
use lampd.Filter.Parse.{parse_filter, parse_stats}
use lampd.Filter.Group.{parse_filter_group, parse_filter_negate, parse_stats_op}
use lampd.Platform.{Platform}
use lampd.Request.{
  Request, SortField, SortDirection, asc, desc, OutputFormat, json, wrapped_json, python,
}
use lampd.Result.{
  Result, ok, err, ◌>>=◌, syntax_error, unrecognized_header, bad_response_header, bad_number,
  bad_sort_header, bad_sort_direction, bad_output_format, bad_on_off, empty_auth_user,
}

-- the cases of the switch on the header's name
pub data Header : Type 0 where
  filter and_header or_header stats stats_and stats_or sort limit offset backends columns : Header
  response_header output_format wait_timeout wait_trigger wait_object wait_condition : Header
  wait_condition_and wait_condition_or wait_condition_negate negate keep_alive : Header
  column_headers localtime auth_user : Header

abbrev header_table : List (Bytes × Header)
header_table =
    (codes "filter", filter)
    ∷ (codes "and", and_header)
    ∷ (codes "or", or_header)
    ∷ (codes "stats", stats)
    ∷ (codes "statsand", stats_and)
    ∷ (codes "statsor", stats_or)
    ∷ (codes "sort", sort)
    ∷ (codes "limit", limit)
    ∷ (codes "offset", offset)
    ∷ (codes "backends", backends)
    ∷ (codes "columns", columns)
    ∷ (codes "responseheader", response_header)
    ∷ (codes "outputformat", output_format)
    ∷ (codes "waittimeout", wait_timeout)
    ∷ (codes "waittrigger", wait_trigger)
    ∷ (codes "waitobject", wait_object)
    ∷ (codes "waitcondition", wait_condition)
    ∷ (codes "waitconditionand", wait_condition_and)
    ∷ (codes "waitconditionor", wait_condition_or)
    ∷ (codes "waitconditionnegate", wait_condition_negate)
    ∷ (codes "negate", negate)
    ∷ (codes "keepalive", keep_alive)
    ∷ (codes "columnheaders", column_headers)
    ∷ (codes "localtime", localtime)
    ∷ (codes "authuser", auth_user)
    ∷ []

lookup_header : Bytes → List (Bytes × Header) → Result Header
lookup_header name [] = err unrecognized_header
lookup_header name ((text, h) ∷ rest) = if name =b text then ok h else lookup_header name rest

unfoldable pub header_of : Bytes → Result Header
unfolding lookup_header to_lower
header_of name = lookup_header (to_lower name) header_table

-- `parseIntHeader`
unfoldable pub parse_int_header : ℕ → Bytes → Result ℕ
unfolding atoi
parse_int_header min value = elim (atoi value) [
  | none ↦ err bad_number
  | some n ↦ elim n [
    | pos k ↦ if leb min k then ok k else err bad_number
    | negsuc k ↦ err bad_number
  ]
]

-- `parseOnOff`
unfoldable pub parse_on_off : Bytes → Result Bool
unfolding ◌=b◌
parse_on_off value =
    if value =b codes "on"
    then ok true
    else if value =b codes "off"
    then ok false
    else err bad_on_off

-- `parseResponseHeader`
unfoldable pub parse_response_header : Bytes → Result Bool
unfolding ◌=b◌
parse_response_header value = if value =b codes "fixed16" then ok true else err bad_response_header

-- `parseOutputFormat`
unfoldable pub parse_output_format : Bytes → Result OutputFormat
unfolding ◌=b◌
parse_output_format value =
    if value =b codes "wrapped_json"
    then ok wrapped_json
    else if value =b codes "json"
    then ok json
    else if value =b codes "python"
    then ok python
    else err bad_output_format

-- `parseAuthUser`
unfoldable pub parse_auth_user : Bytes → Result Bytes
parse_auth_user [] = err empty_auth_user
parse_auth_user (c ∷ s) = ok (c ∷ s)

-- The direction of `parseSortHeader`; an absent or empty one is ascending.
unfoldable pub parse_direction : Option Bytes → Result SortDirection
unfolding equal_fold
parse_direction none = ok asc
parse_direction (some text) =
    if text =b []
    then ok asc
    else if equal_fold text (codes "asc")
    then ok asc
    else if equal_fold text (codes "desc")
    then ok desc
    else err bad_sort_direction

abbrev sort_field : Bytes → SortDirection → Bytes → SortField
sort_field name direction args = record {
  name = to_lower name;
  direction = direction;
  args = args;
  column = none;
}

-- `tmp` of `parseSortHeader`: two words at most, or three for custom variables.
unfoldable pub parse_sort_words : Bytes → Option (Bytes × Option Bytes) → Result SortField
unfolding parse_direction to_lower to_upper
parse_sort_words name none = ok (sort_field name asc [])
parse_sort_words name (some (second, none)) = do
  direction ← parse_direction (some second)
  ok (sort_field name direction [])
parse_sort_words name (some (second, some third)) =
    if name =b codes "custom_variables" || name =b codes "host_custom_variables"
    then (do
      direction ← parse_direction (some third)
      ok (sort_field name direction (to_upper second)))
    else err bad_sort_header

abbrev cut_again : Option Bytes → Option (Bytes × Option Bytes)
cut_again none = none
cut_again (some s) = some (cut b' ' s)

-- `parseSortHeader`
unfoldable pub parse_sort_header : Bytes → Result SortField
unfolding parse_sort_words cut
parse_sort_header [] = err bad_sort_header
parse_sort_header (c ∷ value) =
    let (name, rest) = cut b' ' (c ∷ value) in parse_sort_words name (cut_again rest)

module _ ⦃p : Platform⦄ (schema : Schema) (optimize : Bool) where
  -- The switch of `ParseRequestHeaderLine`.
  unfoldable pub apply_header : Header → Bytes → Request → Result Request
  unfolding parse_int_header parse_on_off parse_response_header parse_output_format parse_auth_user
      parse_sort_header
  apply_header filter args req = do
    fs ← parse_filter schema optimize req.fresh req.table args req.filter
    ok (record req { filter = fs; fresh = req.fresh + 1 })
  apply_header and_header args req = do
    fs ← parse_filter_group and args req.filter
    ok (record req { filter = fs })
  apply_header or_header args req = do
    fs ← parse_filter_group or args req.filter
    ok (record req { filter = fs })
  apply_header stats args req = do
    fs ← parse_stats schema optimize req.fresh req.table args req.stats
    ok (record req { stats = fs; fresh = req.fresh + 1 })
  apply_header stats_and args req = do
    fs ← parse_stats_op schema optimize req.fresh req.table and args req.stats
    ok (record req { stats = fs; fresh = req.fresh + 1 })
  apply_header stats_or args req = do
    fs ← parse_stats_op schema optimize req.fresh req.table or args req.stats
    ok (record req { stats = fs; fresh = req.fresh + 1 })
  apply_header sort args req = do
    field ← parse_sort_header args
    ok (record req { sort = req.sort ++ field ∷ [] })
  apply_header limit args req = do n ← parse_int_header 0 args; ok (record req { limit = some n })
  apply_header offset args req = do n ← parse_int_header 0 args; ok (record req { offset = n })
  apply_header backends args req = ok (record req { backends = fields args })
  apply_header columns args req = ok (record req { columns = fields args })
  apply_header response_header args req = do
    b ← parse_response_header args
    ok (record req { response_fixed16 = b })
  apply_header output_format args req = do
    f ← parse_output_format args
    ok (record req { output_format = f })
  apply_header wait_timeout args req = do
    n ← parse_int_header 1 args
    ok (record req { wait_timeout = n })
  apply_header wait_trigger args req = ok (record req { wait_trigger = args })
  apply_header wait_object args req = ok (record req { wait_object = args })
  apply_header wait_condition args req = do
    fs ← parse_filter schema optimize req.fresh req.table args req.wait_condition
    ok (record req { wait_condition = fs; fresh = req.fresh + 1 })
  apply_header wait_condition_and args req = do
    fs ← parse_stats_op schema optimize req.fresh req.table and args req.wait_condition
    ok (record req { wait_condition = fs; fresh = req.fresh + 1 })
  apply_header wait_condition_or args req = do
    fs ← parse_stats_op schema optimize req.fresh req.table or args req.wait_condition
    ok (record req { wait_condition = fs; fresh = req.fresh + 1 })
  apply_header wait_condition_negate args req = ok (record req { wait_condition_negate = true })
  apply_header negate args req = do
    fs ← parse_filter_negate req.filter
    ok (record req { filter = fs })
  apply_header keep_alive args req = do b ← parse_on_off args; ok (record req { keep_alive = b })
  apply_header column_headers args req = do
    b ← parse_on_off args
    ok (record req { columns_headers = b })
  apply_header localtime args req = ok req
  apply_header auth_user args req = do
    user ← parse_auth_user args
    ok (record req { auth_user = user })

  -- `ParseRequestHeaderLine`
  unfoldable pub parse_request_header_line : Bytes → Request → Result Request
  unfolding header_of apply_header cut trim_left
  parse_request_header_line line req =
      let (name, rest) = cut b':' line in
      elim rest [
        | none ↦ err syntax_error
        | some args ↦ do h ← header_of name; apply_header h (trim_left args) req
      ]
