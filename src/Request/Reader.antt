-- ===== src/Request/Reader.antt =====
-- Reading a request: `ParseRequestAction` and `NewRequest` of lmd/request.go. The bytes of the
-- connection are given as the lines that end in a newline and what stands behind the last newline;
-- network errors are not modelled.
pub mod Lines
pub mod Filters
use mathlib.Core.List.{reverse}
use lampd.Prelude.{
  Bool, true, false, ◌&&◌, Option, none, some, List, [], ◌∷◌, leb, ◌==◌, if◌then◌else◌,
}
use lampd.Prelude.Bytes.{Bytes, codes, ◌=b◌, has_prefix, trim_left, is_space}
use lampd.Column.{Schema, new_table_name}
use lampd.Filter.Group.{optimize_filter_indentation}
use lampd.Platform.{Platform}
use lampd.Request.{Request, new_fields, set_request_columns, set_sort_columns}
use lampd.Request.Header.{parse_request_header_line}
use lampd.Result.{Result, ok, err, ◌>>=◌, bad_request}

-- strings.TrimSpace, for ASCII
unfoldable pub trim_left_space : Bytes → Bytes
trim_left_space [] = []
trim_left_space (c ∷ s) = if is_space c then trim_left_space s else c ∷ s

unfoldable pub trim_space : Bytes → Bytes
unfolding trim_left_space is_space
trim_space s = reverse (trim_left_space (reverse (trim_left_space s)))

-- `[a-z]+`
unfoldable pub is_lower_word : Bytes → Bool
is_lower_word [] = false
is_lower_word (c ∷ []) = leb b'a' c && leb c b'z'
is_lower_word (c ∷ d ∷ s) = (leb b'a' c && leb c b'z') && is_lower_word (d ∷ s)

-- `\d*\].*`, behind one digit or more: the flag says that a digit was read
unfoldable pub is_bracketed_number : Bool → Bytes → Bool
is_bracketed_number digit [] = false
is_bracketed_number digit (c ∷ s) =
    let more = is_bracketed_number true s in
    if leb b'0' c && leb c b'9' then more else digit && c == b']'

abbrev is_timestamped : Bytes → Bool
is_timestamped [] = false
is_timestamped (c ∷ s) = c == b'[' && is_bracketed_number false s

abbrev drop_word : Bytes → Bytes
drop_word [] = []
drop_word (c ∷ s) = if c == b' ' then trim_left s else drop_word s

module _ ⦃p : Platform⦄ where
  -- `ParseRequestAction`, on a trimmed line; `none` for the empty request.
  unfoldable pub parse_request_action : Bytes → Result (Option Request)
  unfolding has_prefix trim_left is_lower_word is_bracketed_number new_table_name
  parse_request_action line =
      if has_prefix (codes "GET ") line
      then (if is_lower_word (drop_word line)
          then (do t ← new_table_name (drop_word line); ok (some (record new_fields { table = t })))
          else err bad_request)
      else if has_prefix (codes "COMMAND ") line
      then (if is_timestamped (drop_word line)
          then ok (some (record new_fields { command = line }))
          else err bad_request)
      else if line =b []
      then ok none
      else err bad_request

  -- The header loop of `NewRequest`: the request, and the lines that were not read. The bytes behind
  -- the last newline end the connection.
  unfoldable pub read_headers :
      Schema → Bool → List Bytes → Bytes → Request → Result (Request × List Bytes)
  unfolding parse_request_header_line trim_space
  read_headers schema optimize [] last req = if trim_space last =b [] then ok (req, []) else do
    req' ← parse_request_header_line schema optimize (trim_space last) req
    ok (record req' { keep_alive = false }, [])
  read_headers schema optimize (line ∷ lines) last req =
      if trim_space line =b [] then ok (req, lines) else do
        req' ← parse_request_header_line schema optimize (trim_space line) req
        read_headers schema optimize lines last req'

  -- The end of `NewRequest`, behind the header lines.
  unfoldable pub finish_request : Schema → Bool → Request → Result Request
  unfolding optimize_filter_indentation set_request_columns set_sort_columns
  finish_request schema optimize req = do
    let req' =
        if optimize then record req { filter = optimize_filter_indentation req.filter } else req
    req'' ← set_request_columns schema req'
    set_sort_columns schema req''

  -- `NewRequest` behind its first line
  unfoldable pub read_request :
      Schema → Bool → Bytes → List Bytes → Bytes → Result (Option (Request × List Bytes))
  unfolding parse_request_action read_headers finish_request trim_space
  read_request schema optimize first lines last = do
    action ← parse_request_action (trim_space first)
    elim action [
      | none ↦ ok none
      | some req ↦ do
        (req', rest) ← read_headers schema optimize lines last req
        req'' ← finish_request schema optimize req'
        ok (some (req'', rest))
    ]
