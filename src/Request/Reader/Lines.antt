-- ===== src/Request/Reader/Lines.antt =====
-- What the header loop of `NewRequest` (lmd/request.go) leaves on the connection and in the request.
use lampd.Prelude.{◌≡◌, ◌≢◌, Bool, List, [], ◌∷◌, arith, if◌then◌else◌, inl, inr}
use lampd.Prelude.Bytes.{Bytes, ◌=b◌}
use lampd.Column.{Schema}
use lampd.Platform.{Platform}
use lampd.Request.{Request}
use lampd.Request.Header.{parse_request_header_line}
use lampd.Request.Header.User.{parse_request_header_line-auth_user}
use lampd.Request.Reader.{read_headers, trim_space}
use lampd.Result.{ok, Result-cases}

-- The lines behind the first blank line.
unfoldable pub behind_blank : List Bytes → List Bytes
unfolding trim_space ◌=b◌
behind_blank [] = []
behind_blank (line ∷ lines) = if trim_space line =b [] then lines else behind_blank lines

module _ ⦃p : Platform⦄ (schema : Schema) (optimize : Bool) where
  -- If the header lines are accepted, what is left for the next request of the connection is the
  -- lines behind the first blank line, or nothing if there is none.
  pub read_headers-rest :
      (lines : List Bytes) (last : Bytes) (req req' : Request) (rest : List Bytes)
      → read_headers schema optimize lines last req ≡ ok (req', rest)
      → rest ≡ behind_blank lines
  unfolding read_headers behind_blank
  read_headers-rest [] last req req' rest h =
      elim (Result-cases (parse_request_header_line schema optimize (trim_space last) req)) [
        | inl (next, e) ↦ ground (arith, e)
        | inr (wrong, e) ↦ ground (arith, e)
      ]
  read_headers-rest (line ∷ lines) last req req' rest h =
      elim (Result-cases (parse_request_header_line schema optimize (trim_space line) req)) [
        | inl (next, e) ↦ ground (arith, e, read_headers-rest lines last next req' rest)
        | inr (wrong, e) ↦ ground (arith, e)
      ]

  -- Once a request has an AuthUser, no header line that follows removes it: if the lines are
  -- accepted, the request that is read has one.
  pub read_headers-auth_user :
      (lines : List Bytes) (last : Bytes) (req req' : Request) (rest : List Bytes)
      → req.auth_user ≢ []
      → read_headers schema optimize lines last req ≡ ok (req', rest)
      → req'.auth_user ≢ []
  unfolding read_headers
  read_headers-auth_user [] last req req' rest some_user h =
      elim (Result-cases (parse_request_header_line schema optimize (trim_space last) req)) [
        | inl (next, e) ↦
            let kept =
              parse_request_header_line-auth_user schema optimize (trim_space last) req next
                some_user e in
            ground (arith, e, kept)
        | inr (wrong, e) ↦ ground (arith, e)
      ]
  read_headers-auth_user (line ∷ lines) last req req' rest some_user h =
      elim (Result-cases (parse_request_header_line schema optimize (trim_space line) req)) [
        | inl (next, e) ↦
            let kept =
              parse_request_header_line-auth_user schema optimize (trim_space line) req next
                some_user e in
            let later = read_headers-auth_user lines last next req' rest kept in
            ground (arith, e, later)
        | inr (wrong, e) ↦ ground (arith, e)
      ]
