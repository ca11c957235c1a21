-- ===== src/Request/Header/User.antt =====
-- The AuthUser header of `ParseRequestHeaderLine` (lmd/request.go).
use lampd.Prelude.{◌≡◌, ◌≢◌, Bool, Option, none, some, [], ◌∷◌, arith}
use lampd.Prelude.Bytes.{Bytes, cut, trim_left}
use lampd.Column.{Schema}
use lampd.Platform.{Platform}
use lampd.Request.{Request}
use lampd.Request.Header.{
  Header, auth_user, header_of, apply_header, parse_auth_user, parse_request_header_line,
}
use lampd.Result.{ok, err, ◌>>=◌, syntax_error, bind_ok}

parse_auth_user-nonempty : (args user : Bytes) → parse_auth_user args ≡ ok user → user ≢ []
unfolding parse_auth_user
parse_auth_user-nonempty [] user h e = cc
parse_auth_user-nonempty (c ∷ s) user h e = cc

module _ ⦃p : Platform⦄ (schema : Schema) (optimize : Bool) where
  pub apply_header-auth_user :
      (h : Header) (args : Bytes) (req req' : Request)
      → req.auth_user ≢ []
      → apply_header schema optimize h args req ≡ ok req'
      → req'.auth_user ≢ []
  unfolding apply_header
  apply_header-auth_user auth_user args req req' some_user h =
      let (user, e, e') = bind_ok (parse_auth_user args) _ h in
      let named = parse_auth_user-nonempty args user e in ground (arith, named)
  apply_header-auth_user _ args req req' some_user h = ground (arith, some_user)

  pub parse_request_header_line-auth_user :
      (line : Bytes) (req req' : Request)
      → req.auth_user ≢ []
      → parse_request_header_line schema optimize line req ≡ ok req'
      → req'.auth_user ≢ []
  unfolding parse_request_header_line
  parse_request_header_line-auth_user line req req' some_user h =
      split (cut b':' line).0 (cut b':' line).1 h
    where
      split :
          (name : Bytes) (rest : Option Bytes)
          → elim rest [
            | none ↦ err syntax_error
            | some args ↦ do h ← header_of name; apply_header schema optimize h (trim_left args) req
          ]
            ≡ ok req'
          → req'.auth_user ≢ []
      split name none e = absurd (cc)
      split name (some args) e =
          let (header, e1, e2) =
            bind_ok (header_of name) (λ h. apply_header schema optimize h (trim_left args) req) e in
          apply_header-auth_user header (trim_left args) req req' some_user e2
