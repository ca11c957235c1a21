-- ===== src/Request/Reader/Filters.antt =====
-- The filters of a request that `NewRequest` (lmd/request.go) accepts are matched without a panic.
use lampd.Prelude.{
  ◌+◌, ◌≡◌, ap, ◌∙◌, ◌≢◌, Bool, true, Option, none, some, List, [], ◌∷◌, arith, inl, inr,
}
use lampd.Prelude.Bytes.{Bytes, cut, trim_left}
use lampd.Column.{Column, Schema}
use lampd.Filter.{ungrouped, and, or}
use lampd.Filter.Match.{Row}
use lampd.Filter.Match.Returns.{is_ok, HasCustomVars}
use lampd.Filter.Parse.{parse_filter}
use lampd.Filter.Group.{parse_filter_group, parse_filter_negate}
use lampd.Filter.Group.Meaning.{match_all}
use lampd.Filter.Group.Safe.{
  all_safe, all_safe-none, all_safe-is_ok, parse_filter-all_safe, parse_filter_group-all_safe,
  parse_filter_negate-all_safe,
}
use lampd.Platform.{Platform}
use lampd.Request.{Request}
use lampd.Request.Header.{
  Header, filter, and_header, or_header, negate, header_of, apply_header, parse_request_header_line,
}
use lampd.Request.Reader.{read_headers, trim_space}
use lampd.Result.{ok, err, ◌>>=◌, bind_ok, Result-cases, syntax_error}

and_is_group : and ≢ ungrouped
and_is_group e = cc

or_is_group : or ≢ ungrouped
or_is_group e = cc

module _ ⦃p : Platform⦄ (schema : Schema) (optimize : Bool) where
  apply_header-all_safe :
      (h : Header) (args : Bytes) (req req' : Request)
      → all_safe req.filter ≡ true
      → apply_header schema optimize h args req ≡ ok req'
      → all_safe req'.filter ≡ true
  unfolding apply_header
  apply_header-all_safe filter args req req' safe h =
      let (fs, e, e') =
        bind_ok (parse_filter schema optimize req.fresh req.table args req.filter)
          (λ fs. ok (record req { filter = fs; fresh = req.fresh + 1 })) h in
      let kept =
        parse_filter-all_safe schema optimize req.fresh req.table args req.filter fs safe e in
      ground (arith, kept)
  apply_header-all_safe and_header args req req' safe h =
      let (fs, e, e') =
        bind_ok (parse_filter_group and args req.filter) (λ fs. ok (record req { filter = fs }))
          h in
      let kept = parse_filter_group-all_safe and args req.filter fs and_is_group safe e in
      ground (arith, kept)
  apply_header-all_safe or_header args req req' safe h =
      let (fs, e, e') =
        bind_ok (parse_filter_group or args req.filter) (λ fs. ok (record req { filter = fs })) h in
      let kept = parse_filter_group-all_safe or args req.filter fs or_is_group safe e in
      ground (arith, kept)
  apply_header-all_safe negate args req req' safe h =
      let (fs, e, e') =
        bind_ok (parse_filter_negate req.filter) (λ fs. ok (record req { filter = fs })) h in
      let kept = parse_filter_negate-all_safe req.filter fs safe e in ground (arith, kept)
  apply_header-all_safe _ args req req' safe h = ground (arith, safe)

  parse_request_header_line-all_safe :
      (line : Bytes) (req req' : Request)
      → all_safe req.filter ≡ true
      → parse_request_header_line schema optimize line req ≡ ok req'
      → all_safe req'.filter ≡ true
  unfolding parse_request_header_line
  parse_request_header_line-all_safe line req req' safe h =
      split (cut b':' line).0 (cut b':' line).1 h
    where
      split :
          (name : Bytes) (rest : Option Bytes)
          → elim rest [
            | none ↦ err syntax_error
            | some args ↦ do h ← header_of name; apply_header schema optimize h (trim_left args) req
          ]
            ≡ ok req'
          → all_safe req'.filter ≡ true
      split name none e = absurd (cc)
      split name (some args) e =
          let (header, e1, e2) =
            bind_ok (header_of name) (λ h. apply_header schema optimize h (trim_left args) req) e in
          apply_header-all_safe header (trim_left args) req req' safe e2

  read_headers-all_safe :
      (lines : List Bytes) (last : Bytes) (req req' : Request) (rest : List Bytes)
      → all_safe req.filter ≡ true
      → read_headers schema optimize lines last req ≡ ok (req', rest)
      → all_safe req'.filter ≡ true
  unfolding read_headers
  read_headers-all_safe [] last req req' rest safe h =
      elim (Result-cases (parse_request_header_line schema optimize (trim_space last) req)) [
        | inl (next, e) ↦
            let kept = parse_request_header_line-all_safe (trim_space last) req next safe e in
            ground (arith, e, kept)
        | inr (wrong, e) ↦ ground (arith, e)
      ]
  read_headers-all_safe (line ∷ lines) last req req' rest safe h =
      elim (Result-cases (parse_request_header_line schema optimize (trim_space line) req)) [
        | inl (next, e) ↦
            let kept = parse_request_header_line-all_safe (trim_space line) req next safe e in
            let later = read_headers-all_safe lines last next req' rest kept in
            ground (arith, e, later)
        | inr (wrong, e) ↦ ground (arith, e)
      ]

  -- If the header lines of a request that starts without filters are accepted, matching its filters
  -- against a row whose custom variables can be read without a panic never panics, whatever groups
  -- and negations the headers make of them.
  pub read_headers-match_all :
      (lines : List Bytes) (last : Bytes) (req req' : Request) (rest : List Bytes)
      (row : Row × Column)
      → HasCustomVars row.0
      → req.filter ≡ []
      → read_headers schema optimize lines last req ≡ ok (req', rest)
      → is_ok (match_all row req'.filter) ≡ true
  read_headers-match_all lines last req req' rest row vars empty h =
      let start : all_safe req.filter ≡ true = ap all_safe empty ∙ all_safe-none in
      all_safe-is_ok row vars req'.filter (read_headers-all_safe lines last req req' rest start h)
