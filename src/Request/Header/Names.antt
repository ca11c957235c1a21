-- ===== src/Request/Header/Names.antt =====
-- The names of headers, as `ParseRequestHeaderLine` (lmd/request.go) reads them.
use lampd.Prelude.{
  ℕ, ◌≡◌, refl, sym, ap, ◌∙◌, Bool, true, false, ◌&&◌, not, Option, none, some, [], ◌∷◌, ◌++◌, ◌==◌,
  arith,
}
use lampd.Prelude.Bytes.{Bytes, cut, trim_left, to_lower, to_upper, lower_byte, upper_byte}
use lampd.Column.{Schema}
use lampd.Platform.{Platform}
use lampd.Request.{Request}
use lampd.Request.Header.{header_of, apply_header, parse_request_header_line}
use lampd.Result.{err, ◌>>=◌, syntax_error}

lower-upper : (c : ℕ) → lower_byte (upper_byte c) ≡ lower_byte c
unfolding lower_byte upper_byte
lower-upper c = ground arith

to_lower-to_upper : (s : Bytes) → to_lower (to_upper s) ≡ to_lower s
unfolding to_lower to_upper
to_lower-to_upper [] = refl
to_lower-to_upper (c ∷ s) = rw (lower-upper c, to_lower-to_upper s)

header_of-to_upper : (name : Bytes) → header_of (to_upper name) ≡ header_of name
unfolding header_of
header_of-to_upper name = rw (to_lower-to_upper name)

-- The text has no colon.
abbrev pub no_colon : Bytes → Bool
no_colon [] = true
no_colon (c ∷ s) = not (c == b':') && no_colon s

upper-colon : (c : ℕ) → (c == b':') ≡ false → (upper_byte c == b':') ≡ false
unfolding upper_byte
upper-colon c h = ground arith

no_colon-to_upper : (s : Bytes) → no_colon s ≡ true → no_colon (to_upper s) ≡ true
unfolding to_upper
no_colon-to_upper [] h = refl
no_colon-to_upper (c ∷ s) h = ground (arith, upper-colon c, no_colon-to_upper s)

cut-colon :
    (name args : Bytes) → no_colon name ≡ true → cut b':' (name ++ b':' ∷ args) ≡ (name, some args)
unfolding cut
cut-colon [] args h = refl
cut-colon (c ∷ s) args h = ground (arith, cut-colon s args)

module _ ⦃p : Platform⦄ (schema : Schema) (optimize : Bool) where
  parse_line :
      (name args : Bytes) (req : Request)
      → no_colon name ≡ true
      → parse_request_header_line schema optimize (name ++ b':' ∷ args) req
        ≡ (header_of name >>= λ h. apply_header schema optimize h (trim_left args) req)
  unfolding parse_request_header_line
  parse_line name args req h =
      ap
        (λ (parts : Bytes × Option Bytes). elim parts.1 [
          | none ↦ err syntax_error
          | some rest ↦
              header_of parts.0 >>= λ k. apply_header schema optimize k (trim_left rest) req
        ])
        (cut-colon name args h)

  -- A header line whose name, up to the first colon, is written in capitals has the same outcome as
  -- the line with the name as it was.
  pub parse_request_header_line-to_upper :
      (name args : Bytes) (req : Request)
      → no_colon name ≡ true
      → parse_request_header_line schema optimize (to_upper name ++ b':' ∷ args) req
        ≡ parse_request_header_line schema optimize (name ++ b':' ∷ args) req
  parse_request_header_line-to_upper name args req h =
      parse_line (to_upper name) args req (no_colon-to_upper name h)
      ∙ ap (λ r. r >>= λ k. apply_header schema optimize k (trim_left args) req)
          (header_of-to_upper name)
      ∙ sym (parse_line name args req h)
