-- ===== src/Filter/Parse/Regexp.antt =====
-- The optimisation of `setRegexFilter` (lmd/filter.go): a value that is no regular expression is
-- matched as a part of the text.
use lampd.Prelude.{ℕ, ◌≡◌, refl, Bool, true, false, ◌&&◌, ◌||◌, some, [], ◌∷◌, ◌++◌, arith, ltb}
use lampd.Prelude.Bytes.{
  Bytes, codes, contains as contains_part, contains_any, has_prefix, to_lower,
}
use lampd.Filter.{
  Operator, regex_match, regex_match_not, regex_no_case_match, regex_no_case_match_not, Fields,
}
use lampd.Filter.Match.{match_string}
use lampd.Filter.Parse.{
  special_characters, has_regexp_characters, trim_wildcards, set_contains, set_regex_filter,
}
use lampd.Platform.{Platform}
use lampd.Result.{ok}

-- The characters that regexp.QuoteMeta escapes.
abbrev pub meta_characters : Bytes
meta_characters = codes "\\.+*?()|[]{}^$"

abbrev pub is_ascii : Bytes → Bool
is_ascii [] = true
is_ascii (c ∷ s) = ltb c 128 && is_ascii s

abbrev pub IsRegexOperator : Operator → Type 0
IsRegexOperator regex_match = Unit
IsRegexOperator regex_match_not = Unit
IsRegexOperator regex_no_case_match = Unit
IsRegexOperator regex_no_case_match_not = Unit
IsRegexOperator _ = ⊥

-- What package regexp documents of an ASCII pattern with no metacharacter, for ASCII texts: it compiles, and it matches the
-- texts that hold it; behind the flag (?i) case makes no difference.
pub record RegexLaws ⦃p : Platform⦄ : Type 0 where
  pub literal :
      (s : Bytes)
      → contains_any meta_characters s ≡ false
      → is_ascii s ≡ true
      → (r : p.Regex) × (p.compile s ≡ some r)
        × ((v : Bytes) → is_ascii v ≡ true → p.match_regex r v ≡ contains_part s v)
  pub literal_no_case :
      (s : Bytes)
      → contains_any meta_characters s ≡ false
      → is_ascii s ≡ true
      → (r : p.Regex) × (p.compile (codes "(?i)" ++ s) ≡ some r)
        × ((v : Bytes)
            → is_ascii v ≡ true
            → p.match_regex r v ≡ contains_part (to_lower s) (to_lower v))

special-meta :
    (c : ℕ)
    → contains_part (c ∷ []) meta_characters ≡ false
    → contains_part (c ∷ []) special_characters ≡ false
unfolding contains_part
special-meta c h = ground arith

dot-meta :
    (c : ℕ) (s : Bytes)
    → contains_part (c ∷ []) meta_characters ≡ false
    → has_prefix (codes ".") (c ∷ s) ≡ false
unfolding contains_part
dot-meta c s h = ground arith

or-false : (a b : Bool) → (a || b) ≡ false → (a ≡ false) × (b ≡ false)
or-false a b h = ground arith

contains_any-special :
    (s : Bytes) → contains_any meta_characters s ≡ false → contains_any special_characters s ≡ false
unfolding contains_any
contains_any-special [] h = refl
contains_any-special (c ∷ s) h =
    let (here, later) = or-false (contains_part (c ∷ []) meta_characters) _ h in
    rw (special-meta c here) (contains_any-special s later)

contains-dot :
    (s : Bytes) → contains_any meta_characters s ≡ false → contains_part (codes ".") s ≡ false
contains-dot [] h = unfold contains_part in refl
contains-dot (c ∷ s) h =
    let parts : (contains_part (c ∷ []) meta_characters ≡ false)
        × (contains_any meta_characters s ≡ false) =
      or-false _ _ (unfold contains_any in h) in
    let later = contains-dot s parts.1 in let here = dot-meta c s parts.0 in step c s here later
  where
    step :
        (c : ℕ) (s : Bytes)
        → has_prefix (codes ".") (c ∷ s) ≡ false
        → contains_part (codes ".") s ≡ false
        → contains_part (codes ".") (c ∷ s) ≡ false
    step c s a b = unfold contains_part in ground arith

has_regexp_characters-literal :
    (s : Bytes) → contains_any meta_characters s ≡ false → has_regexp_characters s ≡ false
unfolding has_regexp_characters
has_regexp_characters-literal s h = rw (contains_any-special s h, contains-dot s h)

module _ ⦃p : Platform⦄ (laws : RegexLaws) where
  -- What the two ways of parsing a regular expression filter make of a value.
  pub record SameMatches (f : Fields) (v : Bytes) : Type 0 where
    pub optimized : Fields
    pub compiled : Fields
    pub optimized_eq : set_regex_filter true f ≡ ok optimized
    pub compiled_eq : set_regex_filter false f ≡ ok compiled
    pub same : match_string optimized v ≡ match_string compiled v

  set_regex_filter-same_op :
      (op : Operator) (f : Fields) (v : Bytes)
      → f.operator ≡ op
      → IsRegexOperator op
      → contains_any meta_characters (trim_wildcards f.str_value) ≡ false
      → is_ascii (trim_wildcards f.str_value) ≡ true
      → is_ascii v ≡ true
      → SameMatches f v
  unfolding set_regex_filter match_string
  set_regex_filter-same_op regex_match f v e h plain literal ascii =
      let val = trim_wildcards f.str_value in
      let (r, compiles, matches) = laws.literal val plain literal in
      record {
        optimized = set_contains regex_match val f;
        compiled = record f { regexp = some r };
        optimized_eq = ground (arith, has_regexp_characters-literal val plain);
        compiled_eq = ground (arith, compiles);
        same = ground (arith, matches v ascii);
      }
  set_regex_filter-same_op regex_match_not f v e h plain literal ascii =
      let val = trim_wildcards f.str_value in
      let (r, compiles, matches) = laws.literal val plain literal in
      record {
        optimized = set_contains regex_match_not val f;
        compiled = record f { regexp = some r };
        optimized_eq = ground (arith, has_regexp_characters-literal val plain);
        compiled_eq = ground (arith, compiles);
        same = ground (arith, matches v ascii);
      }
  set_regex_filter-same_op regex_no_case_match f v e h plain literal ascii =
      let val = trim_wildcards f.str_value in
      let (r, compiles, matches) = laws.literal_no_case val plain literal in
      record {
        optimized = set_contains regex_no_case_match val f;
        compiled = record f { regexp = some r };
        optimized_eq = ground (arith, has_regexp_characters-literal val plain);
        compiled_eq = ground (arith, compiles);
        same = ground (arith, matches v ascii);
      }
  set_regex_filter-same_op regex_no_case_match_not f v e h plain literal ascii =
      let val = trim_wildcards f.str_value in
      let (r, compiles, matches) = laws.literal_no_case val plain literal in
      record {
        optimized = set_contains regex_no_case_match_not val f;
        compiled = record f { regexp = some r };
        optimized_eq = ground (arith, has_regexp_characters-literal val plain);
        compiled_eq = ground (arith, compiles);
        same = ground (arith, matches v ascii);
      }
  set_regex_filter-same_op _ f v e h plain literal ascii = absurd h

  -- Suppose that package regexp compiles an ASCII pattern without metacharacters, and matches with it
  -- the ASCII texts that hold it. Then a `~`, `!~`, `~~` or `!~~` filter whose value, but for a
  -- leading and a trailing ".*", is an ASCII text without metacharacters is accepted with and without
  -- the optimisation of string matches, and both filters give the same answer for every ASCII text.
  pub set_regex_filter-same :
      (f : Fields) (v : Bytes)
      → IsRegexOperator f.operator
      → contains_any meta_characters (trim_wildcards f.str_value) ≡ false
      → is_ascii (trim_wildcards f.str_value) ≡ true
      → is_ascii v ≡ true
      → SameMatches f v
  set_regex_filter-same f v = set_regex_filter-same_op f.operator f v refl
