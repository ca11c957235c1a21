-- ===== src/Tests/Headers.antt =====
-- Runs of the model of the header lines.
use lampd.Prelude.{◌≡◌, refl, ◌≢◌, ◌↔◌, true, false, some, List, [], ◌∷◌, ◌++◌}
use lampd.Prelude.Bytes.{Bytes, codes, to_upper}
use lampd.Column.{Column, Schema, hosts}
use lampd.Filter.{equal, or, Fields, Filter, filter, nil}
use lampd.Filter.Match.{Row, match_filter, negated}
use lampd.Filter.Parse.{parse_filter, parse_filter_parts}
use lampd.Filter.Parse.Plain.{IsPlain, parse_filter-pushes}
use lampd.Filter.Group.{parse_filter_group, parse_filter_negate}
use lampd.Filter.Group.Meaning.{match_all, and_then}
use lampd.Filter.Group.Headers.{
  FitsStack, parse_filter_group-accepts_iff, parse_filter-parse_filter_negate,
}
use lampd.Filter.Match.Returns.{is_ok, HasCustomVars}
use lampd.Filter.Parse.Ready.{parse_filter-match_filter}
use lampd.Request.Reader.Filters.{read_headers-match_all}
use lampd.Request.{Request, new_fields}
use lampd.Request.Header.{parse_request_header_line}
use lampd.Request.Header.Names.{parse_request_header_line-to_upper}
use lampd.Request.Reader.{read_headers}
use lampd.Request.Reader.Lines.{behind_blank, read_headers-rest, read_headers-auth_user}
use lampd.Result.{ok}
use lampd.Tests.Data.{fields_for, integers, web, name_column, named}

abbrev one_table : Schema
one_table t = some record {
  name = hosts;
  columns = name_column ∷ [];
  columns_index = λ name. some name_column;
  passthrough_only = false;
  primary_key = [];
}

-- "Limit: 3", a blank line, and the first line of the next request
abbrev header_lines : List Bytes
header_lines = codes "Limit: 3" ∷ [] ∷ codes "GET hosts" ∷ []

abbrev of_joe : Request
of_joe = record new_fields { table = hosts; auth_user = codes "joe" }

abbrev limited : Request
limited = record of_joe { limit = some 3 }

limit_line :
    read_headers one_table true header_lines [] of_joe ≡ ok (limited, codes "GET hosts" ∷ [])
unfolding read_headers
limit_line = refl

read_headers-rest_example : (codes "GET hosts" ∷ []) ≡ behind_blank header_lines
read_headers-rest_example =
    read_headers-rest one_table true header_lines [] of_joe limited (codes "GET hosts" ∷ [])
      limit_line

joe_is_set : of_joe.auth_user ≢ []
joe_is_set e = cc

read_headers-auth_user_example : limited.auth_user ≢ []
read_headers-auth_user_example =
    read_headers-auth_user one_table true header_lines [] of_joe limited (codes "GET hosts" ∷ [])
      joe_is_set limit_line

parse_request_header_line-to_upper_example :
    parse_request_header_line one_table true (codes "LIMIT: 3") of_joe
    ≡ parse_request_header_line one_table true (codes "Limit: 3") of_joe
unfolding to_upper
parse_request_header_line-to_upper_example =
    parse_request_header_line-to_upper one_table true (codes "Limit") (codes " 3") of_joe refl

name_filter :
    parse_filter one_table false 7 hosts (codes "name = web") [] ≡ ok (named (codes "web") ∷ [])
unfolding parse_filter parse_filter_parts
name_filter = refl

parse_filter-pushes_example :
    (f : Fields) × ((named (codes "web") ∷ []) ≡ [] ++ filter f nil ∷ []) × IsPlain f
parse_filter-pushes_example =
    parse_filter-pushes one_table false 7 hosts (codes "name = web") [] (named (codes "web") ∷ [])
      name_filter

parse_filter_group-accepts_iff_example :
    ((stack' : List Filter) × (parse_filter_group or (codes "1") (named (codes "web") ∷ [])
        ≡ ok stack'))
    ↔ FitsStack (codes "1") (named (codes "web") ∷ [])
parse_filter_group-accepts_iff_example =
    parse_filter_group-accepts_iff or (codes "1") (named (codes "web") ∷ [])

parse_filter-parse_filter_negate_example :
    (f : Filter) × (stack' : List Filter) × ((named (codes "web") ∷ []) ≡ [] ++ f ∷ [])
    × (parse_filter_negate (named (codes "web") ∷ []) ≡ ok stack')
    × (match_all web stack' ≡ and_then (match_all web []) (negated (match_filter web f)))
parse_filter-parse_filter_negate_example =
    parse_filter-parse_filter_negate web one_table false 7 hosts (codes "name = web") []
      (named (codes "web") ∷ []) name_filter

parse_filter-match_filter_example :
    (f : Fields) × ((named (codes "web") ∷ []) ≡ [] ++ filter f nil ∷ [])
    × ((row : Row × Column) → HasCustomVars row.0 → is_ok (match_filter row (filter f nil)) ≡ true)
parse_filter-match_filter_example =
    parse_filter-match_filter one_table false 7 hosts (codes "name = web") []
      (named (codes "web") ∷ []) name_filter

-- "Filter: name = web" and "Negate:", of a request without an optimisation
abbrev filtered : Request
filtered = record of_joe {
  filter = filter (record (fields_for equal (codes "web")) { negate = true }) nil ∷ [];
  fresh = 1;
}

filter_lines :
    read_headers one_table false (codes "Filter: name = web" ∷ codes "Negate:" ∷ []) [] of_joe
    ≡ ok (filtered, [])
unfolding read_headers parse_filter parse_filter_negate
filter_lines = refl

read_headers-match_all_example : is_ok (match_all web filtered.filter) ≡ true
read_headers-match_all_example =
    read_headers-match_all one_table false (codes "Filter: name = web" ∷ codes "Negate:" ∷ []) []
      of_joe filtered [] web (λ c tag. refl) refl filter_lines
