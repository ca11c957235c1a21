-- ===== src/Tests/Filters.antt =====
-- Runs of the filter model.
use lampd.Prelude.{◌≡◌, refl, ◌≢◌, true, List, [], ◌∷◌, ◌++◌, length}
use lampd.Prelude.Int.{pos}
use lampd.Prelude.Bytes.{
  codes, atoi, contains_any, contains as contains_part, trim_prefix, trim_suffix,
}
use lampd.Filter.{
  unset, equal, unequal, less, greater_than, contains_not, regex_match, contains, and, or, Filter,
  filter,
}
use lampd.Filter.Names.{operator_string, parse_filter_op, reparsed}
use lampd.Filter.Names.RoundTrip.{parse_filter_op-operator_string}
use lampd.Filter.Match.{match_filter, match_string, match_int, match_string_list, negated}
use lampd.Filter.Match.Complement.{
  match_string-opposite, match_int-opposite, match_string_list-opposite,
}
use lampd.Filter.Parse.{trim_wildcards}
use lampd.Filter.Parse.Regexp.{set_regex_filter-same, SameMatches}
use lampd.Filter.Group.{
  new_group, group_last, group_filters, parse_filter_group, parse_filter_negate,
  optimize_filter_indentation,
}
use lampd.Filter.Group.Meaning.{
  match_all, match_any, and_then, parse_filter_group-and, parse_filter_group-or,
  optimize_filter_indentation_lem,
}
use lampd.Filter.Group.Negate.{parse_filter_negate-single}
use lampd.Result.{ok, ◌>>=◌}
use lampd.Tests.Data.{integers, integers_laws, web, fields_for, named}

abbrev two_names : List Filter
two_names = named (codes "db") ∷ named (codes "web") ∷ []

abbrev both : Filter
both = new_group and two_names

abbrev either : Filter
either = new_group or two_names

abbrev set_negate : Filter → Filter
set_negate (filter f fs) = filter (record f { negate = true }) fs

parse_filter_group-and_example : match_all web (both ∷ []) ≡ match_all web two_names
unfolding parse_filter_group group_filters group_last atoi new_group
parse_filter_group-and_example = parse_filter_group-and web (codes "2") two_names (both ∷ []) refl

parse_filter_group-or_example :
    (below : List Filter) × (members : List Filter) × (two_names ≡ below ++ members)
    × (length members ≡ 2)
    × (match_all web (either ∷ []) ≡ and_then (match_all web below) (match_any web members))
unfolding parse_filter_group group_filters group_last atoi new_group
parse_filter_group-or_example =
    parse_filter_group-or web (codes "2") 1 two_names (either ∷ []) refl refl

optimize_filter_indentation_example :
    match_all web (optimize_filter_indentation (both ∷ [])) ≡ match_all web (both ∷ [])
optimize_filter_indentation_example = optimize_filter_indentation_lem web (both ∷ [])

parse_filter_negate-single_example :
    match_all web (named (codes "db") ∷ set_negate (named (codes "web")) ∷ [])
    ≡ and_then
        (match_all web (named (codes "db") ∷ []))
        (negated (match_filter web (named (codes "web"))))
unfolding parse_filter_negate
parse_filter_negate-single_example =
    parse_filter_negate-single web (named (codes "db") ∷ []) (named (codes "web"))
      (named (codes "db") ∷ set_negate (named (codes "web")) ∷ []) refl refl refl

set_regex_filter-same_example :
    SameMatches integers_laws (fields_for regex_match (codes ".*eb")) (codes "web")
unfolding contains_any contains_part trim_wildcards trim_prefix trim_suffix
set_regex_filter-same_example =
    set_regex_filter-same integers_laws (fields_for regex_match (codes ".*eb")) (codes "web") tt
      refl refl refl

match_string-opposite_example :
    match_string (fields_for unequal (codes "web")) (codes "db")
    ≡ negated (match_string (fields_for equal (codes "web")) (codes "db"))
match_string-opposite_example =
    match_string-opposite (fields_for equal (codes "web")) (codes "db") tt

match_int-opposite_example :
    match_int (record (fields_for less (codes "5")) { operator = greater_than }) (pos 5)
    ≡ negated (match_int (fields_for less (codes "5")) (pos 5))
match_int-opposite_example = match_int-opposite (fields_for less (codes "5")) (pos 5) tt

match_string_list-opposite_example :
    match_string_list (fields_for contains_not (codes "eb")) (codes "web" ∷ codes "db" ∷ [])
    ≡ negated (match_string_list (fields_for contains (codes "eb")) (codes "web" ∷ codes "db" ∷ []))
match_string_list-opposite_example =
    match_string_list-opposite (fields_for contains (codes "eb")) (codes "web" ∷ codes "db" ∷ []) tt

regex_is_set : regex_match ≢ unset
regex_is_set e = cc

parse_filter_op-operator_string_example :
    (operator_string regex_match >>= parse_filter_op) ≡ ok (reparsed regex_match)
parse_filter_op-operator_string_example = parse_filter_op-operator_string regex_match regex_is_set
