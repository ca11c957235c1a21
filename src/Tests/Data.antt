-- ===== src/Tests/Data.antt =====
-- What the runs share: a platform whose numbers are integers and whose only regular expressions
-- are literal texts, some filters on host names, and two rows.
use lampd.Prelude.{◌≡◌, refl, Bool, true, false, Option, some, [], ◌∷◌, arith, drop, if◌then◌else◌}
use lampd.Prelude.Int.{ℤ, pos, negsuc, ◌+ℤ◌, eq_ℤ, ltb_ℤ}
use lampd.Prelude.Bytes.{Bytes, codes, atoi, show_int, has_prefix, contains, contains_any, to_lower}
use lampd.Column.{Column, string_col, local_store, static, hosts}
use lampd.Filter.{Operator, equal, Fields, Filter, filter, nil, zero_fields}
use lampd.Filter.Match.{Row}
use lampd.Filter.Parse.Regexp.{RegexLaws, meta_characters}
use lampd.Platform.{Platform}
use lampd.Result.{ok}

unfoldable pub compile_text : Bytes → Option (Bool × Bytes)
unfolding has_prefix to_lower
compile_text s =
    if has_prefix (codes "(?i)") s then some (true, to_lower (drop 4 s)) else some (false, s)

unfoldable pub match_text : Bool × Bytes → Bytes → Bool
unfolding contains to_lower
match_text (true, s) v = contains s (to_lower v)
match_text (false, s) v = contains s v

instance unfoldable pub integers : Platform
unfolding atoi show_int ◌+ℤ◌ eq_ℤ compile_text match_text
integers = record {
  Float = ℤ;
  parse_float = atoi;
  format_float = show_int;
  truncate = λ z. z;
  from_nat = pos;
  minus_one = negsuc 0;
  add = λ a b. a +ℤ b;
  div = λ a b. a;
  float_eq = eq_ℤ;
  float_lt = ltb_ℤ;
  Regex = Bool × Bytes;
  compile = compile_text;
  match_regex = match_text;
}

no_flag : (s : Bytes) → contains_any meta_characters s ≡ false → has_prefix (codes "(?i)") s ≡ false
unfolding contains_any contains has_prefix
no_flag [] h = refl
no_flag (c ∷ s) h = ground arith

compile_text-literal :
    (s : Bytes) → contains_any meta_characters s ≡ false → compile_text s ≡ some (false, s)
unfolding compile_text
compile_text-literal s h = rw (no_flag s h)

pub integers_laws : RegexLaws
unfolding integers contains match_text compile_text has_prefix
integers_laws = record {
  literal = λ s h _. ((false, s), compile_text-literal s h, λ v _. refl);
  literal_no_case = λ s h _. ((true, to_lower s), refl, λ v ascii. refl);
}

-- The column `name` of hosts.
abbrev pub name_column : Column
name_column = record {
  ref = 1;
  name = codes "name";
  data_type = string_col;
  fetch_type = static;
  storage_type = local_store;
  optional = 0;
  index = 0;
  table = hosts;
}

abbrev pub row_of : Bytes → Row
row_of name = record {
  get_string = λ c. name;
  get_string_list = λ c. [];
  get_int = λ c. pos 0;
  get_int64 = λ c. pos 0;
  get_float = λ c. integers.from_nat 0;
  get_int64_list = λ c. [];
  get_custom_var_value = λ c tag. ok [];
  peer_has_flag = λ flags. true;
}

abbrev pub web : Row × Column
web = (row_of (codes "web"), name_column)

abbrev pub fields_for : Operator → Bytes → Fields
fields_for op text = record zero_fields {
  column = some name_column;
  operator = op;
  str_value = text;
}

abbrev pub named : Bytes → Filter
named text = filter (fields_for equal text) nil
