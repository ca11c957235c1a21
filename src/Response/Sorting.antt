-- ===== src/Response/Sorting.antt =====
-- `Less` of lmd/rawresultset.go, by which the rows of an answer are sorted.
pub mod Weak
use lampd.Prelude.{Bool, true, false, Option, none, some, List, [], ◌∷◌, if◌then◌else◌}
use lampd.Prelude.Bytes.{Bytes, ◌=b◌, bytes_lt}
use lampd.Column.{Column, DataType, int_col, int64_col, float_col}
use lampd.Filter.Match.{Row}
use lampd.Platform.{Platform}
use lampd.Request.{SortField, SortDirection, asc, desc}
use lampd.Result.{Result, ok, err, panic}

-- Columns that are compared as float64; all other types are compared as texts.
abbrev pub is_number : DataType → Bool
is_number int_col = true
is_number int64_col = true
is_number float_col = true
is_number k = false

-- One round of the loop for two values: are they equal, is the first less, is it greater?
abbrev pub by_direction : SortDirection → Bool → Bool → Bool → Result Bool → Result Bool
by_direction asc same is_less is_greater rest = if same then rest else ok is_less
by_direction desc same is_less is_greater rest = if same then rest else ok is_greater

module _ ⦃p : Platform⦄ where
  -- One round of the loop; a sort field without a column panics.
  unfoldable pub compare_by : Option Column → SortDirection → Row → Row → Result Bool → Result Bool
  unfolding ◌=b◌ bytes_lt
  compare_by none d a b rest = err panic
  compare_by (some c) d a b rest =
      if is_number c.data_type
      then by_direction d (p.float_eq (a.get_float c) (b.get_float c))
          (p.float_lt (a.get_float c) (b.get_float c)) (p.float_lt (b.get_float c) (a.get_float c))
          rest
      else by_direction d (a.get_string c =b b.get_string c)
          (bytes_lt (a.get_string c) (b.get_string c)) (bytes_lt (b.get_string c) (a.get_string c))
          rest

  -- `Less` of RawResultSet
  unfoldable pub less : List SortField → Row → Row → Result Bool
  unfolding compare_by
  less [] a b = ok true
  less (s ∷ fields) a b = let rest = less fields a b in compare_by s.column s.direction a b rest
