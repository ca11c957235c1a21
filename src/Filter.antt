-- ===== src/Filter.antt =====
-- The types of lmd/filter.go. A filter is its own fields with the list of its subfilters.
use lampd.Prelude.{ℕ, Bool, false, Option, none, List, [], ◌∷◌, refl, ◌≡◌, ap, ◌+◌}
pub mod Match
pub mod Names
pub mod Parse
pub mod Group
use lampd.Prelude.Bytes.{Bytes}
use lampd.Column.{Column, OptionalFlags}
use lampd.Platform.{Platform}

pub data StatsType : Type 0 where
  no_stats counter sum average min max stats_group : StatsType

-- `unset` is the zero value.
pub data Operator : Type 0 where
  unset equal unequal equal_nocase unequal_nocase : Operator
  regex_match regex_match_not regex_no_case_match regex_no_case_match_not : Operator
  contains contains_not contains_no_case contains_no_case_not : Operator
  less less_than greater greater_than group_contains_not : Operator

-- `ungrouped` is the zero value.
pub data GroupOperator : Type 0 where
  ungrouped and or : GroupOperator

module _ ⦃p : Platform⦄ where
  -- The fields of `Filter` but the subfilters.
  pub record Fields : Type 0 where
    pub column : Option Column
    pub operator : Operator
    pub str_value : Bytes
    pub float_value : p.Float
    pub regexp : Option p.Regex
    pub custom_tag : Bytes
    pub is_empty : Bool
    pub negate : Bool
    pub group_operator : GroupOperator
    pub stats : p.Float
    pub stats_count : ℕ
    pub stats_type : StatsType
    pub stats_pos : ℕ
    pub column_optional : OptionalFlags

  mutual
    pub data Filter : Type 0 where
      filter : Fields → Filters → Filter

    pub data Filters : Type 0 where
      nil : Filters
      cons : Filter → Filters → Filters

  abbrev pub fields : Filter → Fields
  fields (filter a fs) = a

  abbrev pub to_list : Filters → List Filter
  to_list nil = []
  to_list (cons f fs) = f ∷ to_list fs

  abbrev pub from_list : List Filter → Filters
  from_list [] = nil
  from_list (f ∷ fs) = cons f (from_list fs)

  -- f.Filter
  abbrev pub children : Filter → List Filter
  children (filter a fs) = to_list fs

  pub to_list-from_list : (fs : List Filter) → to_list (from_list fs) ≡ fs
  to_list-from_list [] = refl
  to_list-from_list (f ∷ fs) = ap (◌∷◌ f) (to_list-from_list fs)

  -- &Filter{}
  abbrev pub zero_fields : Fields
  zero_fields = record {
    column = none;
    operator = unset;
    str_value = [];
    float_value = p.from_nat 0;
    regexp = none;
    custom_tag = [];
    is_empty = false;
    negate = false;
    group_operator = ungrouped;
    stats = p.from_nat 0;
    stats_count = 0;
    stats_type = no_stats;
    stats_pos = 0;
    column_optional = 0;
  }
