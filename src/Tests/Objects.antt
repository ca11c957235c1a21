-- ===== src/Tests/Objects.antt =====
-- Runs of the model of data rows and of the lists of comments.
use lampd.Prelude.{◌≡◌, refl, true, false, List, [], ◌∷◌}
use lampd.Prelude.Int.{ℤ, pos}
use lampd.Prelude.Bytes.{codes, ◌=b◌}
use lampd.Prelude.Dict.{lookup}
use lampd.Column.{Column, int_col, int64_col}
use lampd.Delta.Remarks.{Remark, Objects, host, service, build_downtime_comments_list}
use lampd.Delta.Remarks.Owners.{are_known, with_own_ids, build_downtime_comments_list-own}
use lampd.Rows.{
  Value, text, number, Conversions, DataRow, is_skipped, update_values, check_changed_int_values,
}
use lampd.Rows.Places.{are_stored}
use lampd.Rows.Total.{have_places}
use lampd.Rows.Unchanged.{update_values-check_changed_int_values}
use lampd.Store.{Item}
use lampd.Result.{ok}
use lampd.Tests.Data.{integers, name_column}

abbrev web_host : Item (List ℤ)
web_host = record { ref = 1; id1 = codes "web"; id2 = []; row = pos 9 ∷ [] }

abbrev pub objects : Objects
objects = record {
  hosts = record {
    keys = 1;
    items = web_host ∷ [];
    index = (codes "web", web_host) ∷ [];
    index2 = [];
  };
  services = record { keys = 2; items = []; index = []; index2 = [] };
}

abbrev remarks : List Remark
remarks =
    record { id = pos 4; host_name = codes "web"; service_description = [] }
    ∷ record { id = pos 5; host_name = codes "web"; service_description = [] }
    ∷ []

remarks-known : are_known objects remarks ≡ true
unfolding are_known ◌=b◌ lookup
remarks-known = refl

build_downtime_comments_list-own_example :
    build_downtime_comments_list objects remarks
    ≡ ok
        (with_own_ids objects host remarks (web_host ∷ []), with_own_ids objects service remarks [])
build_downtime_comments_list-own_example =
    build_downtime_comments_list-own objects remarks remarks-known

-- Texts are no numbers here.
abbrev conversions : Conversions
conversions = record {
  parse_int_value = λ s. pos 0;
  parse_float_value = λ s. integers.from_nat 0;
  format_value = λ v. [];
}

abbrev state_column : Column
state_column = record name_column { name = codes "state"; data_type = int_col }

abbrev last_check_column : Column
last_check_column = record name_column { name = codes "last_check"; data_type = int64_col }

abbrev empty_row : DataRow
empty_row = record {
  data_string = [];
  data_int = pos 0 ∷ [];
  data_int64 = pos 0 ∷ [];
  data_float = [];
  data_string_list = [];
  data_int64_list = [];
  data_service_member_list = [];
  data_string_large = [];
  data_interface_list = [];
  last_update = 0;
}

-- The primary key, then the values of the two columns.
abbrev answer : List Value
answer = text (codes "web") ∷ number (integers.from_nat 2) ∷ number (integers.from_nat 60) ∷ []

two_columns-are_stored :
    are_stored (is_skipped (λ flags. true)) (state_column ∷ last_check_column ∷ []) ≡ true
unfolding is_skipped
two_columns-are_stored = refl

two_columns-have_places : have_places empty_row (state_column ∷ last_check_column ∷ []) ≡ true
unfolding have_places
two_columns-have_places = refl

update_values-check_changed_int_values_example :
    (row' : DataRow) × (update_values conversions
        (λ flags. true)
        70
        1
        answer
        (state_column ∷ last_check_column ∷ [])
        0
        empty_row
      ≡ ok row')
    × (check_changed_int_values conversions 1 answer (state_column ∷ last_check_column ∷ []) row'
        ≡ ok false)
update_values-check_changed_int_values_example =
    update_values-check_changed_int_values conversions (λ flags. true) 70 1 0 answer
      (state_column ∷ last_check_column ∷ []) empty_row refl two_columns-are_stored
      two_columns-have_places
