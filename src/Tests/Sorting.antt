-- ===== src/Tests/Sorting.antt =====
-- A run of the model of the order of rows.
use lampd.Prelude.{◌≡◌, refl, true, some, List, [], ◌∷◌, arith}
use lampd.Prelude.Int.{eq_ℤ}
use lampd.Prelude.Bytes.{codes}
use lampd.Column.{int_col}
use lampd.Request.{SortField, asc, desc}
use lampd.Response.Sorting.{less}
use lampd.Response.Sorting.Weak.{IsWeak, IsPreorder, HasNumbers, less-IsPreorder}
use lampd.Result.{ok}
use lampd.Tests.Data.{integers, name_column}

-- No integer is a NaN.
integers-IsWeak : IsWeak (λ n. Unit) integers.float_eq integers.float_lt
unfolding integers eq_ℤ
integers-IsWeak = record {
  equal = λ a b _ _. ground arith;
  one_way = λ a b _ _. ground arith;
  between = λ a b c _ _ _ h. ground (arith, h);
}

-- Sort: state desc, Sort: name asc
abbrev by_state_and_name : List SortField
by_state_and_name =
    record {
      name = codes "state";
      direction = desc;
      args = [];
      column = some (record name_column { name = codes "state"; data_type = int_col });
    }
    ∷ record { name = codes "name"; direction = asc; args = []; column = some name_column }
    ∷ []

less-IsPreorder_example :
    IsPreorder (HasNumbers (λ n. Unit)) (λ a b. less by_state_and_name a b ≡ ok true)
less-IsPreorder_example = less-IsPreorder (λ n. Unit) integers-IsWeak by_state_and_name refl
