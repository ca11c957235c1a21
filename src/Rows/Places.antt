-- ===== src/Rows/Places.antt =====
-- The places in a data row that `UpdateValues` writes (lmd/datarow.go).
use lampd.Prelude.{
  ℕ, zero, suc, ◌≡◌, refl, sym, ap, ◌∙◌, Bool, true, false, not, ◌&&◌, ◌||◌, Option, none, some,
  get_elem?, List, [], ◌∷◌, arith, ◌==◌, ==_iff,
}
use lampd.Column.{Column, DataType, int_col, int64_col, json_col, custom_var_col}
use lampd.Platform.{Platform}
use lampd.Rows.{Value, Conversions, DataRow, put_at, store_value, interface2int, interface2int64}
use lampd.Result.{Result, ok, err, ◌>>=◌, bind_ok, update_at}

module _ {A : Type 0} where
  put_at_self : (i : ℕ) (v : A) (xs ys : List A) → put_at i v xs ≡ ok ys → get_elem? ys i ≡ some v
  unfolding put_at update_at
  put_at_self i v [] ys e = absurd (cc)
  put_at_self zero v (x ∷ xs) ys e = ap (λ r. first r) (sym e)
    where
      first : Result (List A) → Option A
      first (ok l) = get_elem? l 0
      first (err w) = none
  put_at_self (suc i) v (x ∷ xs) ys e =
      let (zs, e1, e2) = bind_ok (put_at i v xs) (λ l. ok (x ∷ l)) {end = ys} e in
      let same : x ∷ zs ≡ ys = ground (arith, e2) in
      ap (λ l. get_elem? l (suc i)) (sym same) ∙ put_at_self i v xs zs e1

  put_at_other :
      (i j : ℕ) (v : A) (xs ys : List A)
      → put_at i v xs ≡ ok ys
      → (i == j) ≡ false
      → get_elem? ys j ≡ get_elem? xs j
  unfolding put_at update_at
  put_at_other i j v [] ys e apart = absurd (cc)
  put_at_other zero zero v (x ∷ xs) ys e apart = absurd (cc)
  put_at_other zero (suc j) v (x ∷ xs) ys e apart =
      let same : v ∷ xs ≡ ys = ground (arith, e) in ap (λ l. get_elem? l (suc j)) (sym same)
  put_at_other (suc i) zero v (x ∷ xs) ys e apart =
      let (zs, e1, e2) = bind_ok (put_at i v xs) (λ l. ok (x ∷ l)) {end = ys} e in
      let same : x ∷ zs ≡ ys = ground (arith, e2) in ap (λ l. get_elem? l 0) (sym same)
  put_at_other (suc i) (suc j) v (x ∷ xs) ys e apart =
      let (zs, e1, e2) = bind_ok (put_at i v xs) (λ l. ok (x ∷ l)) {end = ys} e in
      let same : x ∷ zs ≡ ys = ground (arith, e2) in
      ap (λ l. get_elem? l (suc j)) (sym same)
      ∙ put_at_other i j v xs zs e1 (ground (arith, apart, ==_iff i j, ==_iff (suc i) (suc j)))

abbrev pub is_int : DataType → Bool
is_int int_col = true
is_int k = false

abbrev pub is_int64 : DataType → Bool
is_int64 int64_col = true
is_int64 k = false

-- Two columns with the same place in the row, both int or both int64.
abbrev pub clash : Column → Column → Bool
clash a b =
    ((is_int a.data_type && is_int b.data_type) || (is_int64 a.data_type && is_int64 b.data_type))
    && a.index == b.index

abbrev pub clashes : Column → List Column → Bool
clashes a [] = false
clashes a (b ∷ columns) = clash b a || clashes a columns

-- Each column is stored in the row, and int columns have different places.
abbrev pub are_stored : (Column → Bool) → List Column → Bool
are_stored skips [] = true
are_stored skips (col ∷ columns) =
    not (skips col) && not (clashes col columns) && are_stored skips columns

module _ ⦃p : Platform⦄ (c : Conversions) where
  bind_row :
      {X Y : Type 0} (m : Result X) (f : X → DataRow) (row : DataRow) (g : DataRow → Y) (y : Y)
      → (m >>= λ x. ok (f x)) ≡ ok row
      → ((x : X) → m ≡ ok x → g (f x) ≡ y)
      → g row ≡ y
  bind_row m f row g y e h =
      let (x, e1, e2) = bind_ok m (λ x. ok (f x)) {end = row} e in
      let same : f x ≡ row = ground (arith, e2) in ap g (sym same) ∙ h x e1

  pub store_value-int_other :
      (k : DataType) (i j : ℕ) (v : Value) (row row' : DataRow)
      → store_value c k i v row ≡ ok row'
      → (is_int k && i == j) ≡ false
      → get_elem? row'.data_int j ≡ get_elem? row.data_int j
  unfolding store_value
  store_value-int_other int_col i j v row row' e apart =
      bind_row _ _ row' (λ (r : DataRow). get_elem? r.data_int j) _ e
        (λ xs h. put_at_other i j (interface2int c v) row.data_int xs h apart)
  store_value-int_other json_col i j v row row' e apart = absurd (cc)
  store_value-int_other custom_var_col i j v row row' e apart = absurd (cc)
  store_value-int_other _ i j v row row' e apart =
      bind_row _ _ row' (λ (r : DataRow). get_elem? r.data_int j) _ e (λ xs h. refl)

  pub store_value-int64_other :
      (k : DataType) (i j : ℕ) (v : Value) (row row' : DataRow)
      → store_value c k i v row ≡ ok row'
      → (is_int64 k && i == j) ≡ false
      → get_elem? row'.data_int64 j ≡ get_elem? row.data_int64 j
  unfolding store_value
  store_value-int64_other int64_col i j v row row' e apart =
      bind_row _ _ row' (λ (r : DataRow). get_elem? r.data_int64 j) _ e
        (λ xs h. put_at_other i j (interface2int64 c v) row.data_int64 xs h apart)
  store_value-int64_other json_col i j v row row' e apart = absurd (cc)
  store_value-int64_other custom_var_col i j v row row' e apart = absurd (cc)
  store_value-int64_other _ i j v row row' e apart =
      bind_row _ _ row' (λ (r : DataRow). get_elem? r.data_int64 j) _ e (λ xs h. refl)

  pub store_value-int_self :
      (k : DataType) (i : ℕ) (v : Value) (row row' : DataRow)
      → store_value c k i v row ≡ ok row'
      → is_int k ≡ true
      → get_elem? row'.data_int i ≡ some (interface2int c v)
  unfolding store_value
  store_value-int_self int_col i v row row' e here =
      bind_row _ _ row' (λ (r : DataRow). get_elem? r.data_int i) _ e
        (λ xs h. put_at_self i (interface2int c v) row.data_int xs h)
  store_value-int_self _ i v row row' e here = absurd (cc)

  pub store_value-int64_self :
      (k : DataType) (i : ℕ) (v : Value) (row row' : DataRow)
      → store_value c k i v row ≡ ok row'
      → is_int64 k ≡ true
      → get_elem? row'.data_int64 i ≡ some (interface2int64 c v)
  unfolding store_value
  store_value-int64_self int64_col i v row row' e here =
      bind_row _ _ row' (λ (r : DataRow). get_elem? r.data_int64 i) _ e
        (λ xs h. put_at_self i (interface2int64 c v) row.data_int64 xs h)
  store_value-int64_self _ i v row row' e here = absurd (cc)
