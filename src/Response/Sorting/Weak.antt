-- ===== src/Response/Sorting/Weak.antt =====
-- `Less` (lmd/rawresultset.go) orders the rows of an answer.
use lampd.Prelude.{
  ◌≡◌, refl, ◌⊎◌, inl, inr, Bool, true, false, not, ◌&&◌, ◌||◌, Option, none, some, List, [], ◌∷◌,
  arith, if◌then◌else◌, Bool-cases,
}
use lampd.Prelude.Bytes.{Bytes, ◌=b◌, bytes_lt}
use lampd.Column.{Column}
use lampd.Filter.Match.{Row}
use lampd.Filter.Match.Returns.{is_some}
use lampd.Platform.{Platform}
use lampd.Request.{SortField, SortDirection, asc, desc}
use lampd.Response.Sorting.{is_number, by_direction, compare_by, less}
use lampd.Result.{Result, ok}

-- A strict weak order with its equality test, on the elements that are in `On`.
pub record IsWeak {A : Type 0} (On : A → Type 0) (eq lt : A → A → Bool) : Type 0 where
  pub equal : (a b : A) → On a → On b → eq a b ≡ (not (lt a b) && not (lt b a))
  pub one_way : (a b : A) → On a → On b → (lt a b && lt b a) ≡ false
  pub between : (a b c : A) → On a → On b → On c → lt a c ≡ true → (lt a b || lt b c) ≡ true

bytes_lt-one_way : (a b : Bytes) → (bytes_lt a b && bytes_lt b a) ≡ false
unfolding bytes_lt
bytes_lt-one_way [] [] = refl
bytes_lt-one_way [] (y ∷ ys) = refl
bytes_lt-one_way (x ∷ xs) [] = refl
bytes_lt-one_way (x ∷ xs) (y ∷ ys) = ground (arith, bytes_lt-one_way xs ys)

bytes_lt-equal : (a b : Bytes) → (a =b b) ≡ (not (bytes_lt a b) && not (bytes_lt b a))
unfolding bytes_lt ◌=b◌
bytes_lt-equal [] [] = refl
bytes_lt-equal [] (y ∷ ys) = refl
bytes_lt-equal (x ∷ xs) [] = refl
bytes_lt-equal (x ∷ xs) (y ∷ ys) = ground (arith, bytes_lt-equal xs ys)

bytes_lt-between : (a b c : Bytes) → bytes_lt a c ≡ true → (bytes_lt a b || bytes_lt b c) ≡ true
unfolding bytes_lt
bytes_lt-between [] [] [] h = absurd (cc)
bytes_lt-between [] [] (z ∷ zs) h = refl
bytes_lt-between [] (y ∷ ys) c h = refl
bytes_lt-between (x ∷ xs) b [] h = absurd (cc)
bytes_lt-between (x ∷ xs) [] (z ∷ zs) h = refl
bytes_lt-between (x ∷ xs) (y ∷ ys) (z ∷ zs) h =
    let rest = bytes_lt-between xs ys zs in ground (arith, rest, h)

bytes_lt-IsWeak : IsWeak (λ text. Unit) ◌=b◌ bytes_lt
bytes_lt-IsWeak = record {
  equal = λ a b _ _. bytes_lt-equal a b;
  one_way = λ a b _ _. bytes_lt-one_way a b;
  between = λ a b c _ _ _. bytes_lt-between a b c;
}

module _ {A : Type 0} {On : A → Type 0} {eq lt : A → A → Bool} (weak : IsWeak On eq lt)
    (d : SortDirection) where
  by_direction_total :
      (a b : A) (rest back : Result Bool)
      → On a
      → On b
      → (rest ≡ ok true) ⊎ (back ≡ ok true)
      → (by_direction d (eq a b) (lt a b) (lt b a) rest ≡ ok true)
        ⊎ (by_direction d (eq b a) (lt b a) (lt a b) back ≡ ok true)
  by_direction_total a b rest back on_a on_b later =
      let e = weak.equal a b on_a on_b in
      let e' = weak.equal b a on_b on_a in
      elim (Bool-cases (eq a b)) [
        | inl same ↦ elim later [
          | inl h ↦ inl (ground (arith, same, h))
          | inr h ↦ inr (ground (arith, e, e', same, h))
        ]
        | inr other ↦ elim (Bool-cases (lt a b)) [
          | inl before ↦
              elim d
                as (λ d.
                  (by_direction d (eq a b) (lt a b) (lt b a) rest ≡ ok true)
                  ⊎ (by_direction d (eq b a) (lt b a) (lt a b) back ≡ ok true)) [
                    | asc ↦ inl (ground (arith, other, before))
                    | desc ↦ inr (ground (arith, e, e', other, before))
                  ]
          | inr behind ↦
              elim d
                as (λ d.
                  (by_direction d (eq a b) (lt a b) (lt b a) rest ≡ ok true)
                  ⊎ (by_direction d (eq b a) (lt b a) (lt a b) back ≡ ok true)) [
                    | asc ↦ inr (ground (arith, e, e', other, behind))
                    | desc ↦ inl (ground (arith, e, e', other, behind))
                  ]
        ]
      ]

  by_direction_trans :
      (a b c : A) (ab bc ac : Result Bool)
      → On a
      → On b
      → On c
      → (ab ≡ ok true → bc ≡ ok true → ac ≡ ok true)
      → by_direction d (eq a b) (lt a b) (lt b a) ab ≡ ok true
      → by_direction d (eq b c) (lt b c) (lt c b) bc ≡ ok true
      → by_direction d (eq a c) (lt a c) (lt c a) ac ≡ ok true
  by_direction_trans a b c ab bc ac on_a on_b on_c later h k =
      let e1 = weak.equal a b on_a on_b in
      let e2 = weak.equal b c on_b on_c in
      let e3 = weak.equal a c on_a on_c in
      let o1 = weak.one_way a b on_a on_b in
      let o2 = weak.one_way b c on_b on_c in
      let o3 = weak.one_way a c on_a on_c in
      let n1 = weak.between a b c on_a on_b on_c in
      let n2 = weak.between c b a on_c on_b on_a in
      let n3 = weak.between a c b on_a on_c on_b in
      let n4 = weak.between b c a on_b on_c on_a in
      let n5 = weak.between b a c on_b on_a on_c in
      let n6 = weak.between c a b on_c on_a on_b in
      ground (arith, e1, e2, e3, o1, o2, o3, n1, n2, n3, n4, n5, n6, h, k, later)

-- A total preorder on the elements that are in `On`: one of two elements comes first, and what comes
-- before composes.
pub record IsPreorder {A : Type 0} (On : A → Type 0) (before : A → A → Type 0) : Type 0 where
  pub total : (a b : A) → On a → On b → before a b ⊎ before b a
  pub trans : (a b c : A) → On a → On b → On c → before a b → before b c → before a c

-- Each sort field has its column.
abbrev pub have_columns : List SortField → Bool
have_columns [] = true
have_columns (s ∷ fields) = is_some s.column && have_columns fields

module _ ⦃p : Platform⦄ (IsNumber : p.Float → Type 0) where
  -- No number of the row is a NaN.
  abbrev pub HasNumbers : Row → Type 0
  HasNumbers row = (c : Column) → IsNumber (row.get_float c)

module _ ⦃p : Platform⦄ (IsNumber : p.Float → Type 0)
    (floats : IsWeak IsNumber p.float_eq p.float_lt) where
  compare_by_total :
      (o : Option Column) (d : SortDirection) (a b : Row) (rest back : Result Bool)
      → HasNumbers IsNumber a
      → HasNumbers IsNumber b
      → is_some o ≡ true
      → (rest ≡ ok true) ⊎ (back ≡ ok true)
      → (compare_by o d a b rest ≡ ok true) ⊎ (compare_by o d b a back ≡ ok true)
  unfolding compare_by
  compare_by_total none d a b rest back on_a on_b known later = absurd (cc)
  compare_by_total (some c) d a b rest back on_a on_b known later = by_kind (is_number c.data_type)
    where
      by_kind :
          (numeric : Bool)
          → ((if numeric
                then by_direction d
                    (p.float_eq (a.get_float c) (b.get_float c))
                    (p.float_lt (a.get_float c) (b.get_float c))
                    (p.float_lt (b.get_float c) (a.get_float c))
                    rest
                else by_direction d
                    (a.get_string c =b b.get_string c)
                    (bytes_lt (a.get_string c) (b.get_string c))
                    (bytes_lt (b.get_string c) (a.get_string c))
                    rest)
              ≡ ok true)
            ⊎ ((if numeric
                  then by_direction d
                      (p.float_eq (b.get_float c) (a.get_float c))
                      (p.float_lt (b.get_float c) (a.get_float c))
                      (p.float_lt (a.get_float c) (b.get_float c))
                      back
                  else by_direction d
                      (b.get_string c =b a.get_string c)
                      (bytes_lt (b.get_string c) (a.get_string c))
                      (bytes_lt (a.get_string c) (b.get_string c))
                      back)
                ≡ ok true)
      by_kind true =
          by_direction_total floats d (a.get_float c) (b.get_float c) rest back (on_a c) (on_b c)
            later
      by_kind false =
          by_direction_total bytes_lt-IsWeak d (a.get_string c) (b.get_string c) rest back tt tt
            later

  compare_by_trans :
      (o : Option Column) (d : SortDirection) (x y z : Row) (xy yz xz : Result Bool)
      → HasNumbers IsNumber x
      → HasNumbers IsNumber y
      → HasNumbers IsNumber z
      → (xy ≡ ok true → yz ≡ ok true → xz ≡ ok true)
      → compare_by o d x y xy ≡ ok true
      → compare_by o d y z yz ≡ ok true
      → compare_by o d x z xz ≡ ok true
  unfolding compare_by
  compare_by_trans none d x y z xy yz xz on_x on_y on_z later h k = absurd (cc)
  compare_by_trans (some c) d x y z xy yz xz on_x on_y on_z later h k =
      elim (Bool-cases (is_number c.data_type)) [
        | inl numeric ↦
            let found =
              by_direction_trans floats d (x.get_float c) (y.get_float c) (z.get_float c) xy yz xz
                (on_x c) (on_y c) (on_z c) later (ground (arith, numeric, h))
                (ground (arith, numeric, k)) in
            ground (arith, numeric, found)
        | inr textual ↦
            let found =
              by_direction_trans bytes_lt-IsWeak d (x.get_string c) (y.get_string c)
                (z.get_string c) xy yz xz tt tt tt later (ground (arith, textual, h))
                (ground (arith, textual, k)) in
            ground (arith, textual, found)
      ]

  less_total :
      (fields : List SortField) (a b : Row)
      → HasNumbers IsNumber a
      → HasNumbers IsNumber b
      → have_columns fields ≡ true
      → (less fields a b ≡ ok true) ⊎ (less fields b a ≡ ok true)
  unfolding less
  less_total [] a b on_a on_b known = inl refl
  less_total (s ∷ fields) a b on_a on_b known =
      compare_by_total s.column s.direction a b (less fields a b) (less fields b a) on_a on_b
        (ground (arith, known)) (less_total fields a b on_a on_b (ground (arith, known)))

  less_trans :
      (fields : List SortField) (a b c : Row)
      → HasNumbers IsNumber a
      → HasNumbers IsNumber b
      → HasNumbers IsNumber c
      → less fields a b ≡ ok true
      → less fields b c ≡ ok true
      → less fields a c ≡ ok true
  unfolding less
  less_trans [] a b c on_a on_b on_c h k = refl
  less_trans (s ∷ fields) a b c on_a on_b on_c h k =
      compare_by_trans s.column s.direction a b c (less fields a b) (less fields b c)
        (less fields a c) on_a on_b on_c (less_trans fields a b c on_a on_b on_c) h k

  -- If the comparison of float64 values is a strict weak order on numbers, NaN left out, and each sort
  -- field has its column, then `Less` is a total preorder on the rows that have such numbers only,
  -- whatever the types and directions of the fields.
  pub less-IsPreorder :
      (fields : List SortField)
      → have_columns fields ≡ true
      → IsPreorder (HasNumbers IsNumber) (λ a b. less fields a b ≡ ok true)
  less-IsPreorder fields known = record {
    total = λ a b on_a on_b. less_total fields a b on_a on_b known;
    trans = less_trans fields;
  }
