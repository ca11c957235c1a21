-- ===== src/Response/Fronts.antt =====
-- The first rows of joined lists, for the limits of lmd/response.go.
use lampd.Prelude.{
  ℕ, zero, suc, ◌+◌, ◌≤◌, ◌<◌, ◌≡◌, refl, ap, ◌⊎◌, List, [], ◌∷◌, ◌++◌, arith, length, take, drop,
}

module _ {A : Type 0} where
  pub take-take :
      (n k : ℕ) (xs : List A) → (length xs ≤ k) ⊎ (n ≤ k) → take n (take k xs) ≡ take n xs
  take-take zero k xs h = refl
  take-take (suc n) zero [] h = refl
  take-take (suc n) zero (x ∷ xs) h = absurd (omega arith)
  take-take (suc n) (suc k) [] h = refl
  take-take (suc n) (suc k) (x ∷ xs) h = ap (◌∷◌ x) (take-take n k xs (omega arith))

  -- The first `n` rows do not see a cut of the last rows at `n` or later.
  pub take-append_take :
      (n k : ℕ) (xs ys : List A)
      → (length ys ≤ k) ⊎ (n ≤ k)
      → take n (xs ++ take k ys) ≡ take n (xs ++ ys)
  take-append_take n k [] ys h = take-take n k ys h
  take-append_take zero k (x ∷ xs) ys h = refl
  take-append_take (suc n) k (x ∷ xs) ys h = ap (◌∷◌ x) (take-append_take n k xs ys (omega arith))

  -- Lists with the same first `n` rows keep them when rows are added.
  pub take-append_front :
      (n : ℕ) (xs ys zs : List A) → take n xs ≡ take n ys → take n (xs ++ zs) ≡ take n (ys ++ zs)
  take-append_front zero xs ys zs h = refl
  take-append_front (suc n) [] [] zs h = refl
  take-append_front (suc n) [] (y ∷ ys) zs h = absurd (cc)
  take-append_front (suc n) (x ∷ xs) [] zs h = absurd (cc)
  take-append_front (suc n) (x ∷ xs) (y ∷ ys) zs h =
      let heads : x ≡ y = cc in
      let tails : take n xs ≡ take n ys = cc in let rest = take-append_front n xs ys zs tails in cc

  pub take-drop : (l o n : ℕ) (xs : List A) → n ≡ l + o → take l (drop o xs) ≡ drop o (take n xs)
  take-drop l zero n xs e = ap (λ k. take k xs) (omega arith)
  take-drop l (suc o) zero xs e = absurd (omega arith)
  take-drop zero (suc o) (suc n) [] e = refl
  take-drop (suc l) (suc o) (suc n) [] e = refl
  take-drop l (suc o) (suc n) (x ∷ xs) e = take-drop l o n xs (omega arith)

  pub drop_none : (o : ℕ) (xs : List A) → length xs ≤ o → drop o xs ≡ []
  drop_none zero [] h = refl
  drop_none (suc o) [] h = refl
  drop_none zero (x ∷ xs) h = absurd (omega arith)
  drop_none (suc o) (x ∷ xs) h = drop_none o xs (omega arith)

  pub take_all : (n : ℕ) (xs : List A) → length xs ≤ n → take n xs ≡ xs
  take_all zero [] h = refl
  take_all (suc n) [] h = refl
  take_all zero (x ∷ xs) h = absurd (omega arith)
  take_all (suc n) (x ∷ xs) h = ap (◌∷◌ x) (take_all n xs (omega arith))

  pub take_none : (n : ℕ) → take {A = A} n [] ≡ []
  take_none zero = refl
  take_none (suc n) = refl

  pub front_all : (n : ℕ) (xs ys : List A) → length ys < n → take n xs ≡ take n ys → xs ≡ ys
  front_all zero xs ys few h = absurd (omega arith)
  front_all (suc n) [] [] few h = refl
  front_all (suc n) [] (y ∷ ys) few h = absurd (cc)
  front_all (suc n) (x ∷ xs) [] few h = absurd (cc)
  front_all (suc n) (x ∷ xs) (y ∷ ys) few h =
      let tails : take n xs ≡ take n ys = cc in
      let rest = front_all n xs ys (omega arith) tails in cc
