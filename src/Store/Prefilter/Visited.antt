-- ===== src/Store/Prefilter/Visited.antt =====
-- The rows that the sorted host names of a prefilter visit (lmd/datastore.go).
use mathlib.Core.Path.{subst}
use lampd.Prelude.{
  ◌≡◌, refl, sym, ap, ◌∙◌, inl, inr, true, ◌||◌, none, some, List, [], ◌∷◌, ◌++◌, arith, Bool-cases,
  Option-cases,
}
use lampd.Prelude.Bytes.{Bytes, ◌=b◌, =b_iff}
use lampd.Prelude.Dict.{Dict, lookup}
use lampd.Store.{Item}
use lampd.Store.Held.{Holds}
use lampd.Store.Prefilter.{insert_name, sorted_names, hosts_of_names, services_of_names}
use lampd.Store.Prefilter.Names.{is_in}

is_in-insert_name :
    (k n : Bytes) (names : List Bytes) → is_in k (insert_name n names) ≡ (n =b k || is_in k names)
unfolding is_in insert_name
is_in-insert_name k n [] = refl
is_in-insert_name k n (m ∷ names) =
    ground (arith, is_in-insert_name k n names, =b_iff n m, =b_iff n k, =b_iff m k)

pub is_in-sorted_names :
    (k : Bytes) (names : List Bytes) → is_in k (sorted_names names) ≡ is_in k names
unfolding is_in sorted_names
is_in-sorted_names k [] = refl
is_in-sorted_names k (n ∷ names) =
    is_in-insert_name k n (sorted_names names) ∙ ap (λ b. n =b k || b) (is_in-sorted_names k names)

module _ {A : Type 0} where
  Holds-append_left : (xs ys : List (Item A)) (x : Item A) → Holds xs x → Holds (xs ++ ys) x
  Holds-append_left [] ys x h = absurd h
  Holds-append_left (y ∷ xs) ys x (inl e) = inl e
  Holds-append_left (y ∷ xs) ys x (inr h) = inr (Holds-append_left xs ys x h)

  Holds-append_right : (xs ys : List (Item A)) (x : Item A) → Holds ys x → Holds (xs ++ ys) x
  Holds-append_right [] ys x h = h
  Holds-append_right (y ∷ xs) ys x h = inr (Holds-append_right xs ys x h)

  hosts_of_names-some :
      (index : Dict (Item A)) (n : Bytes) (names : List Bytes) (y : Item A)
      → lookup n index ≡ some y
      → hosts_of_names index (n ∷ names) ≡ y ∷ hosts_of_names index names
  unfolding hosts_of_names
  hosts_of_names-some index n names y e = ground (arith, e)

  hosts_of_names-none :
      (index : Dict (Item A)) (n : Bytes) (names : List Bytes)
      → lookup n index ≡ none
      → hosts_of_names index (n ∷ names) ≡ hosts_of_names index names
  unfolding hosts_of_names
  hosts_of_names-none index n names e = ground (arith, e)

  pub hosts_of_names-Holds :
      (index : Dict (Item A)) (names : List Bytes) (x : Item A)
      → lookup x.id1 index ≡ some x
      → is_in x.id1 names ≡ true
      → Holds (hosts_of_names index names) x
  unfolding is_in
  hosts_of_names-Holds index [] x found h = absurd (cc)
  hosts_of_names-Holds index (n ∷ names) x found h = elim (Bool-cases (n =b x.id1)) [
    | inl here ↦
        let e = ap (λ k. lookup k index) ((=b_iff n x.id1).0 here) ∙ found in
        subst (λ l. Holds l x) (sym (hosts_of_names-some index n names x e)) (inl refl)
    | inr later ↦
        let rest = hosts_of_names-Holds index names x found (ground (arith, later)) in
        elim (Option-cases (lookup n index)) [
          | inl e ↦ subst (λ l. Holds l x) (sym (hosts_of_names-none index n names e)) rest
          | inr (y, e) ↦
              subst (λ l. Holds l x) (sym (hosts_of_names-some index n names y e)) (inr rest)
        ]
  ]

  module _ (visit : Dict (Item A) → List (Item A))
      (visit-Holds : (m : Dict (Item A)) (k : Bytes) (x : Item A)
        → lookup k m ≡ some x
        → Holds (visit m) x) where
    services_of_names-some :
        (index2 : Dict (Dict (Item A))) (n : Bytes) (names : List Bytes) (m : Dict (Item A))
        → lookup n index2 ≡ some m
        → services_of_names visit index2 (n ∷ names)
          ≡ visit m ++ services_of_names visit index2 names
    unfolding services_of_names
    services_of_names-some index2 n names m e = ground (arith, e)

    services_of_names-none :
        (index2 : Dict (Dict (Item A))) (n : Bytes) (names : List Bytes)
        → lookup n index2 ≡ none
        → services_of_names visit index2 (n ∷ names) ≡ services_of_names visit index2 names
    unfolding services_of_names
    services_of_names-none index2 n names e = ground (arith, e)

    pub services_of_names-Holds :
        (index2 : Dict (Dict (Item A))) (names : List Bytes) (x : Item A) (m : Dict (Item A))
        → lookup x.id1 index2 ≡ some m
        → lookup x.id2 m ≡ some x
        → is_in x.id1 names ≡ true
        → Holds (services_of_names visit index2 names) x
    unfolding is_in
    services_of_names-Holds index2 [] x m found inner h = absurd (cc)
    services_of_names-Holds index2 (n ∷ names) x m found inner h = elim (Bool-cases (n =b x.id1)) [
      | inl here ↦
          let e = ap (λ k. lookup k index2) ((=b_iff n x.id1).0 here) ∙ found in
          subst (λ l. Holds l x) (sym (services_of_names-some index2 n names m e))
            (Holds-append_left (visit m) (services_of_names visit index2 names) x
              (visit-Holds m x.id2 x inner))
      | inr later ↦
          let rest = services_of_names-Holds index2 names x m found inner (ground (arith, later)) in
          elim (Option-cases (lookup n index2)) [
            | inl e ↦ subst (λ l. Holds l x) (sym (services_of_names-none index2 n names e)) rest
            | inr (other, e) ↦
                subst (λ l. Holds l x) (sym (services_of_names-some index2 n names other e))
                  (Holds-append_right (visit other) (services_of_names visit index2 names) x rest)
          ]
    ]
    -- `InsertData` and `AppendData` leave a row that is found by its keys.
