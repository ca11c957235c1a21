-- ===== src/Prelude/Dict.antt =====
-- Maps with byte strings as keys: lists of pairs in which a new key goes to the end.
use mathlib.Core.Path.{◌≡◌, refl, sym, ◌∙◌, subst}
use mathlib.Core.Logic.{inl, inr}
use mathlib.Core.Bool.{true, false}
use mathlib.Core.Option.{Option, none, some}
use mathlib.Core.List.{List, [], ◌∷◌}
use native.Mathlib.Omega.{arith}
use lampd.Prelude.Tests.{if◌then◌else◌, Bool-cases}
use lampd.Prelude.Bytes.{Bytes, ◌=b◌, =b_iff}

abbrev pub Dict : Type 0 → Type 0
Dict A = List (Bytes × A)

module _ {A : Type 0} where
  unfoldable pub lookup : Bytes → Dict A → Option A
  lookup k [] = none
  lookup k ((j, a) ∷ m) = if j =b k then some a else lookup k m

  unfoldable pub insert : Bytes → A → Dict A → Dict A
  insert k a [] = (k, a) ∷ []
  insert k a ((j, b) ∷ m) = let rest = insert k a m in if j =b k then (j, a) ∷ m else (j, b) ∷ rest

  unfoldable pub delete : Bytes → Dict A → Dict A
  delete k [] = []
  delete k ((j, b) ∷ m) = let rest = delete k m in if j =b k then rest else (j, b) ∷ rest

  pub lookup-insert :
      (j k : Bytes) (a : A) (m : Dict A)
      → lookup j (insert k a m) ≡ (if k =b j then some a else lookup j m)
  unfolding lookup insert
  lookup-insert j k a [] = refl
  lookup-insert j k a ((i, b) ∷ m) =
      ground (arith, lookup-insert j k a m, =b_iff i k, =b_iff i j, =b_iff k j)

  pub lookup-delete :
      (j k : Bytes) (m : Dict A) → lookup j (delete k m) ≡ (if k =b j then none else lookup j m)
  unfolding lookup delete
  lookup-delete j k [] = ground arith
  lookup-delete j k ((i, b) ∷ m) =
      ground (arith, lookup-delete j k m, =b_iff i k, =b_iff i j, =b_iff k j)

  -- No key stands in the map twice.
  abbrev pub IsUnique : Dict A → Type 0
  IsUnique [] = Unit
  IsUnique ((k, a) ∷ m) = (lookup k m ≡ none) × IsUnique m

  insert-here :
      (k j : Bytes) (a b : A) (m : Dict A) → (j =b k) ≡ true → insert k a ((j, b) ∷ m) ≡ (j, a) ∷ m
  unfolding insert
  insert-here k j a b m e = ground (arith, e)

  insert-later :
      (k j : Bytes) (a b : A) (m : Dict A)
      → (j =b k) ≡ false
      → insert k a ((j, b) ∷ m) ≡ (j, b) ∷ insert k a m
  unfolding insert
  insert-later k j a b m e = ground (arith, e)

  pub insert-IsUnique : (k : Bytes) (a : A) (m : Dict A) → IsUnique m → IsUnique (insert k a m)
  unfolding lookup insert
  insert-IsUnique k a [] unique = (refl, tt)
  insert-IsUnique k a ((j, b) ∷ m) unique = elim (Bool-cases (j =b k)) [
    | inl here ↦ subst IsUnique (sym (insert-here k j a b m here)) unique
    | inr later ↦
        let apart = unique.0 in
        let absent : lookup j (insert k a m) ≡ none =
          lookup-insert j k a m ∙ ground (arith, apart, later, =b_iff k j, =b_iff j k) in
        subst IsUnique (sym (insert-later k j a b m later)) (absent, insert-IsUnique k a m unique.1)
  ]
