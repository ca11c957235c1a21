-- ===== src/Store/Held.antt =====
-- The rows of a store as a list of items (lmd/datastore.go).
use mathlib.Core.Path.{subst}
use lampd.Prelude.{
  ℕ, ◌≡◌, refl, sym, ap, ◌∙◌, ◌⊎◌, inl, inr, true, none, some, List, [], ◌∷◌, arith, ◌==◌, ==_iff,
  Bool-cases, Option-cases,
}
use lampd.Prelude.Bytes.{Bytes, ◌=b◌, =b_iff}
use lampd.Store.{Item, cut_item}
use lampd.Store.Index.{last_item, IsDistinct, RefersTo}

module _ {A : Type 0} where
  -- An element of a list.
  abbrev pub Holds : List (Item A) → Item A → Type 0
  Holds [] x = ⊥
  Holds (y ∷ items) x = (x ≡ y) ⊎ Holds items x

  pub last_item-Holds :
      (items : List (Item A)) (x : Item A)
      → IsDistinct items
      → Holds items x
      → last_item x.id1 items ≡ some x
  unfolding last_item
  last_item-Holds [] x distinct h = absurd h
  last_item-Holds (y ∷ items) x distinct (inl e) =
      let apart = distinct.0 in ground (arith, e, apart, =b_iff y.id1 x.id1)
  last_item-Holds (y ∷ items) x distinct (inr h) =
      let found = last_item-Holds items x distinct.1 h in ground (arith, found)

  -- Items with one address have one name.
  abbrev pub HaveOwnRefs : List (Item A) → Type 0
  HaveOwnRefs items =
      (x y : Item A) → Holds items x → Holds items y → (y.ref == x.ref) ≡ true → y.id1 ≡ x.id1

  pub last_item-some :
      (k : Bytes) (items : List (Item A)) (x : Item A)
      → last_item k items ≡ some x
      → Holds items x × (x.id1 ≡ k)
  unfolding last_item
  last_item-some k [] x e = absurd (cc)
  last_item-some k (y ∷ items) x e = elim (Option-cases (last_item k items)) [
    | inl missing ↦ elim (Bool-cases (y.id1 =b k)) [
      | inl here ↦
          let same : x ≡ y = ground (arith, missing, here, e) in
          (inl same, ap (λ (i : Item A). i.id1) same ∙ (=b_iff y.id1 k).0 here)
      | inr other ↦ absurd (ground (arith, missing, other, e))
    ]
    | inr (z, found) ↦
        let later = last_item-some k items x (found ∙ ground (arith, found, e)) in
        (inr later.0, later.1)
  ]

  pub cut_item-found :
      (items : List (Item A)) (x : Item A)
      → Holds items x
      → (rest : List (Item A)) × (cut_item x.ref items ≡ some rest)
  unfolding cut_item
  cut_item-found [] x h = absurd h
  cut_item-found (y ∷ items) x h = elim (Bool-cases (y.ref == x.ref)) [
    | inl here ↦ (items, ground (arith, here))
    | inr later ↦ elim h [
      | inl e ↦ absurd (ground (arith, e, later, ==_iff y.ref x.ref))
      | inr h' ↦ let (rest, e) = cut_item-found items x h' in (y ∷ rest, ground (arith, later, e))
    ]
  ]

  cut_item_inv :
      (ref : ℕ) (y : Item A) (items rest : List (Item A))
      → cut_item ref (y ∷ items) ≡ some rest
      → (rest ≡ items) ⊎ ((r : List (Item A)) × (cut_item ref items ≡ some r) × (rest ≡ y ∷ r))
  unfolding cut_item
  cut_item_inv ref y items rest e = elim (Bool-cases (y.ref == ref)) [
    | inl here ↦ inl (ground (arith, here, e))
    | inr later ↦ elim (Option-cases (cut_item ref items)) [
      | inl missing ↦ absurd (ground (arith, later, missing, e))
      | inr (r, found) ↦ inr (r, found, ground (arith, later, found, e))
    ]
  ]

  pub cut_item-Holds :
      (ref : ℕ) (items rest : List (Item A)) (x : Item A)
      → cut_item ref items ≡ some rest
      → Holds rest x
      → Holds items x
  unfolding cut_item
  cut_item-Holds ref [] rest x e h = absurd (cc)
  cut_item-Holds ref (y ∷ items) rest x e h = elim (cut_item_inv ref y items rest e) [
    | inl same ↦ inr (subst (λ l. Holds l x) same h)
    | inr (r, found, same) ↦ elim (subst (λ l. Holds l x) same h) [
      | inl here ↦ inl here
      | inr later ↦ inr (cut_item-Holds ref items r x found later)
    ]
  ]

  cut_item-missing :
      (ref : ℕ) (k : Bytes) (items rest : List (Item A))
      → cut_item ref items ≡ some rest
      → last_item k items ≡ none
      → last_item k rest ≡ none
  unfolding last_item cut_item
  cut_item-missing ref k [] rest e missing = absurd (cc)
  cut_item-missing ref k (y ∷ items) rest e missing = elim (Option-cases (last_item k items)) [
    | inr (z, found) ↦ absurd (ground (arith, found, missing))
    | inl none_later ↦ elim (cut_item_inv ref y items rest e) [
      | inl same ↦ ap (last_item k) same ∙ none_later
      | inr (r, found, same) ↦
          let rest_missing = cut_item-missing ref k items r found none_later in
          ap (last_item k) same ∙ ground (arith, rest_missing, none_later, missing)
    ]
  ]

  pub cut_item-IsDistinct :
      (ref : ℕ) (items rest : List (Item A))
      → cut_item ref items ≡ some rest
      → IsDistinct items
      → IsDistinct rest
  unfolding cut_item
  cut_item-IsDistinct ref [] rest e distinct = absurd (cc)
  cut_item-IsDistinct ref (y ∷ items) rest e distinct = elim (cut_item_inv ref y items rest e) [
    | inl same ↦ subst IsDistinct (sym same) distinct.1
    | inr (r, found, same) ↦ subst IsDistinct (sym same) (
      cut_item-missing ref y.id1 items r found distinct.0,
      cut_item-IsDistinct ref items r found distinct.1,
    )
  ]

  pub HaveOwnRefs-RefersTo :
      (x : Item A) (items : List (Item A))
      → ((y : Item A) → Holds items y → (y.ref == x.ref) ≡ true → y.id1 ≡ x.id1)
      → RefersTo x items
  HaveOwnRefs-RefersTo x [] own = tt
  HaveOwnRefs-RefersTo x (y ∷ items) own =
      (own y (inl refl), HaveOwnRefs-RefersTo x items (λ z h. own z (inr h)))
