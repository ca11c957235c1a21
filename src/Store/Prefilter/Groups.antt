-- ===== src/Store/Prefilter/Groups.antt =====
-- The hosts that the index of a group table gives for a filter on a list of groups
-- (lmd/datastore.go).
use lampd.Prelude.{◌≡◌, refl, sym, ap, ◌∙◌, inl, inr, true, false, some, List, [], ◌∷◌, ◌++◌, arith}
use lampd.Prelude.Bytes.{Bytes, =b_iff}
use lampd.Prelude.Dict.{Dict, lookup}
use lampd.Filter.{
  Operator, regex_match, regex_no_case_match, contains, contains_no_case, greater_than, Fields,
}
use lampd.Filter.Match.{match_string, any_match, is_listed, match_string_list_op, match_string_list}
use lampd.Platform.{Platform}
use lampd.Store.Prefilter.{
  matching_names, matching_members, group_hosts, or_no_members, is_part_operator,
}
use lampd.Store.Prefilter.Names.{is_in, is_in-append}
use lampd.Result.{ok, Result-cases}

-- The groups in a list are known, and the host is among the members of each.
abbrev pub AreGroupsOf :
    {B : Type 0} → (List B → List Bytes) → Dict (List B) → Bytes → List Bytes → Type 0
AreGroupsOf {B} names groups host list =
    (g : Bytes)
    → is_in g list ≡ true
    → (members : List B) × (lookup g groups ≡ some members) × (is_in host (names members) ≡ true)

module _ ⦃p : Platform⦄ where
  is_listed-is_in : (s : Bytes) (list : List Bytes) → is_listed s list ≡ is_in s list
  unfolding is_listed is_in
  is_listed-is_in s [] = refl
  is_listed-is_in s (v ∷ list) = ground (arith, is_listed-is_in s list, =b_iff s v, =b_iff v s)

  any_match_inv :
      (f : Fields) (list : List Bytes)
      → any_match f list ≡ ok true
      → (g : Bytes) × (is_in g list ≡ true) × (match_string f g ≡ ok true)
  unfolding any_match is_in
  any_match_inv f [] h = absurd (cc)
  any_match_inv f (v ∷ list) h = elim (Result-cases (match_string f v)) [
    | inl (true, e) ↦ (v, ground (arith, =b_iff v v), e)
    | inl (false, e) ↦
        let (g, here, matches) = any_match_inv f list (ground (arith, e)) in
        (g, ground (arith, here), matches)
    | inr (wrong, e) ↦ absurd (ground (arith, e))
  ]

  pub matching_names-finds :
      (f : Fields) (names found : List Bytes) (name : Bytes)
      → is_in name names ≡ true
      → match_string f name ≡ ok true
      → matching_names f names ≡ ok found
      → is_in name found ≡ true
  unfolding matching_names is_in
  matching_names-finds f [] found name here matches h = absurd (cc)
  matching_names-finds f (n ∷ names) found name here matches h =
      elim (Result-cases (match_string f n)) [
        | inl (b, e) ↦ elim (Result-cases (matching_names f names)) [
          | inl (rest, e') ↦
              let later = matching_names-finds f names rest name in
              ground (arith, e, e', later, =b_iff n name)
          | inr (wrong, e') ↦ absurd (ground (arith, e, e'))
        ]
        | inr (wrong, e) ↦ absurd (ground (arith, e))
      ]

module _ ⦃p : Platform⦄ {B : Type 0} (names : List B → List Bytes)
    (names-append : (xs ys : List B) → names (xs ++ ys) ≡ names xs ++ names ys)
    (groups : Dict (List B)) (host : Bytes) where
  matching_members-finds :
      (f : Fields) (groups : Dict (List B)) (g : Bytes) (members all : List B)
      → lookup g groups ≡ some members
      → match_string f g ≡ ok true
      → matching_members f groups ≡ ok all
      → is_in host (names members) ≡ true
      → is_in host (names all) ≡ true
  unfolding lookup matching_members
  matching_members-finds f [] g members all here matches h inside = absurd (cc)
  matching_members-finds f ((name, list) ∷ groups) g members all here matches h inside =
      elim (Result-cases (match_string f name)) [
        | inl (b, e) ↦ elim (Result-cases (matching_members f groups)) [
          | inl (rest, e') ↦
              let later = matching_members-finds f groups g members rest in
              ground (
                arith,
                e,
                e',
                later,
                names-append list rest,
                is_in-append host (names list) (names rest),
                =b_iff name g,
              )
          | inr (wrong, e') ↦ absurd (ground (arith, e, e'))
        ]
        | inr (wrong, e) ↦ absurd (ground (arith, e))
      ]

  pub group_hosts-finds :
      (f : Fields) (list found : List Bytes)
      → AreGroupsOf names groups host list
      → group_hosts names groups f ≡ ok (some found)
      → match_string_list f list ≡ ok true
      → is_in host found ≡ true
  unfolding group_hosts match_string_list match_string_list_op
  group_hosts-finds f list found known h matches = split f.operator refl
    where
      by_name :
          is_listed f.str_value list ≡ true
          → is_in host (names (or_no_members (lookup f.str_value groups))) ≡ true
      by_name listed =
          let (members, e, inside) =
            known f.str_value (sym (is_listed-is_in f.str_value list) ∙ listed) in
          ap (λ o. is_in host (names (or_no_members o))) e ∙ inside

      by_match :
          (all : List B)
          → matching_members f groups ≡ ok all
          → any_match f list ≡ ok true
          → is_in host (names all) ≡ true
      by_match all e any =
          let (g, here, m) = any_match_inv f list any in
          let (members, e', inside) = known g here in
          matching_members-finds f groups g members all e' m e inside

      parts :
          (op : Operator)
          → f.operator ≡ op
          → is_part_operator op ≡ true
          → any_match f list ≡ ok true
          → is_in host found ≡ true
      parts op e part any = elim (Result-cases (matching_members f groups)) [
        | inl (all, e') ↦ let held = by_match all e' any in ground (arith, e, e', held, part)
        | inr (wrong, e') ↦ absurd (ground (arith, e, e', part))
      ]

      split : (op : Operator) → f.operator ≡ op → is_in host found ≡ true
      split greater_than e = let held = by_name (ground (arith, e)) in ground (arith, e, held)
      split regex_match e = parts regex_match e refl (ground (arith, e))
      split regex_no_case_match e = parts regex_no_case_match e refl (ground (arith, e))
      split contains e = parts contains e refl (ground (arith, e))
      split contains_no_case e = parts contains_no_case e refl (ground (arith, e))
      split _ e = absurd (ground (arith, e))
