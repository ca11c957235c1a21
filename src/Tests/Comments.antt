-- ===== src/Tests/Comments.antt =====
-- A run of the model of the update of the comments.
use lampd.Prelude.{
  ℕ, ◌≡◌, refl, sym, ap, ◌∙◌, ◌⊎◌, inl, inr, true, false, none, some, List, [], ◌∷◌, map, arith,
}
use lampd.Prelude.Int.{ℤ, pos}
use lampd.Prelude.Bytes.{codes, show_int, ◌=b◌}
use lampd.Prelude.Dict.{lookup, IsUnique}
use lampd.Delta.{missing_ids, is_remote_id, max_id_or_size_changed}
use lampd.Delta.Ids.{IsSound, IsAnswer}
use lampd.Delta.Comments.{Lists, update_delta_comments_or_downtimes}
use lampd.Delta.Comments.Exact.{
  OnKnown, IsExact, IsSame, update_delta_comments_or_downtimes-IsExact,
}
use lampd.Delta.Remarks.{Remark, owner}
use lampd.Store.{Item, DataStore}
use lampd.Store.Index.{last_item}
use lampd.Result.{ok}
use lampd.Tests.Data.{integers}
use lampd.Tests.Objects.{objects}

abbrev comment : ℤ → Item ℕ
comment id = record { ref = 3; id1 = show_int id; id2 = []; row = 0 }

abbrev comments : DataStore ℕ
comments = record {
  keys = 1;
  items = comment (pos 7) ∷ [];
  index = (show_int (pos 7), comment (pos 7)) ∷ [];
  index2 = [];
}

comments-IsSound : IsSound comments
unfolding lookup last_item
comments-IsSound = (refl, (λ k. refl), (refl, tt), λ x y hx hy e. only x y hx hy)
  where
    only : (x y : Item ℕ) → (x ≡ comment (pos 7)) ⊎ ⊥ → (y ≡ comment (pos 7)) ⊎ ⊥ → y.id1 ≡ x.id1
    only x y (inl a) (inl b) = ap (λ (i : Item ℕ). i.id1) (b ∙ sym a)
    only x y (inr a) b = absurd a
    only x y a (inr b) = absurd b

comments-IsUnique : IsUnique comments.index
unfolding lookup
comments-IsUnique = (refl, tt)

abbrev fetched : List ℤ → List (Item ℕ)
fetched ids = map comment ids

fetched-IsAnswer : IsAnswer fetched
unfolding last_item is_remote_id
fetched-IsAnswer [] k = refl
fetched-IsAnswer (id ∷ ids) k = let rest = fetched-IsAnswer ids k in ground (arith, rest)

-- All comments are on the host web.
abbrev on_web : Item ℕ → Remark
on_web x = record { id = pos x.row; host_name = codes "web"; service_description = [] }

all_known : (items : List (Item ℕ)) → OnKnown on_web objects items
unfolding owner lookup ◌=b◌
all_known items x held = refl

-- The remote site has one comment, with the id 8.
update_delta_comments_or_downtimes-IsExact_example :
    (d' : DataStore ℕ) × (lists : Lists) × (update_delta_comments_or_downtimes on_web
        (λ x. 7)
        (some (integers.from_nat 1, integers.from_nat 8))
        (λ missing. map ok (fetched missing))
        (pos 8 ∷ [])
        objects
        comments
      ≡ ok ((d', lists), none))
    × (((max_id_or_size_changed {A = ℕ}
              (λ x. 7)
              (some (integers.from_nat 1, integers.from_nat 8))
              comments.items
            ≡ false)
          × IsSame on_web objects comments d' lists)
        ⊎ ((max_id_or_size_changed {A = ℕ}
                (λ x. 7)
                (some (integers.from_nat 1, integers.from_nat 8))
                comments.items
              ≡ true)
            × IsExact on_web objects (pos 8 ∷ []) comments d' lists))
update_delta_comments_or_downtimes-IsExact_example =
    update_delta_comments_or_downtimes-IsExact on_web objects (λ x. 7)
      (some (integers.from_nat 1, integers.from_nat 8)) fetched (pos 8 ∷ []) comments
      fetched-IsAnswer comments-IsUnique comments-IsSound (all_known comments.items)
      (all_known (fetched (missing_ids comments.index (pos 8 ∷ []))))
