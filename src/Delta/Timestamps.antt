-- ===== src/Delta/Timestamps.antt =====
-- The filters of `composeTimestampFilter` (lmd/datastoreset.go) select the listed timestamps.
use lampd.Prelude.{
  ◌+◌, ◌≡◌, refl, ap, ◌∙◌, inl, inr, Bool, true, false, ◌&&◌, ◌||◌, List, [], ◌∷◌, arith, leb,
  Bool-cases,
}
use lampd.Prelude.Int.{
  ℤ, pos, negsuc, ◌-ℤ◌, eq_ℤ, eq_ℤ_iff, eq_of_parts, -ℤ_parts, pos_part, neg_part,
}
use lampd.Delta.{timestamp_blocks}

-- start <= v && v <= end
abbrev pub leb_ℤ : ℤ → ℤ → Bool
leb_ℤ a b = leb (pos_part a + neg_part b) (pos_part b + neg_part a)

unfoldable pub is_in_block : ℤ → ℤ × ℤ → Bool
is_in_block v (start, end) = leb_ℤ start v && leb_ℤ v end

unfoldable pub is_in_some_block : ℤ → List (ℤ × ℤ) → Bool
unfolding is_in_block
is_in_some_block v [] = false
is_in_some_block v (block ∷ blocks) = is_in_block v block || is_in_some_block v blocks

unfoldable pub is_member : ℤ → List ℤ → Bool
is_member v [] = false
is_member v (ts ∷ timestamps) = eq_ℤ ts v || is_member v timestamps

is_in_block-longer :
    (v s e ts : ℤ)
    → leb_ℤ s e ≡ true
    → eq_ℤ e (ts -ℤ pos 1) ≡ true
    → (leb_ℤ s ts ≡ true) × (is_in_block v (s, ts) ≡ (is_in_block v (s, e) || eq_ℤ ts v))
unfolding is_in_block
is_in_block-longer v s e ts order h =
    let same = (eq_ℤ_iff e (ts -ℤ pos 1)).0 h in
    let parts = -ℤ_parts ts (pos 1) in
    (
      ground (arith, same, parts, order),
      ground (arith, same, parts, order, eq_ℤ_iff ts v, eq_of_parts ts v),
    )

is_in_block-single : (v ts : ℤ) → is_in_block v (ts, ts) ≡ eq_ℤ ts v
unfolding is_in_block
is_in_block-single v ts = ground (arith, eq_ℤ_iff ts v, eq_of_parts ts v)

blocks_from :
    (v s e : ℤ) (timestamps : List ℤ)
    → eq_ℤ s (negsuc 0) ≡ false
    → leb_ℤ s e ≡ true
    → is_member (negsuc 0) timestamps ≡ false
    → is_in_some_block v (timestamp_blocks s e timestamps)
      ≡ (is_in_block v (s, e) || is_member v timestamps)
unfolding timestamp_blocks is_in_some_block is_member
blocks_from v s e [] some_start order set = ground (arith, some_start)
blocks_from v s e (ts ∷ timestamps) some_start order set =
    let other : eq_ℤ ts (negsuc 0) ≡ false = ground (arith, set) in
    let rest : is_member (negsuc 0) timestamps ≡ false = ground (arith, set) in
    elim (Bool-cases (eq_ℤ e (ts -ℤ pos 1))) [
      | inl next ↦
          let (order', block) = is_in_block-longer v s e ts order next in
          let ih = blocks_from v s ts timestamps some_start order' rest in
          ground (arith, some_start, next, block, ih)
      | inr gap ↦
          let single = is_in_block-single v ts in
          let ih = blocks_from v ts ts timestamps other (ground arith) rest in
          ground (arith, some_start, gap, single, ih)
    ]

-- The filters of the blocks select the timestamps of the list and no other, provided none is -1.
pub timestamp_blocks-is_member :
    (v : ℤ) (timestamps : List ℤ)
    → is_member (negsuc 0) timestamps ≡ false
    → is_in_some_block v (timestamp_blocks (negsuc 0) (negsuc 0) timestamps)
      ≡ is_member v timestamps
unfolding timestamp_blocks is_in_some_block is_member eq_ℤ
timestamp_blocks-is_member v [] nonneg = refl
timestamp_blocks-is_member v (ts ∷ timestamps) nonneg =
    let single = is_in_block-single v ts in
    let ih =
      blocks_from v ts ts timestamps (ground (arith, nonneg)) (ground arith)
        (ground (arith, nonneg)) in
    ih ∙ ap (λ b. b || is_member v timestamps) single
