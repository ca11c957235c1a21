-- ===== src/Cluster/Owner.antt =====
-- Every backend has one responsible node after `redistribute` (lmd/nodes.go).
use mathlib.Core.Path.{subst}
use lampd.Prelude.{
  ℕ, ◌+◌, ◌<◌, ◌≡◌, refl, sym, ap, ◌∙◌, ◌≢◌, true, false, ◌||◌, List, [], ◌∷◌, ◌++◌, arith,
  if◌then◌else◌,
}
use lampd.Prelude.Bytes.{Bytes, =b_iff}
use lampd.Cluster.{Nodes, member, shares}
use lampd.Cluster.Shares.{named, concat, available, shares-cover}
use lampd.Cluster.Running.{IsDistinct}

-- How many of the lists hold a backend.
abbrev pub holders : Bytes → List (List Bytes) → ℕ
holders b [] = 0
holders b (list ∷ lists) = (if member b list then 1 else 0) + holders b lists

member-append :
    (b : Bytes) (xs ys : List Bytes) → member b (xs ++ ys) ≡ (member b xs || member b ys)
unfolding member
member-append b [] ys = refl
member-append b (x ∷ xs) ys = ground (arith, member-append b xs ys)

append-IsDistinct : (xs ys : List Bytes) → IsDistinct (xs ++ ys) → IsDistinct ys
append-IsDistinct [] ys d = d
append-IsDistinct (x ∷ xs) ys d = append-IsDistinct xs ys d.1

-- No element of the first list stands in the second.
append-apart :
    (b : Bytes) (xs ys : List Bytes)
    → IsDistinct (xs ++ ys)
    → member b xs ≡ true
    → member b ys ≡ false
unfolding member
append-apart b [] ys d h = absurd (cc)
append-apart b (x ∷ xs) ys d h =
    ground (arith, member-append x xs ys, append-apart b xs ys d.1, =b_iff b x, =b_iff x b)

holders-concat :
    (b : Bytes) (lists : List (List Bytes))
    → IsDistinct (concat lists)
    → holders b lists ≡ (if member b (concat lists) then 1 else 0)
unfolding member
holders-concat b [] d = refl
holders-concat b (list ∷ lists) d = ground (
  arith,
  holders-concat b lists (append-IsDistinct list (concat lists) d),
  append-apart b list (concat lists) d,
  member-append b list (concat lists),
)

member-named : (b : Bytes) (bs : List Bytes) → b ≢ [] → member b (named bs) ≡ member b bs
unfolding member
member-named b [] h = refl
member-named b (c ∷ bs) h = ground (arith, member-named b bs h, =b_iff c [], =b_iff b c, =b_iff c b)

named-IsDistinct : (bs : List Bytes) → IsDistinct bs → IsDistinct (named bs)
named-IsDistinct [] d = tt
named-IsDistinct (c ∷ bs) d =
    ground (arith, named-IsDistinct bs d.1, member-named c bs, =b_iff c [])

-- If some configured node is online and the backends have different names, every backend with a
-- name that is not empty is in the share of exactly one node.
pub shares-owner :
    (n : Nodes) (b : Bytes)
    → 0 < available n
    → IsDistinct n.backends
    → b ≢ []
    → member b n.backends ≡ true
    → holders b (shares n) ≡ 1
shares-owner n b online distinct name configured =
    let cover = shares-cover n online in
    let apart = named-IsDistinct n.backends distinct in
    let count = holders-concat b (shares n) (subst IsDistinct (sym cover) apart) in
    let here = ap (member b) cover ∙ member-named b n.backends name ∙ configured in
    count ∙ ap (λ held. if held then 1 else 0) here
