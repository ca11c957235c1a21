-- ===== src/Cluster/Shares.antt =====
-- The shares of the nodes: every backend goes to exactly one online node, and no node gets more
-- than its part.
use native.Mathlib.Nat.{div-add-mod, mod-lt}
use lampd.Prelude.{
  ℕ, zero, suc, ◌+◌, ◌*◌, ◌/◌, ◌%◌, ◌≤◌, ◌<◌, ◌≡◌, refl, sym, ap, ◌∙◌, Bool, true, false, List, [],
  ◌∷◌, ◌++◌, arith, leb, ◌==◌, length, take, drop, get_elem?, length-take, length-drop,
  if◌then◌else◌, Bool-cases, inl, inr,
}
use lampd.Prelude.Bytes.{Bytes, ◌=b◌}
use lampd.Cluster.{
  Nodes, node_online, count_online, number_per_node, assigned_numbers, collect, distribute, shares,
}

-- A list without the empty names.
abbrev pub named : List Bytes → List Bytes
named [] = []
named (b ∷ bs) = if b =b [] then named bs else b ∷ named bs

abbrev pub concat : List (List Bytes) → List Bytes
concat [] = []
concat (xs ∷ xss) = xs ++ concat xss

abbrev total : List ℕ → ℕ
total [] = 0
total (n ∷ ns) = n + total ns

collect-nil : (number position : ℕ) → collect [] number position ≡ []
unfolding collect
collect-nil zero position = refl
collect-nil (suc number) position = ground (arith, collect-nil number (position + 1))

collect-suc :
    (b : Bytes) (bs : List Bytes) (number i j : ℕ)
    → j ≡ i + 1
    → collect (b ∷ bs) number j ≡ collect bs number i
unfolding collect
collect-suc b bs zero i j e = refl
collect-suc b bs (suc number) i j e =
    let step = collect-suc b bs number (i + 1) (j + 1) (omega arith) in
    ground (arith, step, get_elem?-suc b bs i j e)
  where
    get_elem?-suc :
        (b : Bytes) (bs : List Bytes) (i j : ℕ) → j ≡ i + 1 → get_elem? (b ∷ bs) j ≡ get_elem? bs i
    get_elem?-suc b bs i zero e = absurd (omega arith)
    get_elem?-suc b bs i (suc j) e = ap (get_elem? bs) (omega arith)

collect-cons :
    (b : Bytes) (bs : List Bytes) (number : ℕ) (rest : List Bytes)
    → collect bs number 0 ≡ rest
    → collect (b ∷ bs) (suc number) 0 ≡ (if b =b [] then rest else b ∷ rest)
unfolding collect
collect-cons b bs number rest e = ground (arith, collect-suc b bs number 0 (0 + 1) (omega arith), e)

named-take_nil : (number : ℕ) → named (take number []) ≡ []
named-take_nil zero = refl
named-take_nil (suc number) = refl

collect-zero : (bs : List Bytes) (position : ℕ) → collect bs zero position ≡ []
unfolding collect
collect-zero bs position = refl

collect-named :
    (backends : List Bytes) (number position : ℕ)
    → collect backends number position ≡ named (take number (drop position backends))
collect-named [] number zero = collect-nil number 0 ∙ sym (named-take_nil number)
collect-named [] number (suc position) =
    collect-nil number (suc position) ∙ sym (named-take_nil number)
collect-named (b ∷ bs) zero zero = collect-zero (b ∷ bs) 0
collect-named (b ∷ bs) (suc number) zero =
    collect-cons b bs number (named (take number bs)) (collect-named bs number 0)
collect-named (b ∷ bs) number (suc position) =
    collect-suc b bs number position (suc position) (omega arith) ∙ collect-named bs number position

named-append : (xs ys : List Bytes) → named (xs ++ ys) ≡ named xs ++ named ys
named-append [] ys = refl
named-append (x ∷ xs) ys = ground (arith, named-append xs ys)

take-add : (k n m : ℕ) (xs : List Bytes) → k ≡ n + m → take k xs ≡ take n xs ++ take m (drop n xs)
take-add k zero m xs e = ap (λ i. take i xs) (omega arith)
take-add zero (suc n) m xs e = absurd (omega arith)
take-add (suc k) (suc n) zero [] e = refl
take-add (suc k) (suc n) (suc m) [] e = refl
take-add (suc k) (suc n) m (x ∷ xs) e = ap (◌∷◌ x) (take-add k n m xs (omega arith))

drop-add : (k n m : ℕ) (xs : List Bytes) → k ≡ n + m → drop k xs ≡ drop m (drop n xs)
drop-add k zero m xs e = ap (λ i. drop i xs) (omega arith)
drop-add zero (suc n) m xs e = absurd (omega arith)
drop-add (suc k) (suc n) zero [] e = refl
drop-add (suc k) (suc n) (suc m) [] e = refl
drop-add (suc k) (suc n) m (x ∷ xs) e = drop-add k n m xs (omega arith)

-- The shares, one behind the other, are the positions that the numbers add up to.
concat-distribute :
    (backends : List Bytes) (numbers : List ℕ) (count : ℕ)
    → concat (distribute backends count numbers)
      ≡ named (take (total numbers) (drop count backends))
unfolding distribute
concat-distribute backends [] count = refl
concat-distribute backends (number ∷ numbers) count =
    let rest = drop count backends in
    rw
      (
        collect-named,
        concat-distribute backends numbers (count + number),
        drop-add (count + number) count number backends refl,
        take-add (number + total numbers) number (total numbers) rest refl,
      )
      (sym (named-append (take number rest) (take (total numbers) (drop number rest))))

total-assigned_numbers :
    (b av : ℕ) (flags : List Bool)
    → total (assigned_numbers b av flags) ≡ count_online flags * number_per_node b av
unfolding assigned_numbers count_online
total-assigned_numbers b av [] = omega arith
total-assigned_numbers b av (true ∷ flags) = grind (arith, total-assigned_numbers b av flags)
total-assigned_numbers b av (false ∷ flags) = grind (arith, total-assigned_numbers b av flags)

mul_add_one : (a c : ℕ) → a * (c + 1) ≡ a * c + a
mul_add_one a c = omega arith

enough : (b av : ℕ) → 0 < av → b ≤ av * number_per_node b av
unfolding number_per_node
enough b av h = elim (Bool-cases (leb b av)) [
  | inl few ↦ ground arith
  | inr many ↦ ground (arith, div-add-mod b av, mod-lt b h, mul_add_one av (b / av))
]

take_all : (k : ℕ) (xs : List Bytes) → length xs ≤ k → take k xs ≡ xs
take_all zero [] h = refl
take_all zero (x ∷ xs) h = absurd (omega arith)
take_all (suc k) [] h = refl
take_all (suc k) (x ∷ xs) h = ap (◌∷◌ x) (take_all k xs (omega arith))

abbrev pub available : Nodes → ℕ
available n = count_online (node_online n.online_nodes n.node_addresses)

-- If some configured node is online, the shares of the nodes, one behind the other, are the
-- configured backends but those with an empty name: each backend has exactly one node, in order.
pub shares-cover : (n : Nodes) → 0 < available n → concat (shares n) ≡ named n.backends
unfolding shares
shares-cover n h =
    let flags = node_online n.online_nodes n.node_addresses in
    let b = length n.backends in
    concat-distribute n.backends (assigned_numbers b (available n) flags) 0
    ∙ ap named (
        take_all _ n.backends
          (omega (arith, total-assigned_numbers b (available n) flags, enough b (available n) h)))

length-named : (xs : List Bytes) → length (named xs) ≤ length xs
length-named [] = omega arith
length-named (x ∷ xs) = ground (arith, length-named xs)

length-collect :
    (backends : List Bytes) (number position : ℕ)
    → (length (collect backends number position) ≤ number)
      × (length (collect backends number position) ≤ length backends)
length-collect backends number position = rw collect-named (
    omega (
      arith,
      length-named (take number (drop position backends)),
      length-take number (drop position backends),
      length-drop position backends,
    ))

product_le : (a b c : ℕ) → a ≤ b → a * c ≤ b * c
product_le a b c h = grind arith

one_at_most : (b av len : ℕ) → 0 < av → len ≤ 1 → len ≤ b → len * av < b + av
one_at_most b av zero h few small = omega arith
one_at_most b av (suc zero) h few small = omega arith
one_at_most b av (suc (suc len)) h few small = absurd (omega arith)

part_bound :
    (b av len q r : ℕ)
    → av * q + r ≡ b
    → 0 < av
    → len ≤ q + (if r == 0 then 0 else 1)
    → len * av < b + av
part_bound b av len q zero e h few =
    let few' : len ≤ q = ground arith in omega (arith, product_le len q av few')
part_bound b av len q (suc r) e h few =
    let few' : len ≤ q + 1 = ground arith in omega (arith, product_le len (q + 1) av few')

number_per_node_bound :
    (b av len : ℕ) → 0 < av → len ≤ number_per_node b av → len ≤ b → len * av < b + av
unfolding number_per_node
number_per_node_bound b av len h few small = elim (Bool-cases (leb b av)) [
  | inl fits ↦ one_at_most b av len h (rw fits at few) small
  | inr many ↦ part_bound b av len (b / av) (b % av) (div-add-mod b av) h (rw many at few)
]

-- Each node has at most its part, rounded up, of the `b` backends, and an offline node has none.
abbrev pub IsBalanced : ℕ → ℕ → List Bool → List (List Bytes) → Type 0
IsBalanced b av (online ∷ flags) (share ∷ shares) =
    (length share * av < b + av) × (online ≡ false → share ≡ []) × IsBalanced b av flags shares
IsBalanced b av [] [] = Unit
IsBalanced b av _ _ = ⊥

distribute-IsBalanced :
    (backends : List Bytes) (av : ℕ) (flags : List Bool) (count : ℕ)
    → 0 < av
    → IsBalanced
        (length backends)
        av
        flags
        (distribute backends count (assigned_numbers (length backends) av flags))
unfolding distribute assigned_numbers
distribute-IsBalanced backends av [] count h = tt
distribute-IsBalanced backends av (true ∷ flags) count h =
    let number = number_per_node (length backends) av in
    let (few, small) = length-collect backends number count in
    (
      number_per_node_bound (length backends) av _ h few small,
      (λ e. cc),
      distribute-IsBalanced backends av flags (count + number) h,
    )
distribute-IsBalanced backends av (false ∷ flags) count h = (
  omega arith,
  (λ e. collect-zero backends count),
  distribute-IsBalanced backends av flags (count + 0) h,
)

-- If some configured node is online, no node has more than the number of backends divided by the
-- number of online nodes, rounded up, and an offline node has none.
pub shares-IsBalanced :
    (n : Nodes)
    → 0 < available n
    → IsBalanced
        (length n.backends)
        (available n)
        (node_online n.online_nodes n.node_addresses)
        (shares n)
unfolding shares
shares-IsBalanced n h =
    distribute-IsBalanced n.backends (available n) (node_online n.online_nodes n.node_addresses) 0 h
