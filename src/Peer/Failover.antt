-- ===== src/Peer/Failover.antt =====
-- `setNextAddrFromErr` (lmd/peer.go) goes through all sources of a peer.
use lampd.Prelude.{
  ℕ, ◌+◌, ◌-◌, ◌≤◌, ◌<◌, ◌≡◌, refl, sym, ap, ◌∙◌, Bool, true, false, List, [], ◌∷◌, arith, ltb,
  length, get_or, if◌then◌else◌,
}
use lampd.Prelude.Bytes.{Bytes}
use lampd.Peer.{Settings, Peer, next_num, set_next_addr_from_err, clear_data}

-- The number of a source that is `k` behind `i` in a ring of `n`.
abbrev pub ring : ℕ → ℕ → ℕ → ℕ
ring n i k = if ltb (i + k) n then i + k else i + k - n

ring_lt : (n i k : ℕ) → i < n → k ≤ n → ring n i k < n
ring_lt n i k valid short = ground arith

ring_back : (n c i : ℕ) → c < n → i < n → ring n c (ring n i (n - c)) ≡ i
ring_back n c i bound valid = ground arith

module _ {D : Type 0} (c : Settings) where
  -- Failed connections, one after the other, at the times and with the texts of a list.
  unfoldable pub fail_all : List (ℕ × Bytes) → Peer D → Peer D
  unfolding set_next_addr_from_err
  fail_all [] p = p
  fail_all ((now, text) ∷ failures) p =
      fail_all failures (set_next_addr_from_err c now false text p)

  one_failure :
      (now : ℕ) (text : Bytes) (p : Peer D)
      → let q = set_next_addr_from_err c now false text p in
        (q.source ≡ p.source)
        × (q.cur_addr_num ≡ next_num p)
        × (q.addr ≡ get_or p.source (next_num p) [])
  unfolding set_next_addr_from_err clear_data
  one_failure now text p = two_ways _ _ _ (refl, refl, refl) (refl, refl, refl)
    where
      two_ways :
          (b : Bool) (x y : Peer D)
          → (x.source ≡ p.source)
            × (x.cur_addr_num ≡ next_num p)
            × (x.addr ≡ get_or p.source (next_num p) [])
          → (y.source ≡ p.source)
            × (y.cur_addr_num ≡ next_num p)
            × (y.addr ≡ get_or p.source (next_num p) [])
          → let q = if b then x else y in
            (q.source ≡ p.source)
            × (q.cur_addr_num ≡ next_num p)
            × (q.addr ≡ get_or p.source (next_num p) [])
      two_ways true x y h k = h
      two_ways false x y h k = k

  fail_all-ring :
      (failures : List (ℕ × Bytes)) (p : Peer D)
      → p.cur_addr_num < length p.source
      → p.addr ≡ get_or p.source p.cur_addr_num []
      → length failures ≤ length p.source
      → ((fail_all failures p).cur_addr_num
          ≡ ring (length p.source) p.cur_addr_num (length failures))
        × ((fail_all failures p).addr ≡ get_or p.source (fail_all failures p).cur_addr_num [])
  unfolding fail_all next_num
  fail_all-ring [] p bound address short = (ground arith, address)
  fail_all-ring ((now, text) ∷ failures) p bound address short =
      let q = set_next_addr_from_err c now false text p in
      let (same, next, at) = one_failure now text p in
      let size = ap (length) same in
      let (number, found) =
        fail_all-ring failures q (ground (arith, size, next, bound))
          (at
            ∙ ap (λ s. get_or s (next_num p) []) (sym same)
            ∙ ap (λ i. get_or q.source i []) (sym next))
          (omega (arith, size, short)) in
      (
        number ∙ ground (arith, size, next, bound, short),
        found ∙ ap (λ s. get_or s (fail_all failures q).cur_addr_num []) same,
      )

  -- From a current source with a valid number, each source of a peer has a number of failed
  -- connections, less than the number of its sources, behind which it is the current address,
  -- whatever the times and the errors.
  pub fail_all-tries :
      (p : Peer D) (i : ℕ)
      → p.cur_addr_num < length p.source
      → p.addr ≡ get_or p.source p.cur_addr_num []
      → i < length p.source
      → (k : ℕ) × (k < length p.source)
        × ((failures : List (ℕ × Bytes))
            → length failures ≡ k
            → (fail_all failures p).addr ≡ get_or p.source i [])
  fail_all-tries p i bound address valid =
      let n = length p.source in
      let k = ring n i (n - p.cur_addr_num) in
      let small = ring_lt n i (n - p.cur_addr_num) valid (omega arith) in
      (
        k,
        small,
        (λ failures e.
            let (number, found) =
              fail_all-ring failures p bound address (omega (arith, e, small)) in
            found
            ∙ ap (λ j. get_or p.source j [])
                (number ∙ ap (ring n p.cur_addr_num) e ∙ ring_back n p.cur_addr_num i bound valid)),
      )
