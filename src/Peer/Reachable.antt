-- ===== src/Peer/Reachable.antt =====
-- The states that a peer comes to (lmd/peer.go).
use lampd.Prelude.{ℕ, ◌<◌, ◌≡◌, Bool, true, false, Option, none, some, List, [], length, get_or}
use lampd.Prelude.Bytes.{Bytes}
use lampd.Peer.{
  PeerStatus, up, warning, down, broken, pending, Settings, Peer, new_peer, clear_data, set_broken,
  set_not_ready, set_next_addr_from_err, start_init, finish_init, finish_full, finish_delta,
  update_idle_status, force_update,
}

module _ {D : Type 0} where
  -- The states that the sections of a peer lead to from the start, in any order. Sections that change
  -- other keys of Status only are left out.
  pub data Reachable (c : Settings) (first : Bytes) (others : List Bytes) : Peer D → Type 0 where
    start : Reachable c first others (new_peer first others)
    failed :
        (p : Peer D) (now : ℕ) (is_command_error : Bool) (text : Bytes)
        → Reachable c first others p
        → Reachable c first others (set_next_addr_from_err c now is_command_error text p)
    broke :
        (p : Peer D) (details : Bytes)
        → Reachable c first others p
        → Reachable c first others (set_broken details p)
    not_ready :
        (p : Peer D) → Reachable c first others p → Reachable c first others (set_not_ready p)
    started :
        (p : Peer D) (now : ℕ)
        → Reachable c first others p
        → Reachable c first others (start_init now p)
    initialized :
        (p : Peer D) (now : ℕ) (d : D)
        → Reachable c first others p
        → Reachable c first others (finish_init now d p)
    updated_full :
        (p : Peer D) (now : ℕ)
        → Reachable c first others p
        → Reachable c first others (finish_full now p)
    updated_delta :
        (p : Peer D) (now to : ℕ)
        → Reachable c first others p
        → Reachable c first others (finish_delta now to p)
    cleared : (p : Peer D) → Reachable c first others p → Reachable c first others (clear_data p)
    idled :
        (p : Peer D) (now : ℕ)
        → Reachable c first others p
        → Reachable c first others (update_idle_status c now p)
    resumed :
        (p : Peer D) (now : ℕ)
        → Reachable c first others p
        → Reachable c first others (force_update c now p)

  -- A peer that is down, broken or pending has no data.
  abbrev pub agrees : PeerStatus → Option D → Bool
  agrees up o = true
  agrees warning o = true
  agrees down none = true
  agrees down (some d) = false
  agrees broken none = true
  agrees broken (some d) = false
  agrees pending none = true
  agrees pending (some d) = false

  -- The address is the source at the current number, which is one of the sources; the data fits
  -- the state; and a peer that is up has no errors.
  abbrev pub IsConsistent : Peer D → Type 0
  IsConsistent p =
      (p.cur_addr_num < length p.source)
      × (p.addr ≡ get_or p.source p.cur_addr_num [])
      × (agrees p.state p.data_set ≡ true)
      × (p.state ≡ up → p.error_count ≡ 0)
