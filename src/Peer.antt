-- ===== src/Peer.antt =====
-- The connection state of a peer: `Peer` of lmd/peer.go, with the ends of the updates in
-- lmd/datastoreset.go. Times are seconds, and not before 1970. Each function is a section under the peer's lock; `now` is the time it reads.
pub mod Round
pub mod Reachable
pub mod Failover
pub mod Recovery
use lampd.Prelude.{
  ℕ, ◌⊎◌, inl, inr, ◌+◌, ◌-◌, ◌++◌, Bool, true, false, not, ◌&&◌, ◌||◌, Option, none, some, List,
  [], ◌∷◌, ltb, leb, ◌==◌, length, get_or, if◌then◌else◌,
}
use lampd.Prelude.Bytes.{Bytes, codes}

-- `PeerStatus`
pub data PeerStatus : Type 0 where
  up warning down broken pending : PeerStatus

-- The settings of `Config` that decide about the state of a peer.
pub record Settings : Type 0 where
  pub update_interval : ℕ
  pub idle_interval : ℕ
  pub idle_timeout : ℕ
  pub full_update_interval : ℕ
  pub stale_backend_timeout : ℕ
  -- lastMainRestart
  pub last_main_restart : ℕ

-- `Peer`: its sources, its data (nil or a `DataStoreSet`), its counters, and the values of Status
-- under the keys that carry the connection state.
pub record Peer (D : Type 0) : Type 0 where
  pub source : List Bytes
  pub data_set : Option D
  pub error_count : ℕ
  pub error_logged : Bool
  pub state : PeerStatus
  pub last_error : Bytes
  pub cur_addr_num : ℕ
  pub addr : Bytes
  pub last_update : ℕ
  pub last_full_update : ℕ
  pub last_query : ℕ
  pub last_online : ℕ
  pub last_timeperiod_update_minute : ℕ
  pub force_full : Bool
  pub idling : Bool
  pub program_start : ℕ
  pub last_pid : ℕ

-- The text of a state: `PeerStatus.String`.
unfoldable pub status_text : PeerStatus → Bytes
status_text up = codes "up"
status_text warning = codes "warning"
status_text down = codes "down"
status_text broken = codes "broken"
status_text pending = codes "pending"

abbrev pub is_up : PeerStatus → Bool
is_up up = true
is_up _ = false

abbrev pub is_down : PeerStatus → Bool
is_down down = true
is_down _ = false

abbrev pub degraded : PeerStatus → PeerStatus
degraded up = warning
degraded pending = warning
degraded s = s

-- shouldIdle of `updateIdleStatus`
unfoldable pub should_idle : Settings → ℕ → ℕ → Bool
should_idle c now last_query =
    (last_query == 0 && ltb (c.last_main_restart + c.idle_timeout) now)
    || (ltb 0 last_query && ltb (last_query + c.idle_timeout) now)

module _ {D : Type 0} where
  -- `NewPeer` for at least one source, the first one of which is given.
  abbrev pub new_peer : Bytes → List Bytes → Peer D
  new_peer first others = record {
    source = first ∷ others;
    data_set = none;
    error_count = 0;
    error_logged = false;
    state = pending;
    last_error = codes "connecting...";
    cur_addr_num = 0;
    addr = first;
    last_update = 0;
    last_full_update = 0;
    last_query = 0;
    last_online = 0;
    last_timeperiod_update_minute = 0;
    force_full = false;
    idling = false;
    program_start = 0;
    last_pid = 0;
  }

  -- `resetErrors`
  unfoldable pub reset_errors : ℕ → Peer D → Peer D
  reset_errors now p = record p {
    last_error = [];
    last_online = now;
    error_count = 0;
    error_logged = false;
    state = up;
  }

  -- `ClearData`
  unfoldable pub clear_data : Peer D → Peer D
  clear_data p = record p { data_set = none }

  -- `setBroken`, for the trimmed details
  unfoldable pub set_broken : Bytes → Peer D → Peer D
  unfolding clear_data
  set_broken details p =
      clear_data (record p { state = broken; last_error = codes "broken: " ++ details })

  -- The end of `updateInitialStatus` for a status table without rows.
  unfoldable pub set_not_ready : Peer D → Peer D
  unfolding clear_data
  set_not_ready p =
      clear_data (record p { state = down; last_error = codes "peered partner not ready yet" })

  -- nextNum of `setNextAddrFromErr`
  unfoldable pub next_num : Peer D → ℕ
  next_num p = if leb (length p.source) (p.cur_addr_num + 1) then 0 else p.cur_addr_num + 1

  -- Is the peer offline for so long, or did it fail so often, that its data is dropped?
  unfoldable pub is_stale : Settings → ℕ → Peer D → Bool
  is_stale c now p =
      ltb (p.last_online + c.stale_backend_timeout) now
      || (ltb (length p.source) p.error_count && p.last_online == 0)

  -- `setNextAddrFromErr`, for the trimmed text of the error.
  unfoldable pub set_next_addr_from_err : Settings → ℕ → Bool → Bytes → Peer D → Peer D
  unfolding next_num is_stale clear_data
  set_next_addr_from_err c now is_command_error text p =
      let next = next_num p in
      let failed = record p {
        last_error = text;
        error_count = p.error_count + 1;
        cur_addr_num = next;
        addr = get_or p.source next [];
        state = degraded p.state;
      } in
      if is_command_error
      then p
      else if is_stale c now failed
      then clear_data (record failed { state = down })
      else failed

  -- The first section of `InitAllTables`.
  unfoldable pub start_init : ℕ → Peer D → Peer D
  start_init now p = record p { last_update = now; last_full_update = now }

  -- The last section of `InitAllTables`, once the tables of `data` are filled.
  unfoldable pub finish_init : ℕ → D → Peer D → Peer D
  unfolding reset_errors
  finish_init now data_set p =
      let filled = record p { data_set = some data_set } in
      if is_up p.state then filled else reset_errors now filled

  -- The section at the end of `UpdateFull`.
  unfoldable pub finish_full : ℕ → Peer D → Peer D
  unfolding reset_errors
  finish_full now p = record (reset_errors now p) { last_update = now; last_full_update = now }

  -- The section at the end of `UpdateDelta`, up to the time `to`.
  unfoldable pub finish_delta : ℕ → ℕ → Peer D → Peer D
  unfolding reset_errors
  finish_delta now to p = record (reset_errors now p) { last_update = to }

  -- `updateIdleStatus`; it returns the flag that it leaves in the status.
  unfoldable pub update_idle_status : Settings → ℕ → Peer D → Peer D
  unfolding should_idle
  update_idle_status c now p =
      if not p.idling && should_idle c now p.last_query then record p { idling = true } else p

  -- The else branch of `ResumeFromIdle`, behind the reset of the flag.
  unfoldable pub force_update : Settings → ℕ → Peer D → Peer D
  force_update c now p = record p { idling = false; last_update = now - c.update_interval }
