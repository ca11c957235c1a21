-- ===== src/Peer/Round.antt =====
-- A round of the update loop of a peer: `updateLoop`, `periodicUpdate` and the updates that they call
-- in lmd/peer.go and lmd/datastoreset.go, over what the remote site answers.
use lampd.Prelude.{
  ℕ, ◌⊎◌, inl, inr, ◌+◌, Bool, false, not, ◌&&◌, Option, none, some, List, [], ◌∷◌, ltb, ◌==◌,
  if◌then◌else◌,
}
use lampd.Prelude.Bytes.{Bytes, codes}
use lampd.Column.{TableName, status, timeperiods, hostgroups, servicegroups, comments, downtimes}
use lampd.Peer.{
  PeerStatus, up, warning, down, broken, pending, Settings, Peer, start_init, finish_init,
  finish_full, finish_delta, update_idle_status,
}

-- An error of an update: one of the kind RestartRequiredError, or any other.
pub data UpdateError : Type 0 where
  restart_required other : Bytes → UpdateError

-- What an update asks of the remote site: the peer that it leaves, and its outcome.
pub record Remote (D : Type 0) : Type 0 where
  -- `UpdateFullTable`
  pub update_full_table : TableName → D → Peer D → Peer D × Option UpdateError
  -- `UpdateDeltaHosts` and `UpdateDeltaServices`, from a time to a time
  pub update_delta_hosts : D → ℕ → ℕ → Peer D → Peer D × Option UpdateError
  pub update_delta_services : D → ℕ → ℕ → Peer D → Peer D × Option UpdateError
  -- `UpdateDeltaCommentsOrDowntimes`
  pub update_delta_remarks : TableName → D → Peer D → Peer D × Option UpdateError
  -- `initAllTablesSerial` or `initAllTablesParallel`, `SetReferences` and the lists of comments and
  -- downtimes, for new data
  pub fill_tables : Peer D → Peer D × (UpdateError ⊎ D)
  pub request_localtime : Peer D → Peer D × Option UpdateError
  pub fetch_config_tool : Peer D → Peer D × Option UpdateError
  -- the query of `handleBrokenPeer`: an error, or the program start and the process id, if it has
  -- a row with two values
  pub query_status : Peer D → Peer D × (UpdateError ⊎ Option (ℕ × ℕ))
  -- Objects.UpdateTables
  pub update_tables : List TableName

module _ {D : Type 0} where
  -- `if err != nil { return }` between two steps.
  abbrev pub unless_failed :
      Peer D × Option UpdateError
      → (Peer D → Peer D × Option UpdateError)
      → Peer D × Option UpdateError
  unless_failed (p, some e) next = (p, some e)
  unless_failed (p, none) next = next p

-- Times of a round: `now` is read at its start, and `later` at its end.
module _ {D : Type 0} (r : Remote D) (now later : ℕ) where
  -- `UpdateFullTablesList`
  unfoldable pub update_full_tables_list : List TableName → D → Peer D → Peer D × Option UpdateError
  update_full_tables_list [] d p = (p, none)
  update_full_tables_list (name ∷ tables) d p =
      unless_failed (r.update_full_table name d p) (update_full_tables_list tables d)

  -- `periodicTimeperiodsUpdate`
  unfoldable pub update_timeperiods : D → Peer D → Peer D × Option UpdateError
  unfolding update_full_tables_list
  update_timeperiods d p =
      unless_failed
        (unless_failed (update_full_tables_list (timeperiods ∷ hostgroups ∷ servicegroups ∷ []) d p)
          r.request_localtime)
        r.fetch_config_tool

  -- The part of `InitAllTables` behind the new tables.
  unfoldable pub finish_tables : Peer D × (UpdateError ⊎ D) → Peer D × Option UpdateError
  unfolding finish_init
  finish_tables (p, inl e) = (p, some e)
  finish_tables (p, inr data_set) =
      unless_failed (r.request_localtime p) (λ q. (finish_init later data_set q, none))

  -- `InitAllTables`
  unfoldable pub init_all_tables : Peer D → Peer D × Option UpdateError
  unfolding start_init finish_tables
  init_all_tables p = finish_tables (r.fill_tables (start_init now p))

  -- `UpdateFull`
  unfoldable pub update_full : List TableName → D → Peer D → Peer D × Option UpdateError
  unfolding update_full_tables_list finish_full
  update_full tables d p =
      unless_failed (update_full_tables_list tables d p) (λ q. (finish_full later q, none))

  -- `UpdateDelta`
  unfoldable pub update_delta : D → ℕ → ℕ → Peer D → Peer D × Option UpdateError
  unfolding update_full_tables_list finish_delta
  update_delta d from to p =
      unless_failed
        (unless_failed
          (unless_failed
            (unless_failed
              (unless_failed (update_full_tables_list (status ∷ []) d p)
                (r.update_delta_hosts d from to))
              (r.update_delta_services d from to))
            (r.update_delta_remarks comments d))
          (r.update_delta_remarks downtimes d))
        (λ q. (finish_delta later to q, none))

  -- `handleBrokenPeer`, for the answer to its query.
  unfoldable pub handle_answer :
      Peer D × (UpdateError ⊎ Option (ℕ × ℕ)) → Peer D × Option UpdateError
  unfolding init_all_tables
  handle_answer (p, inl e) = (p, some e)
  handle_answer (p, inr none) =
      (p, some (other (codes "unknown result while waiting for peer to recover")))
  handle_answer (p, inr (some (program_start, pid))) =
      if p.program_start == program_start && p.last_pid == pid
      then (p, some (other (codes "waiting for peer to recover")))
      else init_all_tables p

  -- `handleBrokenPeer`
  unfoldable pub handle_broken_peer : Peer D → Peer D × Option UpdateError
  unfolding handle_answer
  handle_broken_peer p = handle_answer (r.query_status p)

  -- The switch of `periodicUpdate` over the status, the data and the times read at its start.
  unfoldable pub update_by_status :
      Settings → PeerStatus → Option D → ℕ → ℕ → Bool → Bool → Peer D → Peer D × Option UpdateError
  unfolding handle_broken_peer init_all_tables update_full update_delta
  update_by_status c broken data_set last_update last_full force idling p = handle_broken_peer p
  update_by_status c down data_set last_update last_full force idling p = init_all_tables p
  update_by_status c pending data_set last_update last_full force idling p = init_all_tables p
  update_by_status c warning none last_update last_full force idling p = init_all_tables p
  update_by_status c warning (some d) last_update last_full force idling p =
      update_full r.update_tables d p
  update_by_status c up none last_update last_full force idling p = init_all_tables p
  update_by_status c up (some d) last_update last_full force idling p =
      if not idling && ltb 0 c.full_update_interval && ltb (last_full + c.full_update_interval) now
      then update_full r.update_tables d p
      else if force
      then update_delta d 0 now (record p { force_full = false })
      else update_delta d last_update now p

  -- The update of the timeperiods in `periodicUpdate`, in the minute `minute`.
  unfoldable pub try_timeperiods : ℕ → Option D → Peer D → Peer D × Option UpdateError
  unfolding update_timeperiods
  try_timeperiods minute none p = (p, none)
  try_timeperiods minute (some d) p =
      if not p.idling && not (p.last_timeperiod_update_minute == minute)
      then update_timeperiods d (record p { last_timeperiod_update_minute = minute })
      else (p, none)

  -- The rest of `periodicUpdate` for a peer `p` at its start, behind the update of the timeperiods.
  unfoldable pub update_if_due :
      Settings → Peer D → Bool → Peer D × Option UpdateError → Peer D × Option UpdateError
  unfolding update_by_status
  update_if_due c p idling (p2, some e) = (p2, some e)
  update_if_due c p idling (p2, none) =
      if ltb now (p.last_update + (if idling then c.idle_interval else c.update_interval))
      then (p2, none)
      else update_by_status c p.state p.data_set p.last_update p.last_full_update p.force_full
          idling (record p2 { last_update = now })

  -- `periodicUpdate`
  unfoldable pub periodic_update : Settings → ℕ → Peer D → Peer D × Option UpdateError
  unfolding update_idle_status try_timeperiods update_if_due
  periodic_update c minute p =
      let p1 = update_idle_status c now p in
      update_if_due c p p1.idling (try_timeperiods minute p.data_set p1)

  -- `checkRestartRequired`, for the peer and the error of an update.
  unfoldable pub check_restart_required : Peer D × Option UpdateError → Peer D × Option UpdateError
  unfolding init_all_tables
  check_restart_required (p, some (restart_required text)) = init_all_tables p
  check_restart_required (p, some (other text)) = (p, some (other text))
  check_restart_required (p, none) = (p, none)

  -- A round of `updateLoop`: the update, and a new start if the remote site was restarted.
  unfoldable pub update_round : Settings → ℕ → Peer D → Peer D × Option UpdateError
  unfolding periodic_update check_restart_required
  update_round c minute p = check_restart_required (periodic_update c minute p)
