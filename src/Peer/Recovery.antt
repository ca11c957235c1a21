-- ===== src/Peer/Recovery.antt =====
-- A due round of `updateLoop` (lmd/peer.go) with a remote site that answers.
use lampd.Prelude.{ℕ, ◌≡◌, ◌⊎◌, inl, inr, true, Option, none, some}
use lampd.Column.{TableName}
use lampd.Filter.Match.Returns.{is_some}
use lampd.Peer.{up, Peer}
use lampd.Peer.Round.{UpdateError, restart_required, other, Remote}

module _ {D : Type 0} where
  -- A peer that is up has no errors.
  abbrev pub IsClean : Peer D → Type 0
  IsClean p = p.state ≡ up → p.error_count ≡ 0

  -- No source failed on the way: the data is not dropped, and the peer is clean if it was.
  abbrev pub Keeps : Peer D → Peer D → Type 0
  Keeps p p' =
      (p'.data_set ≡ p.data_set)
      × (p'.program_start ≡ p.program_start)
      × (p'.last_pid ≡ p.last_pid)
      × (IsClean p → IsClean p')

  -- An update succeeds, or finds that the remote site was restarted or has other objects.
  abbrev pub Answered : Peer D → Peer D × Option UpdateError → Type 0
  Answered p (p', none) = Keeps p p'
  Answered p (p', some (restart_required text)) = Keeps p p'
  Answered p (p', some (other text)) = ⊥

  abbrev pub Filled : Peer D → Peer D × (UpdateError ⊎ D) → Type 0
  Filled p (p', inl e) = ⊥
  Filled p (p', inr d) = IsClean p → IsClean p'

  -- A query that needs no data succeeds.
  abbrev pub Succeeds : Peer D → Peer D × Option UpdateError → Type 0
  Succeeds p (p', none) = Keeps p p'
  Succeeds p (p', some e) = ⊥

-- A remote site that answers every query: new tables can be filled, and the update of an old table
-- succeeds or asks for a new start.
pub record IsAnswering {D : Type 0} (r : Remote D) (program_start pid : ℕ) : Type 0 where
  pub table : (name : TableName) (d : D) (p : Peer D) → Answered p (r.update_full_table name d p)
  pub delta_hosts :
      (d : D) (from to : ℕ) (p : Peer D) → Answered p (r.update_delta_hosts d from to p)
  pub delta_services :
      (d : D) (from to : ℕ) (p : Peer D) → Answered p (r.update_delta_services d from to p)
  pub remarks :
      (name : TableName) (d : D) (p : Peer D) → Answered p (r.update_delta_remarks name d p)
  pub filled : (p : Peer D) → Filled p (r.fill_tables p)
  pub localtime : (p : Peer D) → Succeeds p (r.request_localtime p)
  pub config_tool : (p : Peer D) → Answered p (r.fetch_config_tool p)
  pub query : (p : Peer D) → r.query_status p ≡ (p, inr (some (program_start, pid)))

-- Up, with data, and without an error.
abbrev pub IsRecovered : {D : Type 0} → Peer D × Option UpdateError → Type 0
IsRecovered r =
    (r.0.state ≡ up) × (is_some r.0.data_set ≡ true) × (r.0.error_count ≡ 0) × (r.1 ≡ none)

module _ {D : Type 0} (r : Remote D) (now later : ℕ) (program_start pid : ℕ)
    (answers : IsAnswering r program_start pid) where
  -- Recovered, or asking for a new start.
  abbrev WillRecover : Peer D × Option UpdateError → Type 0
  WillRecover (p, none) = IsRecovered (p, none)
  WillRecover (p, some (restart_required text)) = IsClean p
  WillRecover (p, some (other text)) = ⊥
