-- ===== src/Cluster/Running.antt =====
-- `updateBackends` keeps the peers of this node's backends running, and no others.
use lampd.Prelude.{
  ◌≡◌, refl, ◌∙◌, Bool, true, false, not, ◌&&◌, List, [], ◌∷◌, ◌++◌, arith, if◌then◌else◌,
}
use lampd.Prelude.Bytes.{Bytes, ◌=b◌, =b_iff}
use lampd.Cluster.{
  Nodes, Action, stop_and_clear, start, PeerEntry, member, added, start_all, stop_all,
  append_sub_peers, update_backends,
}
use lampd.Result.{Result, ok, err, panic}

-- Which peers run their update loop.
abbrev pub Running : Type 0
Running = Bytes → Bool

abbrev assign : Running → Bytes → Bool → Running
assign running b value x = if b =b x then value else running x

-- `Stop` and `Start` of lmd/peer.go on the state of the peers: a start of a running peer panics.
unfoldable pub act : Running → List Action → Result Running
act running [] = ok running
act running (stop_and_clear b ∷ actions) = act (assign running b false) actions
act running (start b ∷ actions) =
    let rest = act (assign running b true) actions in if running b then err panic else rest

abbrev pub IsDistinct : List Bytes → Type 0
IsDistinct [] = Unit
IsDistinct (b ∷ bs) = (member b bs ≡ false) × IsDistinct bs

-- Of the backends of this node, those that are assigned run.
abbrev pub RunsAssigned : Nodes → Running → Type 0
RunsAssigned n running =
    (b : Bytes) → member b n.backends ≡ true → running b ≡ member b n.assigned_backends

stopped : Running → List Bytes → Running
stopped running [] = running
stopped running (b ∷ bs) = stopped (assign running b false) bs

started : Running → List Bytes → Running
started running [] = running
started running (b ∷ bs) = started (assign running b true) bs

stopped_lem :
    (running : Running) (bs : List Bytes) (x : Bytes)
    → stopped running bs x ≡ (if member x bs then false else running x)
unfolding stopped member
stopped_lem running [] x = refl
stopped_lem running (b ∷ bs) x = ground (arith, stopped_lem (assign running b false) bs x)

started_lem :
    (running : Running) (bs : List Bytes) (x : Bytes)
    → started running bs x ≡ (if member x bs then true else running x)
unfolding started member
started_lem running [] x = refl
started_lem running (b ∷ bs) x = ground (arith, started_lem (assign running b true) bs x)

act-stop_all :
    (running : Running) (bs : List Bytes) (actions : List Action)
    → act running (stop_all bs ++ actions) ≡ act (stopped running bs) actions
unfolding act stop_all stopped
act-stop_all running [] actions = refl
act-stop_all running (b ∷ bs) actions = act-stop_all (assign running b false) bs actions

act-start_all :
    (running : Running) (bs : List Bytes)
    → IsDistinct bs
    → ((b : Bytes) → member b bs ≡ true → running b ≡ false)
    → act running (start_all bs) ≡ ok (started running bs)
unfolding act start_all started
act-start_all running [] d paused = refl
act-start_all running (b ∷ bs) d paused =
    ground (arith, paused b (member_head b bs), act-start_all (assign running b true) bs d.1 later)
  where
    member_head : (b : Bytes) (bs : List Bytes) → member b (b ∷ bs) ≡ true
    member_head b bs = unfold member in ground (arith, =b_iff b b)

    later : (x : Bytes) → member x bs ≡ true → assign running b true x ≡ false
    later x h = unfold member in ground (arith, =b_iff b x, paused x, d.0)

member-added :
    (x : Bytes) (before now backends : List Bytes)
    → member x (added before now backends)
      ≡ (member x backends && (member x now && not (member x before)))
unfolding added member
member-added x before now [] = refl
member-added x before now (b ∷ backends) =
    ground (arith, member-added x before now backends, =b_iff b x)

added-IsDistinct :
    (before now backends : List Bytes)
    → IsDistinct backends
    → IsDistinct (added before now backends)
unfolding added
added-IsDistinct before now [] d = tt
added-IsDistinct before now (b ∷ backends) d =
    ground (arith, member-added b before now backends, added-IsDistinct before now backends d.1)

-- If the backends have different names and those assigned to this node run, `updateBackends` starts
-- no peer that runs, and afterwards those of the new assignment run, and no other backends.
pub update_backends-RunsAssigned :
    (peers : List PeerEntry) (ours : List Bytes) (n : Nodes) (running : Running)
    → IsDistinct n.backends
    → RunsAssigned n running
    → (running' : Running) × (act running (update_backends peers ours n).1 ≡ ok running')
      × RunsAssigned (update_backends peers ours n).0 running'
unfolding update_backends
update_backends-RunsAssigned peers ours n running d runs =
    let before = n.assigned_backends in
    let now = append_sub_peers peers ours in
    let halt = added now before n.backends in
    let launch = added before now n.backends in
    (
      started (stopped running halt) launch,
      act-stop_all running halt (start_all launch)
          ∙ act-start_all (stopped running halt) launch (added-IsDistinct before now n.backends d)
              (paused now),
      (λ b h. settled now b h),
    )
  where
    paused :
        (now : List Bytes) (b : Bytes)
        → member b (added n.assigned_backends now n.backends) ≡ true
        → stopped running (added now n.assigned_backends n.backends) b ≡ false
    paused now b h = ground (
      arith,
      stopped_lem running (added now n.assigned_backends n.backends) b,
      member-added b n.assigned_backends now n.backends,
      runs b,
    )

    settled :
        (now : List Bytes) (b : Bytes)
        → member b n.backends ≡ true
        → started
            (stopped running (added now n.assigned_backends n.backends))
            (added n.assigned_backends now n.backends)
            b
          ≡ member b now
    settled now b h = ground (
      arith,
      started_lem (stopped running (added now n.assigned_backends n.backends))
          (added n.assigned_backends now n.backends) b,
      stopped_lem running (added now n.assigned_backends n.backends) b,
      member-added b n.assigned_backends now n.backends,
      member-added b now n.assigned_backends n.backends,
      runs b,
    )
