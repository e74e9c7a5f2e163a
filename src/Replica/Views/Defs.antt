-- ===== src/Replica/Views/Defs.antt =====
-- replica/replica_view.go: the handlers of messages, the event loop, the local events, proposing, and
-- the statistics on committed blocks. The goroutines are actions, each of which runs to its end; a
-- channel is the list of what waits in it. The replies to queries, which format the statistics, are
-- left out.
use banyan.Base.{
  ℕ, List, [], ◌∷◌, ◌++◌, Bool, true, false, not, ◌||◌, slt, if◌then◌else◌, Word, Bytes, Outcome,
  ok, ◌>>=◌,
}
use banyan.Identity.{NodeId}
use banyan.Election.{is_leader_view}
use banyan.View.{Block, Vote, Tmo, new_pacemaker}
use banyan.Protocol.Views.{block_message}
use banyan.Protocol.HotStuff.{HotStuff, new_hotstuff}
use banyan.Protocol.Streamlet.{Streamlet, new_streamlet}
use banyan.Protocol.ViewSafety.{SafetyView}

-- What waits in `eventChan`.
pub data ViewEvent : Type 0 where
  view_event : Word → ViewEvent
  block_event : Block → ViewEvent
  vote_event : Vote → ViewEvent
  tmo_event : Tmo → ViewEvent

-- `ReplicaView`. `is_started` also tells that `ListenLocalEvent` got the signal of `start`.
pub record ReplicaView (S : Type 0) : Type 0 where
  pub safety_view : S
  pub is_started : Bool
  pub is_byz : Bool
  pub event_chan : List ViewEvent

unfoldable pub new_replica : {S : Type 0} → S → Bool → ReplicaView S
new_replica s is_byz = record {
  safety_view = s;
  is_started = false;
  is_byz = is_byz;
  event_chan = [];
}

-- `n` is the N of the configuration.
unfoldable pub new_hotstuff_replica : NodeId → ℕ → Bool → ReplicaView HotStuff
new_hotstuff_replica node n is_byz =
    new_replica (new_hotstuff node (new_pacemaker n) (record { peer_no = n }) n) is_byz

unfoldable pub new_streamlet_replica : NodeId → ℕ → Bool → ReplicaView Streamlet
new_streamlet_replica node n is_byz =
    new_replica (new_streamlet node (new_pacemaker n) (record { peer_no = n }) n) is_byz

-- What the goroutines of a replica do next: the network delivers a message, a query arrives, the
-- event loop takes an event, `ListenLocalEvent` takes a view or sees the timer fire, or a goroutine
-- of the protocol runs. The loop has the time and the bytes drawn for a proposal at hand.
pub data Action : Type 0 where
  receive_block : Block → Action
  receive_vote : Vote → Action
  receive_tmo : Tmo → Action
  receive_query : Action
  take_event : Word → Bytes → Action
  enter_view : Action
  time_out : Action
  run_goroutine : ℕ → Action

module _ {S : Type 0} where
  unfoldable pub start_signal : ReplicaView S → ReplicaView S
  start_signal r = record r { is_started = true }

  -- `r.eventChan <- e`
  unfoldable pub post : ReplicaView S → ViewEvent → ReplicaView S
  post r e = record r { event_chan = r.event_chan ++ e ∷ [] }

  unfoldable pub handle_block : ReplicaView S → Block → ReplicaView S
  handle_block r b = post r (block_event b)

module _ {S : Type 0} (safety : SafetyView S) where
  unfoldable pub handle_vote : ReplicaView S → Vote → ReplicaView S
  handle_vote r v =
      if slt v.view (safety.pm r.safety_view).cur_view then r else post r (vote_event v)

  unfoldable pub handle_tmo : ReplicaView S → Tmo → ReplicaView S
  handle_tmo r tmo =
      if slt tmo.view (safety.pm r.safety_view).cur_view then r else post r (tmo_event tmo)

  -- What a query changes.
  unfoldable pub handle_query : ReplicaView S → ReplicaView S
  handle_query r = if r.is_byz then r else start_signal r

  -- `payload` holds the bytes drawn for the block.
  unfoldable pub propose_view_block : Word → Bytes → S → Word → Outcome S
  propose_view_block now payload s view = safety.make_proposal s view payload >>= λ made.
      let b : Block = record made { timestamp = now } in
      safety.process_block (safety.broadcast s (block_message b)) b

  unfoldable pub process_new_view : Word → Bytes → S → Word → Outcome S
  process_new_view now payload s view =
      if is_leader_view (safety.election s) (safety.node_id s) view
      then propose_view_block now payload s view
      else ok s

  unfoldable pub process_event : Word → Bytes → S → ViewEvent → Outcome S
  process_event now payload s (view_event view) = process_new_view now payload s view
  process_event now payload s (block_event b) = safety.process_block s b
  process_event now payload s (vote_event v) = safety.process_vote s v
  process_event now payload s (tmo_event tmo) = safety.process_remote_tmo s tmo

  -- One round of the loop of `Start`; it waits while there is no event.
  unfoldable pub run_event : Word → Bytes → ReplicaView S → Outcome (ReplicaView S)
  run_event now payload r = elim r.event_chan [
    | [] ↦ ok r
    | e ∷ es ↦ elim r.is_byz [
      | true ↦ ok (record r { event_chan = es })
      | false ↦ process_event now payload r.safety_view e >>= λ s.
          ok (record (start_signal r) { event_chan = es; safety_view = s })
    ]
  ]

  -- `<-r.pm.EnteringViewEvent()`: a silent replica drops the view, another passes it on once it has
  -- started.
  unfoldable pub listen_view : ReplicaView S → ReplicaView S
  listen_view r = elim ((safety.pm r.safety_view).new_view_chan) [
    | [] ↦ r
    | view ∷ views ↦
        let pm = record (safety.pm r.safety_view) { new_view_chan = views } in
        let t : ReplicaView S = record r { safety_view = safety.set_pm r.safety_view pm } in
        if r.is_byz then t else if r.is_started then post t (view_event view) else r
  ]

  -- `<-r.timer.C`, in a replica that listens to its timer.
  unfoldable pub listen_timer : ReplicaView S → Outcome (ReplicaView S)
  listen_timer r = elim (r.is_byz || not r.is_started) [
    | true ↦ ok r
    | false ↦ safety.process_local_tmo r.safety_view (safety.pm r.safety_view).cur_view >>= λ s.
        ok (record r { safety_view = s })
  ]

  unfoldable pub act : ReplicaView S → Action → Outcome (ReplicaView S)
  act r (receive_block b) = ok (handle_block r b)
  act r (receive_vote v) = ok (handle_vote r v)
  act r (receive_tmo tmo) = ok (handle_tmo r tmo)
  act r receive_query = ok (handle_query r)
  act r (take_event now payload) = run_event now payload r
  act r enter_view = ok (listen_view r)
  act r time_out = listen_timer r
  act r (run_goroutine k) = ok (record r { safety_view = safety.run_pending r.safety_view k })

  -- The goroutines of a replica, in the order in which they come to run.
  unfoldable pub run_actions : ReplicaView S → List Action → Outcome (ReplicaView S)
  run_actions r [] = ok r
  run_actions r (a ∷ actions) = act r a >>= λ t. run_actions t actions
