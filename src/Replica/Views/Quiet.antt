-- ===== src/Replica/Views/Quiet.antt =====
-- replica/replica_view.go: a replica that is Byzantine, or has not started, is silent.
use banyan.Base.{
  ℕ, List, [], ◌∷◌, ◌≡◌, refl, sym, subst, ◌∙◌, inl, inr, true, slt, Word, Bytes, ok, Gives,
  Gives-bind, arith, Bool-cases, List-cases, get_elem?, Option-cases,
}
use banyan.Identity.{NodeId}
use banyan.View.{Vote, Tmo}
use banyan.Protocol.Views.{ViewEnv, ViewMessage}
use banyan.Protocol.HotStuff.{new_hotstuff}
use banyan.Protocol.Streamlet.{Streamlet, run_pending, new_streamlet}
use banyan.Protocol.ViewSafety.{SafetyView, IsQuiet, hotstuff_safety, streamlet_safety}
use banyan.Replica.Views.{
  new_replica, new_hotstuff_replica, new_streamlet_replica, ReplicaView, Action, receive_block,
  receive_vote, receive_tmo, receive_query, take_event, enter_view, time_out, run_goroutine, post,
  handle_block, handle_vote, handle_tmo, handle_query, run_event, listen_view, listen_timer, act,
  run_actions,
}

pub hotstuff_IsQuiet : (env : ViewEnv) (fuel : ℕ) → IsQuiet (hotstuff_safety env fuel)
hotstuff_IsQuiet env fuel = record { set_pm = λ s pm. refl; run_pending = λ s k. refl }

pub streamlet_IsQuiet : (env : ViewEnv) (fuel : ℕ) → IsQuiet (streamlet_safety env fuel)
unfolding run_pending
streamlet_IsQuiet env fuel = record { set_pm = λ s pm. refl; run_pending = goroutine }
  where
    goroutine : (s : Streamlet) (k : ℕ) → (run_pending s k).sent ≡ s.sent
    goroutine s k = elim (Option-cases (get_elem? s.pending_views k)) [
      | inl e ↦ rw (run_pending, e) refl
      | inr (v, e) ↦ rw (run_pending, e) refl
    ]

module _ {S : Type 0} (safety : SafetyView S) (messages : List ViewMessage) where
  -- A Byzantine replica has sent the messages, and no others.
  abbrev pub IsSilent : ReplicaView S → Type 0
  IsSilent r = (r.is_byz ≡ true) × (safety.sent r.safety_view ≡ messages)

module _ {S : Type 0} (safety : SafetyView S) (quiet : IsQuiet safety)
    (messages : List ViewMessage) where
  handle_vote-IsSilent :
      (r : ReplicaView S) (v : Vote)
      → IsSilent safety messages r
      → IsSilent safety messages (handle_vote safety r v)
  unfolding handle_vote post
  handle_vote-IsSilent r v h = elim (Bool-cases (slt v.view (safety.pm r.safety_view).cur_view)) [
    | inl e ↦ rw e h
    | inr e ↦ rw e h
  ]

  handle_tmo-IsSilent :
      (r : ReplicaView S) (tmo : Tmo)
      → IsSilent safety messages r
      → IsSilent safety messages (handle_tmo safety r tmo)
  unfolding handle_tmo post
  handle_tmo-IsSilent r tmo h =
      elim (Bool-cases (slt tmo.view (safety.pm r.safety_view).cur_view)) [
        | inl e ↦ rw e h
        | inr e ↦ rw e h
      ]

  handle_query-IsSilent :
      (r : ReplicaView S)
      → IsSilent safety messages r
      → IsSilent safety messages (handle_query safety r)
  unfolding handle_query
  handle_query-IsSilent r h = (ground (arith, h.0), ground (arith, h.0, h.1))

  run_event-IsSilent :
      (now : Word) (payload : Bytes) (r : ReplicaView S)
      → IsSilent safety messages r
      → Gives (IsSilent safety messages) (run_event safety now payload r)
  unfolding run_event
  run_event-IsSilent now payload r h = elim (List-cases r.event_chan) [
    | inl e ↦ rw e h
    | inr (v, vs, e) ↦ rw (e, h.0) h
  ]

  listen_view-IsSilent :
      (r : ReplicaView S)
      → IsSilent safety messages r
      → IsSilent safety messages (listen_view safety r)
  unfolding listen_view
  listen_view-IsSilent r h = elim (List-cases ((safety.pm r.safety_view).new_view_chan)) [
    | inl e ↦ rw (listen_view, e) h
    | inr (v, vs, e) ↦ (
      ground (arith, e, h.0),
      ground (
        arith,
        e,
        h.0,
        h.1,
        quiet.set_pm r.safety_view (record (safety.pm r.safety_view) { new_view_chan = vs }),
      ),
    )
  ]

  listen_timer-IsSilent :
      (r : ReplicaView S)
      → IsSilent safety messages r
      → Gives (IsSilent safety messages) (listen_timer safety r)
  unfolding listen_timer
  listen_timer-IsSilent r h =
      let idle : listen_timer safety r ≡ ok r = ground (arith, h.0) in
      subst (Gives (IsSilent safety messages)) (sym idle) h

  act-IsSilent :
      (r : ReplicaView S) (a : Action)
      → IsSilent safety messages r
      → Gives (IsSilent safety messages) (act safety r a)
  unfolding act handle_block post
  act-IsSilent r (receive_block b) h = h
  act-IsSilent r (receive_vote v) h = handle_vote-IsSilent r v h
  act-IsSilent r (receive_tmo tmo) h = handle_tmo-IsSilent r tmo h
  act-IsSilent r receive_query h = handle_query-IsSilent r h
  act-IsSilent r (take_event now payload) h = run_event-IsSilent now payload r h
  act-IsSilent r enter_view h = listen_view-IsSilent r h
  act-IsSilent r time_out h = listen_timer-IsSilent r h
  act-IsSilent r (run_goroutine k) h = (h.0, quiet.run_pending r.safety_view k ∙ h.1)

  pub run_actions-IsSilent :
      (r : ReplicaView S) (actions : List Action)
      → IsSilent safety messages r
      → Gives (IsSilent safety messages) (run_actions safety r actions)
  unfolding run_actions
  run_actions-IsSilent r [] h = h
  run_actions-IsSilent r (a ∷ actions) h =
      Gives-bind (IsSilent safety messages) (IsSilent safety messages) (act safety r a) _
        (act-IsSilent r a h) (λ t k. run_actions-IsSilent t actions k)

-- Whatever the goroutines of a new Byzantine replica do, in any order, for HotStuff and for
-- Streamlet: they return, and the replica is Byzantine still and has sent nothing.
pub byzantine_replicas-IsSilent :
    (env : ViewEnv) (fuel n : ℕ) (node : NodeId) (actions : List Action)
    → Gives
        (IsSilent (hotstuff_safety env fuel) [])
        (run_actions (hotstuff_safety env fuel) (new_hotstuff_replica node n true) actions)
      × Gives
          (IsSilent (streamlet_safety env fuel) [])
          (run_actions (streamlet_safety env fuel) (new_streamlet_replica node n true) actions)
unfolding new_replica new_hotstuff_replica new_streamlet_replica new_hotstuff new_streamlet
byzantine_replicas-IsSilent env fuel n node actions = (
  run_actions-IsSilent (hotstuff_safety env fuel) (hotstuff_IsQuiet env fuel) [] _ actions
      (refl, refl),
  run_actions-IsSilent (streamlet_safety env fuel) (streamlet_IsQuiet env fuel) [] _ actions
      (refl, refl),
)
