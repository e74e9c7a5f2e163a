-- ===== src/Replica/Views/Invariant.antt =====
-- replica/replica_view.go: what every operation of the protocol keeps, a replica keeps.
use banyan.Base.{
  ℕ, List, [], ◌∷◌, inl, inr, not, ◌||◌, slt, Word, Bytes, ok, Returns, Returns-bind, Returns-then,
  Returns-if, Bool-cases, List-cases,
}
use banyan.Election.{is_leader_view}
use banyan.View.{Block, Vote, Tmo, Pacemaker}
use banyan.Protocol.Views.{ViewMessage, block_message}
use banyan.Protocol.ViewSafety.{SafetyView}
use banyan.Replica.Views.{
  ViewEvent, view_event, block_event, vote_event, tmo_event, ReplicaView, Action, receive_block,
  receive_vote, receive_tmo, receive_query, take_event, enter_view, time_out, run_goroutine,
  start_signal, post, handle_block, handle_vote, handle_tmo, handle_query, propose_view_block,
  process_new_view, process_event, run_event, listen_view, listen_timer, act, run_actions,
}

-- Every operation of the protocol keeps the predicate.
pub record Keeps {S : Type 0} (safety : SafetyView S) (P : S → Type 0) : Type 0 where
  pub process_block : (s : S) (b : Block) → P s → Returns P (safety.process_block s b)
  pub process_vote : (s : S) (v : Vote) → P s → Returns P (safety.process_vote s v)
  pub process_remote_tmo : (s : S) (tmo : Tmo) → P s → Returns P (safety.process_remote_tmo s tmo)
  pub process_local_tmo : (s : S) (view : Word) → P s → Returns P (safety.process_local_tmo s view)
  pub broadcast : (s : S) (m : ViewMessage) → P s → P (safety.broadcast s m)
  pub set_pm : (s : S) (pm : Pacemaker) → P s → P (safety.set_pm s pm)
  pub run_pending : (s : S) (k : ℕ) → P s → P (safety.run_pending s k)

module _ {S : Type 0} (safety : SafetyView S) (P : S → Type 0) (keep : Keeps safety P) where
  abbrev Holds : ReplicaView S → Type 0
  Holds r = P r.safety_view

  propose_view_block_keeps :
      (now : Word) (payload : Bytes) (s : S) (view : Word)
      → P s
      → Returns P (propose_view_block safety now payload s view)
  unfolding propose_view_block
  propose_view_block_keeps now payload s view h =
      Returns-then P (safety.make_proposal s view payload) _ (λ made _.
        keep.process_block _ _
          (keep.broadcast s (block_message (record made { timestamp = now })) h))

  process_event_keeps :
      (now : Word) (payload : Bytes) (s : S) (e : ViewEvent)
      → P s
      → Returns P (process_event safety now payload s e)
  unfolding process_event process_new_view
  process_event_keeps now payload s (view_event view) h =
      Returns-if P (is_leader_view (safety.election s) (safety.node_id s) view) _ (ok s)
        (λ _. propose_view_block_keeps now payload s view h) (λ _. h)
  process_event_keeps now payload s (block_event b) h = keep.process_block s b h
  process_event_keeps now payload s (vote_event v) h = keep.process_vote s v h
  process_event_keeps now payload s (tmo_event tmo) h = keep.process_remote_tmo s tmo h

  run_event_keeps :
      (now : Word) (payload : Bytes) (r : ReplicaView S)
      → Holds r
      → Returns Holds (run_event safety now payload r)
  unfolding run_event start_signal
  run_event_keeps now payload r h = elim (List-cases r.event_chan) [
    | inl e ↦ rw (run_event, e) h
    | inr (v, vs, e) ↦ elim (Bool-cases r.is_byz) [
      | inl byz ↦ rw (run_event, e, byz) h
      | inr honest ↦
          rw (run_event, e, honest)
            (Returns-bind P Holds (process_event safety now payload r.safety_view v) _
              (process_event_keeps now payload r.safety_view v h) (λ s k. k))
    ]
  ]

  listen_view_keeps : (r : ReplicaView S) → Holds r → Holds (listen_view safety r)
  unfolding listen_view post
  listen_view_keeps r h = elim (List-cases ((safety.pm r.safety_view).new_view_chan)) [
    | inl e ↦ rw (listen_view, e) h
    | inr (v, vs, e) ↦
        let k =
          keep.set_pm r.safety_view (record (safety.pm r.safety_view) { new_view_chan = vs }) h in
        elim (Bool-cases r.is_byz) [
          | inl byz ↦ rw (listen_view, e, byz) k
          | inr honest ↦ elim (Bool-cases r.is_started) [
            | inl on ↦ rw (listen_view, e, honest, on) k
            | inr off ↦ rw (listen_view, e, honest, off) h
          ]
        ]
  ]

  listen_timer_keeps : (r : ReplicaView S) → Holds r → Returns Holds (listen_timer safety r)
  unfolding listen_timer
  listen_timer_keeps r h = elim (Bool-cases (r.is_byz || not r.is_started)) [
    | inl idle ↦ rw (listen_timer, idle) h
    | inr on ↦
        rw (listen_timer, on)
          (Returns-bind P Holds _ _ (keep.process_local_tmo r.safety_view _ h) (λ s k. k))
  ]

  act_keeps : (r : ReplicaView S) (a : Action) → Holds r → Returns Holds (act safety r a)
  unfolding act handle_block post handle_vote handle_tmo handle_query start_signal
  act_keeps r (receive_block b) h = h
  act_keeps r (receive_vote v) h =
      elim (Bool-cases (slt v.view (safety.pm r.safety_view).cur_view)) [
        | inl e ↦ rw e h
        | inr e ↦ rw e h
      ]
  act_keeps r (receive_tmo tmo) h =
      elim (Bool-cases (slt tmo.view (safety.pm r.safety_view).cur_view)) [
        | inl e ↦ rw e h
        | inr e ↦ rw e h
      ]
  act_keeps r receive_query h = elim (Bool-cases r.is_byz) [ inl e ↦ rw e h | inr e ↦ rw e h ]
  act_keeps r (take_event now payload) h = run_event_keeps now payload r h
  act_keeps r enter_view h = listen_view_keeps r h
  act_keeps r time_out h = listen_timer_keeps r h
  act_keeps r (run_goroutine k) h = keep.run_pending r.safety_view k h

  pub run_actions_keep :
      (r : ReplicaView S) (actions : List Action)
      → Holds r
      → Returns Holds (run_actions safety r actions)
  unfolding run_actions
  run_actions_keep r [] h = h
  run_actions_keep r (a ∷ actions) h =
      Returns-bind Holds Holds (act safety r a) _ (act_keeps r a h)
        (λ t k. run_actions_keep t actions k)
