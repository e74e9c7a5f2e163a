-- ===== src/Replica/Heights/Invariant.antt =====
-- replica/replica.go: what every operation of a protocol by heights keeps, a replica keeps.
use banyan.Base.{
  List, [], ◌∷◌, ◌++◌, not, Word, Bytes, ok, inl, inr, Returns, Returns-bind, Returns-then,
  Returns-if, Bool-cases, List-cases, Option-cases, All, get_elem?, bytes_eq,
}
use banyan.Election.{is_leader}
use banyan.LocalTimeout.{LocalTimeout}
use banyan.Chain.{Block}
use banyan.Protocol.Safety.{Safety, handle_event}
use banyan.Protocol.Common.{Message, block}
use banyan.Replica.{
  LocalEvent, new_height, timeout, first_production, next_production, propose_block,
  propose_if_leader, handle_local_event, process_committed_block,
}
use banyan.Replica.Query.{query_reply}
use banyan.Replica.Heights.Defs.{
  Replica, Task, deliver, ask, take, begin, enter_height, next_rank, note_committed, signal_start,
  handle_message, answer_query, take_message, begin_production, produce, take_height, take_timeout,
  take_committed, run_task, run_tasks,
}

-- Every operation of the protocol keeps the predicate, where the messages that it takes in are
-- good; and the blocks that it proposes are.
pub record Maintains {S : Type 0} (safety : Safety S) (Good : Message → Type 0) (P : S → Type 0)
    : Type 0 where
  pub takes_in : (s : S) (m : Message) → Good m → P s → Returns P (handle_event safety s m)
  pub broadcast : (s : S) (b : Block) → P s → P (safety.broadcast s (block b))
  pub set_lt : (s : S) (lt : LocalTimeout) → P s → P (safety.set_lt s lt)
  pub proposal :
      (s : S) (height rank now : Word) (payload : Bytes)
      → P s
      → Returns
          (λ made. Good (block (record made { timestamp = now })))
          (safety.make_proposal s height rank payload)

-- What is delivered is good.
abbrev pub IsGood : (Message → Type 0) → Task → Type 0
IsGood Good (deliver m) = Good m
IsGood Good (ask now) = Unit
IsGood Good take = Unit
IsGood Good (begin now payload) = Unit
IsGood Good (enter_height now payload) = Unit
IsGood Good (next_rank now payload) = Unit
IsGood Good (note_committed now) = Unit

snoc-All :
    (Good : Message → Type 0) (ms : List Message) (m : Message)
    → All Good ms
    → Good m
    → All Good (ms ++ m ∷ [])
snoc-All Good [] m all h = (h, tt)
snoc-All Good (x ∷ ms) m all h = (all.0, snoc-All Good ms m all.1 h)

module _ {S : Type 0} (safety : Safety S) (Good : Message → Type 0) (P : S → Type 0)
    (keep : Maintains safety Good P) where
  -- The protocol keeps the predicate, and what waits in the channel is good.
  abbrev pub Holds : Replica S → Type 0
  Holds r = P r.safety × All Good r.event_chan

  propose_if_leader_keeps :
      (now : Word) (payload : Bytes) (s : S) (height rank : Word)
      → P s
      → Returns P (propose_if_leader safety now payload s height rank)
  unfolding propose_if_leader propose_block handle_event
  propose_if_leader_keeps now payload s height rank h =
      Returns-if P (is_leader (safety.election s) (safety.node_id s) height rank) _ (ok s)
        (λ _.
          Returns-bind (λ made. Good (block (record made { timestamp = now }))) P
            (safety.make_proposal s height rank payload) _
            (keep.proposal s height rank now payload h)
            (λ made good.
              let b = record made { timestamp = now } in
              keep.takes_in (safety.broadcast s (block b)) (block b) good (keep.broadcast s b h)))
        (λ _. h)

  produce_keeps :
      (now : Word) (payload : Bytes) (r : Replica S) (s : S) (e : LocalEvent)
      → Holds r
      → P s
      → Returns Holds (produce safety now payload r s e)
  unfolding produce handle_local_event
  produce_keeps now payload r s e h k = elim (Option-cases r.production) [
    | inl idle ↦ rw (produce, idle) h
    | inr (p, on) ↦
        rw (produce, on)
          (Returns-bind (λ t. P t.0) Holds _ _
            (Returns-bind P (λ t. P t.0) _ _
              (propose_if_leader_keeps now payload s (next_production p e).height
                (next_production p e).rank k)
              (λ t kept. kept))
            (λ t kept. (kept, h.1)))
  ]

  take_message_keeps : (r : Replica S) → Holds r → Returns Holds (take_message safety r)
  unfolding take_message
  take_message_keeps r h = elim (List-cases r.event_chan) [
    | inl e ↦ rw (take_message, e) h
    | inr (m, ms, e) ↦
        let all : All Good (m ∷ ms) = rw e at h.1 in
        rw (take_message, e)
          (Returns-bind P Holds (handle_event safety r.safety m) _
            (keep.takes_in r.safety m all.0 h.0) (λ s kept. (kept, all.1)))
  ]

  answered_keeps :
      (r : Replica S) (replies : List Bytes)
      → Holds r
      → Holds (record (signal_start r) { replies = replies })
  unfolding signal_start
  answered_keeps r replies h = elim (Bool-cases (not r.is_started)) [
    | inl off ↦ rw off h
    | inr on ↦ rw on h
  ]

  run_task_keeps :
      (r : Replica S) (a : Task) → IsGood Good a → Holds r → Returns Holds (run_task safety r a)
  unfolding run_task handle_message answer_query begin_production take_height take_timeout
      take_committed
  run_task_keeps r (deliver m) good h = (h.0, snoc-All Good r.event_chan m h.1 good)
  run_task_keeps r (ask now) good h =
      Returns-then Holds (query_reply now r.payload_size r.statistics) _
        (λ reply _. answered_keeps r (r.replies ++ reply ∷ []) h)
  run_task_keeps r take good h = take_message_keeps r h
  run_task_keeps r (begin now payload) good h = elim (Option-cases r.production) [
    | inr (p, e) ↦ rw (begin_production, e) h
    | inl e ↦ elim (Bool-cases r.is_started) [
      | inr off ↦ rw (begin_production, e, off) h
      | inl on ↦
          rw (begin_production, e, on)
            (Returns-bind P Holds _ _
              (propose_if_leader_keeps now payload r.safety first_production.height
                first_production.rank h.0)
              (λ s kept. (kept, h.1)))
    ]
  ]
  run_task_keeps r (enter_height now payload) good h =
      elim (List-cases (safety.lt r.safety).new_height_chan) [
        | inl e ↦ rw (take_height, e) h
        | inr (x, xs, e) ↦
            rw (take_height, e)
              (produce_keeps now payload r _ (new_height x) h
                (keep.set_lt r.safety (record (safety.lt r.safety) { new_height_chan = xs }) h.0))
      ]
  run_task_keeps r (next_rank now payload) good h =
      produce_keeps now payload r r.safety timeout h h.0
  run_task_keeps r (note_committed now) good h =
      elim (Option-cases (get_elem? (safety.committed_blocks r.safety) r.noted)) [
        | inl e ↦ rw (take_committed, e) h
        | inr (b, e) ↦
            rw (take_committed, e)
              (Returns-then Holds
                (process_committed_block now (bytes_eq.beq b.proposer (safety.node_id r.safety))
                  r.statistics b)
                _ (λ st _. h))
      ]

  pub run_tasks_keep :
      (r : Replica S) (tasks : List Task)
      → All (IsGood Good) tasks
      → Holds r
      → Returns Holds (run_tasks safety r tasks)
  unfolding run_tasks
  run_tasks_keep r [] good h = h
  run_tasks_keep r (a ∷ tasks) good h =
      Returns-bind Holds Holds (run_task safety r a) _ (run_task_keeps r a good.0 h)
        (λ t kept. run_tasks_keep t tasks good.1 kept)
