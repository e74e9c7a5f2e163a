-- ===== src/Replica/Heights/Defs.antt =====
-- replica/replica.go: the replica around a protocol by heights. The goroutines are tasks, each of which
-- runs to its end; a channel is the list of what waits in it.
use banyan.Base.{
  ℕ, ◌+◌, List, [], ◌∷◌, ◌++◌, Option, none, some, Bool, true, false, not, if◌then◌else◌, Word,
  Bytes, get_elem?, bytes_eq, Outcome, ok, ◌>>=◌,
}
use banyan.Identity.{NodeId}
use banyan.LocalTimeout.{new_local_timeout}
use banyan.Protocol.Safety.{Safety, handle_event}
use banyan.Protocol.Common.{Env, Message}
use banyan.Protocol.Banyan.{Banyan, new_banyan}
use banyan.Protocol.Icc.{Icc, new_icc}
use banyan.Replica.Defs.{
  Statistics, Production, LocalEvent, new_height, timeout, first_production, propose_if_leader,
  handle_local_event, process_committed_block,
}
use banyan.Replica.Query.{query_reply}

-- `Replica`. `production` is there once `ListenLocalEvent` got the signal of `start` and made its
-- first proposal; `noted` counts the blocks taken from `committedBlocks`; `replies` holds the
-- answers to queries, the oldest first.
pub record Replica (S : Type 0) : Type 0 where
  pub safety : S
  pub is_started : Bool
  pub production : Option Production
  pub event_chan : List Message
  pub noted : ℕ
  pub statistics : Statistics
  pub payload_size : Word
  pub replies : List Bytes

-- The slices of the statistics are zero, and the experiment has not started.
unfoldable pub no_statistics : Word → Statistics
no_statistics duration = record {
  experiment_start_time = 0;
  experiment_duration = duration;
  experiment_started = false;
  all_block_latency = λ _. 0;
  my_block_latency = λ _. 0;
  all_block_times = λ _. 0;
  last_block_propose_time = 0;
  committed_block_no = 0;
}

unfoldable pub new_replica_with : {S : Type 0} → S → Word → Word → Replica S
new_replica_with s duration payload_size = record {
  safety = s;
  is_started = false;
  production = none;
  event_chan = [];
  noted = 0;
  statistics = no_statistics duration;
  payload_size = payload_size;
  replies = [];
}

-- `n`, `f` and `p` are those of the configuration.
unfoldable pub new_banyan_replica : Env → NodeId → ℕ → ℕ → ℕ → Word → Word → Replica Banyan
new_banyan_replica env node n f p duration payload_size =
    new_replica_with (new_banyan env node (record { peer_no = n }) new_local_timeout n f p) duration
      payload_size

unfoldable pub new_icc_replica : Env → NodeId → ℕ → Word → Word → Replica Icc
new_icc_replica env node n duration payload_size =
    new_replica_with (new_icc env node (record { peer_no = n }) new_local_timeout n) duration
      payload_size

-- What the goroutines of a replica do next: a handler gets a message or a query, the loop of
-- `Start` takes an event, `ListenLocalEvent` gets the signal, a new height or the timer, or
-- `ListenCommittedBlocks` takes a block. The clock shows the word, the bytes are drawn for a block.
pub data Task : Type 0 where
  deliver : Message → Task
  ask : Word → Task
  take : Task
  begin : Word → Bytes → Task
  enter_height : Word → Bytes → Task
  next_rank : Word → Bytes → Task
  note_committed : Word → Task

module _ {S : Type 0} where
  unfoldable pub signal_start : Replica S → Replica S
  signal_start r = if not r.is_started then record r { is_started = true } else r

  -- `r.eventChan <- m`, of each of the three handlers.
  unfoldable pub handle_message : Replica S → Message → Replica S
  handle_message r m = record r { event_chan = r.event_chan ++ m ∷ [] }

  -- `handleQuery`
  unfoldable pub answer_query : Word → Replica S → Outcome (Replica S)
  unfolding signal_start
  answer_query now r = query_reply now r.payload_size r.statistics >>= λ reply.
      ok (record (signal_start r) { replies = r.replies ++ reply ∷ [] })

module _ {S : Type 0} (safety : Safety S) where
  -- One round of the loop of `Start`; it waits while there is no event.
  unfoldable pub take_message : Replica S → Outcome (Replica S)
  unfolding signal_start
  take_message r = elim r.event_chan [
    | [] ↦ ok r
    | m ∷ ms ↦ handle_event safety r.safety m >>= λ s.
        ok (record (signal_start r) { event_chan = ms; safety = s })
  ]

  -- The lines of `ListenLocalEvent` before its loop, after the signal.
  unfoldable pub begin_production : Word → Bytes → Replica S → Outcome (Replica S)
  begin_production now payload r = elim r.production [
    | some _ ↦ ok r
    | none ↦ elim r.is_started [
      | false ↦ ok r
      | true ↦
          propose_if_leader safety now payload r.safety first_production.height
            first_production.rank
          >>= λ s. ok (record r { safety = s; production = some first_production })
    ]
  ]

  -- A round of the loop of `ListenLocalEvent`, on a state whose event is taken.
  unfoldable pub produce : Word → Bytes → Replica S → S → LocalEvent → Outcome (Replica S)
  produce now payload r s e = elim r.production [
    | none ↦ ok r
    | some p ↦ handle_local_event safety now payload (s, p) e >>= λ t.
        ok (record r { safety = t.0; production = some t.1 })
  ]

  -- `<-r.lt.GetNewHeight()`
  unfoldable pub take_height : Word → Bytes → Replica S → Outcome (Replica S)
  unfolding produce
  take_height now payload r = elim (safety.lt r.safety).new_height_chan [
    | [] ↦ ok r
    | h ∷ hs ↦
        produce now payload r
          (safety.set_lt r.safety (record (safety.lt r.safety) { new_height_chan = hs }))
          (new_height h)
  ]

  -- `<-r.timer.C`
  unfoldable pub take_timeout : Word → Bytes → Replica S → Outcome (Replica S)
  unfolding produce
  take_timeout now payload r = produce now payload r r.safety timeout

  -- `<-r.committedBlocks`
  unfoldable pub take_committed : Word → Replica S → Outcome (Replica S)
  take_committed now r = elim (get_elem? (safety.committed_blocks r.safety) r.noted) [
    | none ↦ ok r
    | some b ↦
        process_committed_block now (bytes_eq.beq b.proposer (safety.node_id r.safety)) r.statistics
          b
        >>= λ st. ok (record r { statistics = st; noted = r.noted + 1 })
  ]

  unfoldable pub run_task : Replica S → Task → Outcome (Replica S)
  run_task r (deliver m) = ok (handle_message r m)
  run_task r (ask now) = answer_query now r
  run_task r take = take_message r
  run_task r (begin now payload) = begin_production now payload r
  run_task r (enter_height now payload) = take_height now payload r
  run_task r (next_rank now payload) = take_timeout now payload r
  run_task r (note_committed now) = take_committed now r

  -- The goroutines of a replica, in the order in which they come to run.
  unfoldable pub run_tasks : Replica S → List Task → Outcome (Replica S)
  run_tasks r [] = ok r
  run_tasks r (a ∷ tasks) = run_task r a >>= λ t. run_tasks t tasks
