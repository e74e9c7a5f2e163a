-- ===== src/Replica/Defs.antt =====
-- replica/replica.go: proposing, the local events, the events of the network, and the statistics on
-- committed blocks. Times and durations are nanoseconds in an `int64`; `now` is what the clock
-- shows. The replies to queries, which format the statistics, are left out.
use banyan.Base.{
  ℕ, ◌+◌, Bool, true, ◌&&◌, ltb, slt, ◌==◌, if◌then◌else◌, update, Word, Bytes, add, sub, Outcome,
  ok, panic, ◌>>=◌, index_out_of_range, bytes_eq,
}
use banyan.Election.{is_leader}
use banyan.Chain.{Block}
use banyan.Protocol.Common.{block}
use banyan.Protocol.Safety.{Safety}

-- The statistics of a node. The three slices have the length 10000.
pub record Statistics : Type 0 where
  pub experiment_start_time : Word
  pub experiment_duration : Word
  pub experiment_started : Bool
  pub all_block_latency : Word → Word
  pub my_block_latency : Word → Word
  pub all_block_times : Word → Word
  pub last_block_propose_time : Word
  pub committed_block_no : ℕ

-- The length of the slices.
abbrev pub slots : ℕ
slots = 10000

-- `times[i] = d`. A negative index is a pattern past the length.
unfoldable pub set_slot : (Word → Word) → Word → Word → Outcome (Word → Word)
set_slot times i d = if ltb i slots then ok (update times i d) else panic index_out_of_range

-- The third block starts the experiment.
unfoldable pub start_experiment : Word → Statistics → Block → Statistics
start_experiment now st b =
    if b.height == 3
    then record st { experiment_start_time = now; experiment_started = true }
    else st

-- The experiment is over.
unfoldable pub is_over : Word → Statistics → Block → Bool
is_over now st b = slt (add st.experiment_start_time st.experiment_duration) now && slt 3 b.height

-- The times of the block are noted: times are words of nanoseconds, and what `Time.Sub` does at its
-- limits and with a time that is not set is left out. `own` tells whether the replica proposed it.
unfoldable pub note_block : Word → Bool → Statistics → Block → Outcome Statistics
note_block now own st b =
    (if slt 1 b.height
      then set_slot st.all_block_times b.height (sub b.timestamp st.last_block_propose_time)
      else ok st.all_block_times)
    >>= λ times. set_slot st.all_block_latency b.height (sub now b.timestamp) >>= λ latency.
        (if own
          then set_slot st.my_block_latency b.height (sub now b.timestamp)
          else ok st.my_block_latency)
        >>= λ mine. ok (record st {
          all_block_times = times;
          all_block_latency = latency;
          my_block_latency = mine;
          committed_block_no = st.committed_block_no + 1;
          last_block_propose_time = b.timestamp;
        })

unfoldable pub process_committed_block : Word → Bool → Statistics → Block → Outcome Statistics
process_committed_block now own st b =
    let st' = start_experiment now st b in
    if is_over now st' b then ok st' else note_block now own st' b

-- What `ListenLocalEvent` waits for.
pub data LocalEvent : Type 0 where
  new_height : Word → LocalEvent
  timeout : LocalEvent

-- The height and the rank at which the replica may propose.
pub record Production : Type 0 where
  pub height : Word
  pub rank : Word

unfoldable pub first_production : Production
first_production = record { height = 1; rank = 0 }

unfoldable pub next_production : Production → LocalEvent → Production
next_production p (new_height h) = record { height = h; rank = 0 }
next_production p timeout = record { height = p.height; rank = add p.rank 1 }

module _ {S : Type 0} (safety : Safety S) where
  -- `payload` holds the bytes drawn for the block.
  unfoldable pub propose_block : Word → Bytes → S → Word → Word → Outcome S
  propose_block now payload s height rank = safety.make_proposal s height rank payload >>= λ made.
      let b : Block = record made { timestamp = now } in
      safety.process_block (safety.broadcast s (block b)) b

  unfoldable pub propose_if_leader : Word → Bytes → S → Word → Word → Outcome S
  propose_if_leader now payload s height rank =
      if is_leader (safety.election s) (safety.node_id s) height rank
      then propose_block now payload s height rank
      else ok s

  -- One round of the loop of `ListenLocalEvent`.
  unfoldable pub handle_local_event :
      Word → Bytes → S × Production → LocalEvent → Outcome (S × Production)
  handle_local_event now payload (s, p) e =
      let p' = next_production p e in
      propose_if_leader now payload s p'.height p'.rank >>= λ s'. ok (s', p')
