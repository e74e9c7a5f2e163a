-- ===== src/Replica/Views/Committed.antt =====
-- replica/replica_view.go: the statistics on committed blocks, which this replica numbers itself.
use banyan.Base.{
  ℕ, ◌+◌, ◌≡◌, refl, inl, inr, Bool, true, ◌&&◌, ◌||◌, ltb, slt, ◌==◌, if◌then◌else◌, Word, add,
  sub, Outcome, ok, ◌>>=◌, is_ok, Bool-cases, arith,
}
use banyan.View.{Block}
use banyan.Replica.{Statistics, slots, set_slot}

-- `blockNum`
unfoldable pub block_num : Statistics → ℕ
block_num st = st.committed_block_no + 1

unfoldable pub start_view_experiment : Word → Statistics → Statistics
start_view_experiment now st =
    if block_num st == 3
    then record st { experiment_start_time = now; experiment_started = true }
    else st

unfoldable pub is_view_over : Word → Statistics → Bool
is_view_over now st =
    slt (add st.experiment_start_time st.experiment_duration) now && ltb 3 (block_num st)

-- The block is counted and its times are noted. `own` tells whether the replica proposed it.
unfoldable pub note_view_block : Word → Bool → Statistics → Block → Outcome Statistics
note_view_block now own st b =
    let n = block_num st in
    (if ltb 1 n
      then set_slot st.all_block_times n (sub b.timestamp st.last_block_propose_time)
      else ok st.all_block_times)
    >>= λ times. set_slot st.all_block_latency n (sub now b.timestamp) >>= λ latency.
        (if own
          then set_slot st.my_block_latency n (sub now b.timestamp)
          else ok st.my_block_latency)
        >>= λ mine. ok (record st {
          committed_block_no = n;
          all_block_times = times;
          all_block_latency = latency;
          my_block_latency = mine;
          last_block_propose_time = b.timestamp;
        })

unfoldable pub process_committed_view_block : Word → Bool → Statistics → Block → Outcome Statistics
process_committed_view_block now own st b =
    let st' = start_view_experiment now st in
    if is_view_over now st' then ok st' else note_view_block now own st' b

note_view_block-is_ok :
    (now : Word) (own : Bool) (st : Statistics) (b : Block)
    → is_ok (note_view_block now own st b) ≡ ltb (block_num st) slots
unfolding note_view_block set_slot
note_view_block-is_ok now own st b = elim (Bool-cases (ltb 1 (block_num st))) [
  | inl h ↦ elim (Bool-cases (ltb (block_num st) slots)) [
    | inl low ↦ elim (Bool-cases own) [
      | inl mine ↦ rw (h, low, mine) refl
      | inr other ↦ rw (h, low, other) refl
    ]
    | inr high ↦ rw (h, high) refl
  ]
  | inr h ↦ elim (Bool-cases (ltb (block_num st) slots)) [
    | inl low ↦ elim (Bool-cases own) [
      | inl mine ↦ rw (h, low, mine) refl
      | inr other ↦ rw (h, low, other) refl
    ]
    | inr high ↦ rw (h, high) refl
  ]
]

start_view_experiment-block_num :
    (now : Word) (st : Statistics) → block_num (start_view_experiment now st) ≡ block_num st
unfolding start_view_experiment block_num
start_view_experiment-block_num now st = ground (arith)

-- The replica by views notes a committed block without a crash exactly when the experiment is over
-- or the number that the block gets is below 10000.
pub process_committed_view_block-is_ok :
    (now : Word) (own : Bool) (st : Statistics) (b : Block)
    → is_ok (process_committed_view_block now own st b)
      ≡ (is_view_over now (start_view_experiment now st) || ltb (block_num st) slots)
unfolding process_committed_view_block
process_committed_view_block-is_ok now own st b =
    let st' = start_view_experiment now st in
    elim (Bool-cases (is_view_over now st')) [
      | inl over ↦ rw (process_committed_view_block, over) refl
      | inr running ↦
          rw (process_committed_view_block, running)
            (rw (note_view_block-is_ok now own st' b, start_view_experiment-block_num now st) refl)
    ]
