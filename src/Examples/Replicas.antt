-- ===== src/Examples/Replicas.antt =====
-- Replicas by views, and what their pacemaker counts.
use banyan.Base.{
  ◌≡◌, ◌≤◌, ◌+◌, ◌||◌, [], ◌∷◌, List, none, true, false, arith, ltb, is_ok, Gives, Returns,
  if◌then◌else◌, add, biased,
}
use banyan.Identity.{NodeId}
use banyan.View.{Tmo, new_pacemaker, new_timeout_controller, super_majority}
use banyan.View.Once.{occurrences}
use banyan.View.Pacing.{timed_out, timed_out-once, IsAdvancing, advance_all, new_views_rise}
use banyan.Protocol.ViewSafety.{hotstuff_safety, streamlet_safety}
use banyan.Base.{not}
use banyan.Replica.{slots, Statistics}
use banyan.Replica.Query.{query_reply, is_reported}
use banyan.Replica.Query.Slots.{query_reply-is_ok}
use banyan.Replica.Views.{
  Action, receive_block, receive_query, take_event, enter_view, time_out, run_goroutine,
  new_hotstuff_replica, new_streamlet_replica, run_actions,
}
use banyan.Replica.Views.Committed.{
  block_num, is_view_over, start_view_experiment, process_committed_view_block,
  process_committed_view_block-is_ok,
}
use banyan.Replica.Views.HotStuff.{HasGrown, run_actions-HasGrown}
use banyan.Replica.Views.Quiet.{IsSilent, byzantine_replicas-IsSilent}
use banyan.Examples.Setup.{node_1, node_2, node_3}
use banyan.Examples.Others.{fresh}
use banyan.Examples.Views.{view_env, first_block}
use banyan.Examples.Streamlets.{view_block}

abbrev tmo_of : NodeId → Tmo
tmo_of node = record { view = 2; node_id = node; high_qc = none }

abbrev some_timeouts : List Tmo
some_timeouts = tmo_of node_1 ∷ tmo_of node_2 ∷ tmo_of node_3 ∷ tmo_of node_1 ∷ []

timed_out-once_example :
    occurrences 2 (timed_out (new_timeout_controller 3) some_timeouts)
      + (if super_majority (new_timeout_controller 3) 2 then 1 else 0)
    ≤ 1
timed_out-once_example = timed_out-once (new_timeout_controller 3) some_timeouts 2

new_views_rise_example : IsAdvancing (advance_all (new_pacemaker 4) (0 ∷ 3 ∷ 1 ∷ []))
unfolding biased add
new_views_rise_example =
    new_views_rise 4 (0 ∷ 3 ∷ 1 ∷ []) (omega arith, (omega arith, (omega arith, tt)))

-- A block and a query arrive, the block is taken, the timer fires and the next view is entered.
abbrev pub some_actions : List Action
some_actions =
    receive_block first_block
    ∷ receive_query
    ∷ take_event 5 []
    ∷ time_out
    ∷ enter_view
    ∷ take_event 6 []
    ∷ run_goroutine 0
    ∷ []

run_actions-HasGrown_example :
    Returns
      (HasGrown (new_hotstuff_replica node_1 1 false).safety_view)
      (run_actions (hotstuff_safety view_env 5) (new_hotstuff_replica node_1 1 false) some_actions)
run_actions-HasGrown_example =
    run_actions-HasGrown view_env 5 (new_hotstuff_replica node_1 1 false) some_actions

byzantine_replicas-IsSilent_example :
    Gives
      (IsSilent (hotstuff_safety view_env 5) [])
      (run_actions (hotstuff_safety view_env 5) (new_hotstuff_replica node_1 4 true) some_actions)
    × Gives (IsSilent (streamlet_safety view_env 5) []) (
        run_actions
          (streamlet_safety view_env 5)
          (new_streamlet_replica node_1 4 true)
          some_actions)
byzantine_replicas-IsSilent_example = byzantine_replicas-IsSilent view_env 5 4 node_1 some_actions

process_committed_view_block-is_ok_example :
    is_ok (
      process_committed_view_block 50 true
        (record fresh { committed_block_no = 9999 })
        (view_block 4 7 8))
    ≡ (is_view_over 50 (start_view_experiment 50 (record fresh { committed_block_no = 9999 }))
        || ltb (block_num (record fresh { committed_block_no = 9999 })) slots)
process_committed_view_block-is_ok_example =
    process_committed_view_block-is_ok 50 true (record fresh { committed_block_no = 9999 })
      (view_block 4 7 8)

-- The experiment is over, and the slices are full.
abbrev full : Statistics
full = record {
  experiment_start_time = 1;
  experiment_duration = 1;
  experiment_started = true;
  all_block_latency = λ _. 0;
  my_block_latency = λ _. 0;
  all_block_times = λ _. 0;
  last_block_propose_time = 1;
  committed_block_no = 10000;
}

query_reply-is_ok_example :
    is_ok (query_reply 5 0 full) ≡ (not (is_reported 5 full) || ltb full.committed_block_no slots)
query_reply-is_ok_example = query_reply-is_ok 5 0 full
