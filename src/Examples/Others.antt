-- ===== src/Examples/Others.antt =====
-- Leaders, node ids, and the statistics of a replica.
use banyan.Base.{ℕ, ◌≡◌, ◌<◌, ◌↔◌, true, false, arith}
use banyan.Identity.{node, new_node_id}
use banyan.Identity.RoundTrip.{node-new_node_id}
use banyan.Election.{Rotation, is_leader, find_leader_for}
use banyan.Election.Leaders.{is_leader-find_leader_for, every_replica_leads}
use banyan.Replica.{Statistics}
use banyan.Base.{[], ◌∷◌}
use banyan.LocalTimeout.{new_local_timeout}
use banyan.LocalTimeout.Rising.{IsRising, increase_all, new_heights_rise}
use banyan.Examples.Setup.{node_2}

abbrev four : Rotation
four = record { peer_no = 4 }

is_leader-find_leader_for_example :
    (is_leader four node_2 5 1 ≡ true) ↔ (node node_2 ≡ node (find_leader_for four 5 1))
is_leader-find_leader_for_example =
    is_leader-find_leader_for four 5 1 (omega arith) (omega arith) (omega arith) (omega arith)
      (omega arith) node_2

every_replica_leads_example :
    (rank : ℕ) × (rank < 4)
    × (is_leader four (new_node_id 2) 5 rank ≡ true)
    × ((other : ℕ) → other < 4 → is_leader four (new_node_id 2) 5 other ≡ true → other ≡ rank)
every_replica_leads_example =
    every_replica_leads four 5 2 (omega arith) (omega arith) (omega arith) (omega arith)
      (omega arith) (omega arith)

node-new_node_id_example : node (new_node_id 17) ≡ 17
node-new_node_id_example = node-new_node_id 17 (omega arith)

abbrev pub fresh : Statistics
fresh = record {
  experiment_start_time = 0;
  experiment_duration = 100;
  experiment_started = false;
  all_block_latency = λ _. 0;
  my_block_latency = λ _. 0;
  all_block_times = λ _. 0;
  last_block_propose_time = 0;
  committed_block_no = 0;
}

new_heights_rise_example : IsRising (increase_all new_local_timeout (2 ∷ 2 ∷ 5 ∷ 4 ∷ []))
new_heights_rise_example = new_heights_rise (2 ∷ 2 ∷ 5 ∷ 4 ∷ [])
