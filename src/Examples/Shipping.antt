-- ===== src/Examples/Shipping.antt =====
-- A replica of Banyan that has shipped the block 7, and stores its child 8.
use banyan.Base.{
  outcome_map, ◌≡◌, ◌≢◌, refl, [], ◌∷◌, some, true, starved, arith, is_ok, Gives, Ends, sub,
  list_beq, insert,
}
use banyan.Chain.{block_vertex, BlockChain, commit_block, get_block_by_id}
use banyan.Chain.Commit.{CommitsPair, commit_block-Commits}
use banyan.Forest.{
  new_forest, has_vertex, get_vertex, add_vertex, prune_up_to_level, get_or_create_vertex_container,
  register_with_parent, is_empty_container, committed_levels, first_vertex, prune_levels,
  prune_step, prune_level,
}
use banyan.Ballots.{ballot_count, ballots_of, cast, no_ballots, open_ballot, put_ballot}
use banyan.Shares.{FinalizationShare, f_add, f_size, f_super_majority, new_fshares_bag}
use banyan.Protocol.Common.{check_signature, exclude}
use banyan.Protocol.Banyan.{Banyan, new_banyan, try_to_ship, process_finalization_share}
use banyan.Protocol.Banyan.Ending.{IsSound, try_to_ship-ends}
use banyan.Protocol.Banyan.InOrder.{HasShipped, process_finalization_share-in_order}
use banyan.Protocol.Icc as Icc
use banyan.Protocol.Icc.{Icc, new_icc}
use banyan.Protocol.Icc.Overlay.{overlay, try_to_ship-overlay, icc_try_to_ship-ends}
use banyan.LocalTimeout.{new_local_timeout}
use banyan.Examples.Setup.{toy_env, toy_block, node_1}
use banyan.Examples.Forests.{fork, fork-IsWellFormed, fork-IsLevelled}

abbrev chain : BlockChain
chain = record { forest = fork; highest_committed = 1; committed_block_no = 1; pruned_block_no = 0 }

child_stored : get_vertex chain.forest 8 ≡ some (toy_block 2 7 8)
unfolding new_forest add_vertex get_or_create_vertex_container register_with_parent
    is_empty_container get_vertex has_vertex sub
child_stored = refl

commit_block-Commits_example : Ends (CommitsPair chain (toy_block 2 7 8)) (commit_block 10 chain 8)
commit_block-Commits_example =
    commit_block-Commits 10 chain (toy_block 2 7 8) fork-IsWellFormed fork-IsLevelled child_stored
      (omega arith)

chain-IsSound : IsSound toy_env chain
unfolding new_forest add_vertex get_or_create_vertex_container register_with_parent
    is_empty_container get_vertex has_vertex sub
chain-IsSound = record {
  formed = fork-IsWellFormed;
  levelled = fork-IsLevelled;
  low = λ i b h. ground (arith);
}

abbrev shipper : Banyan
shipper = record (new_banyan toy_env node_1 (record { peer_no = 1 }) new_local_timeout 1 0 0) {
  bc = chain;
  last_shipped_block = 7;
}

try_to_ship-ends_example : try_to_ship toy_env 3 shipper 8 ≢ starved
unfolding new_banyan exclude
try_to_ship-ends_example = try_to_ship-ends toy_env 3 shipper 8 chain-IsSound (omega arith)

abbrev child_share : FinalizationShare
child_share = record {
  height = 2;
  rank = 0;
  voter = node_1;
  block_id = 8;
  signature = [] ∷ [] ∷ [];
}

prunes : is_ok (prune_up_to_level 10 fork 2) ≡ true
unfolding new_forest add_vertex get_or_create_vertex_container register_with_parent
    is_empty_container get_vertex has_vertex sub prune_up_to_level committed_levels first_vertex
    prune_levels prune_step prune_level
prunes = refl

process_finalization_share-in_order_example :
    Gives
      (HasShipped fork [] (toy_block 2 7 8))
      (process_finalization_share toy_env 5 shipper child_share)
unfolding new_banyan exclude check_signature list_beq get_block_by_id f_add f_size f_super_majority
    new_fshares_bag ballot_count ballots_of cast no_ballots open_ballot put_ballot insert
process_finalization_share-in_order_example =
    process_finalization_share-in_order toy_env 4 shipper child_share (toy_block 2 7 8)
      chain-IsSound child_stored refl refl refl refl refl prunes

-- A replica of Icc with the same chain.
abbrev icc_shipper : Icc
icc_shipper = record (new_icc toy_env node_1 (record { peer_no = 1 }) new_local_timeout 1) {
  bc = chain;
  last_shipped_block = 7;
}

try_to_ship-overlay_example :
    outcome_map (overlay shipper) (Icc.try_to_ship toy_env 3 icc_shipper 8)
    ≡ try_to_ship toy_env 3 (overlay shipper icc_shipper) 8
try_to_ship-overlay_example = try_to_ship-overlay shipper toy_env 3 icc_shipper 8

icc_try_to_ship-ends_example : Icc.try_to_ship toy_env 3 icc_shipper 8 ≢ starved
unfolding new_icc exclude
icc_try_to_ship-ends_example =
    icc_try_to_ship-ends toy_env 3 icc_shipper 8 chain-IsSound (omega arith)
