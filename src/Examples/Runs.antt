-- ===== src/Examples/Runs.antt =====
-- Runs of a replica of the Banyan protocol.
use banyan.Protocol.Safety.{handle_event, handle_events}
use banyan.Protocol.Banyan.{
  process_block, check_proposer, settle_block, accept_block, count_finalization_share,
  count_notarization_share, finalize, finalize_block, may_finalize, notarize,
  process_finalization_share, process_notarization_share, raise_head, send_finalization_share,
  send_notarization_share, vote_block, ship_each, shipped, try_to_ship, Banyan, new_banyan,
  banyan_safety,
}
use banyan.Chain.{exists, new_blockchain, add_block, commit_block, commit_walk, get_block_by_id}
use banyan.Forest.{
  has_vertex, add_vertex, get_or_create_vertex_container, get_vertex, is_empty_container,
  new_forest, register_with_parent, committed_levels, first_vertex, prune_level, prune_levels,
  prune_step, prune_up_to_level,
}
use banyan.Election.{is_leader, srem}
use banyan.Base.{
  add, sub, list_beq, insert, biased, ◌≡◌, refl, inl, inr, sym, subst, In, ◌==◌, if◌then◌else◌,
  update, true, false, List, [], ◌∷◌, ok, panic, starved, minus_one, Returns,
}
use banyan.Identity.{node, parse_uint, parse_digits}
use banyan.Protocol.Common.{
  contains, check_signature, exclude, include, Message, block, notarization, finalization,
}
use banyan.Ballots.{ballot_count, ballots_of, cast, no_ballots, open_ballot, put_ballot}
use banyan.Crypto.{key_index, priv_sign, pub_verify, to_ecdsa, verify}
use banyan.LocalTimeout.{height_increased, new_local_timeout}
use banyan.Shares.{
  b_add, f_add, f_size, f_super_majority, make_fshare, make_nshare, new_fshares_bag,
  new_nshares_bag_banyan, NotarizationShare, FinalizationShare,
}
use banyan.Protocol.Banyan.Lost.{IsLost}
use banyan.Protocol.Banyan.Lost.Runs.{handle_events-IsLost}
use banyan.Base.{bytes_eq}
use banyan.Protocol.Banyan.Exclusive.Runs.{handle_events-exclusive}
use banyan.Examples.Setup.{toy_env, toy_block, node_1}

-- A replica that is alone.
abbrev alone : Banyan
alone = new_banyan toy_env node_1 (record { peer_no = 1 }) new_local_timeout 1 0 0

abbrev one_block : List Message
one_block = block (toy_block 1 0 7) ∷ []

abbrev after_one_block : Banyan
after_one_block = elim (handle_events (banyan_safety toy_env 5) alone one_block) [
  | ok s ↦ s
  | panic _ ↦ alone
  | starved ↦ alone
]

runs : handle_events (banyan_safety toy_env 5) alone one_block ≡ ok after_one_block
unfolding handle_events handle_event process_block exists has_vertex new_banyan new_blockchain
    is_leader add sub node parse_uint parse_digits check_proposer list_beq settle_block contains
    ballot_count ballots_of cast no_ballots open_ballot put_ballot insert biased add_block
    commit_block commit_walk get_block_by_id key_index priv_sign pub_verify to_ecdsa verify
    add_vertex get_or_create_vertex_container get_vertex is_empty_container new_forest
    register_with_parent committed_levels first_vertex prune_level prune_levels prune_step
    prune_up_to_level height_increased new_local_timeout accept_block count_finalization_share
    count_notarization_share finalize finalize_block may_finalize notarize
    process_finalization_share process_notarization_share raise_head send_finalization_share
    send_notarization_share vote_block ship_each shipped try_to_ship check_signature exclude include
    b_add f_add f_size f_super_majority make_fshare make_nshare new_fshares_bag
    new_nshares_bag_banyan srem
runs = refl

abbrev vote : NotarizationShare
vote = record {
  height = 1;
  rank = minus_one;
  voter = node_1;
  block_id = 7;
  signature = [] ∷ [] ∷ [];
}

abbrev share : FinalizationShare
share = record {
  height = 1;
  rank = minus_one;
  voter = node_1;
  block_id = 7;
  signature = [] ∷ [] ∷ [];
}

sends : after_one_block.sent ≡ block (toy_block 1 0 7) ∷ notarization vote ∷ finalization share ∷ []
unfolding handle_events handle_event process_block exists has_vertex new_banyan new_blockchain
    is_leader add sub node parse_uint parse_digits check_proposer list_beq settle_block contains
    ballot_count ballots_of cast no_ballots open_ballot put_ballot insert biased add_block
    commit_block commit_walk get_block_by_id key_index priv_sign pub_verify to_ecdsa verify
    add_vertex get_or_create_vertex_container get_vertex is_empty_container new_forest
    register_with_parent committed_levels first_vertex prune_level prune_levels prune_step
    prune_up_to_level height_increased new_local_timeout accept_block count_finalization_share
    count_notarization_share finalize finalize_block may_finalize notarize
    process_finalization_share process_notarization_share raise_head send_finalization_share
    send_notarization_share vote_block ship_each shipped try_to_ship check_signature exclude include
    b_add f_add f_size f_super_majority make_fshare make_nshare new_fshares_bag
    new_nshares_bag_banyan srem
sends = refl

handle_events-exclusive_example : vote.block_id ≡ share.block_id
handle_events-exclusive_example =
    handle_events-exclusive toy_env (λ id. if id == 7 then 1 else 0) 5 node_1
      (record { peer_no = 1 }) new_local_timeout 1 0 0 one_block after_one_block vote share
      (refl, tt) runs (subst (In (notarization vote)) (sym sends) (inr (inl refl)))
      (subst (In (finalization share)) (sym sends) (inr (inr (inl refl)))) refl

-- The block 9 is stored, and its parent 8 is not shipped.
abbrev orphaned : Banyan
orphaned = record alone { bc = add_block alone.bc (toy_block 2 8 9) }

orphan_facts : (contains orphaned.ship_queue 9 ≡ false) × (orphaned.last_shipped_block ≡ 0)
unfolding handle_events handle_event process_block exists has_vertex new_banyan new_blockchain
    is_leader add sub node parse_uint parse_digits check_proposer list_beq settle_block contains
    ballot_count ballots_of cast no_ballots open_ballot put_ballot insert biased add_block
    commit_block commit_walk get_block_by_id key_index priv_sign pub_verify to_ecdsa verify
    add_vertex get_or_create_vertex_container get_vertex is_empty_container new_forest
    register_with_parent committed_levels first_vertex prune_level prune_levels prune_step
    prune_up_to_level height_increased new_local_timeout accept_block count_finalization_share
    count_notarization_share finalize finalize_block may_finalize notarize
    process_finalization_share process_notarization_share raise_head send_finalization_share
    send_notarization_share vote_block ship_each shipped try_to_ship check_signature exclude include
    b_add f_add f_size f_super_majority make_fshare make_nshare new_fshares_bag
    new_nshares_bag_banyan srem
orphan_facts = (refl, refl)

-- The block 9 is final, and the parent arrives now.
abbrev lost : Banyan
lost = record orphaned { is_finalized = update orphaned.is_finalized 9 true }

lost-IsLost : IsLost 9 lost
lost-IsLost = record {
  finalized = refl;
  unqueued = orphan_facts.0;
  unshipped = λ e. cc (orphan_facts.1);
}

handle_events-IsLost_example :
    Returns (IsLost 9) (handle_events (banyan_safety toy_env 5) lost one_block)
handle_events-IsLost_example = handle_events-IsLost toy_env 9 5 lost one_block lost-IsLost
