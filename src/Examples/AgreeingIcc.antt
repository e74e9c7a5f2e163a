-- ===== src/Examples/AgreeingIcc.antt =====
-- Four nodes of the ICC protocol, one of them silent, that agree on a block.
use banyan.Protocol.Safety.{handle_event}
use banyan.Protocol.Icc.{
  process_block, check_proposer, settle_block, accept_block, count_finalization_share,
  count_notarization_share, finalize, finalize_block, may_finalize, notarize,
  process_finalization_share, process_notarization_share, raise_head, send_finalization_share,
  send_notarization_share, vote_block, ship_each, shipped, try_to_ship, Icc, new_icc, icc_safety,
}
use banyan.Chain.{exists, new_blockchain, add_block, commit_block, commit_walk, get_block_by_id}
use banyan.Forest.{
  has_vertex, add_vertex, get_or_create_vertex_container, get_vertex, is_empty_container,
  new_forest, register_with_parent, committed_levels, first_vertex, prune_level, prune_levels,
  prune_step, prune_up_to_level,
}
use banyan.Election.{is_leader, srem}
use banyan.Base.{
  add, sub, list_beq, insert, biased, ◌≡◌, refl, inl, inr, sym, subst, In, bytes_eq, if◌then◌else◌,
  true, List, [], ◌∷◌, ok, panic, starved, All, ℕ, arith,
}
use banyan.Identity.{NodeId, node, parse_uint, parse_digits}
use banyan.Protocol.Common.{
  contains, check_signature, exclude, include, Message, block, notarization, finalization,
}
use banyan.Ballots.{ballot_count, ballots_of, cast, no_ballots, open_ballot, put_ballot}
use banyan.Crypto.{key_index, priv_sign, pub_verify, to_ecdsa, verify}
use banyan.LocalTimeout.{height_increased, new_local_timeout}
use banyan.Shares.{
  n_add, f_add, f_size, f_super_majority, n_super_majority, make_fshare, make_nshare,
  new_fshares_bag, new_nshares_bag,
}
use banyan.Replica.{first_production, propose_if_leader, propose_block}
use banyan.Replica.Query.{query_reply, is_reported}
use banyan.Replica.Heights.{
  Replica, Task, ask, begin, deliver, take, run_tasks, run_task, handle_message, answer_query,
  signal_start, take_message, begin_production, no_statistics, new_icc_replica, new_replica_with,
}
use banyan.Chain.{make_block, make_id}
use banyan.Protocol.Icc.{make_proposal}
use banyan.Replica.Heights.Invariant.{IsGood}
use banyan.Replica.Heights.IccAgreement.{IsHonestIcc, icc_replicas_agree}
use banyan.Crypto.{key_index, pub_verify, to_ecdsa, verify}
use banyan.Shares.{new_fshares_bag}
use banyan.Examples.Setup.{toy_env, toy_block, node_1, node_2, node_3, node_4}

abbrev nodes : List NodeId
nodes = node_1 ∷ node_2 ∷ node_3 ∷ node_4 ∷ []

abbrev faulty : List NodeId
faulty = node_4 ∷ []

abbrev n_vote : NodeId → Message
n_vote i =
    notarization
      (record { height = 1; rank = 0; voter = i; block_id = 1; signature = [] ∷ [] ∷ [] })

abbrev f_vote : NodeId → Message
f_vote i =
    finalization
      (record { height = 1; rank = 0; voter = i; block_id = 1; signature = [] ∷ [] ∷ [] })

-- The block, and the shares of the two others that are not silent.
abbrev shares : NodeId → NodeId → List Message
shares j k = n_vote j ∷ n_vote k ∷ f_vote j ∷ f_vote k ∷ []

abbrev take_each : List Message → List Task
take_each [] = []
take_each (m ∷ ms) = deliver m ∷ take ∷ take_each ms

-- The first node gets a query and proposes, the others take its block.
abbrev tasks : NodeId → List Task
tasks i =
    if bytes_eq.beq i node_1
    then ask 0 ∷ begin 0 [] ∷ take_each (shares node_2 node_3)
    else if bytes_eq.beq i node_2
    then take_each (block (toy_block 1 0 1) ∷ shares node_1 node_3)
    else take_each (block (toy_block 1 0 1) ∷ shares node_1 node_2)

abbrev start : NodeId → Replica Icc
start i = new_icc_replica toy_env i 4 0 0

abbrev run : NodeId → Replica Icc
run i = elim (run_tasks (icc_safety toy_env 5) (start i) (tasks i)) [
  | ok s ↦ s
  | panic _ ↦ start i
  | starved ↦ start i
]

-- The runs, what the nodes send, and what two of them hold.
facts :
    (run_tasks (icc_safety toy_env 5) (start node_1) (tasks node_1) ≡ ok (run node_1))
    × (run_tasks (icc_safety toy_env 5) (start node_2) (tasks node_2) ≡ ok (run node_2))
    × (run_tasks (icc_safety toy_env 5) (start node_3) (tasks node_3) ≡ ok (run node_3))
    × ((run node_1).safety.sent
        ≡ block (toy_block 1 0 1) ∷ block (toy_block 1 0 1) ∷ n_vote node_1 ∷ f_vote node_1 ∷ [])
    × ((run node_2).safety.sent ≡ block (toy_block 1 0 1) ∷ n_vote node_2 ∷ f_vote node_2 ∷ [])
    × ((run node_3).safety.sent ≡ block (toy_block 1 0 1) ∷ n_vote node_3 ∷ f_vote node_3 ∷ [])
    × (f_super_majority (run node_1).safety.fshares_bag 1 ≡ true)
    × ((run node_2).safety.is_notarized 1 ≡ true)
unfolding n_super_majority run_tasks run_task handle_message answer_query signal_start take_message
    begin_production query_reply is_reported no_statistics new_icc_replica new_replica_with
    propose_if_leader propose_block first_production make_proposal make_block make_id handle_event
    process_block exists has_vertex new_icc new_blockchain is_leader add sub node parse_uint
    parse_digits check_proposer list_beq settle_block contains ballot_count ballots_of cast
    no_ballots open_ballot put_ballot insert biased add_block commit_block commit_walk
    get_block_by_id key_index priv_sign pub_verify to_ecdsa verify add_vertex
    get_or_create_vertex_container get_vertex is_empty_container new_forest register_with_parent
    committed_levels first_vertex prune_level prune_levels prune_step prune_up_to_level
    height_increased new_local_timeout accept_block count_finalization_share
    count_notarization_share finalize finalize_block may_finalize notarize
    process_finalization_share process_notarization_share raise_head send_finalization_share
    send_notarization_share vote_block ship_each shipped try_to_ship check_signature exclude include
    n_add f_add f_size f_super_majority make_fshare make_nshare new_fshares_bag new_nshares_bag srem
facts = (refl, refl, refl, refl, refl, refl, refl, refl)

runs :
    (i : NodeId)
    → In i nodes
    → (¬ In i faulty)
    → run_tasks (icc_safety toy_env 5) (start i) (tasks i) ≡ ok (run i)
runs i (inl e) good =
    subst (λ k. run_tasks (icc_safety toy_env 5) (start k) (tasks k) ≡ ok (run k)) e facts.0
runs i (inr (inl e)) good =
    subst (λ k. run_tasks (icc_safety toy_env 5) (start k) (tasks k) ≡ ok (run k)) e facts.1
runs i (inr (inr (inl e))) good =
    subst (λ k. run_tasks (icc_safety toy_env 5) (start k) (tasks k) ≡ ok (run k)) e facts.2
runs i (inr (inr (inr h))) good = absurd (good h)

-- Ids are heights.
abbrev Honest : Message → Type 0
Honest = IsHonestIcc (λ id. id) nodes faulty run

n_vote-IsHonest : (i : NodeId) → In i nodes → (¬ In i faulty) → Honest (n_vote i)
n_vote-IsHonest i (inl e) good =
    subst (λ k. Honest (n_vote k)) e
      (refl, (inl refl, λ _. subst (In (n_vote node_1)) (sym facts.3) (inr (inr (inl refl)))))
n_vote-IsHonest i (inr (inl e)) good =
    subst (λ k. Honest (n_vote k)) e
      (refl, (inr (inl refl), λ _. subst (In (n_vote node_2)) (sym facts.4) (inr (inl refl))))
n_vote-IsHonest i (inr (inr (inl e))) good =
    subst (λ k. Honest (n_vote k)) e
      (refl, (inr (inr (inl refl)), λ _. subst (In (n_vote node_3)) (sym facts.5) (inr (inl refl))))
n_vote-IsHonest i (inr (inr (inr h))) good = absurd (good h)

f_vote-IsHonest : (i : NodeId) → In i nodes → (¬ In i faulty) → Honest (f_vote i)
f_vote-IsHonest i (inl e) good =
    subst (λ k. Honest (f_vote k)) e
      (tt, (inl refl, λ _. subst (In (f_vote node_1)) (sym facts.3) (inr (inr (inr (inl refl))))))
f_vote-IsHonest i (inr (inl e)) good =
    subst (λ k. Honest (f_vote k)) e
      (tt, (inr (inl refl), λ _. subst (In (f_vote node_2)) (sym facts.4) (inr (inr (inl refl)))))
f_vote-IsHonest i (inr (inr (inl e))) good =
    subst (λ k. Honest (f_vote k)) e
      (
        tt,
        (
          inr (inr (inl refl)),
          λ _. subst (In (f_vote node_3)) (sym facts.5) (inr (inr (inl refl))),
        ),
      )
f_vote-IsHonest i (inr (inr (inr h))) good = absurd (good h)

good_1 : ¬ In node_1 faulty
good_1 h = elim h [ inl e ↦ cc e | inr last ↦ last ]

good_2 : ¬ In node_2 faulty
good_2 h = elim h [ inl e ↦ cc e | inr last ↦ last ]

good_3 : ¬ In node_3 faulty
good_3 h = elim h [ inl e ↦ ground (arith, e) | inr last ↦ last ]

tasks-IsGood : (i : NodeId) → In i nodes → (¬ In i faulty) → All (IsGood Honest) (tasks i)
unfolding list_beq
tasks-IsGood i there good =
    let n_1 = n_vote-IsHonest node_1 (inl refl) good_1 in
    let n_2 = n_vote-IsHonest node_2 (inr (inl refl)) good_2 in
    let n_3 = n_vote-IsHonest node_3 (inr (inr (inl refl))) good_3 in
    let f_1 = f_vote-IsHonest node_1 (inl refl) good_1 in
    let f_2 = f_vote-IsHonest node_2 (inr (inl refl)) good_2 in
    let f_3 = f_vote-IsHonest node_3 (inr (inr (inl refl))) good_3 in
    elim there [
      | inl e ↦
          subst (λ k. All (IsGood Honest) (tasks k)) e
            (tt, (tt, (n_2, (tt, (n_3, (tt, (f_2, (tt, (f_3, (tt, tt))))))))))
      | inr (inl e) ↦
          subst (λ k. All (IsGood Honest) (tasks k)) e
            ((refl, tt), (tt, (n_1, (tt, (n_3, (tt, (f_1, (tt, (f_3, (tt, tt))))))))))
      | inr (inr (inl e)) ↦
          subst (λ k. All (IsGood Honest) (tasks k)) e
            ((refl, tt), (tt, (n_1, (tt, (n_2, (tt, (f_1, (tt, (f_2, (tt, tt))))))))))
      | inr (inr (inr last)) ↦ absurd (good last)
    ]

icc_replicas_agree_example : ◌≡◌ {A = ℕ} 1 1
icc_replicas_agree_example =
    icc_replicas_agree toy_env (λ id. id) 5 1 0 0 nodes faulty tasks run node_1 node_2 1 1
      (λ raw. refl) (omega arith) (omega arith) runs tasks-IsGood (inl refl) good_1 (inr (inl refl))
      good_2 facts.6 facts.7 refl
