-- ===== src/Examples/ViewChains.antt =====
-- A chain of two blocks by views.
use banyan.Base.{◌≡◌, ◌↔◌, refl, some, false, arith, sub, biased, Returns, Ends}
use banyan.Forest.{
  Forest, new_forest, get_vertex, has_vertex, add_vertex, get_or_create_vertex_container,
  register_with_parent, is_empty_container,
}
use banyan.Forest.Invariant.{IsWellFormed, new_forest-IsWellFormed}
use banyan.Forest.Lookup.{add_vertex-IsWellFormed}
use banyan.Forest.Levels.{IsLevelled}
use banyan.View.{Block, BlockChain, block_vertex, new_blockchain, commit_block}
use banyan.View.Commit.{CommitsPair, commit_block-CommitsPair}
use banyan.Protocol.HotStuff.{HotStuff, commit_rule as three_chain_rule}
use banyan.Protocol.HotStuff.ThreeChain.{IsThreeChain, commit_rule_iff}
use banyan.Protocol.ViewSafety.{hotstuff_safety}
use banyan.Replica.Views.{new_hotstuff_replica, run_actions}
use banyan.Replica.Views.HotStuff.{VotesByParent, run_actions-VotesByParent}
use banyan.Examples.Setup.{node_1}
use banyan.Examples.Views.{view_env, first_replica}
use banyan.Examples.Replicas.{some_actions}
use banyan.Examples.Streamlets.{view_qc, parent, child}

abbrev view_trunk : Forest Block
view_trunk = add_vertex new_forest parent

abbrev view_fork : Forest Block
view_fork = add_vertex view_trunk child

view_fork-IsWellFormed : IsWellFormed block_vertex view_fork
view_fork-IsWellFormed =
    add_vertex-IsWellFormed view_trunk
      (add_vertex-IsWellFormed new_forest (new_forest-IsWellFormed block_vertex) parent) child

view_fork-IsLevelled : IsLevelled block_vertex view_fork
unfolding new_forest add_vertex get_or_create_vertex_container register_with_parent
    is_empty_container get_vertex has_vertex sub
view_fork-IsLevelled = record {
  own_level = λ i a v h e. ground (arith);
  descending = λ i v u h e. ground (arith);
}

abbrev view_chain : BlockChain
view_chain = record (new_blockchain 1) { forest = view_fork }

view_child_stored : get_vertex view_fork 8 ≡ some child
unfolding new_forest add_vertex get_or_create_vertex_container register_with_parent
    is_empty_container get_vertex has_vertex sub
view_child_stored = refl

commit_block-CommitsPair_example :
    Ends (CommitsPair view_chain child) (commit_block 10 view_chain 8 4)
unfolding new_blockchain
commit_block-CommitsPair_example =
    commit_block-CommitsPair 10 view_chain child 4 view_fork-IsWellFormed view_fork-IsLevelled
      view_child_stored (omega arith)

commit_rule_iff_example :
    let s : HotStuff = record first_replica { bc = view_chain } in
    (three_chain_rule s (view_qc child) ≡ some parent) ↔ IsThreeChain s.bc (view_qc child) parent
unfolding new_blockchain
commit_rule_iff_example =
    commit_rule_iff (record first_replica { bc = view_chain }) view_fork-IsWellFormed
      (view_qc child) parent

run_actions-VotesByParent_example :
    Returns
      (VotesByParent child)
      (run_actions (hotstuff_safety view_env 5) (new_hotstuff_replica node_1 1 false) some_actions)
unfolding biased
run_actions-VotesByParent_example =
    run_actions-VotesByParent view_env 5 1 node_1 false some_actions child refl
