-- ===== src/Examples/Streamlets.antt =====
-- A replica of Streamlet with few blocks on its notarized chain.
use banyan.Base.{
  ◌↔◌, ◌≡◌, add, sub, biased, list_beq, refl, [], ◌∷◌, none, some, true, false, ok, panic,
  index_out_of_range, List, arith, Word, is_ok,
}
use banyan.Crypto.{Identifier}
use banyan.Forest.{
  Forest, new_forest, has_vertex, get_vertex, add_vertex, get_or_create_vertex_container,
  register_with_parent, is_empty_container,
}
use banyan.Forest.Invariant.{IsWellFormed, new_forest-IsWellFormed}
use banyan.Forest.Lookup.{add_vertex-IsWellFormed}
use banyan.Forest.Levels.{IsLevelled}
use banyan.Election.{is_leader_view, find_leader_for_view}
use banyan.View.{
  Block, block_vertex, new_blockchain, exists, get_block_by_id, Qc, new_pacemaker, advance_view,
}
use banyan.Protocol.Streamlet.{
  Streamlet, new_streamlet, update_notarized_chain, commit_rule, process_block, has_id, tail_level,
  check_proposer, get_notarized_height,
}
use banyan.Protocol.Streamlet.Levels.{on_chain, update_notarized_chain-is_ok}
use banyan.Protocol.Streamlet.Commits.{
  IsAncestor, IsPreceded, update_notarized_chain-commit_rule, update_notarized_chain_on_tail,
}
use banyan.Protocol.Streamlet.Proposals.{IsProposal, process_block_panic, process_block_again}
use banyan.Identity.{node, parse_uint, parse_digits}
use banyan.Examples.Setup.{node_1}
use banyan.Examples.Views.{view_env}

abbrev first_qc : Qc
first_qc = record {
  leader = [];
  view = 0;
  block_id = 0;
  signers = [];
  agg_sig = [];
  signature = [];
}

abbrev pub view_block : Word → Identifier → Identifier → Block
view_block view prev id = record {
  view = view;
  qc = some first_qc;
  proposer = node_1;
  timestamp = 0;
  payload = [];
  prev_id = prev;
  sig = [] ∷ [] ∷ [];
  id = id;
  ts = 0;
}

abbrev pub view_qc : Block → Qc
view_qc b = record {
  leader = [];
  view = b.view;
  block_id = b.id;
  signers = [];
  agg_sig = [];
  signature = [];
}

-- A replica that has stored one block, with a notarized chain.
abbrev replica_with : Block → List (List Block) → Streamlet
replica_with b chain =
    let s = new_streamlet node_1 (new_pacemaker 1) (record { peer_no = 1 }) 1 in
    record s { bc = record s.bc { forest = add_vertex s.bc.forest b }; notarized_chain = chain }

abbrev pub parent : Block
parent = view_block 1 0 7

abbrev pub child : Block
child = view_block 3 7 8

abbrev stray : Block
stray = view_block 2 0 9

-- The second certified block extends a block that was certified nowhere.
update_notarized_chain-is_ok_example :
    is_ok (update_notarized_chain (replica_with child ((stray ∷ []) ∷ [])) (view_qc child)) ≡ false
unfolding new_streamlet new_blockchain new_forest add_vertex get_block_by_id get_vertex has_vertex
    get_or_create_vertex_container register_with_parent is_empty_container on_chain has_id
    get_notarized_height
update_notarized_chain-is_ok_example =
    update_notarized_chain-is_ok (replica_with child ((stray ∷ []) ∷ [])) (view_qc child) child refl
      (omega arith)

-- The parent, the child and the stray block are stored, and the first and the third are certified.
abbrev three_blocks : Forest Block
three_blocks = add_vertex (add_vertex (add_vertex new_forest parent) child) stray

abbrev strayed : Streamlet
strayed =
    let s = replica_with child ((parent ∷ []) ∷ (stray ∷ []) ∷ []) in
    record s { bc = record s.bc { forest = three_blocks } }

strayed-IsWellFormed : IsWellFormed block_vertex strayed.bc.forest
strayed-IsWellFormed =
    add_vertex-IsWellFormed (add_vertex (add_vertex new_forest parent) child)
      (add_vertex-IsWellFormed (add_vertex new_forest parent)
        (add_vertex-IsWellFormed new_forest (new_forest-IsWellFormed block_vertex) parent) child)
      stray

strayed-IsLevelled : IsLevelled block_vertex strayed.bc.forest
unfolding new_forest add_vertex get_or_create_vertex_container register_with_parent
    is_empty_container get_vertex has_vertex sub
strayed-IsLevelled = record {
  own_level = λ i a v h e. ground (arith);
  descending = λ i v u h e. ground (arith);
}

update_notarized_chain-commit_rule_example :
    (t : Streamlet) × (update_notarized_chain strayed (view_qc child) ≡ ok (t, true))
    × (t.notarized_chain ≡ (parent ∷ []) ∷ (stray ∷ []) ∷ (child ∷ []) ∷ [])
    × (commit_rule t ≡ some stray)
    × (¬ IsAncestor t.bc stray child)
unfolding new_streamlet new_blockchain new_forest add_vertex get_block_by_id get_vertex has_vertex
    get_or_create_vertex_container register_with_parent is_empty_container add
update_notarized_chain-commit_rule_example =
    update_notarized_chain-commit_rule strayed (view_qc child) [] parent stray child
      strayed-IsWellFormed strayed-IsLevelled refl refl refl (λ e. cc) (omega arith) refl refl

child-IsProposal : (chain : List (List Block)) → IsProposal (replica_with parent chain) child parent
unfolding new_streamlet new_blockchain new_forest add_vertex get_block_by_id get_vertex has_vertex
    get_or_create_vertex_container register_with_parent is_empty_container exists is_leader_view
    find_leader_for_view advance_view biased new_pacemaker add sub node parse_uint parse_digits
child-IsProposal chain = record { fresh = refl; timely = refl; extends = refl; elected = refl }

process_block_panic_example :
    process_block view_env 5 (replica_with parent []) child ≡ panic index_out_of_range
unfolding new_streamlet check_proposer list_beq biased
process_block_panic_example =
    process_block_panic view_env 4 (replica_with parent []) child parent true (child-IsProposal [])
      refl refl first_qc refl refl

stored-IsWellFormed : IsWellFormed block_vertex (replica_with parent []).bc.forest
unfolding new_streamlet new_blockchain
stored-IsWellFormed =
    add_vertex-IsWellFormed new_forest (new_forest-IsWellFormed block_vertex) parent

process_block_again_example :
    let s = replica_with parent ((stray ∷ []) ∷ []) in
    (t : Streamlet) × (process_block view_env 5 s child ≡ ok (t, none))
    × (t.bc.quorum ≡ s.bc.quorum)
    × (t.buffered_blocks 7 ≡ some child)
    × (process_block view_env 9 t child ≡ ok (t, none))
unfolding new_streamlet check_proposer list_beq biased tail_level has_id get_notarized_height
    new_blockchain new_forest add_vertex get_or_create_vertex_container register_with_parent
    is_empty_container
process_block_again_example =
    process_block_again view_env 4 (replica_with parent ((stray ∷ []) ∷ [])) child parent true
      (child-IsProposal ((stray ∷ []) ∷ [])) refl refl first_qc refl (stray ∷ []) 8 refl refl
      stored-IsWellFormed (omega arith)

abbrev middle : Block
middle = view_block 2 7 10

abbrev top : Block
top = view_block 3 10 11

update_notarized_chain_on_tail_example :
    (t : Streamlet) × (update_notarized_chain
        (replica_with top ((parent ∷ []) ∷ (middle ∷ []) ∷ []))
        (view_qc top)
      ≡ ok (t, true))
    × (t.notarized_chain ≡ (parent ∷ []) ∷ (middle ∷ []) ∷ (top ∷ []) ∷ [])
    × ((d : Block)
        → (commit_rule t ≡ some d)
          ↔ ((d ≡ middle) × IsPreceded ((parent ∷ []) ∷ []) middle × (add 2 1 ≡ 3)))
unfolding new_streamlet new_blockchain new_forest add_vertex get_block_by_id get_vertex has_vertex
    get_or_create_vertex_container register_with_parent is_empty_container
update_notarized_chain_on_tail_example =
    update_notarized_chain_on_tail (replica_with top ((parent ∷ []) ∷ (middle ∷ []) ∷ []))
      (view_qc top) ((parent ∷ []) ∷ []) middle top refl refl refl
