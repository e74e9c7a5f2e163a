-- ===== src/Protocol/HotStuff/Defs.antt =====
-- protocol/hotstuff.go: the state of the protocol and its rules. Each lock is held for one read or
-- one write.
use banyan.Base.{
  ℕ, List, [], Option, none, some, Bool, true, false, not, ◌&&◌, ◌||◌, ◌==◌, slt, sle, add,
  if◌then◌else◌, Word,
}
use banyan.Identity.{NodeId}
use banyan.Crypto.{Identifier}
use banyan.Election.{Rotation}
use banyan.View.{
  Block, BlockChain, new_blockchain, get_block_by_id, get_parent_block, Qc, Pacemaker,
}
use banyan.Protocol.Views.{ViewMessage}

pub record HotStuff : Type 0 where
  pub id : NodeId
  pub election : Rotation
  pub pm : Pacemaker
  pub last_voted_view : Word
  pub preferred_view : Word
  pub high_qc : Qc
  pub bc : BlockChain
  pub buffered_qcs : Identifier → Option Qc
  pub buffered_blocks : Word → Option Block
  pub echoed_block : Identifier → Bool
  pub sent : List ViewMessage
  pub committed_blocks : List Block
  pub forked_blocks : List Block

-- The zero value of `QC`.
abbrev pub zero_qc : Qc
zero_qc = record { leader = []; view = 0; block_id = 0; signers = []; agg_sig = []; signature = [] }

-- `config_n` is the N of the configuration.
unfoldable pub new_hotstuff : NodeId → Pacemaker → Rotation → ℕ → HotStuff
new_hotstuff node pm elec config_n = record {
  id = node;
  election = elec;
  pm = pm;
  last_voted_view = 0;
  preferred_view = 0;
  high_qc = zero_qc;
  bc = new_blockchain config_n;
  buffered_qcs = λ _. none;
  buffered_blocks = λ _. none;
  echoed_block = λ _. false;
  sent = [];
  committed_blocks = [];
  forked_blocks = [];
}

unfoldable pub update_high_qc : HotStuff → Qc → HotStuff
update_high_qc s qc = if slt s.high_qc.view qc.view then record s { high_qc = qc } else s

-- `none` is an error.
unfoldable pub update_preferred_view : HotStuff → Qc → Option HotStuff
update_preferred_view s qc = elim (sle qc.view 2) [
  | true ↦ some s
  | false ↦ elim (get_block_by_id s.bc qc.block_id) [
    | none ↦ none
    | some _ ↦ elim (get_parent_block s.bc qc.block_id) [
      | none ↦ none
      | some g ↦
          some (if slt s.preferred_view g.view then record s { preferred_view = g.view } else s)
    ]
  ]
]

-- `none` is an error; nothing in the source calls it.
unfoldable pub update_last_voted_view : HotStuff → Word → Option HotStuff
update_last_voted_view s view =
    if slt view s.last_voted_view then none else some (record s { last_voted_view = view })

-- The block to commit: the first of three in consecutive views, the last certified. An error is the
-- same as no block, since its caller ignores it.
unfoldable pub commit_rule : HotStuff → Qc → Option Block
commit_rule s qc = elim (get_parent_block s.bc qc.block_id) [
  | none ↦ none
  | some p ↦ elim (get_parent_block s.bc p.id) [
    | none ↦ none
    | some g ↦ if (add g.view 1 == p.view) && (add p.view 1 == qc.view) then some g else none
  ]
]

-- Whether to vote for the block; `none` is an error.
unfoldable pub voting_rule : HotStuff → Block → Option Bool
voting_rule s b = elim (sle b.view 2) [
  | true ↦ some true
  | false ↦ elim (get_parent_block s.bc b.id) [
    | none ↦ none
    | some p ↦ some (not (sle b.view s.last_voted_view || slt p.view s.preferred_view))
  ]
]
