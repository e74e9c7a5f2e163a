-- ===== src/Protocol/Streamlet/Defs.antt =====
-- protocol/streamlet.go: the state of the protocol.
use banyan.Base.{ℕ, List, [], Option, none, Bool, false, Word}
use banyan.Identity.{NodeId}
use banyan.Crypto.{Identifier}
use banyan.Election.{Rotation}
use banyan.View.{Block, BlockChain, new_blockchain, Qc, Pacemaker, advance_view}
use banyan.Protocol.Views.{ViewMessage}

-- `Streamlet`. `id` is what `Node.ID()` returns; `pending_views` are the goroutines that `processTC`
-- has started and that have not run.
pub record Streamlet : Type 0 where
  pub id : NodeId
  pub election : Rotation
  pub pm : Pacemaker
  pub bc : BlockChain
  pub notarized_chain : List (List Block)
  pub buffered_blocks : Identifier → Option Block
  pub buffered_qcs : Identifier → Option Qc
  pub buffered_notarized_block : Identifier → Option Qc
  pub echoed_block : Identifier → Bool
  pub echoed_vote : Identifier → Bool
  pub sent : List ViewMessage
  pub committed_blocks : List Block
  pub forked_blocks : List Block
  pub pending_views : List Word

-- `config_n` is the N of the configuration.
unfoldable pub new_streamlet : NodeId → Pacemaker → Rotation → ℕ → Streamlet
new_streamlet node pm elec config_n = record {
  id = node;
  election = elec;
  pm = advance_view pm 0;
  bc = new_blockchain config_n;
  notarized_chain = [];
  buffered_blocks = λ _. none;
  buffered_qcs = λ _. none;
  buffered_notarized_block = λ _. none;
  echoed_block = λ _. false;
  echoed_vote = λ _. false;
  sent = [];
  committed_blocks = [];
  forked_blocks = [];
  pending_views = [];
}
