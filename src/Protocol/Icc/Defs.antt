-- ===== src/Protocol/Icc/Defs.antt =====
-- protocol/icc_actually.go: the state of the protocol.
use banyan.Base.{ℕ, List, [], ◌∷◌, ◌++◌, Bool, false, Word}
use banyan.Identity.{NodeId}
use banyan.Crypto.{Identifier}
use banyan.Election.{Rotation}
use banyan.LocalTimeout.{LocalTimeout}
use banyan.Chain.{Block, BlockChain, new_blockchain}
use banyan.Shares.{NSharesBag, FSharesBag, new_nshares_bag, new_fshares_bag}
use banyan.Protocol.Common.{Env, Message}

-- `Icc`. `id` is what `Node.ID()` returns; the last three fields are what the replica has
-- broadcast and put into its two channels, the oldest first.
pub record Icc : Type 0 where
  pub id : NodeId
  pub election : Rotation
  pub bc : BlockChain
  pub lt : LocalTimeout
  pub nshares_bag : NSharesBag
  pub fshares_bag : FSharesBag
  pub head_height : Word
  pub head_id : Identifier
  pub sent_nshares_no : Word → ℕ
  pub sent_nshare_id : Word → Identifier
  pub sent_fshare : Word → Bool
  pub is_notarized : Identifier → Bool
  pub is_finalized : Identifier → Bool
  pub last_shipped_block : Identifier
  pub ship_queue : List Identifier
  pub echoed_block : Identifier → Bool
  pub sent : List Message
  pub committed_blocks : List Block
  pub forked_blocks : List Block

-- `config_n` is the N of the configuration.
unfoldable pub new_icc : Env → NodeId → Rotation → LocalTimeout → ℕ → Icc
new_icc env node elec lt config_n = record {
  id = node;
  election = elec;
  bc = new_blockchain;
  lt = lt;
  nshares_bag = new_nshares_bag config_n;
  fshares_bag = new_fshares_bag config_n;
  head_height = 0;
  head_id = env.genesis;
  sent_nshares_no = λ _. 0;
  sent_nshare_id = λ _. 0;
  sent_fshare = λ _. false;
  is_notarized = λ _. false;
  is_finalized = λ _. false;
  last_shipped_block = env.genesis;
  ship_queue = [];
  echoed_block = λ _. false;
  sent = [];
  committed_blocks = [];
  forked_blocks = [];
}

abbrev pub broadcast : Icc → Message → Icc
broadcast s m = record s { sent = s.sent ++ m ∷ [] }
