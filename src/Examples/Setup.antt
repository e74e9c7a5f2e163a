-- ===== src/Examples/Setup.antt =====
-- Data for the runs: four keys whose signatures all verify, and small blocks.
use banyan.Base.{[], ◌∷◌, some, true, Word}
use banyan.Identity.{NodeId}
use banyan.Crypto.{Crypto, Identifier}
use banyan.Chain.{Block}
use banyan.Protocol.Common.{Env}

abbrev pub toy_crypto : Crypto
toy_crypto = record {
  key_count = 4;
  ecdsa_verify = λ _ _ _ _. true;
  ecdsa_sign = λ _ _. some ([], []);
  hash_bytes = λ _. 0;
}

abbrev pub toy_env : Env
toy_env = record {
  crypto = toy_crypto;
  hash_block = λ raw. raw.height;
  genesis = 0;
  order = λ ids. ids;
  walk_fuel = 10;
}

-- The node "1" and its colleagues.
abbrev pub node_1 : NodeId
node_1 = 49 ∷ []

abbrev pub node_2 : NodeId
node_2 = 50 ∷ []

abbrev pub node_3 : NodeId
node_3 = 51 ∷ []

abbrev pub node_4 : NodeId
node_4 = 52 ∷ []

abbrev pub toy_block : Word → Identifier → Identifier → Block
toy_block height prev id = record {
  height = height;
  rank = 0;
  proposer = node_1;
  timestamp = 0;
  payload = [];
  prev_id = prev;
  sig = [] ∷ [] ∷ [];
  id = id;
  ts = 0;
}
