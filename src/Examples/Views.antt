-- ===== src/Examples/Views.antt =====
-- A new replica of HotStuff and a first block.
use banyan.Base.{[], ◌∷◌, some}
use banyan.View.{Block, new_pacemaker}
use banyan.Protocol.Views.{ViewEnv}
use banyan.Protocol.HotStuff.{HotStuff, new_hotstuff, zero_qc}
use banyan.Examples.Setup.{toy_crypto, node_1}

abbrev pub view_env : ViewEnv
view_env = record { crypto = toy_crypto; hash_block = λ raw. raw.view; genesis = 0; walk_fuel = 10 }

abbrev pub first_block : Block
first_block = record {
  view = 1;
  qc = some zero_qc;
  proposer = node_1;
  timestamp = 0;
  payload = [];
  prev_id = 0;
  sig = [] ∷ [] ∷ [];
  id = 7;
  ts = 0;
}

abbrev pub first_replica : HotStuff
first_replica = new_hotstuff node_1 (new_pacemaker 1) (record { peer_no = 1 }) 1
