-- ===== src/Protocol/Views.antt =====
-- What the protocols by views share: the code around them, what they send, and the check of a
-- certificate.
use banyan.Base.{ℕ, Bool, true, false, if◌then◌else◌, Outcome, ok, ◌>>=◌, bytes_eq}
use banyan.Identity.{NodeId}
use banyan.Crypto.{Crypto, Identifier, verified, failed, verify_quorum_signature}
use banyan.View.{Block, RawBlock, Vote, Qc, Tmo}

-- Cryptography, the hash of a block, `MakeID("Genesis block")`, and the fuel of the walks over the
-- chain.
pub record ViewEnv : Type 0 where
  pub crypto : Crypto
  pub hash_block : RawBlock → Identifier
  pub genesis : Identifier
  pub walk_fuel : ℕ

-- What a replica sends: to one node, or to all.
pub data ViewMessage : Type 0 where
  block_message : Block → ViewMessage
  vote_message : NodeId → Vote → ViewMessage
  vote_broadcast : Vote → ViewMessage
  tmo_message : Tmo → ViewMessage

-- A replica trusts its own certificates; an error is the same as an invalid one.
unfoldable pub check_certificate : Crypto → NodeId → Qc → Outcome Bool
check_certificate c self qc =
    if bytes_eq.beq qc.leader self
    then ok true
    else (verify_quorum_signature c qc.agg_sig qc.block_id qc.signers >>= λ r.
        ok (elim r [ failed ↦ false | verified valid ↦ valid ]))
