-- ===== src/Protocol/Common.antt =====
-- What the block-height protocols share: the code around them, messages, and sets of ids.
use banyan.Base.{
  ℕ, List, [], ◌∷◌, ◌++◌, Bool, true, false, ◌==◌, if◌then◌else◌, Outcome, ok, panic, ◌>>=◌, fatal,
  bytes_eq,
}
use banyan.Identity.{NodeId}
use banyan.Crypto.{Crypto, Identifier, Signature, verified, failed, pub_verify}
use banyan.Chain.{Block, RawBlock}
use banyan.Shares.{NotarizationShare, FinalizationShare}

-- What a protocol takes from elsewhere: cryptography, the hash of a block, `MakeID("genesis")`, the
-- order in which `range` visits the keys of a map, and the fuel of the walks over the chain.
pub record Env : Type 0 where
  pub crypto : Crypto
  pub hash_block : RawBlock → Identifier
  pub genesis : Identifier
  pub order : List Identifier → List Identifier
  pub walk_fuel : ℕ

-- What a replica broadcasts.
pub data Message : Type 0 where
  block : Block → Message
  notarization : NotarizationShare → Message
  finalization : FinalizationShare → Message

-- A set of ids that is iterated: `map[Identifier]struct{}`.
unfoldable pub contains : List Identifier → Identifier → Bool
contains [] id = false
contains (x ∷ xs) id = let more = contains xs id in if x == id then true else more

unfoldable pub include : List Identifier → Identifier → List Identifier
include xs id = if contains xs id then xs else xs ++ id ∷ []

-- `delete`
unfoldable pub exclude : List Identifier → Identifier → List Identifier
exclude [] id = []
exclude (x ∷ xs) id = let more = exclude xs id in if x == id then more else x ∷ more

-- The first lines of the share handlers: a replica trusts its own shares, and drops those whose
-- signature does not verify. `false` drops.
unfoldable pub check_signature : Crypto → NodeId → Signature → Identifier → NodeId → Outcome Bool
check_signature c self sig id voter =
    if bytes_eq.beq voter self
    then ok true
    else (pub_verify c sig id voter >>= λ r. elim r [
      | failed ↦ panic fatal
      | verified valid ↦ ok valid
    ])
