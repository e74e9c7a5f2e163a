-- ===== src/Replica/Heights/Handlers.antt =====
-- replica/replica.go with node/node.go: the handlers that a replica registers with its node.
pub mod Dispatch
use banyan.Base.{List, [], ◌∷◌, Word, bytes, Outcome, ok, panic, ◌>>=◌, explicit}
use banyan.Protocol.Common.{Message, block, notarization, finalization}
use banyan.Node.{GoType, Node, function, register}
use banyan.Replica.Heights.Defs.{Replica, handle_message, answer_query}

-- What arrives in the channel of the node: a message of the protocol from the socket, or a query from
-- the HTTP server. The word is what the clock shows when the query is answered.
pub data Packet : Type 0 where
  protocol : Message → Packet
  query : Word → Packet

abbrev pub block_type : GoType
block_type = record { path = bytes "banyan/blockchain"; text = bytes "blockchain.Block" }

abbrev pub notarization_type : GoType
notarization_type = record {
  path = bytes "banyan/blockchain";
  text = bytes "blockchain.NotarizationShare";
}

abbrev pub finalization_type : GoType
finalization_type = record {
  path = bytes "banyan/blockchain";
  text = bytes "blockchain.FinalizationShare";
}

abbrev pub query_type : GoType
query_type = record { path = bytes "banyan/message"; text = bytes "message.Query" }

abbrev pub type_of : Packet → GoType
type_of (protocol (block b)) = block_type
type_of (protocol (notarization ns)) = notarization_type
type_of (protocol (finalization fs)) = finalization_type
type_of (query now) = query_type

module _ {S : Type 0} where
  -- A handler is called by reflection, which panics on a value of another type.
  unfoldable pub on_block : Packet → Replica S → Outcome (Replica S)
  on_block (protocol (block b)) r = ok (handle_message r (block b))
  on_block (protocol (notarization ns)) r = panic explicit
  on_block (protocol (finalization fs)) r = panic explicit
  on_block (query now) r = panic explicit

  unfoldable pub on_notarization : Packet → Replica S → Outcome (Replica S)
  on_notarization (protocol (notarization ns)) r = ok (handle_message r (notarization ns))
  on_notarization (protocol (block b)) r = panic explicit
  on_notarization (protocol (finalization fs)) r = panic explicit
  on_notarization (query now) r = panic explicit

  unfoldable pub on_finalization : Packet → Replica S → Outcome (Replica S)
  on_finalization (protocol (finalization fs)) r = ok (handle_message r (finalization fs))
  on_finalization (protocol (block b)) r = panic explicit
  on_finalization (protocol (notarization ns)) r = panic explicit
  on_finalization (query now) r = panic explicit

  unfoldable pub on_query : Packet → Replica S → Outcome (Replica S)
  on_query (query now) r = answer_query now r
  on_query (protocol m) r = panic explicit

  -- The four calls of `Register` in `NewReplica`.
  unfoldable pub register_handlers : Node Packet (Replica S) → Outcome (Node Packet (Replica S))
  register_handlers n = register n block_type (function (block_type ∷ []) on_block) >>= λ n1.
      register n1 notarization_type (function (notarization_type ∷ []) on_notarization) >>= λ n2.
      register n2 finalization_type (function (finalization_type ∷ []) on_finalization) >>= λ n3.
      register n3 query_type (function (query_type ∷ []) on_query)
