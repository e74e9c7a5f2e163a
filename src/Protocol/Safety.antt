-- ===== src/Protocol/Safety.antt =====
-- replica/safety.go: what a replica asks of a protocol by block heights.
use banyan.Base.{List, [], ◌∷◌, Bytes, Word, Outcome, ok, ◌>>=◌}
use banyan.Identity.{NodeId}
use banyan.Election.{Rotation}
use banyan.LocalTimeout.{LocalTimeout}
use banyan.Chain.{Block}
use banyan.Shares.{NotarizationShare, FinalizationShare}
use banyan.Protocol.Common.{Message, block, notarization, finalization}

-- `Safety`, with what the embedded node and election, the timer and the
-- channel of committed blocks give; a dropped block is an error of
-- `ProcessBlock`, which the replica ignores.
pub record Safety (S : Type 0) : Type 0 where
  pub process_block : S → Block → Outcome S
  pub process_notarization_share : S → NotarizationShare → Outcome S
  pub process_finalization_share : S → FinalizationShare → Outcome S
  pub make_proposal : S → Word → Word → Bytes → Outcome Block
  pub broadcast : S → Message → S
  pub node_id : S → NodeId
  pub election : S → Rotation
  pub lt : S → LocalTimeout
  pub set_lt : S → LocalTimeout → S
  pub committed_blocks : S → List Block

module _ {S : Type 0} where
  -- The body of the event loop of `Replica.Start`, for one event.
  unfoldable pub handle_event : Safety S → S → Message → Outcome S
  handle_event safety s (block b) = safety.process_block s b
  handle_event safety s (notarization ns) = safety.process_notarization_share s ns
  handle_event safety s (finalization fs) = safety.process_finalization_share s fs

  -- The loop, over the events in the order in which they are taken from the channel.
  unfoldable pub handle_events : Safety S → S → List Message → Outcome S
  handle_events safety s [] = ok s
  handle_events safety s (m ∷ ms) = handle_event safety s m >>= λ s'. handle_events safety s' ms
