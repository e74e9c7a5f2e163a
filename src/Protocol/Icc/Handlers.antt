-- ===== src/Protocol/Icc/Handlers.antt =====
-- protocol/icc_actually.go: `ProcessFinalizationShare`, `ProcessNotarizationShare`, `ProcessBlock` and
-- `MakeProposal`. A handler calls the others as the source does; the fuel is that of `TryToShip`.
use banyan.Base.{
  ℕ, ◌+◌, Option, none, some, Bool, true, not, ◌&&◌, ◌==◌, slt, if◌then◌else◌, update, Word, Bytes,
  add, Outcome, ok, ◌>>=◌, bytes_eq,
}
use banyan.Crypto.{Identifier, pub_verify}
use banyan.Election.{is_leader}
use banyan.LocalTimeout.{height_increased}
use banyan.Chain.{Block, exists, add_block, make_block}
use banyan.Shares.{NotarizationShare, FinalizationShare, make_nshare, make_fshare, n_add, f_add}
use banyan.Protocol.Safety.{Safety}
use banyan.Protocol.Common.{Env, block, notarization, finalization, contains, check_signature}
use banyan.Protocol.Icc.Defs.{Icc, broadcast}
use banyan.Protocol.Icc.Ship.{try_to_ship}

pub data BlockError : Type 0 where
  invalid_leader : BlockError

-- Whether the only notarization share sent for the height was for this block, and no
-- finalization share was sent.
unfoldable pub may_finalize : Icc → Word → Identifier → Bool
may_finalize s height id =
    not (s.sent_fshare height) && (s.sent_nshares_no height == 1 && s.sent_nshare_id height == id)

-- The block of a share is notarized: the head moves up to it.
unfoldable pub raise_head : Icc → Word → Identifier → Icc
raise_head s height id =
    if slt s.head_height height
    then record s { head_height = height; head_id = id; lt = height_increased s.lt (add height 1) }
    else s

-- The block is echoed once, if it is above the head, and stored.
unfoldable pub accept_block : Icc → Block → Icc
accept_block s b =
    let s' : Icc =
      if not (s.echoed_block b.id) && slt s.head_height b.height
      then broadcast (record s { echoed_block = update s.echoed_block b.id true }) (block b)
      else s in
    record s' { bc = add_block s'.bc b }

module _ (env : Env) (fuel : ℕ) where
  -- `isFinalized[id] = struct{}{}` and `TryToShip(id)`.
  unfoldable pub finalize : Icc → Identifier → Outcome Icc
  finalize s id =
      try_to_ship env fuel (record s { is_finalized = update s.is_finalized id true }) id

  unfoldable pub count_finalization_share : Icc → FinalizationShare → Outcome Icc
  count_finalization_share s fs =
      let (bag, built) = f_add s.fshares_bag fs in
      let s' : Icc = record s { fshares_bag = bag } in
      if built then finalize s' fs.block_id else ok s'

  unfoldable pub process_finalization_share : Icc → FinalizationShare → Outcome Icc
  process_finalization_share s fs =
      if s.is_finalized fs.block_id
      then ok s
      else (check_signature env.crypto s.id fs.signature fs.block_id fs.voter >>= λ valid.
          if valid then count_finalization_share s fs else ok s)

  -- Signs a finalization share, notes it for the height, broadcasts and processes it.
  unfoldable pub send_finalization_share : Icc → Word → Word → Identifier → Outcome Icc
  send_finalization_share s height rank id = make_fshare env.crypto height rank s.id id >>= λ share.
      process_finalization_share
        (broadcast (record s { sent_fshare = update s.sent_fshare height true })
          (finalization share))
        share

  -- The branch of a share that makes its block notarized.
  unfoldable pub notarize : Icc → NotarizationShare → Outcome Icc
  notarize s ns =
      let s' =
        raise_head (record s { is_notarized = update s.is_notarized ns.block_id true }) ns.height
          ns.block_id in
      if may_finalize s' ns.height ns.block_id
      then send_finalization_share s' ns.height ns.rank ns.block_id
      else ok s'

  unfoldable pub count_notarization_share : Icc → NotarizationShare → Outcome Icc
  count_notarization_share s ns =
      let (bag, built) = n_add s.nshares_bag ns in
      let s' : Icc = record s { nshares_bag = bag } in if built then notarize s' ns else ok s'

  unfoldable pub process_notarization_share : Icc → NotarizationShare → Outcome Icc
  process_notarization_share s ns =
      if s.is_notarized ns.block_id
      then ok s
      else (check_signature env.crypto s.id ns.signature ns.block_id ns.voter >>= λ valid.
          if valid then count_notarization_share s ns else ok s)

  -- Signs a notarization share, counts it for the height, broadcasts and processes it.
  unfoldable pub send_notarization_share : Icc → Block → Outcome Icc
  send_notarization_share s b = make_nshare env.crypto b.height b.rank s.id b.id >>= λ share.
      process_notarization_share
        (broadcast
          (record s {
            sent_nshares_no = update s.sent_nshares_no b.height (s.sent_nshares_no b.height + 1);
            sent_nshare_id = update s.sent_nshare_id b.height b.id;
          })
          (notarization share))
        share

  -- "should I send a notarization share?"
  unfoldable pub vote_block : Icc → Block → Outcome Icc
  vote_block s b = if slt s.head_height b.height then send_notarization_share s b else ok s

  -- "should I send a finalization share?"
  unfoldable pub finalize_block : Icc → Block → Outcome Icc
  finalize_block s b =
      if s.is_notarized b.id && may_finalize s b.height b.id
      then send_finalization_share s b.height b.rank b.id
      else ok s

  -- The result of verifying the block's signature is only logged.
  unfoldable pub check_proposer : Icc → Block → Outcome Bool
  check_proposer s b =
      if bytes_eq.beq b.proposer s.id
      then ok true
      else pub_verify env.crypto b.sig b.id b.proposer >>= λ _. ok true

  -- What follows the storing of the block.
  unfoldable pub settle_block : Icc → Block → Outcome Icc
  settle_block s b =
      (if contains s.ship_queue b.id then try_to_ship env fuel s b.id else ok s) >>= λ t.
      vote_block t b >>= λ u. finalize_block u b

  unfoldable pub process_block : Icc → Block → Outcome (Icc × Option BlockError)
  process_block s b =
      if exists s.bc b.id
      then ok (s, none)
      else if not (is_leader s.election b.proposer b.height b.rank)
      then ok (s, some invalid_leader)
      else (check_proposer s b >>= λ _. settle_block (accept_block s b) b >>= λ w. ok (w, none))

  -- `payload` holds the bytes drawn for the block.
  unfoldable pub make_proposal : Icc → Word → Word → Bytes → Outcome Block
  make_proposal s height rank payload =
      make_block env.crypto env.hash_block height rank s.head_id s.id payload

  instance abbrev pub icc_safety : Safety Icc
  icc_safety = record {
    process_block = λ s b. process_block s b >>= λ r. ok r.0;
    process_notarization_share = process_notarization_share;
    process_finalization_share = process_finalization_share;
    make_proposal = make_proposal;
    broadcast = broadcast;
    node_id = λ s. s.id;
    election = λ s. s.election;
    lt = λ s. s.lt;
    set_lt = λ s lt. record s { lt = lt };
    committed_blocks = λ s. s.committed_blocks;
  }
