-- ===== src/Protocol/Banyan/Lost/Runs.antt =====
-- protocol/banyan.go: blocks that are final and neither queued nor just shipped, through the handlers
-- and through sequences of messages.
use banyan.Base.{
  ℕ, ◌≢◌, refl, inl, inr, List, [], ◌∷◌, true, not, ◌&&◌, ◌==◌, slt, if◌then◌else◌, update, arith,
  Word, minus_one, ok, bytes_eq, Returns, Returns-then, Returns-bind, Returns-if, Bool-cases,
}
use banyan.Crypto.{Identifier}
use banyan.Chain.{Block}
use banyan.Shares.{NotarizationShare, FinalizationShare, make_nshare, make_fshare, b_add, f_add}
use banyan.Protocol.Safety.{handle_event, handle_events}
use banyan.Protocol.Common.{Message, block, notarization, finalization, Env}
use banyan.Protocol.Banyan.Rules.{
  process_finalization_share_rule, process_notarization_share_rule, process_block_rule,
  settle_block_rule, vote_block_rule, finalize_block_rule,
}
use banyan.Protocol.Banyan.{
  Banyan, finalize, count_finalization_share, process_finalization_share, send_finalization_share,
  may_finalize, raise_head, notarize, count_notarization_share, process_notarization_share,
  send_notarization_share, accept_block, process_block, banyan_safety,
}
use banyan.Protocol.Banyan.Lost.{IsLost, contains-ne, try_to_ship-IsLost, IsLost-same, fresh-other}

module _ (env : Env) (id : Identifier) where
  module _ (fuel : ℕ) where
    finalize-IsLost :
        (s : Banyan) (x : Identifier)
        → x ≢ id
        → IsLost id s
        → Returns (IsLost id) (finalize env fuel s x)
    unfolding finalize
    finalize-IsLost s x other lost =
        try_to_ship-IsLost env id fuel (record s { is_finalized = update s.is_finalized x true }) x
          other
          (record {
            finalized = ground (arith, lost.finalized);
            unqueued = lost.unqueued;
            unshipped = lost.unshipped;
          })

    count_finalization_share-IsLost :
        (s : Banyan) (fs : FinalizationShare)
        → fs.block_id ≢ id
        → IsLost id s
        → Returns (IsLost id) (count_finalization_share env fuel s fs)
    unfolding count_finalization_share
    count_finalization_share-IsLost s fs other lost =
        Returns-if (IsLost id) (f_add s.fshares_bag fs).1 _ (ok _)
          (λ _. finalize-IsLost _ fs.block_id other (IsLost-same env id s _ refl refl refl lost))
          (λ _. IsLost-same env id s _ refl refl refl lost)

    process_finalization_share-IsLost :
        (s : Banyan) (fs : FinalizationShare)
        → IsLost id s
        → Returns (IsLost id) (process_finalization_share env fuel s fs)
    process_finalization_share-IsLost s fs lost =
        process_finalization_share_rule env fuel (IsLost id) s fs lost (λ fresh.
          count_finalization_share-IsLost s fs (fresh-other env id s fs.block_id lost fresh) lost)

    send_finalization_share-IsLost :
        (s : Banyan) (height rank : Word) (x : Identifier)
        → IsLost id s
        → Returns (IsLost id) (send_finalization_share env fuel s height rank x)
    unfolding send_finalization_share
    send_finalization_share-IsLost s height rank x lost =
        Returns-then (IsLost id) (make_fshare env.crypto height rank s.id x) _ (λ share _.
          process_finalization_share-IsLost _ share (IsLost-same env id s _ refl refl refl lost))

    raise_head-IsLost :
        (s : Banyan) (height : Word) (x : Identifier)
        → IsLost id s
        → IsLost id (raise_head s height x)
    unfolding raise_head
    raise_head-IsLost s height x lost = elim (Bool-cases (slt s.head_height height)) [
      | inl h ↦ rw h (IsLost-same env id s _ refl refl refl lost)
      | inr h ↦ rw h lost
    ]

    notarize-IsLost :
        (s : Banyan) (ns : NotarizationShare)
        → IsLost id s
        → Returns (IsLost id) (notarize env fuel s ns)
    unfolding notarize
    notarize-IsLost s ns lost =
        let marked = record s { is_notarized = update s.is_notarized ns.block_id true } in
        let raised = raise_head marked ns.height ns.block_id in
        let kept =
          raise_head-IsLost marked ns.height ns.block_id
            (IsLost-same env id s _ refl refl refl lost) in
        Returns-if (IsLost id) (may_finalize raised ns.height ns.block_id) _ (ok raised)
          (λ _. send_finalization_share-IsLost raised ns.height ns.rank ns.block_id kept)
          (λ _. kept)

    count_notarization_share-IsLost :
        (s : Banyan) (ns : NotarizationShare)
        → ns.block_id ≢ id
        → IsLost id s
        → Returns (IsLost id) (count_notarization_share env fuel s ns)
    unfolding count_notarization_share
    count_notarization_share-IsLost s ns other lost =
        let counted = record s { nshares_bag_banyan = (b_add s.nshares_bag_banyan ns).0 } in
        let kept = IsLost-same env id s counted refl refl refl lost in
        Returns-bind (IsLost id) (IsLost id)
          (if not (s.is_notarized ns.block_id) && (b_add s.nshares_bag_banyan ns).1.0
            then notarize env fuel counted ns
            else ok counted)
          _
          (Returns-if (IsLost id) _ _ (ok counted) (λ _. notarize-IsLost counted ns kept)
            (λ _. kept))
          (λ t kept'.
            Returns-if (IsLost id) (b_add s.nshares_bag_banyan ns).1.1 _ (ok t)
              (λ _. finalize-IsLost t ns.block_id other kept') (λ _. kept'))

    process_notarization_share-IsLost :
        (s : Banyan) (ns : NotarizationShare)
        → IsLost id s
        → Returns (IsLost id) (process_notarization_share env fuel s ns)
    process_notarization_share-IsLost s ns lost =
        process_notarization_share_rule env fuel (IsLost id) s ns lost (λ fresh _.
          count_notarization_share-IsLost s ns (fresh-other env id s ns.block_id lost fresh) lost)

    send_notarization_share-IsLost :
        (s : Banyan) (b : Block)
        → IsLost id s
        → Returns (IsLost id) (send_notarization_share env fuel s b)
    unfolding send_notarization_share
    send_notarization_share-IsLost s b lost =
        Returns-then (IsLost id)
          (make_nshare env.crypto b.height
            (if b.rank == 0 && s.sent_nshares_no b.height == 0 then minus_one else b.rank) s.id
            b.id)
          _
          (λ share _.
            process_notarization_share-IsLost _ share (IsLost-same env id s _ refl refl refl lost))

    accept_block-IsLost : (s : Banyan) (b : Block) → IsLost id s → IsLost id (accept_block s b)
    unfolding accept_block
    accept_block-IsLost s b lost =
        elim (Bool-cases (not (s.echoed_block b.id) && slt s.head_height b.height)) [
          | inl h ↦ rw h (IsLost-same env id s _ refl refl refl lost)
          | inr h ↦ rw h (IsLost-same env id s _ refl refl refl lost)
        ]

    process_block-IsLost :
        (s : Banyan) (b : Block)
        → IsLost id s
        → Returns (λ r. IsLost id r.0) (process_block env fuel s b)
    process_block-IsLost s b lost = process_block_rule env fuel (IsLost id) s b lost (λ _ _.
        let t = accept_block s b in
        let kept = accept_block-IsLost s b lost in
        settle_block_rule env fuel (IsLost id) t b kept
          (λ queued.
            try_to_ship-IsLost env id fuel t b.id
              (contains-ne t.ship_queue b.id id kept.unqueued queued) kept)
          (λ u kept_u.
            vote_block_rule env fuel (IsLost id) u b kept_u
              (λ _ _. send_notarization_share-IsLost u b kept_u))
          (λ u kept_u.
            finalize_block_rule env fuel (IsLost id) u b kept_u
              (λ _ _. send_finalization_share-IsLost u b.height b.rank b.id kept_u)))

    handle_event-IsLost :
        (s : Banyan) (m : Message)
        → IsLost id s
        → Returns (IsLost id) (handle_event (banyan_safety env fuel) s m)
    unfolding handle_event
    handle_event-IsLost s (block b) lost =
        Returns-bind (λ r. IsLost id r.0) (IsLost id) (process_block env fuel s b) _
          (process_block-IsLost s b lost) (λ r kept. kept)
    handle_event-IsLost s (notarization ns) lost = process_notarization_share-IsLost s ns lost
    handle_event-IsLost s (finalization fs) lost = process_finalization_share-IsLost s fs lost

    -- A block that is finalized, not queued and not the block last shipped stays so through any
    -- blocks and shares that a replica takes in.
    pub handle_events-IsLost :
        (s : Banyan) (events : List Message)
        → IsLost id s
        → Returns (IsLost id) (handle_events (banyan_safety env fuel) s events)
    unfolding handle_events handle_event
    handle_events-IsLost s [] lost = lost
    handle_events-IsLost s (m ∷ ms) lost =
        Returns-bind (IsLost id) (IsLost id) (handle_event (banyan_safety env fuel) s m) _
          (handle_event-IsLost s m lost) (λ t kept. handle_events-IsLost t ms kept)
