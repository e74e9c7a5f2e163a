-- ===== src/Protocol/Banyan/Exclusive/Runs.antt =====
-- protocol/banyan.go: the votes of a replica on a height, through the handlers and through sequences
-- of messages.
use banyan.Base.{
  ℕ, ◌+◌, ◌≤◌, ◌≡◌, subst, inl, inr, List, [], ◌∷◌, true, not, ◌&&◌, ◌==◌, slt, biased,
  if◌then◌else◌, update, Word, minus_one, ok, Returns, Returns-bind, Returns-at, Returns-then,
  Returns-if, Bool-cases, In, All,
}
use banyan.Identity.{NodeId}
use banyan.Crypto.{Identifier}
use banyan.Election.{Rotation}
use banyan.LocalTimeout.{LocalTimeout}
use banyan.Chain.{Block}
use banyan.Shares.{NotarizationShare, FinalizationShare, make_nshare, make_fshare, b_add, f_add}
use banyan.Protocol.Safety.{handle_event, handle_events}
use banyan.Protocol.Common.{Env, Message, block, notarization, finalization}
use banyan.Protocol.Banyan.Rules.{
  process_finalization_share_rule, process_notarization_share_rule, vote_block_rule,
  finalize_block_rule, settle_block_rule, process_block_rule,
}
use banyan.Protocol.Banyan.{
  Banyan, new_banyan, broadcast, finalize, count_finalization_share, process_finalization_share,
  send_finalization_share, may_finalize, raise_head, notarize, count_notarization_share,
  process_notarization_share, send_notarization_share, accept_block, finalize_block, process_block,
  banyan_safety,
}
use banyan.Shares.Made.{make_nshare-ok, make_fshare-ok}
use banyan.Protocol.Exclusive.{Agrees, same_height, block-Exclusive}
use banyan.Protocol.Banyan.Exclusive.{
  IsExclusive, try_to_ship-IsExclusive, raise_head-IsExclusive, finals-IsExclusive,
  votes-IsExclusive,
}

pair_eq : {a b c d : ℕ} → a ≡ b → c ≡ d → Path (ℕ × ℕ) (a, c) (b, d)
pair_eq h k = cc

module _ (env : Env) (height_of : Identifier → Word) where
  module _ (fuel : ℕ) where
    finalize-IsExclusive :
        (s : Banyan) (id : Identifier)
        → IsExclusive height_of s
        → Returns (IsExclusive height_of) (finalize env fuel s id)
    unfolding finalize
    finalize-IsExclusive s id e =
        try_to_ship-IsExclusive env height_of fuel
          (record s { is_finalized = update s.is_finalized id true }) id e

    process_finalization_share-IsExclusive :
        (s : Banyan) (fs : FinalizationShare)
        → IsExclusive height_of s
        → Returns (IsExclusive height_of) (process_finalization_share env fuel s fs)
    unfolding count_finalization_share
    process_finalization_share-IsExclusive s fs e =
        process_finalization_share_rule env fuel (IsExclusive height_of) s fs e (λ _.
          Returns-if (IsExclusive height_of) (f_add s.fshares_bag fs).1 _ (ok _)
            (λ _.
              finalize-IsExclusive (record s { fshares_bag = (f_add s.fshares_bag fs).0 })
                fs.block_id e)
            (λ _. e))

    send_finalization_share-IsExclusive :
        (s : Banyan) (height rank : Word) (id : Identifier)
        → may_finalize s height id ≡ true
        → biased height ≤ biased s.head_height
        → IsExclusive height_of s
        → Returns (IsExclusive height_of) (send_finalization_share env fuel s height rank id)
    unfolding send_finalization_share
    send_finalization_share-IsExclusive s height rank id may below e =
        Returns-then (IsExclusive height_of) (make_fshare env.crypto height rank s.id id) _
          (λ share made.
            let (h, i, voter) = make_fshare-ok env.crypto height rank s.id id share made in
            process_finalization_share-IsExclusive _ share (
              subst
                (λ k. IsExclusive height_of (
                  broadcast (record s { sent_fshare = update s.sent_fshare k true })
                    (finalization share)))
                h (finals-IsExclusive env height_of s share (rw (h, i) may) (rw h below) e)))

    notarize-IsExclusive :
        (s : Banyan) (ns : NotarizationShare)
        → height_of ns.block_id ≡ ns.height
        → IsExclusive height_of s
        → Returns (IsExclusive height_of) (notarize env fuel s ns)
    unfolding notarize
    notarize-IsExclusive s ns agree e =
        let marked = record s { is_notarized = update s.is_notarized ns.block_id true } in
        let raised = raise_head marked ns.height ns.block_id in
        let (kept, below) = raise_head-IsExclusive env height_of s ns.height ns.block_id agree e in
        Returns-if (IsExclusive height_of) (may_finalize raised ns.height ns.block_id) _ (ok raised)
          (λ may.
            send_finalization_share-IsExclusive raised ns.height ns.rank ns.block_id may below kept)
          (λ _. kept)

    count_notarization_share-IsExclusive :
        (s : Banyan) (ns : NotarizationShare)
        → height_of ns.block_id ≡ ns.height
        → IsExclusive height_of s
        → Returns (IsExclusive height_of) (count_notarization_share env fuel s ns)
    unfolding count_notarization_share
    count_notarization_share-IsExclusive s ns agree e =
        let counted = record s { nshares_bag_banyan = (b_add s.nshares_bag_banyan ns).0 } in
        Returns-bind (IsExclusive height_of) (IsExclusive height_of)
          (if not (s.is_notarized ns.block_id) && (b_add s.nshares_bag_banyan ns).1.0
            then notarize env fuel counted ns
            else ok counted)
          _
          (Returns-if (IsExclusive height_of) _ _ (ok counted)
            (λ _. notarize-IsExclusive counted ns agree e) (λ _. e))
          (λ t kept.
            Returns-if (IsExclusive height_of) (b_add s.nshares_bag_banyan ns).1.1 _ (ok t)
              (λ _. finalize-IsExclusive t ns.block_id kept) (λ _. kept))

    process_notarization_share-IsExclusive :
        (s : Banyan) (ns : NotarizationShare)
        → height_of ns.block_id ≡ ns.height
        → IsExclusive height_of s
        → Returns (IsExclusive height_of) (process_notarization_share env fuel s ns)
    process_notarization_share-IsExclusive s ns agree e =
        process_notarization_share_rule env fuel (IsExclusive height_of) s ns e
          (λ _ _. count_notarization_share-IsExclusive s ns agree e)

    send_notarization_share-IsExclusive :
        (s : Banyan) (b : Block)
        → height_of b.id ≡ b.height
        → slt s.head_height b.height ≡ true
        → IsExclusive height_of s
        → Returns (IsExclusive height_of) (send_notarization_share env fuel s b)
    unfolding send_notarization_share
    send_notarization_share-IsExclusive s b agree above e =
        Returns-then (IsExclusive height_of)
          (make_nshare env.crypto b.height
            (if b.rank == 0 && s.sent_nshares_no b.height == 0 then minus_one else b.rank) s.id
            b.id)
          _
          (λ share made.
            let (h, i, voter) = make_nshare-ok env.crypto b.height _ s.id b.id share made in
            process_notarization_share-IsExclusive _ share (rw (h, i) agree) (
              subst
                (λ k. IsExclusive height_of (
                  broadcast
                    (record s {
                      sent_nshares_no = update s.sent_nshares_no k.0 (s.sent_nshares_no k.0 + 1);
                      sent_n_rank = update s.sent_n_rank k.0 b.rank;
                      sent_nshare_id = update s.sent_nshare_id k.0 k.1;
                    })
                    (notarization share)))
                (pair_eq h i) (votes-IsExclusive env height_of s share b.rank (rw h above) e)))

    -- A block is broadcast.
    pub block_sent-IsExclusive :
        (s : Banyan) (b : Block)
        → IsExclusive height_of s
        → IsExclusive height_of (broadcast s (block b))
    block_sent-IsExclusive s b e =
        block-Exclusive height_of s.head_height s.is_notarized s.sent_nshares_no s.sent_nshare_id
          s.sent_fshare s.sent e b

    accept_block-IsExclusive :
        (s : Banyan) (b : Block)
        → IsExclusive height_of s
        → IsExclusive height_of (accept_block s b)
    unfolding accept_block
    accept_block-IsExclusive s b e =
        elim (Bool-cases (not (s.echoed_block b.id) && slt s.head_height b.height)) [
          | inr h ↦ rw h e
          | inl h ↦ rw h (block_sent-IsExclusive s b e)
        ]

    finalize_block-IsExclusive :
        (s : Banyan) (b : Block)
        → height_of b.id ≡ b.height
        → IsExclusive height_of s
        → Returns (IsExclusive height_of) (finalize_block env fuel s b)
    finalize_block-IsExclusive s b agree e =
        finalize_block_rule env fuel (IsExclusive height_of) s b e (λ notarized may.
          send_finalization_share-IsExclusive s b.height b.rank b.id may
            (subst (λ h. biased h ≤ biased s.head_height) agree (e.notarized_below b.id notarized))
            e)

    process_block-IsExclusive :
        (s : Banyan) (b : Block)
        → height_of b.id ≡ b.height
        → IsExclusive height_of s
        → Returns (λ r. IsExclusive height_of r.0) (process_block env fuel s b)
    process_block-IsExclusive s b agree e =
        process_block_rule env fuel (IsExclusive height_of) s b e (λ _ _.
          let t = accept_block s b in
          let kept = accept_block-IsExclusive s b e in
          settle_block_rule env fuel (IsExclusive height_of) t b kept
            (λ _. try_to_ship-IsExclusive env height_of fuel t b.id kept)
            (λ u kept_u.
              vote_block_rule env fuel (IsExclusive height_of) u b kept_u
                (λ above _. send_notarization_share-IsExclusive u b agree above kept_u))
            (λ u kept_u. finalize_block-IsExclusive u b agree kept_u))

    pub handle_event-IsExclusive :
        (s : Banyan) (m : Message)
        → Agrees height_of m
        → IsExclusive height_of s
        → Returns (IsExclusive height_of) (handle_event (banyan_safety env fuel) s m)
    unfolding handle_event
    handle_event-IsExclusive s (block b) agree e =
        Returns-bind (λ r. IsExclusive height_of r.0) (IsExclusive height_of)
          (process_block env fuel s b) _ (process_block-IsExclusive s b agree e) (λ r kept. kept)
    handle_event-IsExclusive s (notarization ns) agree e =
        process_notarization_share-IsExclusive s ns agree e
    handle_event-IsExclusive s (finalization fs) agree e =
        process_finalization_share-IsExclusive s fs e

    pub handle_events-IsExclusive :
        (s : Banyan) (events : List Message)
        → All (Agrees height_of) events
        → IsExclusive height_of s
        → Returns (IsExclusive height_of) (handle_events (banyan_safety env fuel) s events)
    unfolding handle_events
    handle_events-IsExclusive s [] agree e = e
    handle_events-IsExclusive s (m ∷ ms) (first, rest) e =
        Returns-bind (IsExclusive height_of) (IsExclusive height_of)
          (handle_event (banyan_safety env fuel) s m) _ (handle_event-IsExclusive s m first e)
          (λ t kept. handle_events-IsExclusive t ms rest kept)

    pub new_banyan-IsExclusive :
        (node : NodeId) (elec : Rotation) (lt : LocalTimeout) (n f p : ℕ)
        → IsExclusive height_of (new_banyan env node elec lt n f p)
    unfolding new_banyan
    new_banyan-IsExclusive node elec lt n f p = record {
      notarized_below = λ id h. absurd (cc);
      single = λ h k. absurd (cc);
      votes = λ ns i. elim i [ ];
      finals = λ fs i. elim i [ ];
    }

-- A replica that starts and takes in any messages whose blocks have one height each: when it has
-- done so, a notarization share and a finalization share that it sent for one height are for one
-- block.
pub handle_events-exclusive :
    (env : Env) (height_of : Identifier → Word) (fuel : ℕ) (node : NodeId) (elec : Rotation)
    (lt : LocalTimeout) (n f p : ℕ) (events : List Message) (s : Banyan) (ns : NotarizationShare)
    (fs : FinalizationShare)
    → All (Agrees height_of) events
    → handle_events (banyan_safety env fuel) (new_banyan env node elec lt n f p) events ≡ ok s
    → In (notarization ns) s.sent
    → In (finalization fs) s.sent
    → ns.height ≡ fs.height
    → ns.block_id ≡ fs.block_id
handle_events-exclusive env height_of fuel node elec lt n f p events s ns fs agree run vote final
      same =
    same_height height_of s.head_height s.is_notarized s.sent_nshares_no s.sent_nshare_id
      s.sent_fshare s.sent
      (Returns-at (IsExclusive height_of)
        (handle_events (banyan_safety env fuel) (new_banyan env node elec lt n f p) events) s
        (handle_events-IsExclusive env height_of fuel (new_banyan env node elec lt n f p) events
          agree (new_banyan-IsExclusive env height_of fuel node elec lt n f p))
        run)
      ns fs vote final same
