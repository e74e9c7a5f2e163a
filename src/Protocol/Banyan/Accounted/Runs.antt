-- ===== src/Protocol/Banyan/Accounted/Runs.antt =====
-- protocol/banyan.go: where the shares in the bags come from, through the handlers and through
-- sequences of messages.
use banyan.Base.{
  ℕ, ◌+◌, ◌*◌, ◌<◌, ◌≡◌, refl, sym, ap, ◌∙◌, inl, inr, List, [], ◌∷◌, true, not, ◌&&◌, ◌==◌, slt,
  if◌then◌else◌, update, Word, minus_one, ok, Returns, Returns-bind, Returns-then, Returns-if,
  Bool-cases, In-append_right, All, arith,
}
use banyan.Identity.{NodeId}
use banyan.Crypto.{Identifier}
use banyan.Election.{Rotation}
use banyan.LocalTimeout.{LocalTimeout}
use banyan.Chain.{Block}
use banyan.Ballots.{ballot_count}
use banyan.Ballots.Held.{no_ballots-Held}
use banyan.Ballots.Quorum.{no_ballots-IsTally}
use banyan.Shares.{
  NotarizationShare, FinalizationShare, make_nshare, make_fshare, b_add, f_add,
  new_nshares_bag_banyan, new_fshares_bag,
}
use banyan.Shares.Quorums.{b_add-notarized}
use banyan.Protocol.Safety.{handle_event, handle_events}
use banyan.Protocol.Common.{Env, Message, block, notarization, finalization}
use banyan.Protocol.Banyan.Rules.{
  process_finalization_share_rule, process_notarization_share_rule, vote_block_rule,
  finalize_block_rule, settle_block_rule, process_block_rule,
}
use banyan.Shares.Made.{make_nshare-ok, make_fshare-ok}
use banyan.Protocol.Exclusive.{Agrees}
use banyan.Protocol.Accounted.{Known, NVote, FVote}
use banyan.Protocol.Banyan.Accounted.{
  IsAccounted, try_to_ship-IsAccounted, broadcast-IsAccounted, n_counted-IsAccounted,
  f_counted-IsAccounted, marked-IsAccounted, raise_head-IsAccounted,
}
use banyan.Protocol.Banyan.{
  Banyan, new_banyan, finalize, count_finalization_share, process_finalization_share,
  send_finalization_share, may_finalize, raise_head, notarize, count_notarization_share,
  process_notarization_share, send_notarization_share, accept_block, process_block, banyan_safety,
}

module _ (env : Env) (height_of : Identifier → Word) (got : Message → Type 0) (self : NodeId)
    (n f : ℕ) where
  abbrev Kept : Banyan → Type 0
  Kept = IsAccounted height_of got self n f

  quorum_of :
      (s : Banyan) (ns : NotarizationShare)
      → (not (s.is_notarized ns.block_id) && (b_add s.nshares_bag_banyan ns).1.0) ≡ true
      → Kept s
      → n + f < ballot_count (b_add s.nshares_bag_banyan ns).0.votes ns.block_id * 2
  quorum_of s ns c e =
      let yea : (b_add s.nshares_bag_banyan ns).1.0 ≡ true = ground arith in
      omega (arith, b_add-notarized s.nshares_bag_banyan ns yea, e.1.n_size, e.1.n_faults)

  module _ (fuel : ℕ) where
    finalize-IsAccounted :
        (s : Banyan) (id : Identifier) → Kept s → Returns Kept (finalize env fuel s id)
    unfolding finalize
    finalize-IsAccounted s id e =
        try_to_ship-IsAccounted env height_of got self n f fuel
          (record s { is_finalized = update s.is_finalized id true }) id e

    process_finalization_share-IsAccounted :
        (s : Banyan) (fs : FinalizationShare)
        → Known got s.sent (finalization fs)
        → Kept s
        → Returns Kept (process_finalization_share env fuel s fs)
    unfolding count_finalization_share
    process_finalization_share-IsAccounted s fs known e =
        process_finalization_share_rule env fuel Kept s fs e (λ _.
          let kept = f_counted-IsAccounted env height_of got self n f s fs known e in
          Returns-if Kept (f_add s.fshares_bag fs).1 _ (ok _)
            (λ _.
              finalize-IsAccounted (record s { fshares_bag = (f_add s.fshares_bag fs).0 })
                fs.block_id kept)
            (λ _. kept))

    send_finalization_share-IsAccounted :
        (s : Banyan) (height rank : Word) (id : Identifier)
        → height_of id ≡ height
        → Kept s
        → Returns Kept (send_finalization_share env fuel s height rank id)
    unfolding send_finalization_share
    send_finalization_share-IsAccounted s height rank id agree e =
        Returns-then Kept (make_fshare env.crypto height rank s.id id) _ (λ share made.
          let (h, i, named) = make_fshare-ok env.crypto height rank s.id id share made in
          let voter = named ∙ e.1.named in
          process_finalization_share-IsAccounted _ share
            (inr (In-append_right (finalization share) s.sent (finalization share ∷ []) (inl refl)))
            (broadcast-IsAccounted env height_of got self n f
              (record s { sent_fshare = update s.sent_fshare height true }) (finalization share)
              (voter, ap height_of i ∙ agree ∙ sym h) e))

    notarize-IsAccounted :
        (s : Banyan) (ns : NotarizationShare)
        → height_of ns.block_id ≡ ns.height
        → Kept (record s { is_notarized = update s.is_notarized ns.block_id true })
        → Returns Kept (notarize env fuel s ns)
    unfolding notarize
    notarize-IsAccounted s ns agree e =
        let marked = record s { is_notarized = update s.is_notarized ns.block_id true } in
        let raised = raise_head marked ns.height ns.block_id in
        let kept =
          raise_head-IsAccounted env height_of got self n f marked ns.height ns.block_id e in
        Returns-if Kept (may_finalize raised ns.height ns.block_id) _ (ok raised)
          (λ _. send_finalization_share-IsAccounted raised ns.height ns.rank ns.block_id agree kept)
          (λ _. kept)

    count_notarization_share-IsAccounted :
        (s : Banyan) (ns : NotarizationShare)
        → Known got s.sent (notarization ns)
        → height_of ns.block_id ≡ ns.height
        → Kept s
        → Returns Kept (count_notarization_share env fuel s ns)
    unfolding count_notarization_share
    count_notarization_share-IsAccounted s ns known agree e =
        let counted = record s { nshares_bag_banyan = (b_add s.nshares_bag_banyan ns).0 } in
        let kept = n_counted-IsAccounted env height_of got self n f s ns known e in
        Returns-bind Kept Kept
          (if not (s.is_notarized ns.block_id) && (b_add s.nshares_bag_banyan ns).1.0
            then notarize env fuel counted ns
            else ok counted)
          _
          (Returns-if Kept _ _ (ok counted)
            (λ c. notarize-IsAccounted counted ns agree (
              marked-IsAccounted env height_of got self n f counted ns.block_id (quorum_of s ns c e)
                kept))
            (λ _. kept))
          (λ t kept_t.
            Returns-if Kept (b_add s.nshares_bag_banyan ns).1.1 _ (ok t)
              (λ _. finalize-IsAccounted t ns.block_id kept_t) (λ _. kept_t))

    process_notarization_share-IsAccounted :
        (s : Banyan) (ns : NotarizationShare)
        → Known got s.sent (notarization ns)
        → height_of ns.block_id ≡ ns.height
        → Kept s
        → Returns Kept (process_notarization_share env fuel s ns)
    process_notarization_share-IsAccounted s ns known agree e =
        process_notarization_share_rule env fuel Kept s ns e
          (λ _ _. count_notarization_share-IsAccounted s ns known agree e)

    send_notarization_share-IsAccounted :
        (s : Banyan) (b : Block)
        → height_of b.id ≡ b.height
        → Kept s
        → Returns Kept (send_notarization_share env fuel s b)
    unfolding send_notarization_share
    send_notarization_share-IsAccounted s b agree e =
        Returns-then Kept
          (make_nshare env.crypto b.height
            (if b.rank == 0 && s.sent_nshares_no b.height == 0 then minus_one else b.rank) s.id
            b.id)
          _
          (λ share made.
            let (h, i, named) = make_nshare-ok env.crypto b.height _ s.id b.id share made in
            let voter = named ∙ e.1.named in
            let known = ap height_of i ∙ agree ∙ sym h in
            process_notarization_share-IsAccounted _ share
              (inr
                (In-append_right (notarization share) s.sent (notarization share ∷ []) (inl refl)))
              known
              (broadcast-IsAccounted env height_of got self n f
                (record s {
                  sent_nshares_no =
                      update s.sent_nshares_no b.height (s.sent_nshares_no b.height + 1);
                  sent_n_rank = update s.sent_n_rank b.height b.rank;
                  sent_nshare_id = update s.sent_nshare_id b.height b.id;
                })
                (notarization share) (voter, known) e))

    accept_block-IsAccounted : (s : Banyan) (b : Block) → Kept s → Kept (accept_block s b)
    unfolding accept_block
    accept_block-IsAccounted s b e =
        elim (Bool-cases (not (s.echoed_block b.id) && slt s.head_height b.height)) [
          | inr h ↦ rw h e
          | inl h ↦ rw h (broadcast-IsAccounted env height_of got self n f s (block b) tt e)
        ]

    process_block-IsAccounted :
        (s : Banyan) (b : Block)
        → height_of b.id ≡ b.height
        → Kept s
        → Returns (λ r. Kept r.0) (process_block env fuel s b)
    process_block-IsAccounted s b agree e = process_block_rule env fuel Kept s b e (λ _ _.
        let t = accept_block s b in
        let kept = accept_block-IsAccounted s b e in
        settle_block_rule env fuel Kept t b kept
          (λ _. try_to_ship-IsAccounted env height_of got self n f fuel t b.id kept)
          (λ u kept_u.
            vote_block_rule env fuel Kept u b kept_u
              (λ _ _. send_notarization_share-IsAccounted u b agree kept_u))
          (λ u kept_u.
            finalize_block_rule env fuel Kept u b kept_u
              (λ _ _. send_finalization_share-IsAccounted u b.height b.rank b.id agree kept_u)))

    pub handle_event-IsAccounted :
        (s : Banyan) (m : Message)
        → got m
        → Agrees height_of m
        → Kept s
        → Returns Kept (handle_event (banyan_safety env fuel) s m)
    unfolding handle_event
    handle_event-IsAccounted s (block b) known agree e =
        Returns-bind (λ r. Kept r.0) Kept (process_block env fuel s b) _
          (process_block-IsAccounted s b agree e) (λ r kept. kept)
    handle_event-IsAccounted s (notarization ns) known agree e =
        process_notarization_share-IsAccounted s ns (inl known) agree e
    handle_event-IsAccounted s (finalization fs) known agree e =
        process_finalization_share-IsAccounted s fs (inl known) e

    pub handle_events-IsAccounted :
        (s : Banyan) (events : List Message)
        → All got events
        → All (Agrees height_of) events
        → IsAccounted height_of got self n f s
        → Returns
            (IsAccounted height_of got self n f)
            (handle_events (banyan_safety env fuel) s events)
    unfolding handle_events
    handle_events-IsAccounted s [] known agree e = e
    handle_events-IsAccounted s (m ∷ ms) known (first, rest) e =
        Returns-bind Kept Kept (handle_event (banyan_safety env fuel) s m) _
          (handle_event-IsAccounted s m known.0 first e)
          (λ t kept. handle_events-IsAccounted t ms known.1 rest kept)

    pub new_banyan-IsAccounted :
        (elec : Rotation) (lt : LocalTimeout) (p : ℕ)
        → IsAccounted height_of got self n f (new_banyan env self elec lt n f p)
    unfolding new_banyan new_nshares_bag_banyan new_fshares_bag
    new_banyan-IsAccounted elec lt p = (
      record {
        n_tally = no_ballots-IsTally NotarizationShare;
        f_tally = no_ballots-IsTally FinalizationShare;
        n_votes = λ x. no_ballots-Held NotarizationShare (NVote got []) x;
        f_votes = λ x. no_ballots-Held FinalizationShare (FVote got []) x;
        quorum = λ x h. absurd (cc);
        own = λ m i. elim i [ ];
      },
      record { named = refl; n_size = refl; n_faults = refl; f_total = refl },
    )
