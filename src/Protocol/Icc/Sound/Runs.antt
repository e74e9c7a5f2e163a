-- ===== src/Protocol/Icc/Sound/Runs.antt =====
-- protocol/icc_actually.go: the votes of a replica, through the handlers.
use banyan.Base.{
  ℕ, ◌+◌, ◌≤◌, ◌≡◌, refl, sym, ap, ◌∙◌, subst, inl, inr, [], ◌∷◌, true, not, ◌&&◌, slt, biased,
  update, Word, ok, Returns, Returns-bind, Returns-then, Returns-if, Bool-cases, In-append_right,
  ltb→lt, arith,
}
use banyan.Identity.{NodeId}
use banyan.Crypto.{Identifier}
use banyan.Election.{Rotation}
use banyan.LocalTimeout.{LocalTimeout}
use banyan.Chain.{Block}
use banyan.Ballots.{ballot_count}
use banyan.Ballots.Held.{no_ballots-Held}
use banyan.Ballots.Quorum.{no_ballots-IsTally}
use banyan.Shares.{
  NotarizationShare, FinalizationShare, make_nshare, make_fshare, n_add, f_add, n_super_majority,
  new_nshares_bag, new_fshares_bag,
}
use banyan.Shares.Made.{make_nshare-ok, make_fshare-ok}
use banyan.Protocol.Safety.{handle_event}
use banyan.Protocol.Common.{Env, Message, block, notarization, finalization}
use banyan.Protocol.Exclusive.{Agrees}
use banyan.Protocol.Accounted.{Known, NVote, FVote}
use banyan.Protocol.Icc.Rules.{
  process_finalization_share_rule, process_notarization_share_rule, vote_block_rule,
  finalize_block_rule, settle_block_rule, process_block_rule,
}
use banyan.Protocol.Icc.Sound.{
  IsSound, IsQuorum, try_to_ship-IsSound, broadcast-IsSound, vote-IsSound, final-IsSound,
  n_counted-IsSound, f_counted-IsSound, raised-IsSound,
}
use banyan.Protocol.Icc.{
  Icc, new_icc, broadcast, finalize, count_finalization_share, process_finalization_share,
  send_finalization_share, may_finalize, raise_head, notarize, count_notarization_share,
  process_notarization_share, send_notarization_share, accept_block, finalize_block, process_block,
  icc_safety,
}

pair_eq : {a b c d : ℕ} → a ≡ b → c ≡ d → Path (ℕ × ℕ) (a, c) (b, d)
pair_eq h k = cc

module _ (env : Env) (height_of : Identifier → Word) (got : Message → Type 0) (self : NodeId)
    (n : ℕ) where
  abbrev Kept : Icc → Type 0
  Kept = IsSound height_of got self n

  n_add-IsQuorum :
      (s : Icc) (ns : NotarizationShare)
      → (n_add s.nshares_bag ns).1 ≡ true
      → Kept s
      → IsQuorum n (ballot_count (n_add s.nshares_bag ns).0.votes ns.block_id)
  unfolding n_add n_super_majority
  n_add-IsQuorum s ns built (e, a, z) = omega (arith, ltb→lt _ _ built, z.n_total)

  module _ (fuel : ℕ) where
    finalize-IsSound : (s : Icc) (id : Identifier) → Kept s → Returns Kept (finalize env fuel s id)
    unfolding finalize
    finalize-IsSound s id e =
        try_to_ship-IsSound env height_of got self n fuel
          (record s { is_finalized = update s.is_finalized id true }) id e

    process_finalization_share-IsSound :
        (s : Icc) (fs : FinalizationShare)
        → Known got s.sent (finalization fs)
        → Kept s
        → Returns Kept (process_finalization_share env fuel s fs)
    unfolding count_finalization_share
    process_finalization_share-IsSound s fs known e =
        process_finalization_share_rule env fuel Kept s fs e (λ _.
          let kept = f_counted-IsSound env height_of got self n s fs known e in
          Returns-if Kept (f_add s.fshares_bag fs).1 _ (ok _)
            (λ _.
              finalize-IsSound (record s { fshares_bag = (f_add s.fshares_bag fs).0 }) fs.block_id
                kept)
            (λ _. kept))

    send_finalization_share-IsSound :
        (s : Icc) (height rank : Word) (id : Identifier)
        → may_finalize s height id ≡ true
        → biased height ≤ biased s.head_height
        → height_of id ≡ height
        → Kept s
        → Returns Kept (send_finalization_share env fuel s height rank id)
    unfolding send_finalization_share
    send_finalization_share-IsSound s height rank id may below agree e =
        Returns-then Kept (make_fshare env.crypto height rank s.id id) _ (λ share made.
          let (h, i, named) = make_fshare-ok env.crypto height rank s.id id share made in
          process_finalization_share-IsSound _ share
            (inr (In-append_right (finalization share) s.sent (finalization share ∷ []) (inl refl)))
            (subst
              (λ k. Kept (
                broadcast (record s { sent_fshare = update s.sent_fshare k true })
                  (finalization share)))
              h
              (final-IsSound env height_of got self n s share (rw (h, i) may) (rw h below)
                (named ∙ e.2.named) (ap height_of i ∙ agree ∙ sym h) e)))

    notarize-IsSound :
        (s : Icc) (ns : NotarizationShare)
        → height_of ns.block_id ≡ ns.height
        → IsQuorum n (ballot_count s.nshares_bag.votes ns.block_id)
        → Kept s
        → Returns Kept (notarize env fuel s ns)
    unfolding notarize
    notarize-IsSound s ns agree enough e =
        let marked = record s { is_notarized = update s.is_notarized ns.block_id true } in
        let raised = raise_head marked ns.height ns.block_id in
        let (kept, below) =
          subst
            (λ h.
              Kept (raise_head marked h ns.block_id)
              × (biased h ≤ biased (raise_head marked h ns.block_id).head_height))
            agree (raised-IsSound env height_of got self n s ns.block_id enough e) in
        Returns-if Kept (may_finalize raised ns.height ns.block_id) _ (ok raised)
          (λ may.
            send_finalization_share-IsSound raised ns.height ns.rank ns.block_id may below agree
              kept)
          (λ _. kept)

    process_notarization_share-IsSound :
        (s : Icc) (ns : NotarizationShare)
        → Known got s.sent (notarization ns)
        → height_of ns.block_id ≡ ns.height
        → Kept s
        → Returns Kept (process_notarization_share env fuel s ns)
    unfolding count_notarization_share
    process_notarization_share-IsSound s ns known agree e =
        process_notarization_share_rule env fuel Kept s ns e (λ _.
          let kept = n_counted-IsSound env height_of got self n s ns known e in
          Returns-if Kept (n_add s.nshares_bag ns).1 _ (ok _)
            (λ built.
              notarize-IsSound (record s { nshares_bag = (n_add s.nshares_bag ns).0 }) ns agree
                (n_add-IsQuorum s ns built e) kept)
            (λ _. kept))

    send_notarization_share-IsSound :
        (s : Icc) (b : Block)
        → slt s.head_height b.height ≡ true
        → height_of b.id ≡ b.height
        → Kept s
        → Returns Kept (send_notarization_share env fuel s b)
    unfolding send_notarization_share
    send_notarization_share-IsSound s b above agree e =
        Returns-then Kept (make_nshare env.crypto b.height b.rank s.id b.id) _ (λ share made.
          let (h, i, named) = make_nshare-ok env.crypto b.height b.rank s.id b.id share made in
          let right = ap height_of i ∙ agree ∙ sym h in
          process_notarization_share-IsSound _ share
            (inr (In-append_right (notarization share) s.sent (notarization share ∷ []) (inl refl)))
            right
            (subst
              (λ k. Kept (
                broadcast
                  (record s {
                    sent_nshares_no = update s.sent_nshares_no k.0 (s.sent_nshares_no k.0 + 1);
                    sent_nshare_id = update s.sent_nshare_id k.0 k.1;
                  })
                  (notarization share)))
              (pair_eq h i)
              (vote-IsSound env height_of got self n s share (rw h above) (named ∙ e.2.named) right
                e)))

    accept_block-IsSound : (s : Icc) (b : Block) → Kept s → Kept (accept_block s b)
    unfolding accept_block
    accept_block-IsSound s b e =
        elim (Bool-cases (not (s.echoed_block b.id) && slt s.head_height b.height)) [
          | inr h ↦ rw h e
          | inl h ↦ rw h (broadcast-IsSound env height_of got self n s b e)
        ]

    finalize_block-IsSound :
        (s : Icc) (b : Block)
        → height_of b.id ≡ b.height
        → Kept s
        → Returns Kept (finalize_block env fuel s b)
    finalize_block-IsSound s b agree e = finalize_block_rule env fuel Kept s b e (λ notarized may.
        send_finalization_share-IsSound s b.height b.rank b.id may
          (subst (λ h. biased h ≤ biased s.head_height) agree (e.0.notarized_below b.id notarized))
          agree e)

    process_block-IsSound :
        (s : Icc) (b : Block)
        → height_of b.id ≡ b.height
        → Kept s
        → Returns (λ r. Kept r.0) (process_block env fuel s b)
    process_block-IsSound s b agree e = process_block_rule env fuel Kept s b e (λ _ _.
        let t = accept_block s b in
        let kept = accept_block-IsSound s b e in
        settle_block_rule env fuel Kept t b kept
          (λ _. try_to_ship-IsSound env height_of got self n fuel t b.id kept)
          (λ u kept_u.
            vote_block_rule env fuel Kept u b kept_u
              (λ above. send_notarization_share-IsSound u b above agree kept_u))
          (λ u kept_u. finalize_block-IsSound u b agree kept_u))

    pub handle_event-IsSound :
        (s : Icc) (m : Message)
        → got m
        → Agrees height_of m
        → IsSound height_of got self n s
        → Returns (IsSound height_of got self n) (handle_event (icc_safety env fuel) s m)
    unfolding handle_event
    handle_event-IsSound s (block b) known agree e =
        Returns-bind (λ r. Kept r.0) Kept (process_block env fuel s b) _
          (process_block-IsSound s b agree e) (λ r kept. kept)
    handle_event-IsSound s (notarization ns) known agree e =
        process_notarization_share-IsSound s ns (inl known) agree e
    handle_event-IsSound s (finalization fs) known agree e =
        process_finalization_share-IsSound s fs (inl known) e

  pub new_icc-IsSound :
      (elec : Rotation) (lt : LocalTimeout)
      → IsSound height_of got self n (new_icc env self elec lt n)
  unfolding new_icc new_nshares_bag new_fshares_bag
  new_icc-IsSound elec lt = (
    record {
      notarized_below = λ id h. absurd (cc);
      single = λ h k. absurd (cc);
      votes = λ ns i. elim i [ ];
      finals = λ fs i. elim i [ ];
    },
    record {
      n_tally = no_ballots-IsTally NotarizationShare;
      f_tally = no_ballots-IsTally FinalizationShare;
      n_votes = λ x. no_ballots-Held NotarizationShare (NVote got []) x;
      f_votes = λ x. no_ballots-Held FinalizationShare (FVote got []) x;
      quorum = λ x h. absurd (cc);
      own = λ m i. elim i [ ];
    },
    record { named = refl; n_total = refl; f_total = refl },
  )
