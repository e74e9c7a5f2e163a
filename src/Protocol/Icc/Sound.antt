-- ===== src/Protocol/Icc/Sound.antt =====
-- protocol/icc_actually.go: the votes of a replica on a height, and where the shares in its bags come
-- from: the single updates of the state.
pub mod Runs
use banyan.Base.{
  ℕ, zero, suc, ◌+◌, ◌*◌, ◌/◌, ◌≤◌, ◌<◌, ◌≡◌, refl, sym, ap, subst, inl, inr, [], ◌∷◌, ◌++◌, true,
  false, ◌&&◌, not, slt, biased, update, arith, Word, Returns, Bool-cases, ltb→lt, ◌==◌,
}
use banyan.Identity.{NodeId}
use banyan.Crypto.{Identifier}
use banyan.Chain.{Block}
use banyan.Ballots.{ballot_count}
use banyan.Shares.{
  NotarizationShare, FinalizationShare, NSharesBag, FSharesBag, n_add, f_add, n_super_majority,
}
use banyan.Protocol.Common.{Env, Message, block, notarization, finalization, exclude}
use banyan.Protocol.Exclusive.{
  Exclusive, raised-Exclusive, marked-Exclusive, block-Exclusive, final-Exclusive, vote-Exclusive,
}
use banyan.Protocol.Accounted.{
  Known, Accounted, sent-Accounted, n_counted-Accounted, f_counted-Accounted, marked-Accounted,
}
use banyan.Protocol.Icc.Rules.{try_to_ship_rule, ship_each_rule}
use banyan.Protocol.Icc.{
  Icc, broadcast, shipped, try_to_ship, raise_head, may_finalize, accept_block,
}

-- The replica `self` is one of `n` nodes.
pub record HasSize (self : NodeId) (n : ℕ) (id : NodeId) (q : NSharesBag) (r : FSharesBag)
    : Type 0 where
  pub named : id ≡ self
  pub n_total : q.total ≡ n
  pub f_total : r.total ≡ n

-- A block is notarized by more than two thirds of the nodes.
abbrev pub IsQuorum : ℕ → ℕ → Type 0
IsQuorum n k = n * 2 / 3 < k

abbrev pub IsSound : (Identifier → Word) → (Message → Type 0) → NodeId → ℕ → Icc → Type 0
IsSound height_of got self n s =
    Exclusive height_of s.head_height s.is_notarized s.sent_nshares_no s.sent_nshare_id
      s.sent_fshare s.sent
    × Accounted height_of got self (IsQuorum n) s.nshares_bag.votes s.fshares_bag.votes
        s.is_notarized s.sent
    × HasSize self n s.id s.nshares_bag s.fshares_bag

module _ (env : Env) (height_of : Identifier → Word) (got : Message → Type 0) (self : NodeId)
    (n : ℕ) where
  pub try_to_ship-IsSound :
      (fuel : ℕ) (s : Icc) (x : Identifier)
      → IsSound height_of got self n s
      → Returns (IsSound height_of got self n) (try_to_ship env fuel s x)
  unfolding try_to_ship shipped
  try_to_ship-IsSound zero s x e = tt
  try_to_ship-IsSound (suc fuel) s x e =
      try_to_ship_rule env (IsSound height_of got self n) fuel s x (λ _. e) e (λ bc. e)
        (λ bc committed forked.
          ship_each_rule env (IsSound height_of got self n) (try_to_ship env fuel)
            (λ t y _ kept. try_to_ship-IsSound fuel t y kept) (env.order (exclude s.ship_queue x))
            (shipped s bc x committed forked) e)

  -- A block is broadcast.
  pub broadcast-IsSound :
      (s : Icc) (b : Block)
      → IsSound height_of got self n s
      → IsSound height_of got self n (broadcast s (block b))
  broadcast-IsSound s b (e, a, z) = (
    block-Exclusive height_of s.head_height s.is_notarized s.sent_nshares_no s.sent_nshare_id
        s.sent_fshare s.sent e b,
    sent-Accounted height_of got self (IsQuorum n) s.nshares_bag.votes s.fshares_bag.votes
        s.is_notarized s.sent a (block b) tt,
    z,
  )

  -- A notarization share is counted for the height, and broadcast.
  pub vote-IsSound :
      (s : Icc) (share : NotarizationShare)
      → slt s.head_height share.height ≡ true
      → share.voter ≡ self
      → height_of share.block_id ≡ share.height
      → IsSound height_of got self n s
      → IsSound height_of got self n (
          broadcast
            (record s {
              sent_nshares_no =
                  update s.sent_nshares_no share.height (s.sent_nshares_no share.height + 1);
              sent_nshare_id = update s.sent_nshare_id share.height share.block_id;
            })
            (notarization share))
  vote-IsSound s share above voter agree (e, a, z) = (
    vote-Exclusive height_of s.head_height s.is_notarized s.sent_nshares_no s.sent_nshare_id
        s.sent_fshare s.sent e share above,
    sent-Accounted height_of got self (IsQuorum n) s.nshares_bag.votes s.fshares_bag.votes
        s.is_notarized s.sent a (notarization share) (voter, agree),
    z,
  )

  -- A finalization share is noted for the height, and broadcast.
  pub final-IsSound :
      (s : Icc) (share : FinalizationShare)
      → may_finalize s share.height share.block_id ≡ true
      → biased share.height ≤ biased s.head_height
      → share.voter ≡ self
      → height_of share.block_id ≡ share.height
      → IsSound height_of got self n s
      → IsSound height_of got self n (
          broadcast
            (record s { sent_fshare = update s.sent_fshare share.height true })
            (finalization share))
  unfolding may_finalize
  final-IsSound s share may below voter agree (e, a, z) = (
    final-Exclusive height_of s.head_height s.is_notarized s.sent_nshares_no s.sent_nshare_id
        s.sent_fshare s.sent e share (ground (arith, may)) (ground (arith, may)) below,
    sent-Accounted height_of got self (IsQuorum n) s.nshares_bag.votes s.fshares_bag.votes
        s.is_notarized s.sent a (finalization share) (voter, agree),
    z,
  )

  -- A share that is known is counted.
  pub n_counted-IsSound :
      (s : Icc) (ns : NotarizationShare)
      → Known got s.sent (notarization ns)
      → IsSound height_of got self n s
      → IsSound height_of got self n (record s { nshares_bag = (n_add s.nshares_bag ns).0 })
  unfolding n_add
  n_counted-IsSound s ns known (e, a, z) = (
    e,
    n_counted-Accounted height_of got self (IsQuorum n) s.nshares_bag.votes s.fshares_bag.votes
        s.is_notarized s.sent a ns (λ j k h q. omega arith) known,
    record { named = z.named; n_total = z.n_total; f_total = z.f_total },
  )

  pub f_counted-IsSound :
      (s : Icc) (fs : FinalizationShare)
      → Known got s.sent (finalization fs)
      → IsSound height_of got self n s
      → IsSound height_of got self n (record s { fshares_bag = (f_add s.fshares_bag fs).0 })
  unfolding f_add
  f_counted-IsSound s fs known (e, a, z) = (
    e,
    f_counted-Accounted height_of got self (IsQuorum n) s.nshares_bag.votes s.fshares_bag.votes
        s.is_notarized s.sent a fs known,
    record { named = z.named; n_total = z.n_total; f_total = z.f_total },
  )

  -- A share completes the quorum of its block, and the head moves up to it.
  pub raised-IsSound :
      (s : Icc) (id : Identifier)
      → IsQuorum n (ballot_count s.nshares_bag.votes id)
      → IsSound height_of got self n s
      → IsSound height_of got self n
          (raise_head (record s { is_notarized = update s.is_notarized id true }) (height_of id) id)
        × (biased (height_of id)
            ≤ biased
                (raise_head
                  (record s { is_notarized = update s.is_notarized id true })
                  (height_of id)
                  id).head_height)
  unfolding raise_head
  raised-IsSound s id enough (e, a, z) =
      let marked =
        marked-Accounted height_of got self (IsQuorum n) s.nshares_bag.votes s.fshares_bag.votes
          s.is_notarized s.sent a id enough in
      elim (Bool-cases (slt s.head_height (height_of id))) [
        | inl h ↦ rw h (
          (
            raised-Exclusive height_of s.head_height s.is_notarized s.sent_nshares_no
                s.sent_nshare_id s.sent_fshare s.sent e id h,
            marked,
            z,
          ),
          omega arith,
        )
        | inr h ↦ rw h (
          (
            marked-Exclusive height_of s.head_height s.is_notarized s.sent_nshares_no
                s.sent_nshare_id s.sent_fshare s.sent e id h,
            marked,
            z,
          ),
          ground (arith, h),
        )
      ]
