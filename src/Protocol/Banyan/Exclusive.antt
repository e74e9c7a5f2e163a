-- ===== src/Protocol/Banyan/Exclusive.antt =====
-- protocol/banyan.go: the votes of a replica on a height, and the single updates of the state that
-- they depend on.
pub mod Runs
use banyan.Base.{
  ℕ, zero, suc, ◌+◌, ◌≤◌, ◌<◌, ◌≡◌, ◌⊎◌, refl, sym, ap, ◌∙◌, subst, inl, inr, List, [], ◌∷◌, ◌++◌,
  Option, none, some, Bool, true, false, not, ◌&&◌, ◌||◌, ◌==◌, slt, biased, if◌then◌else◌, update,
  arith, Word, minus_one, Outcome, ok, ◌>>=◌, >>=-eq-ok, Returns, Returns-bind, Returns-at,
  Returns-then, Returns-if, Bool-cases, ==_iff, ltb→lt, In, In-append, All,
}
use banyan.Identity.{NodeId}
use banyan.Crypto.{Identifier, priv_sign}
use banyan.Election.{Rotation}
use banyan.LocalTimeout.{LocalTimeout}
use banyan.Chain.{Block, BlockChain}
use banyan.Shares.{NotarizationShare, FinalizationShare, make_nshare, make_fshare, b_add, f_add}
use banyan.Protocol.Safety.{handle_event, handle_events}
use banyan.Protocol.Exclusive.{
  Exclusive, raised-Exclusive, marked-Exclusive, final-Exclusive, vote-Exclusive,
}
use banyan.Protocol.Common.{Env, Message, block, notarization, finalization, include, exclude}
use banyan.Protocol.Banyan.Rules.{
  try_to_ship_rule, ship_each_rule, process_finalization_share_rule,
  process_notarization_share_rule, vote_block_rule, finalize_block_rule, settle_block_rule,
  process_block_rule,
}
use banyan.Protocol.Banyan.{
  Banyan, new_banyan, broadcast, shipped, try_to_ship, finalize, count_finalization_share,
  process_finalization_share, send_finalization_share, may_finalize, raise_head, notarize,
  count_notarization_share, process_notarization_share, send_notarization_share, accept_block,
  vote_block, finalize_block, settle_block, process_block, banyan_safety,
}

abbrev pub IsExclusive : (Identifier → Word) → Banyan → Type 0
IsExclusive height_of s =
    Exclusive height_of s.head_height s.is_notarized s.sent_nshares_no s.sent_nshare_id
      s.sent_fshare s.sent

module _ (env : Env) (height_of : Identifier → Word) where
  pub try_to_ship-IsExclusive :
      (fuel : ℕ) (s : Banyan) (x : Identifier)
      → IsExclusive height_of s
      → Returns (IsExclusive height_of) (try_to_ship env fuel s x)
  unfolding try_to_ship shipped
  try_to_ship-IsExclusive zero s x e = tt
  try_to_ship-IsExclusive (suc fuel) s x e =
      try_to_ship_rule env (IsExclusive height_of) fuel s x (λ _. e) e (λ bc. e)
        (λ bc committed forked.
          ship_each_rule env (IsExclusive height_of) (try_to_ship env fuel)
            (λ t y _ kept. try_to_ship-IsExclusive fuel t y kept)
            (env.order (exclude s.ship_queue x)) (shipped s bc x committed forked) e)

  pub raise_head-IsExclusive :
      (s : Banyan) (height : Word) (id : Identifier)
      → height_of id ≡ height
      → IsExclusive height_of s
      → IsExclusive height_of
          (raise_head (record s { is_notarized = update s.is_notarized id true }) height id)
        × (biased height
            ≤ biased
                (raise_head
                  (record s { is_notarized = update s.is_notarized id true })
                  height
                  id).head_height)
  unfolding raise_head
  raise_head-IsExclusive s height id agree e =
      subst
        (λ h.
          IsExclusive height_of
            (raise_head (record s { is_notarized = update s.is_notarized id true }) h id)
          × (biased h
              ≤ biased
                  (raise_head (record s { is_notarized = update s.is_notarized id true }) h
                    id).head_height))
        agree
        (elim (Bool-cases (slt s.head_height (height_of id))) [
          | inl h ↦ rw h (
            raised-Exclusive height_of s.head_height s.is_notarized s.sent_nshares_no
                s.sent_nshare_id s.sent_fshare s.sent e id h,
            omega arith,
          )
          | inr h ↦ rw h (
            marked-Exclusive height_of s.head_height s.is_notarized s.sent_nshares_no
                s.sent_nshare_id s.sent_fshare s.sent e id h,
            ground (arith, h),
          )
        ])

  -- The finalization share is noted and broadcast.
  pub finals-IsExclusive :
      (s : Banyan) (share : FinalizationShare)
      → may_finalize s share.height share.block_id ≡ true
      → biased share.height ≤ biased s.head_height
      → IsExclusive height_of s
      → IsExclusive height_of (
          broadcast
            (record s { sent_fshare = update s.sent_fshare share.height true })
            (finalization share))
  unfolding may_finalize
  finals-IsExclusive s share may below e =
      final-Exclusive height_of s.head_height s.is_notarized s.sent_nshares_no s.sent_nshare_id
        s.sent_fshare s.sent e share (ground (arith, may)) (ground (arith, may)) below

  -- The notarization share is counted, noted and broadcast.
  pub votes-IsExclusive :
      (s : Banyan) (share : NotarizationShare) (rank : Word)
      → slt s.head_height share.height ≡ true
      → IsExclusive height_of s
      → IsExclusive height_of (
          broadcast
            (record s {
              sent_nshares_no =
                  update s.sent_nshares_no share.height (s.sent_nshares_no share.height + 1);
              sent_n_rank = update s.sent_n_rank share.height rank;
              sent_nshare_id = update s.sent_nshare_id share.height share.block_id;
            })
            (notarization share))
  votes-IsExclusive s share rank above e =
      vote-Exclusive height_of s.head_height s.is_notarized s.sent_nshares_no s.sent_nshare_id
        s.sent_fshare s.sent e share above
