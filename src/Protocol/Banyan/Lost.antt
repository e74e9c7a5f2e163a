-- ===== src/Protocol/Banyan/Lost.antt =====
-- protocol/banyan.go: blocks that are final and neither queued nor just shipped, while others are
-- shipped.
pub mod Runs
use banyan.Base.{
  ℕ, zero, suc, ◌+◌, ◌≡◌, ◌≢◌, refl, sym, ◌∙◌, inl, inr, List, [], ◌∷◌, ◌++◌, Option, none, some,
  Bool, true, false, not, ◌&&◌, ◌||◌, ◌==◌, slt, if◌then◌else◌, update, arith, Word, minus_one,
  Outcome, ok, panic, starved, ◌>>=◌, bytes_eq, Returns, Returns-then, Returns-bind, Returns-if,
  Bool-cases, ==_iff, ==_refl, ==_ne, Gives, Option-cases,
}
use banyan.Crypto.{Identifier, pub_verify}
use banyan.Chain.{
  Block, BlockChain, exists, commits, unknown_block, cannot_prune, get_block_by_id, commit_block,
}
use banyan.Shares.{NotarizationShare, FinalizationShare, make_nshare, make_fshare, b_add, f_add}
use banyan.Protocol.Safety.{Safety, handle_event, handle_events}
use banyan.Protocol.Common.{
  Message, block, notarization, finalization, Env, contains, include, exclude, check_signature,
}
use banyan.Protocol.Banyan.Rules.{
  try_to_ship_rule, ship_each_rule, process_finalization_share_rule,
  process_notarization_share_rule, process_block_rule, settle_block_rule, vote_block_rule,
  finalize_block_rule,
}
use banyan.Protocol.Banyan.{
  Banyan, broadcast, ship_each, shipped, try_to_ship, finalize, count_finalization_share,
  process_finalization_share, send_finalization_share, may_finalize, raise_head, notarize,
  count_notarization_share, process_notarization_share, send_notarization_share, accept_block,
  vote_block, finalize_block, process_block, BlockError, banyan_safety,
}

-- Finalized, and neither queued nor just shipped.
pub record IsLost (id : Identifier) (s : Banyan) : Type 0 where
  pub finalized : s.is_finalized id ≡ true
  pub unqueued : contains s.ship_queue id ≡ false
  pub unshipped : s.last_shipped_block ≢ id

contains-append :
    (xs ys : List Identifier) (id : Identifier)
    → contains (xs ++ ys) id ≡ (contains xs id || contains ys id)
unfolding contains
contains-append [] ys id = refl
contains-append (x ∷ xs) ys id = ground (arith, contains-append xs ys id)

contains-include :
    (xs : List Identifier) (x id : Identifier)
    → x ≢ id
    → contains (include xs x) id ≡ contains xs id
unfolding contains include
contains-include xs x id h = ground (arith, contains-append xs (x ∷ []) id, ==_iff x id)

contains-exclude :
    (xs : List Identifier) (x id : Identifier)
    → contains xs id ≡ false
    → contains (exclude xs x) id ≡ false
unfolding contains exclude
contains-exclude [] x id h = refl
contains-exclude (y ∷ xs) x id h = ground (arith, contains-exclude xs x id)

pub contains-ne :
    (xs : List Identifier) (x id : Identifier)
    → contains xs id ≡ false
    → contains xs x ≡ true
    → x ≢ id
contains-ne xs x id h k e = cc

module _ (env : Env) (id : Identifier) where
  shipped-IsLost :
      (s : Banyan) (x : Identifier) (bc : BlockChain) (committed forked : List Block)
      → x ≢ id
      → IsLost id s
      → IsLost id (shipped s bc x committed forked)
  unfolding shipped
  shipped-IsLost s x bc committed forked other lost = record {
    finalized = lost.finalized;
    unqueued = contains-exclude s.ship_queue x id lost.unqueued;
    unshipped = other;
  }

  pub try_to_ship-IsLost :
      (fuel : ℕ) (s : Banyan) (x : Identifier)
      → x ≢ id
      → IsLost id s
      → Returns (IsLost id) (try_to_ship env fuel s x)
  unfolding try_to_ship
  try_to_ship-IsLost zero s x other lost = tt
  try_to_ship-IsLost (suc fuel) s x other lost =
      try_to_ship_rule env (IsLost id) fuel s x
        (λ _. record {
          finalized = lost.finalized;
          unqueued = contains-include s.ship_queue x id other ∙ lost.unqueued;
          unshipped = lost.unshipped;
        })
        lost
        (λ bc. record {
          finalized = lost.finalized;
          unqueued = lost.unqueued;
          unshipped = lost.unshipped;
        })
        (λ bc committed forked.
          ship_each_rule env (IsLost id) (try_to_ship env fuel)
            (λ t y queued kept.
              try_to_ship-IsLost fuel t y (contains-ne t.ship_queue y id kept.unqueued queued) kept)
            (env.order (exclude s.ship_queue x)) (shipped s bc x committed forked)
            (shipped-IsLost s x bc committed forked other lost))

  -- A step that leaves these three fields keeps a lost block lost.
  pub IsLost-same :
      (s t : Banyan)
      → s.is_finalized ≡ t.is_finalized
      → s.ship_queue ≡ t.ship_queue
      → s.last_shipped_block ≡ t.last_shipped_block
      → IsLost id s
      → IsLost id t
  IsLost-same s t e f g lost = record {
    finalized = cc;
    unqueued = cc;
    unshipped = λ h. lost.unshipped (g ∙ h);
  }

  pub fresh-other : (s : Banyan) (x : Identifier) → IsLost id s → s.is_finalized x ≡ false → x ≢ id
  fresh-other s x lost fresh e = cc (lost.finalized)
