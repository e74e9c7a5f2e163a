-- ===== src/Protocol/Banyan/InOrder.antt =====
-- protocol/banyan.go: a block that becomes final when its parent is the block last shipped.
use banyan.Base.{
  ℕ, suc, ◌≡◌, refl, ap, subst, ◌∙◌, List, [], ◌++◌, some, true, false, ◌==◌, update, is_ok, ok,
  ◌>>=◌, Gives, arith,
}
use banyan.Crypto.{Identifier}
use banyan.Forest.{Forest, get_vertex, prune_up_to_level}
use banyan.Forest.Lookup.{has_vertex-get_vertex, vertex_id-get_vertex}
use banyan.Chain.{Block, block_vertex, exists, get_block_by_id}
use banyan.Chain.Commit.{IsPath, commit_block-is_ok}
use banyan.Shares.{FinalizationShare, f_add}
use banyan.Protocol.Common.{Env, check_signature, exclude}
use banyan.Protocol.Banyan.{
  Banyan, ship_each, shipped, try_to_ship, finalize, count_finalization_share,
  process_finalization_share,
}
use banyan.Protocol.Banyan.Ending.{IsSound}

-- The block is final and last shipped, and the path down from it in the forest has been committed,
-- after the blocks before.
pub record HasShipped (f : Forest Block) (before : List Block) (b : Block) (t : Banyan)
    : Type 0 where
  pub final : t.is_finalized b.id ≡ true
  pub last : t.last_shipped_block ≡ b.id
  pub committed : (path : List Block) × IsPath f b path × (t.committed_blocks ≡ before ++ path)

try_to_ship_next :
    (env : Env) (fuel : ℕ) (s : Banyan) (b : Block)
    → IsSound env s.bc
    → get_vertex s.bc.forest b.id ≡ some b
    → s.is_finalized b.id ≡ true
    → s.last_shipped_block ≡ b.prev_id
    → env.order (exclude s.ship_queue b.id) ≡ []
    → is_ok (prune_up_to_level env.walk_fuel s.bc.forest b.height) ≡ true
    → Gives (HasShipped s.bc.forest s.committed_blocks b) (try_to_ship env (suc fuel) s b.id)
unfolding try_to_ship exists get_block_by_id ship_each shipped
try_to_ship_next env fuel s b g stored final next alone prunes =
    let (bc, path, forked, run, done) =
      commit_block-is_ok env.walk_fuel s.bc b g.formed g.levelled stored (g.low b.id b stored)
        prunes in
    let same : (s.last_shipped_block == b.prev_id) ≡ true = ground (arith, next) in
    rw
      (
        try_to_ship,
        has_vertex-get_vertex s.bc.forest b.id stored,
        stored,
        same,
        run,
        ◌>>=◌,
        alone,
        ship_each,
      )
      (record { final = final; last = refl; committed = (path, done.0, refl) })

-- On a sound chain whose blocks are lower than the fuel of the walks, a finalization share whose
-- signature passes completes the quorum of a stored block that is not final, its parent is the
-- block last shipped, no other block waits in the queue, and pruning up to the block does not
-- crash: the handler returns, the block is final and last shipped, and the commits are those before
-- and the path from the block down to the lowest level.
pub process_finalization_share-in_order :
    (env : Env) (fuel : ℕ) (s : Banyan) (fs : FinalizationShare) (b : Block)
    → IsSound env s.bc
    → get_block_by_id s.bc fs.block_id ≡ some b
    → s.is_finalized fs.block_id ≡ false
    → check_signature env.crypto s.id fs.signature fs.block_id fs.voter ≡ ok true
    → (f_add s.fshares_bag fs).1 ≡ true
    → s.last_shipped_block ≡ b.prev_id
    → env.order (exclude s.ship_queue fs.block_id) ≡ []
    → is_ok (prune_up_to_level env.walk_fuel s.bc.forest b.height) ≡ true
    → Gives
        (HasShipped s.bc.forest s.committed_blocks b)
        (process_finalization_share env (suc fuel) s fs)
unfolding process_finalization_share count_finalization_share finalize get_block_by_id
process_finalization_share-in_order env fuel s fs b g found fresh checked built next alone prunes =
    let own : b.id ≡ fs.block_id = vertex_id-get_vertex s.bc.forest g.formed fs.block_id b found in
    rw
      (process_finalization_share, fresh, checked, ◌>>=◌, count_finalization_share, built, finalize)
      (subst
        (λ i.
          Gives (HasShipped s.bc.forest s.committed_blocks b)
            (try_to_ship env (suc fuel) (finalized i) i))
        own
        (try_to_ship_next env fuel (finalized b.id) b g (ap (get_vertex s.bc.forest) own ∙ found)
          (ground arith) next (ap (λ i. env.order (exclude s.ship_queue i)) own ∙ alone) prunes))
  where
    finalized : Identifier → Banyan
    finalized i = record s {
      fshares_bag = (f_add s.fshares_bag fs).0;
      is_finalized = update s.is_finalized i true;
    }
