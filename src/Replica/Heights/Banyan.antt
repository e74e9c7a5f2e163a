-- ===== src/Replica/Heights/Banyan.antt =====
-- replica/replica.go with protocol/banyan.go: what the replicas of Banyan keep, their own proposals
-- included.
use banyan.Base.{ℕ, ◌≡◌, Word, Bytes, Returns, Returns-then, Returns-both, Returns-map}
use banyan.Identity.{NodeId}
use banyan.Crypto.{Identifier, priv_sign}
use banyan.Chain.{Block, RawBlock, make_block}
use banyan.Protocol.Safety.{handle_event}
use banyan.Protocol.Common.{Env, Message, block}
use banyan.Protocol.Banyan.{Banyan, make_proposal, banyan_safety}
use banyan.Protocol.Exclusive.{Agrees}
use banyan.Protocol.Banyan.Exclusive.{IsExclusive}
use banyan.Protocol.Banyan.Exclusive.Runs.{handle_event-IsExclusive, block_sent-IsExclusive}
use banyan.Protocol.Banyan.Accounted.{IsAccounted, broadcast-IsAccounted}
use banyan.Protocol.Banyan.Accounted.Runs.{handle_event-IsAccounted}
use banyan.Replica.Heights.Invariant.{Maintains}

-- The height of a block that is made is that of its id.
pub make_block-Agrees :
    (env : Env) (height_of : Identifier → Word)
    → ((raw : RawBlock) → height_of (env.hash_block raw) ≡ raw.height)
    → (height rank now : Word) (prev : Identifier) (proposer : NodeId) (payload : Bytes)
    → Returns
        (λ made. Agrees height_of (block (record made { timestamp = now })))
        (make_block env.crypto env.hash_block height rank prev proposer payload)
unfolding make_block
make_block-Agrees env height_of hashed height rank now prev proposer payload =
    Returns-then (λ (made : Block). Agrees height_of (block (record made { timestamp = now })))
      (priv_sign env.crypto _ proposer) _ (λ signed _. hashed _)

-- A message whose block has one height, and that is got.
abbrev pub IsFair : (Identifier → Word) → (Message → Type 0) → Message → Type 0
IsFair height_of got m = Agrees height_of m × got m

abbrev pub IsSound : (Identifier → Word) → (Message → Type 0) → NodeId → ℕ → ℕ → Banyan → Type 0
IsSound height_of got self n f s = IsExclusive height_of s × IsAccounted height_of got self n f s

module _ (env : Env) (height_of : Identifier → Word) (fuel : ℕ)
    (hashed : (raw : RawBlock) → height_of (env.hash_block raw) ≡ raw.height)
    (got : Message → Type 0) (self : NodeId) (n f : ℕ) where
  pub banyan-Maintains :
      ((b : Block) → got (block b))
      → Maintains (banyan_safety env fuel) (IsFair height_of got) (IsSound height_of got self n f)
  unfolding make_proposal
  banyan-Maintains blocks = record {
    takes_in = λ s m good h.
        Returns-both (IsExclusive height_of) (IsAccounted height_of got self n f)
          (handle_event (banyan_safety env fuel) s m)
          (handle_event-IsExclusive env height_of fuel s m good.0 h.0)
          (handle_event-IsAccounted env height_of got self n f fuel s m good.1 good.0 h.1);
    broadcast = λ s b h. (
      block_sent-IsExclusive env height_of fuel s b h.0,
      broadcast-IsAccounted env height_of got self n f s (block b) tt h.1,
    );
    set_lt = λ s lt h. h;
    proposal = λ s height rank now payload h.
        Returns-map (λ (made : Block). Agrees height_of (block (record made { timestamp = now })))
          (λ (made : Block). IsFair height_of got (block (record made { timestamp = now })))
          (make_block env.crypto env.hash_block height rank s.head_id s.id payload)
          (make_block-Agrees env height_of hashed height rank now s.head_id s.id payload)
          (λ made agree. (agree, blocks (record made { timestamp = now })));
  }
