-- ===== src/Chain.antt =====
-- blockchain/block.go, blockchain/container.go, blockchain/blockchain.go: blocks by height and the
-- chain that commits them.
pub mod Commit
use banyan.Base.{
  ℕ, zero, suc, ◌+◌, List, [], ◌∷◌, ◌++◌, Option, none, some, Bool, true, false, ltb, length, Word,
  Bytes, sub, Outcome, ok, panic, starved, ◌>>=◌, nil_dereference,
}
use banyan.Identity.{NodeId}
use banyan.Crypto.{Crypto, Identifier, Signature, priv_sign}
use banyan.Forest.{
  Vertex, Forest, pruned, level_too_low, VertexIterator, new_forest, has_vertex, get_vertex,
  add_vertex, prune_up_to_level, next_vertex, get_children, get_vertices_at_level,
}

-- `Block`; times are in nanoseconds.
pub record Block : Type 0 where
  pub height : Word
  pub rank : Word
  pub proposer : NodeId
  pub timestamp : ℕ
  pub payload : Bytes
  pub prev_id : Identifier
  pub sig : Signature
  pub id : Identifier
  pub ts : ℕ

-- `rawBlock`, whose hash is the id of the block.
pub record RawBlock : Type 0 where
  pub height : Word
  pub rank : Word
  pub proposer : NodeId
  pub payload_hash : Identifier
  pub prev_id : Identifier
  pub sig : Signature
  pub id : Identifier

module _ (c : Crypto) (hash_block : RawBlock → Identifier) where
  -- `makeID`: the id and the signature; an error in signing leaves the nil signature.
  unfoldable pub make_id : Block → NodeId → Outcome Block
  make_id b node_id =
      let raw : RawBlock = record {
        height = b.height;
        rank = b.rank;
        proposer = b.proposer;
        payload_hash = c.hash_bytes b.payload;
        prev_id = b.prev_id;
        sig = [];
        id = 0;
      } in
      let hash : Identifier = hash_block raw in
      priv_sign c hash node_id >>= λ signed.
      ok (record b { id = hash; sig = elim signed [ none ↦ [] | some s ↦ s ] })

  -- `payload` holds the bytes that `generateRandomPayload` draws.
  unfoldable pub make_block : Word → Word → Identifier → NodeId → Bytes → Outcome Block
  unfolding make_id
  make_block height rank prev_id proposer payload =
      make_id
        (record {
          height = height;
          rank = rank;
          proposer = proposer;
          timestamp = 0;
          payload = payload;
          prev_id = prev_id;
          sig = [];
          id = 0;
          ts = 0;
        })
        proposer

-- `BlockContainer` as a vertex. A conversion from `int` to `uint64` keeps the pattern.
instance abbrev pub block_vertex : Vertex Block
block_vertex = record {
  vertex_id = λ b. b.id;
  level = λ b. b.height;
  parent = λ b. (b.prev_id, sub b.height 1);
}

pub record BlockChain : Type 0 where
  pub forest : Forest Block
  pub highest_committed : Word
  pub committed_block_no : ℕ
  pub pruned_block_no : ℕ

unfoldable pub new_blockchain : BlockChain
unfolding new_forest
new_blockchain = record {
  forest = new_forest;
  highest_committed = 0;
  committed_block_no = 0;
  pruned_block_no = 0;
}

unfoldable pub exists : BlockChain → Identifier → Bool
exists bc id = has_vertex bc.forest id

unfoldable pub add_block : BlockChain → Block → BlockChain
add_block bc b = record bc { forest = add_vertex bc.forest b }

-- `none` is an error.
unfoldable pub get_block_by_id : BlockChain → Identifier → Option Block
get_block_by_id bc id = get_vertex bc.forest id

unfoldable pub get_parent_block : BlockChain → Identifier → Option Block
get_parent_block bc id = elim (get_vertex bc.forest id) [
  | none ↦ none
  | some v ↦ get_vertex bc.forest v.prev_id
]

unfoldable pub get_grand_parent_block : BlockChain → Identifier → Option Block
unfolding get_parent_block
get_grand_parent_block bc id = elim (get_parent_block bc id) [
  | none ↦ none
  | some p ↦ get_parent_block bc p.id
]

-- The loop of `CommitBlock`: the blocks appended, the newest first, and the count of commits.
unfoldable pub commit_walk : ℕ → Forest Block → Block → List Block × ℕ → Outcome (List Block × ℕ)
commit_walk zero f b acc = starved
commit_walk (suc fuel) f b (blocks, count) = elim (ltb f.lowest_level b.height) [
  | false ↦ ok (blocks, count)
  | true ↦ elim (get_vertex f b.prev_id) [
    | none ↦ ok (blocks ++ b ∷ [], count + 1)
    | some p ↦ commit_walk fuel f p (blocks ++ b ∷ [], count + 1)
  ]
]

-- The committed and the forked blocks, or an error.
pub data CommitResult : Type 0 where
  commits : List Block → List Block → CommitResult
  unknown_block : CommitResult
  cannot_prune : CommitResult

-- The fuel bounds the rounds of each walk. Like the source, an error in pruning leaves the counters
-- that were already moved.
unfoldable pub commit_block : ℕ → BlockChain → Identifier → Outcome (BlockChain × CommitResult)
commit_block fuel bc id = elim (get_vertex bc.forest id) [
  | none ↦ ok (bc, unknown_block)
  | some b ↦ commit_walk fuel bc.forest b ([], bc.committed_block_no) >>= λ walked.
      prune_up_to_level fuel bc.forest b.height >>= λ cut. elim cut.1 [
        | level_too_low ↦ ok (
          record bc { highest_committed = b.height; committed_block_no = walked.1 },
          cannot_prune,
        )
        | pruned forked count ↦ ok (
          record {
            forest = cut.0;
            highest_committed = b.height;
            committed_block_no = walked.1;
            pruned_block_no = bc.pruned_block_no + count;
          },
          commits walked.0 forked,
        )
      ]
]

-- The loop of `GetChildrenBlocks`; the iterator's addresses bound its rounds.
unfoldable pub drain : ℕ → Forest Block → VertexIterator Block → List Block
drain zero f it = []
drain (suc n) f it = elim it.next [ none ↦ [] | some b ↦ b ∷ drain n f (next_vertex f it).1 ]

unfoldable pub get_children_blocks : BlockChain → Identifier → Outcome (List Block)
get_children_blocks bc id =
    get_children bc.forest id >>= λ it. ok (drain (suc (length it.rest)) bc.forest it)

unfoldable pub get_highest_committed : BlockChain → Word
get_highest_committed bc = bc.highest_committed

unfoldable pub get_committed_blocks : BlockChain → ℕ
get_committed_blocks bc = bc.committed_block_no

-- The numerator and the denominator of `GetChainGrowth`.
unfoldable pub get_chain_growth : BlockChain → ℕ × ℕ
get_chain_growth bc = (bc.committed_block_no, bc.pruned_block_no + 1)

-- A level without a full vertex gives a nil vertex, whose method is called.
unfoldable pub get_block_by_height : BlockChain → Word → Outcome Block
get_block_by_height bc height = elim (get_vertices_at_level bc.forest height).next [
  | none ↦ panic nil_dereference
  | some b ↦ ok b
]
