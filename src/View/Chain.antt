-- ===== src/View/Chain.antt =====
-- blockchain_view/block.go, blockchain_view/container.go, blockchain_view/blockchain.go: blocks by
-- view, and the chain that commits them. The certificate of a block is a pointer, here an option; on
-- a block without one `Parent` crashes. The forest of this package is that of blockchain/, line for
-- line.
use banyan.Base.{
  ℕ, zero, suc, ◌+◌, List, [], ◌∷◌, ◌++◌, Option, none, some, Bool, true, false, ltb, ◌==◌, length,
  if◌then◌else◌, not, leb, ◌&&◌, is_some, Word, Bytes, sub, add, Outcome, ok, panic, starved, ◌>>=◌,
  nil_dereference,
}
use banyan.Identity.{NodeId}
use banyan.Crypto.{Crypto, Identifier, Signature, priv_sign}
use banyan.Ballots.{Ballots}
use banyan.View.Votes.{Vote, Qc, Quorum, new_quorum, q_add}
use banyan.Forest.{
  Vertex, Forest, Pruned, first_vertex, is_empty_container, get_or_create_vertex_container, pruned,
  level_too_low, VertexIterator, new_forest, has_vertex, get_vertex, add_vertex, prune_up_to_level,
  next_vertex, get_children, get_vertices_at_level,
}

-- `Block`; times are in nanoseconds.
pub record Block : Type 0 where
  pub view : Word
  pub qc : Option Qc
  pub proposer : NodeId
  pub timestamp : ℕ
  pub payload : Bytes
  pub prev_id : Identifier
  pub sig : Signature
  pub id : Identifier
  pub ts : ℕ

-- `rawBlock`, whose hash is the id of the block.
pub record RawBlock : Type 0 where
  pub view : Word
  pub qc : Option Qc
  pub proposer : NodeId
  pub payload_hash : Identifier
  pub prev_id : Identifier
  pub sig : Signature
  pub id : Identifier

module _ (c : Crypto) (hash_block : RawBlock → Identifier) where
  -- `makeID`: the id and the signature; an error in signing leaves the nil signature.
  unfoldable pub make_id : Block → NodeId → Outcome Block
  make_id b node_id =
      let raw : RawBlock = record {
        view = b.view;
        qc = b.qc;
        proposer = b.proposer;
        payload_hash = c.hash_bytes b.payload;
        prev_id = b.prev_id;
        sig = [];
        id = 0;
      } in
      let hash : Identifier = hash_block raw in
      priv_sign c hash node_id >>= λ signed.
      ok (record b { id = hash; sig = elim signed [ none ↦ [] | some s ↦ s ] })

  -- `payload` holds the bytes that `generateRandomPayload` draws.
  unfoldable pub make_block : Word → Option Qc → Identifier → NodeId → Bytes → Outcome Block
  unfolding make_id
  make_block view qc prev_id proposer payload =
      make_id
        (record {
          view = view;
          qc = qc;
          proposer = proposer;
          timestamp = 0;
          payload = payload;
          prev_id = prev_id;
          sig = [];
          id = 0;
          ts = 0;
        })
        proposer

-- `BlockContainer` as a vertex. A conversion from `int` to `uint64` keeps the pattern. `Parent` of a
-- block without a certificate crashes: `add_block` and `prune_chain` do so where the forest calls it,
-- and the view 0 in its place is never read.
instance abbrev pub block_vertex : Vertex Block
block_vertex = record {
  vertex_id = λ b. b.id;
  level = λ b. b.view;
  parent = λ b. (b.prev_id, elim b.qc [ none ↦ 0 | some q ↦ q.view ]);
}

pub record BlockChain : Type 0 where
  pub forest : Forest Block
  pub quorum : Quorum
  pub highest_committed : Word
  pub committed_block_no : ℕ
  pub total_block_intervals : Word
  pub pruned_block_no : ℕ

unfoldable pub new_blockchain : ℕ → BlockChain
unfolding new_forest
new_blockchain n = record {
  forest = new_forest;
  quorum = new_quorum n;
  highest_committed = 0;
  committed_block_no = 0;
  total_block_intervals = 0;
  pruned_block_no = 0;
}

unfoldable pub exists : BlockChain → Identifier → Bool
exists bc id = has_vertex bc.forest id

-- `AddVertex` registers the block with its parent: it is new, not below the lowest level, and its
-- container above it.
unfoldable pub reads_parent : Forest Block → Block → Bool
reads_parent f b =
    let (g, a) = get_or_create_vertex_container f b.id b.view in
    not (ltb b.view f.lowest_level)
    && is_empty_container (g.cells a)
    && ltb f.lowest_level (g.cells a).level

unfoldable pub add_block : BlockChain → Block → Outcome BlockChain
add_block bc b =
    if reads_parent bc.forest b && not (is_some b.qc)
    then panic nil_dereference
    else ok (record bc { forest = add_vertex bc.forest b })

unfoldable pub add_vote : BlockChain → Vote → BlockChain × Option Qc
add_vote bc vote = let (q, qc) = q_add bc.quorum vote in (record bc { quorum = q }, qc)

-- `none` is an error.
unfoldable pub get_block_by_id : BlockChain → Identifier → Option Block
get_block_by_id bc id = get_vertex bc.forest id

-- Only HotStuff calls it, which stores no block without a certificate, where `Parent` would crash.
unfoldable pub get_parent_block : BlockChain → Identifier → Option Block
get_parent_block bc id = elim (get_vertex bc.forest id) [
  | none ↦ none
  | some v ↦ get_vertex bc.forest v.prev_id
]

unfoldable pub get_grand_parent_block : BlockChain → Identifier → Option Block
unfolding get_parent_block
get_grand_parent_block bc id = elim (get_parent_block bc id) [
  | none ↦ none
  | some p ↦ get_parent_block bc p.id
]

-- What the loop of `CommitBlock` moves: the blocks appended, the newest first, the votes, the count
-- of commits and the sum of the intervals.
pub record Walk : Type 0 where
  pub blocks : List Block
  pub votes : Ballots Vote
  pub count : ℕ
  pub intervals : Word

-- One round. The votes of the block are deleted.
unfoldable pub walk_block : Word → Walk → Block → Walk
walk_block view w b = record {
  blocks = w.blocks ++ b ∷ [];
  votes = λ id. if b.id == id then none else w.votes id;
  count = w.count + 1;
  intervals = add w.intervals (sub view b.view);
}

unfoldable pub commit_walk : ℕ → Forest Block → Word → Block → Walk → Outcome Walk
commit_walk zero f view b w = starved
commit_walk (suc fuel) f view b w = elim (ltb f.lowest_level b.view) [
  | false ↦ ok w
  | true ↦ elim (get_vertex f b.prev_id) [
    | none ↦ ok (walk_block view w b)
    | some p ↦ commit_walk fuel f view p (walk_block view w b)
  ]
]

pub data CommitResult : Type 0 where
  commits : List Block → List Block → CommitResult
  unknown_block : CommitResult
  cannot_prune : CommitResult

-- What the walk leaves in the chain.
unfoldable pub walked : BlockChain → Block → Walk → BlockChain
walked bc b w = record bc {
  quorum = record { total = bc.quorum.total; votes = w.votes };
  highest_committed = b.view;
  committed_block_no = w.count;
  total_block_intervals = w.intervals;
}

-- The first loop of `PruneUpToLevel` calls `Parent` of a block without a certificate. Without fuel,
-- that loop runs out of it.
unfoldable pub lacks_qc : ℕ → Forest Block → ℕ → Bool
lacks_qc zero f l = false
lacks_qc (suc fuel) f l = elim (leb f.lowest_level l && ltb 1 l) [
  | false ↦ false
  | true ↦ elim (first_vertex f l) [
    | panic _ ↦ false
    | starved ↦ false
    | ok v ↦ elim v.qc [
      | none ↦ true
      | some _ ↦ elim (get_vertex f v.prev_id) [
        | none ↦ false
        | some p ↦ elim (ltb p.view f.lowest_level) [
          | true ↦ false
          | false ↦ lacks_qc fuel f p.view
        ]
      ]
    ]
  ]
]

-- `PruneUpToLevel`.
unfoldable pub prune_chain : ℕ → Forest Block → ℕ → Outcome (Forest Block × Pruned Block)
prune_chain fuel f level =
    if lacks_qc fuel f level then panic nil_dereference else prune_up_to_level fuel f level

-- `view` is that of the caller. An error in pruning leaves the counters moved.
unfoldable pub commit_block :
    ℕ → BlockChain → Identifier → Word → Outcome (BlockChain × CommitResult)
commit_block fuel bc id view = elim (get_vertex bc.forest id) [
  | none ↦ ok (bc, unknown_block)
  | some b ↦
      commit_walk fuel bc.forest view b (record {
        blocks = [];
        votes = bc.quorum.votes;
        count = bc.committed_block_no;
        intervals = bc.total_block_intervals;
      })
      >>= λ w. prune_chain fuel bc.forest b.view >>= λ cut. elim cut.1 [
        | level_too_low ↦ ok (walked bc b w, cannot_prune)
        | pruned forked count ↦ ok (
          record (walked bc b w) { forest = cut.0; pruned_block_no = bc.pruned_block_no + count },
          commits w.blocks forked,
        )
      ]
]

-- The loop of `GetChildrenBlocks`; the iterator's addresses bound its rounds.
unfoldable pub drain : ℕ → Forest Block → VertexIterator Block → List Block
drain zero f it = []
drain (suc n) f it = elim it.next [ none ↦ [] | some b ↦ b ∷ drain n f (next_vertex f it).1 ]

unfoldable pub get_children_blocks : BlockChain → Identifier → Outcome (List Block)
get_children_blocks bc id =
    get_children bc.forest id >>= λ it. ok (drain (suc (length it.rest)) bc.forest it)

unfoldable pub get_highest_committed : BlockChain → Word
get_highest_committed bc = bc.highest_committed

unfoldable pub get_committed_blocks : BlockChain → ℕ
get_committed_blocks bc = bc.committed_block_no

-- The numerator and the denominator of `GetChainGrowth`.
unfoldable pub get_chain_growth : BlockChain → ℕ × ℕ
get_chain_growth bc = (bc.committed_block_no, bc.pruned_block_no + 1)

-- The numerator and the denominator of `GetBlockIntervals`.
unfoldable pub get_block_intervals : BlockChain → Word × ℕ
get_block_intervals bc = (bc.total_block_intervals, bc.committed_block_no)

-- A level without a full vertex gives a nil vertex, whose method is called.
unfoldable pub get_block_by_view : BlockChain → Word → Outcome Block
get_block_by_view bc view = elim (get_vertices_at_level bc.forest view).next [
  | none ↦ panic nil_dereference
  | some b ↦ ok b
]
