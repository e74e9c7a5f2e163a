-- ===== src/Protocol/Banyan/Ship.antt =====
-- protocol/banyan.go: `TryToShip`.
use banyan.Base.{
  ℕ, zero, suc, List, [], ◌∷◌, ◌++◌, none, some, true, false, ◌==◌, Outcome, ok, panic, starved,
  ◌>>=◌, nil_dereference, if◌then◌else◌,
}
use banyan.Crypto.{Identifier}
use banyan.Chain.{
  Block, BlockChain, commits, unknown_block, cannot_prune, exists, get_block_by_id, commit_block,
}
use banyan.Protocol.Common.{Env, contains, include, exclude}
use banyan.Protocol.Banyan.Defs.{Banyan}

-- The loop over the queue. `keys` are the keys when it starts; one that has left the map meanwhile
-- is not visited, and one that came may be skipped, as Go allows.
unfoldable pub ship_each :
    (Banyan → Identifier → Outcome Banyan) → Banyan → List Identifier → Outcome Banyan
ship_each ship s [] = ok s
ship_each ship s (k ∷ keys) =
    (if contains s.ship_queue k then ship s k else ok s) >>= λ s'. ship_each ship s' keys

-- What a commit leaves before the loop.
unfoldable pub shipped : Banyan → BlockChain → Identifier → List Block → List Block → Banyan
shipped s bc id committed forked = record s {
  bc = bc;
  committed_blocks = s.committed_blocks ++ committed;
  forked_blocks = s.forked_blocks ++ forked;
  last_shipped_block = id;
  ship_queue = exclude s.ship_queue id;
}

-- Each nested call comes from the loop.
unfoldable pub try_to_ship : Env → ℕ → Banyan → Identifier → Outcome Banyan
try_to_ship env zero s id = starved
try_to_ship env (suc fuel) s id = elim (exists s.bc id) [
  | false ↦ ok (record s { ship_queue = include s.ship_queue id })
  | true ↦ elim (get_block_by_id s.bc id) [
    | none ↦ panic nil_dereference
    | some b ↦ elim (s.last_shipped_block == b.prev_id) [
      | false ↦ ok s
      | true ↦ commit_block env.walk_fuel s.bc id >>= λ r. elim r.1 [
        | unknown_block ↦ ok (record s { bc = r.0 })
        | cannot_prune ↦ ok (record s { bc = r.0 })
        | commits committed forked ↦
            ship_each (try_to_ship env fuel) (shipped s r.0 id committed forked)
              (env.order (exclude s.ship_queue id))
      ]
    ]
  ]
]
