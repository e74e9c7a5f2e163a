-- ===== src/Protocol/Banyan/Ending.antt =====
-- protocol/banyan.go: the nested calls of `TryToShip` end.
use banyan.Base.{
  ℕ, zero, suc, ◌≤◌, ◌<◌, ◌≡◌, ◌≢◌, ap, subst, ◌∙◌, inl, inr, List, [], ◌∷◌, some, true, ◌==◌,
  length, Outcome, ok, starved, Ends, Ends-bind, Ends-map, Ends-not_starved, arith, Bool-cases,
  Option-cases,
}
use banyan.Crypto.{Identifier}
use banyan.Forest.{get_vertex}
use banyan.Forest.Invariant.{IsWellFormed}
use banyan.Forest.Levels.{IsLevelled}
use banyan.Forest.Lookup.{vertex_id-get_vertex}
use banyan.Chain.{
  Block, block_vertex, BlockChain, CommitResult, commits, unknown_block, cannot_prune, exists,
  get_block_by_id, commit_block,
}
use banyan.Chain.Commit.{CommitsPair, commit_block-Commits}
use banyan.Protocol.Common.{Env, contains, include, exclude}
use banyan.Protocol.Banyan.{Banyan, ship_each, shipped, try_to_ship}

exclude-length : (xs : List Identifier) (id : Identifier) → length (exclude xs id) ≤ length xs
unfolding exclude
exclude-length [] id = omega arith
exclude-length (x ∷ xs) id = ground (arith, exclude-length xs id)

exclude-contains :
    (xs : List Identifier) (id : Identifier)
    → contains xs id ≡ true
    → length (exclude xs id) < length xs
unfolding exclude contains
exclude-contains [] id h = absurd (cc)
exclude-contains (x ∷ xs) id h = ground (arith, exclude-length xs id, exclude-contains xs id)

-- The chain of the replica: well formed, with parents on lower levels, and no block higher than the
-- fuel of the walks.
pub record IsSound (env : Env) (bc : BlockChain) : Type 0 where
  pub formed : IsWellFormed block_vertex bc.forest
  pub levelled : IsLevelled block_vertex bc.forest
  pub low :
      (i : Identifier) (b : Block) → get_vertex bc.forest i ≡ some b → b.height < env.walk_fuel

module _ (env : Env) where
  -- Sound, with at most `n` ids in the queue.
  abbrev Queued : ℕ → Banyan → Type 0
  Queued n s = IsSound env s.bc × (length s.ship_queue ≤ n)

  CommitsPair-IsSound :
      (bc : BlockChain) (b : Block) (r : BlockChain × CommitResult)
      → IsSound env bc
      → CommitsPair bc b r
      → IsSound env r.0
  CommitsPair-IsSound bc b (bc', unknown_block) g c = absurd c
  CommitsPair-IsSound bc b (bc', cannot_prune) g c = absurd c
  CommitsPair-IsSound bc b (bc', commits blocks forked) g (_, _, _, formed, levelled, _, found) =
      record {
        formed = formed;
        levelled = levelled;
        low = λ i v held. ground (arith, found i, held, g.low i v);
      }

  ship_each-Ends :
      (ship : Banyan → Identifier → Outcome Banyan) (n : ℕ)
      → ((t : Banyan) (k : Identifier)
          → Queued n t
          → contains t.ship_queue k ≡ true
          → Ends (Queued n) (ship t k))
      → (keys : List Identifier) (s : Banyan) → Queued n s
      → Ends (Queued n) (ship_each ship s keys)
  unfolding ship_each
  ship_each-Ends ship n ends [] s q = q
  ship_each-Ends ship n ends (k ∷ keys) s q = elim (Bool-cases (contains s.ship_queue k)) [
    | inr gone ↦ rw gone (ship_each-Ends ship n ends keys s q)
    | inl here ↦ rw here (
        Ends-bind (Queued n) (Queued n) (ship s k) _ (ends s k q here)
          (λ t r. ship_each-Ends ship n ends keys t r))
  ]

  -- The queue does not grow if the block is in it.
  abbrev Shipped : Banyan → Identifier → Banyan → Type 0
  Shipped s id t =
      IsSound env t.bc
      × (contains s.ship_queue id ≡ true → length t.ship_queue ≤ length s.ship_queue)

  ship_queue-Ends :
      (fuel : ℕ) (s : Banyan) (id : Identifier) (b : Block)
      → IsSound env s.bc
      → length (exclude s.ship_queue id) < suc fuel
      → ((t : Banyan) (k : Identifier)
          → IsSound env t.bc
          → length (exclude t.ship_queue k) < fuel
          → Ends (Shipped t k) (try_to_ship env fuel t k))
      → (r : BlockChain × CommitResult) → CommitsPair s.bc b r
      → Ends (Shipped s id) (elim r.1 [
        | unknown_block ↦ ok (record s { bc = r.0 })
        | cannot_prune ↦ ok (record s { bc = r.0 })
        | commits committed forked ↦
            ship_each
              (try_to_ship env fuel)
              (shipped s r.0 id committed forked)
              (env.order (exclude s.ship_queue id))
      ])
  unfolding shipped
  ship_queue-Ends fuel s id b g enough settled (bc, unknown_block) c = absurd c
  ship_queue-Ends fuel s id b g enough settled (bc, cannot_prune) c = absurd c
  ship_queue-Ends fuel s id b g enough settled (bc, commits committed forked) c =
      let m = length (exclude s.ship_queue id) in
      Ends-map (Queued m) (Shipped s id) _
        (ship_each-Ends (try_to_ship env fuel) m
          (λ t k q here.
            Ends-map (Shipped t k) (Queued m) (try_to_ship env fuel t k)
              (settled t k q.0 (omega (arith, enough, q.1, exclude-contains t.ship_queue k here)))
              (λ u x. (x.0, omega (arith, q.1, x.1 here))))
          (env.order (exclude s.ship_queue id)) (shipped s bc id committed forked)
          (CommitsPair-IsSound s.bc b (bc, commits committed forked) g c, omega arith))
        (λ t q. (q.0, λ here. omega (arith, q.1, exclude-length s.ship_queue id)))

  try_to_ship-Ends :
      (fuel : ℕ) (s : Banyan) (id : Identifier)
      → IsSound env s.bc
      → length (exclude s.ship_queue id) < fuel
      → Ends (Shipped s id) (try_to_ship env fuel s id)
  unfolding try_to_ship shipped include get_block_by_id
  try_to_ship-Ends zero s id g enough = absurd (omega arith)
  try_to_ship-Ends (suc fuel) s id g enough = elim (Bool-cases (exists s.bc id)) [
    | inr absent ↦ rw (try_to_ship, absent) (g, λ here. ground (arith, here))
    | inl known ↦ elim (Option-cases (get_vertex s.bc.forest id)) [
      | inl none_there ↦ rw (try_to_ship, known, none_there) tt
      | inr (b, e) ↦ elim (Bool-cases (s.last_shipped_block == b.prev_id)) [
        | inr apart ↦ rw (try_to_ship, known, e, apart) (g, λ _. omega arith)
        | inl next ↦
            let own = vertex_id-get_vertex s.bc.forest g.formed id b e in
            let stored = ap (get_vertex s.bc.forest) own ∙ e in
            rw (try_to_ship, known, e, next)
              (Ends-bind (CommitsPair s.bc b) (Shipped s id) (commit_block env.walk_fuel s.bc id) _
                (subst (λ i. Ends (CommitsPair s.bc b) (commit_block env.walk_fuel s.bc i)) own
                  (commit_block-Commits env.walk_fuel s.bc b g.formed g.levelled stored
                    (g.low b.id b stored)))
                (ship_queue-Ends fuel s id b g enough (try_to_ship-Ends fuel)))
      ]
    ]
  ]

  -- On a sound chain whose blocks are lower than the fuel of the walks, more fuel than the other
  -- blocks in the queue is enough for TryToShip and the calls nested in it.
  pub try_to_ship-ends :
      (fuel : ℕ) (s : Banyan) (id : Identifier)
      → IsSound env s.bc
      → length (exclude s.ship_queue id) < fuel
      → try_to_ship env fuel s id ≢ starved
  try_to_ship-ends fuel s id g enough =
      Ends-not_starved (Shipped s id) (try_to_ship env fuel s id)
        (try_to_ship-Ends fuel s id g enough)
