-- ===== src/Protocol/Icc/Overlay.antt =====
-- protocol/icc_actually.go and protocol/banyan.go: `TryToShip` of Icc does to the chain, the queue and
-- the channels what that of Banyan does.
use banyan.Base.{
  ℕ, zero, suc, ◌<◌, ◌≡◌, ◌≢◌, refl, sym, ap, ◌∙◌, inl, inr, List, [], ◌∷◌, ◌==◌, length, Outcome,
  ok, starved, outcome_map, outcome_map_bind, outcome_map_same, Bool-cases, Option-cases,
}
use banyan.LocalTimeout.{new_local_timeout}
use banyan.Crypto.{Identifier}
use banyan.Chain.{
  BlockChain, CommitResult, commits, unknown_block, cannot_prune, exists, get_block_by_id,
  commit_block,
}
use banyan.Protocol.Common.{Env, contains, exclude}
use banyan.Protocol.Banyan as Banyan
use banyan.Protocol.Banyan.{Banyan}
use banyan.Protocol.Banyan.Ending.{IsSound, try_to_ship-ends}
use banyan.Protocol.Icc.{Icc, ship_each, shipped, try_to_ship}

-- A state of Banyan with the chain, the queue and the channels of one of Icc.
abbrev pub overlay : Banyan → Icc → Banyan
overlay t s = record t {
  bc = s.bc;
  committed_blocks = s.committed_blocks;
  forked_blocks = s.forked_blocks;
  last_shipped_block = s.last_shipped_block;
  ship_queue = s.ship_queue;
}

module _ (t : Banyan) (env : Env) where
  overlay-ship_each :
      (ship : Icc → Identifier → Outcome Icc) (ship' : Banyan → Identifier → Outcome Banyan)
      → ((s : Icc) (k : Identifier) → outcome_map (overlay t) (ship s k) ≡ ship' (overlay t s) k)
      → (keys : List Identifier) (s : Icc)
      → outcome_map (overlay t) (ship_each ship s keys) ≡ Banyan.ship_each ship' (overlay t s) keys
  unfolding ship_each Banyan.ship_each
  overlay-ship_each ship ship' same [] s = refl
  overlay-ship_each ship ship' same (k ∷ keys) s = elim (Bool-cases (contains s.ship_queue k)) [
    | inr gone ↦ rw gone (overlay-ship_each ship ship' same keys s)
    | inl here ↦ rw here (
        outcome_map_bind (overlay t) (overlay t) (ship s k) _ (ship' (overlay t s) k) _ (same s k)
          (λ u. overlay-ship_each ship ship' same keys u))
  ]

  -- What follows a commit, with the loops over the queue given.
  overlay-committed :
      (s : Icc) (id : Identifier) (run : Icc → Outcome Icc) (run' : Banyan → Outcome Banyan)
      → ((u : Icc) → outcome_map (overlay t) (run u) ≡ run' (overlay t u))
      → (r : BlockChain × CommitResult)
      → outcome_map (overlay t) (elim r.1 [
        | unknown_block ↦ ok (record s { bc = r.0 })
        | cannot_prune ↦ ok (record s { bc = r.0 })
        | commits committed forked ↦ run (shipped s r.0 id committed forked)
      ])
        ≡ elim r.1 [
          | unknown_block ↦ ok (record (overlay t s) { bc = r.0 })
          | cannot_prune ↦ ok (record (overlay t s) { bc = r.0 })
          | commits committed forked ↦ run' (Banyan.shipped (overlay t s) r.0 id committed forked)
        ]
  unfolding shipped Banyan.shipped
  overlay-committed s id run run' same (bc, unknown_block) = refl
  overlay-committed s id run run' same (bc, cannot_prune) = refl
  overlay-committed s id run run' same (bc, commits committed forked) =
      same (shipped s bc id committed forked)

  -- TryToShip of Icc does to the chain, the queue, the block last shipped and the two channels what
  -- TryToShip of Banyan does to them, with the same crashes and the same fuel.
  pub try_to_ship-overlay :
      (fuel : ℕ) (s : Icc) (id : Identifier)
      → outcome_map (overlay t) (try_to_ship env fuel s id)
        ≡ Banyan.try_to_ship env fuel (overlay t s) id
  unfolding try_to_ship Banyan.try_to_ship shipped Banyan.shipped
  try_to_ship-overlay zero s id = refl
  try_to_ship-overlay (suc fuel) s id = elim (Bool-cases (exists s.bc id)) [
    | inr absent ↦ rw (try_to_ship, Banyan.try_to_ship, absent) refl
    | inl known ↦ elim (Option-cases (get_block_by_id s.bc id)) [
      | inl none_there ↦ rw (try_to_ship, Banyan.try_to_ship, known, none_there) refl
      | inr (b, e) ↦ elim (Bool-cases (s.last_shipped_block == b.prev_id)) [
        | inr apart ↦ rw (try_to_ship, Banyan.try_to_ship, known, e, apart) refl
        | inl next ↦
            rw (try_to_ship, Banyan.try_to_ship, known, e, next)
              (outcome_map_same (overlay t) (commit_block env.walk_fuel s.bc id) _ _ (
                overlay-committed s id
                  (λ u. ship_each (try_to_ship env fuel) u (env.order (exclude s.ship_queue id)))
                  (λ u.
                    Banyan.ship_each (Banyan.try_to_ship env fuel) u
                      (env.order (exclude s.ship_queue id)))
                  (overlay-ship_each (try_to_ship env fuel) (Banyan.try_to_ship env fuel)
                    (try_to_ship-overlay fuel) (env.order (exclude s.ship_queue id)))))
      ]
    ]
  ]

-- On a sound chain whose blocks are lower than the fuel of the walks, more fuel than the other
-- blocks in the queue is enough for TryToShip of Icc and the calls nested in it.
pub icc_try_to_ship-ends :
    (env : Env) (fuel : ℕ) (s : Icc) (id : Identifier)
    → IsSound env s.bc
    → length (exclude s.ship_queue id) < fuel
    → try_to_ship env fuel s id ≢ starved
icc_try_to_ship-ends env fuel s id g enough e =
    let t = Banyan.new_banyan env [] (record { peer_no = 1 }) new_local_timeout 1 0 0 in
    try_to_ship-ends env fuel (overlay t s) id g enough
      (sym (try_to_ship-overlay t env fuel s id) ∙ ap (outcome_map (overlay t)) e)
