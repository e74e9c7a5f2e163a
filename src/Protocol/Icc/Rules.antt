-- ===== src/Protocol/Icc/Rules.antt =====
-- Rules for what a run of a handler of protocol/icc_actually.go returns.
use banyan.Base.{
  ℕ, suc, ◌≡◌, inl, inr, List, [], ◌∷◌, Option, none, some, Bool, true, false, not, ◌&&◌, ◌==◌,
  if◌then◌else◌, arith, Outcome, ok, bytes_eq, Returns, Returns-bind, Returns-if, slt, Returns-then,
  Bool-cases, Option-cases,
}
use banyan.Crypto.{Identifier}
use banyan.Chain.{
  Block, BlockChain, CommitResult, exists, commits, unknown_block, cannot_prune, get_block_by_id,
  commit_block,
}
use banyan.Shares.{NotarizationShare, FinalizationShare}
use banyan.Election.{is_leader}
use banyan.Protocol.Common.{Env, contains, include, exclude, check_signature}
use banyan.Protocol.Icc.{
  Icc, ship_each, shipped, try_to_ship, count_finalization_share, process_finalization_share,
  send_finalization_share, may_finalize, count_notarization_share, process_notarization_share,
  send_notarization_share, accept_block, vote_block, finalize_block, check_proposer, settle_block,
  process_block, BlockError, invalid_leader,
}

and_left : (a b : Bool) → (a && b) ≡ true → a ≡ true
and_left a b h = ground arith

and_right : (a b : Bool) → (a && b) ≡ true → b ≡ true
and_right a b h = ground arith

module _ (env : Env) (P : Icc → Type 0) where
  -- After the commit of the block.
  pub commit_rule :
      (fuel : ℕ) (s : Icc) (x : Identifier) (bc : BlockChain) (r : CommitResult)
      → P (record s { bc = bc })
      → ((committed forked : List Block)
          → Returns P (
              ship_each
                (try_to_ship env fuel)
                (shipped s bc x committed forked)
                (env.order (exclude s.ship_queue x))))
      → Returns P (elim r [
        | unknown_block ↦ ok (record s { bc = bc })
        | cannot_prune ↦ ok (record s { bc = bc })
        | commits committed forked ↦
            ship_each
              (try_to_ship env fuel)
              (shipped s bc x committed forked)
              (env.order (exclude s.ship_queue x))
      ])
  commit_rule fuel s x bc unknown_block same ships = same
  commit_rule fuel s x bc cannot_prune same ships = same
  commit_rule fuel s x bc (commits committed forked) same ships = ships committed forked

  pub try_to_ship_rule :
      (fuel : ℕ) (s : Icc) (x : Identifier)
      → (exists s.bc x ≡ false → P (record s { ship_queue = include s.ship_queue x }))
      → P s
      → ((bc : BlockChain) → P (record s { bc = bc }))
      → ((bc : BlockChain) (committed forked : List Block)
          → Returns P (
              ship_each
                (try_to_ship env fuel)
                (shipped s bc x committed forked)
                (env.order (exclude s.ship_queue x))))
      → Returns P (try_to_ship env (suc fuel) s x)
  unfolding try_to_ship
  try_to_ship_rule fuel s x queues stays errs ships = elim (Bool-cases (exists s.bc x)) [
    | inr e ↦ rw (try_to_ship, e) (queues e)
    | inl e ↦ elim (Option-cases (get_block_by_id s.bc x)) [
      | inl gone ↦ rw (try_to_ship, e, gone) tt
      | inr (b, found) ↦ elim (Bool-cases (s.last_shipped_block == b.prev_id)) [
        | inr last ↦ rw (try_to_ship, e, found, last) stays
        | inl last ↦
            rw (try_to_ship, e, found, last)
              (Returns-then P (commit_block env.walk_fuel s.bc x) _
                (λ r _. commit_rule fuel s x r.0 r.1 (errs r.0) (ships r.0)))
      ]
    ]
  ]

  pub ship_each_rule :
      (ship : Icc → Identifier → Outcome Icc)
      → ((s : Icc) (x : Identifier) → contains s.ship_queue x ≡ true → P s → Returns P (ship s x))
      → (keys : List Identifier) (s : Icc) → P s
      → Returns P (ship_each ship s keys)
  unfolding ship_each
  ship_each_rule ship keeps [] s h = h
  ship_each_rule ship keeps (k ∷ keys) s h =
      Returns-bind P P (if contains s.ship_queue k then ship s k else ok s) _
        (Returns-if P (contains s.ship_queue k) (ship s k) (ok s) (λ queued. keeps s k queued h)
          (λ _. h))
        (λ s' h'. ship_each_rule ship keeps keys s' h')

module _ (env : Env) (fuel : ℕ) (P : Icc → Type 0) where
  -- A share that passes the checks is counted, any other changes nothing.
  pub process_finalization_share_rule :
      (s : Icc) (fs : FinalizationShare)
      → P s
      → (s.is_finalized fs.block_id ≡ false → Returns P (count_finalization_share env fuel s fs))
      → Returns P (process_finalization_share env fuel s fs)
  unfolding process_finalization_share
  process_finalization_share_rule s fs same counts =
      Returns-if P (s.is_finalized fs.block_id) (ok s) _ (λ _. same)
        (λ fresh.
          Returns-then P (check_signature env.crypto s.id fs.signature fs.block_id fs.voter) _
            (λ valid _. Returns-if P valid _ (ok s) (λ _. counts fresh) (λ _. same)))

  pub process_notarization_share_rule :
      (s : Icc) (ns : NotarizationShare)
      → P s
      → (s.is_notarized ns.block_id ≡ false → Returns P (count_notarization_share env fuel s ns))
      → Returns P (process_notarization_share env fuel s ns)
  unfolding process_notarization_share
  process_notarization_share_rule s ns same counts =
      Returns-if P (s.is_notarized ns.block_id) (ok s) _ (λ _. same)
        (λ fresh.
          Returns-then P (check_signature env.crypto s.id ns.signature ns.block_id ns.voter) _
            (λ valid _. Returns-if P valid _ (ok s) (λ _. counts fresh) (λ _. same)))

  pub vote_block_rule :
      (s : Icc) (b : Block)
      → P s
      → (slt s.head_height b.height ≡ true → Returns P (send_notarization_share env fuel s b))
      → Returns P (vote_block env fuel s b)
  unfolding vote_block
  vote_block_rule s b same votes = Returns-if P _ _ (ok s) votes (λ _. same)

  pub finalize_block_rule :
      (s : Icc) (b : Block)
      → P s
      → (s.is_notarized b.id ≡ true
          → may_finalize s b.height b.id ≡ true
          → Returns P (send_finalization_share env fuel s b.height b.rank b.id))
      → Returns P (finalize_block env fuel s b)
  unfolding finalize_block
  finalize_block_rule s b same sends =
      Returns-if P _ _ (ok s) (λ c. sends (and_left _ _ c) (and_right _ _ c)) (λ _. same)

  pub settle_block_rule :
      (s : Icc) (b : Block)
      → P s
      → (contains s.ship_queue b.id ≡ true → Returns P (try_to_ship env fuel s b.id))
      → ((t : Icc) → P t → Returns P (vote_block env fuel t b))
      → ((t : Icc) → P t → Returns P (finalize_block env fuel t b))
      → Returns P (settle_block env fuel s b)
  unfolding settle_block
  settle_block_rule s b same ships votes finals =
      Returns-bind P P (if contains s.ship_queue b.id then try_to_ship env fuel s b.id else ok s) _
        (Returns-if P (contains s.ship_queue b.id) _ (ok s) ships (λ _. same))
        (λ t kept. Returns-bind P P (vote_block env fuel t b) _ (votes t kept) finals)

  abbrev Kept : Icc × Option BlockError → Type 0
  Kept r = P r.0

  pub process_block_rule :
      (s : Icc) (b : Block)
      → P s
      → (exists s.bc b.id ≡ false
          → is_leader s.election b.proposer b.height b.rank ≡ true
          → Returns P (settle_block env fuel (accept_block s b) b))
      → Returns (λ r. P r.0) (process_block env fuel s b)
  unfolding process_block
  process_block_rule s b same settles =
      Returns-if Kept (exists s.bc b.id) (ok (s, none)) _ (λ _. same)
        (λ new.
          Returns-if Kept (not (is_leader s.election b.proposer b.height b.rank))
            (ok (s, some invalid_leader)) _ (λ _. same)
            (λ leads. Returns-then Kept (check_proposer env fuel s b) _ (λ _ _.
              Returns-bind P Kept (settle_block env fuel (accept_block s b) b) _
                (settles new (ground arith)) (λ w kept. kept))))
