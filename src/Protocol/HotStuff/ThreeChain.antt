-- ===== src/Protocol/HotStuff/ThreeChain.antt =====
-- protocol/hotstuff.go: the block that `commitRule` names, and when `votingRule` votes.
use banyan.Base.{◌≡◌, ◌↔◌, refl, sym, ap, ◌∙◌, inl, inr, some, add, arith, Option-cases}
use banyan.Crypto.{Identifier}
use banyan.Forest.{get_vertex}
use banyan.Forest.Invariant.{IsWellFormed}
use banyan.Forest.Lookup.{vertex_id-get_vertex}
use banyan.View.{Block, block_vertex, BlockChain, get_block_by_id, get_parent_block, Qc}
use banyan.Protocol.HotStuff.{HotStuff, commit_rule}

get_parent_block_found :
    (bc : BlockChain) (id : Identifier) (b : Block)
    → get_block_by_id bc id ≡ some b
    → get_parent_block bc id ≡ get_block_by_id bc b.prev_id
unfolding get_parent_block get_block_by_id
get_parent_block_found bc id b h = rw (get_parent_block, h) refl

get_parent_block_cases :
    (bc : BlockChain) (id : Identifier) (p : Block)
    → get_parent_block bc id ≡ some p
    → (b : Block) × (get_block_by_id bc id ≡ some b) × (get_block_by_id bc b.prev_id ≡ some p)
unfolding get_parent_block get_block_by_id
get_parent_block_cases bc id p h = elim (Option-cases (get_vertex bc.forest id)) [
  | inl e ↦ absurd (ground (arith, e, h))
  | inr (b, e) ↦ (b, e, ground (arith, e, h))
]

-- The certified block, its parent and its grandparent are stored, and the views of the ancestors and
-- of the certificate are consecutive.
abbrev pub IsThreeChain : BlockChain → Qc → Block → Type 0
IsThreeChain bc qc g =
    (b : Block) × (p : Block) × (get_block_by_id bc qc.block_id ≡ some b)
    × (get_block_by_id bc b.prev_id ≡ some p)
    × (get_block_by_id bc p.prev_id ≡ some g)
    × (add g.view 1 ≡ p.view)
    × (add p.view 1 ≡ qc.view)

module _ (s : HotStuff) (w : IsWellFormed block_vertex s.bc.forest) where
  parent_of_parent :
      (id : Identifier) (p : Block)
      → get_block_by_id s.bc id ≡ some p
      → get_parent_block s.bc p.id ≡ get_block_by_id s.bc p.prev_id
  unfolding get_block_by_id
  parent_of_parent id p h =
      get_parent_block_found s.bc p.id p
        (ap (get_vertex s.bc.forest) (vertex_id-get_vertex s.bc.forest w id p h) ∙ h)

  commit_rule_complete : (qc : Qc) (g : Block) → IsThreeChain s.bc qc g → commit_rule s qc ≡ some g
  unfolding commit_rule
  commit_rule_complete qc g (b, p, found, up, top, first, second) =
      rw
        (
          commit_rule,
          get_parent_block_found s.bc qc.block_id b found,
          up,
          parent_of_parent b.prev_id p up,
          top,
        )
        (ground (arith, first, second))

  commit_rule_sound : (qc : Qc) (g : Block) → commit_rule s qc ≡ some g → IsThreeChain s.bc qc g
  unfolding commit_rule
  commit_rule_sound qc g h = elim (Option-cases (get_parent_block s.bc qc.block_id)) [
    | inl e ↦ absurd (ground (arith, e, h))
    | inr (p, e) ↦ elim (Option-cases (get_parent_block s.bc p.id)) [
      | inl f ↦ absurd (ground (arith, e, f, h))
      | inr (q, f) ↦
          let (b, found, up) = get_parent_block_cases s.bc qc.block_id p e in
          let same : q ≡ g = ground (arith, e, f, h) in
          (
            b,
            p,
            found,
            up,
            sym (parent_of_parent b.prev_id p up) ∙ f ∙ ap some same,
            ground (arith, e, f, h),
            ground (arith, e, f, h),
          )
    ]
  ]

  -- On a well-formed forest, the commit rule of HotStuff names a block exactly when the certified
  -- block, its parent and this block as grandparent are stored, and the views of the block, the
  -- parent and the certificate are consecutive.
  pub commit_rule_iff : (qc : Qc) (g : Block) → (commit_rule s qc ≡ some g) ↔ IsThreeChain s.bc qc g
  commit_rule_iff qc g = (commit_rule_sound qc g, commit_rule_complete qc g)
