-- ===== src/Chain/Commit.antt =====
-- blockchain/blockchain.go: what `CommitBlock` commits.
use banyan.Base.{
  ℕ, zero, suc, ◌+◌, ◌≤◌, ◌<◌, ◌≡◌, refl, ap, ◌∙◌, ◌⊎◌, inl, inr, List, [], ◌∷◌, ◌++◌, none, some,
  true, ltb, ltb→lt, length, ok, ◌>>=◌, Ends, is_ok, arith, Bool-cases, Option-cases, Outcome-cases,
}
use mathlib.Core.List.{append-nil, append_assoc}
use banyan.Forest.{Forest, pruned, level_too_low, get_vertex, prune_up_to_level}
use banyan.Forest.Invariant.{IsWellFormed}
use banyan.Forest.Lookup.{vertex_id-get_vertex}
use banyan.Forest.Stored.{level-get_vertex, prune_up_to_level_high}
use banyan.Forest.Levels.{
  IsLevelled, at_least, prune_up_to_level-IsLevelled, get_vertex-prune_up_to_level,
  prune_up_to_level-ends,
}
use banyan.Chain.{
  Block, block_vertex, BlockChain, CommitResult, commits, unknown_block, cannot_prune, commit_walk,
  commit_block,
}

-- The blocks from `b` down along the parents that are stored, the newest first, without those at the
-- lowest level of the forest or below it.
abbrev pub IsPath : Forest Block → Block → List Block → Type 0
IsPath f b [] = b.height ≤ f.lowest_level
IsPath f b (x ∷ xs) =
    (x ≡ b)
    × (f.lowest_level < b.height)
    × (((get_vertex f b.prev_id ≡ none) × (xs ≡ []))
        ⊎ ((p : Block) × (get_vertex f b.prev_id ≡ some p) × IsPath f p xs))

one_more : (count : ℕ) (path : List Block) → (count + 1) + length path ≡ count + suc (length path)
one_more count path = omega arith

module _ (f : Forest Block) (w : IsWellFormed block_vertex f) (d : IsLevelled block_vertex f) where
  commit_walk-IsPath :
      (fuel : ℕ) (b : Block) (blocks : List Block) (count : ℕ)
      → get_vertex f b.id ≡ some b
      → b.height < fuel
      → (path : List Block) × (commit_walk fuel f b (blocks, count)
          ≡ ok (blocks ++ path, count + length path))
        × IsPath f b path
  unfolding commit_walk
  commit_walk-IsPath zero b blocks count stored enough = absurd (omega arith)
  commit_walk-IsPath (suc fuel) b blocks count stored enough =
      elim (Bool-cases (ltb f.lowest_level b.height)) [
        | inr low ↦ (
          [],
          rw (commit_walk, low, append-nil blocks) (ap (λ c. ok (blocks, c)) (omega arith)),
          ground (arith, low),
        )
        | inl high ↦ elim (Option-cases (get_vertex f b.prev_id)) [
          | inl e ↦ (
            b ∷ [],
            rw (commit_walk, high, e) refl,
            (refl, ltb→lt f.lowest_level b.height high, inl (e, refl)),
          )
          | inr (p, e) ↦
              let lower = d.descending b.id b p stored e in
              let own : get_vertex f p.id ≡ some p =
                ap (get_vertex f) (vertex_id-get_vertex f w b.prev_id p e) ∙ e in
              let (path, run, is_path) =
                commit_walk-IsPath fuel p (blocks ++ b ∷ []) (count + 1) own
                  (omega (arith, lower)) in
              (
                b ∷ path,
                rw (commit_walk, high, e)
                    (run ∙ (λ i. ok (append_assoc blocks (b ∷ []) path i, one_more count path i))),
                (refl, ltb→lt f.lowest_level b.height high, inr (p, e, is_path)),
              )
        ]
      ]

-- What `commit_block` returns for a stored block.
abbrev pub Commits : BlockChain → Block → BlockChain → CommitResult → Type 0
Commits bc b bc' unknown_block = ⊥
Commits bc b bc' cannot_prune = ⊥
Commits bc b bc' (commits blocks forked) =
    IsPath bc.forest b blocks
    × (bc'.committed_block_no ≡ bc.committed_block_no + length blocks)
    × (bc'.highest_committed ≡ b.height)
    × IsWellFormed block_vertex bc'.forest
    × IsLevelled block_vertex bc'.forest
    × (bc'.forest.lowest_level ≡ b.height)
    × ((j : ℕ) → get_vertex bc'.forest j ≡ at_least b.height (get_vertex bc.forest j))

abbrev pub CommitsPair : BlockChain → Block → BlockChain × CommitResult → Type 0
CommitsPair bc b (bc', r) = Commits bc b bc' r

-- CommitBlock of a stored block, on a well-formed and levelled forest and with more fuel than its
-- height, does not run out of fuel; unless it crashes, it commits the stored path from the block
-- down to the lowest level, counts it, leaves a well-formed and levelled forest that has the
-- block's height as lowest level, and drops exactly the blocks below.
pub commit_block-Commits :
    (fuel : ℕ) (bc : BlockChain) (b : Block)
    → IsWellFormed block_vertex bc.forest
    → IsLevelled block_vertex bc.forest
    → get_vertex bc.forest b.id ≡ some b
    → b.height < fuel
    → Ends (CommitsPair bc b) (commit_block fuel bc b.id)
unfolding commit_block
commit_block-Commits fuel bc b w d stored enough =
    let (path, run, is_path) =
      commit_walk-IsPath bc.forest w d fuel b [] bc.committed_block_no stored enough in
    elim (Outcome-cases (prune_up_to_level fuel bc.forest b.height)) [
      | inr (inr e) ↦ absurd (prune_up_to_level-ends bc.forest w d fuel b.height enough e)
      | inr (inl (x, e)) ↦ rw (commit_block, stored, run, ◌>>=◌, e, ◌>>=◌) tt
      | inl ((g, level_too_low), e) ↦ absurd (
          prune_up_to_level_high bc.forest fuel b.height g
            (level-get_vertex bc.forest w d b.id b stored) e)
      | inl ((g, pruned forked count), e) ↦
          let (w', l, same) =
            get_vertex-prune_up_to_level bc.forest w d fuel b.height g forked count e in
          rw (commit_block, stored, run, ◌>>=◌, e, ◌>>=◌)
            (
              is_path,
              refl,
              refl,
              w',
              prune_up_to_level-IsLevelled bc.forest w d fuel b.height g forked count e,
              l,
              same,
            )
    ]

-- It crashes only where the pruning does.
pub commit_block-is_ok :
    (fuel : ℕ) (bc : BlockChain) (b : Block)
    → IsWellFormed block_vertex bc.forest
    → IsLevelled block_vertex bc.forest
    → get_vertex bc.forest b.id ≡ some b
    → b.height < fuel
    → is_ok (prune_up_to_level fuel bc.forest b.height) ≡ true
    → (bc' : BlockChain) × (path : List Block) × (forked : List Block) × (commit_block fuel bc b.id
        ≡ ok (bc', commits path forked))
      × Commits bc b bc' (commits path forked)
unfolding commit_block
commit_block-is_ok fuel bc b w d stored enough prunes =
    let (path, run, is_path) =
      commit_walk-IsPath bc.forest w d fuel b [] bc.committed_block_no stored enough in
    elim (Outcome-cases (prune_up_to_level fuel bc.forest b.height)) [
      | inr (inr e) ↦ absurd (ground (arith, e, prunes))
      | inr (inl (x, e)) ↦ absurd (ground (arith, e, prunes))
      | inl ((g, level_too_low), e) ↦ absurd (
          prune_up_to_level_high bc.forest fuel b.height g
            (level-get_vertex bc.forest w d b.id b stored) e)
      | inl ((g, pruned forked count), e) ↦
          let (w', l, same) =
            get_vertex-prune_up_to_level bc.forest w d fuel b.height g forked count e in
          (
            record {
              forest = g;
              highest_committed = b.height;
              committed_block_no = bc.committed_block_no + length path;
              pruned_block_no = bc.pruned_block_no + count;
            },
            path,
            forked,
            rw (commit_block, stored, run, ◌>>=◌, e, ◌>>=◌) refl,
            (
              is_path,
              refl,
              refl,
              w',
              prune_up_to_level-IsLevelled bc.forest w d fuel b.height g forked count e,
              l,
              same,
            ),
          )
    ]
