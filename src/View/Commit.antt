-- ===== src/View/Commit.antt =====
-- blockchain_view/blockchain.go: what `CommitBlock` commits, and which votes it forgets.
use banyan.Base.{
  ℕ, zero, suc, ◌+◌, ◌≤◌, ◌<◌, ◌≡◌, refl, sym, ap, subst, ◌∙◌, ◌⊎◌, inl, inr, List, [], ◌∷◌, ◌++◌,
  none, some, Bool, true, false, ltb, ltb→lt, ◌==◌, if◌then◌else◌, length, Word, ok, ◌>>=◌, Ends,
  arith, Bool-cases, Option-cases, Outcome-cases,
}
use mathlib.Core.List.{append-nil, append_assoc}
use banyan.Crypto.{Identifier}
use banyan.Forest.{Forest, pruned, level_too_low, get_vertex, prune_up_to_level}
use banyan.Forest.Invariant.{IsWellFormed}
use banyan.Forest.Lookup.{vertex_id-get_vertex}
use banyan.Forest.Stored.{level-get_vertex, prune_up_to_level_high}
use banyan.Forest.Levels.{
  IsLevelled, at_least, get_vertex-prune_up_to_level, prune_up_to_level-ends,
}
use banyan.View.{
  Block, block_vertex, BlockChain, Walk, walk_block, commit_walk, walked, CommitResult, commits,
  unknown_block, cannot_prune, lacks_qc, prune_chain, commit_block,
}

-- The blocks from `b` down along the parents that are stored, the newest first, without those at the
-- lowest level of the forest or below it.
abbrev pub IsPath : Forest Block → Block → List Block → Type 0
IsPath f b [] = b.view ≤ f.lowest_level
IsPath f b (x ∷ xs) =
    (x ≡ b)
    × (f.lowest_level < b.view)
    × (((get_vertex f b.prev_id ≡ none) × (xs ≡ []))
        ⊎ ((p : Block) × (get_vertex f b.prev_id ≡ some p) × IsPath f p xs))

-- Whether a block of the path has the id.
unfoldable pub on_path : List Block → Identifier → Bool
on_path [] id = false
on_path (b ∷ bs) id = let more = on_path bs id in if b.id == id then true else more

-- The walk appended and counted the path, and forgot the votes for its blocks.
pub record HasWalked (w : Walk) (path : List Block) (w' : Walk) : Type 0 where
  pub appended : w'.blocks ≡ w.blocks ++ path
  pub counted : w'.count ≡ w.count + length path
  pub forgotten : (id : Identifier) → w'.votes id ≡ (if on_path path id then none else w.votes id)

HasWalked-refl : (w : Walk) → HasWalked w [] w
unfolding on_path
HasWalked-refl w = record {
  appended = sym (append-nil w.blocks);
  counted = omega arith;
  forgotten = λ id. refl;
}

HasWalked-step :
    (view : Word) (w w' : Walk) (b : Block) (path : List Block)
    → HasWalked (walk_block view w b) path w'
    → HasWalked w (b ∷ path) w'
unfolding on_path walk_block
HasWalked-step view w w' b path h = record {
  appended = h.appended ∙ append_assoc w.blocks (b ∷ []) path;
  counted = omega (arith, h.counted);
  forgotten = λ id. ground (arith, h.forgotten id);
}

module _ (f : Forest Block) (w : IsWellFormed block_vertex f) (d : IsLevelled block_vertex f) where
  commit_walk-IsPath :
      (fuel : ℕ) (view : Word) (b : Block) (before : Walk)
      → get_vertex f b.id ≡ some b
      → b.view < fuel
      → (path : List Block) × (after : Walk) × (commit_walk fuel f view b before ≡ ok after)
        × HasWalked before path after
        × IsPath f b path
  unfolding commit_walk
  commit_walk-IsPath zero view b before stored enough = absurd (omega arith)
  commit_walk-IsPath (suc fuel) view b before stored enough =
      elim (Bool-cases (ltb f.lowest_level b.view)) [
        | inr low ↦
            ([], before, rw (commit_walk, low) refl, HasWalked-refl before, ground (arith, low))
        | inl high ↦ elim (Option-cases (get_vertex f b.prev_id)) [
          | inl e ↦ (
            b ∷ [],
            walk_block view before b,
            rw (commit_walk, high, e) refl,
            HasWalked-step view before (walk_block view before b) b []
                (HasWalked-refl (walk_block view before b)),
            (refl, ltb→lt f.lowest_level b.view high, inl (e, refl)),
          )
          | inr (p, e) ↦
              let lower = d.descending b.id b p stored e in
              let own : get_vertex f p.id ≡ some p =
                ap (get_vertex f) (vertex_id-get_vertex f w b.prev_id p e) ∙ e in
              let (path, after, run, has, is_path) =
                commit_walk-IsPath fuel view p (walk_block view before b) own
                  (omega (arith, enough, lower)) in
              (
                b ∷ path,
                after,
                rw (commit_walk, high, e) run,
                HasWalked-step view before after b path has,
                (refl, ltb→lt f.lowest_level b.view high, inr (p, e, is_path)),
              )
        ]
      ]

-- What `CommitBlock` returns for a stored block.
abbrev pub Commits : BlockChain → Block → BlockChain → CommitResult → Type 0
Commits bc b bc' unknown_block = ⊥
Commits bc b bc' cannot_prune = ⊥
Commits bc b bc' (commits blocks forked) =
    IsPath bc.forest b blocks
    × (bc'.committed_block_no ≡ bc.committed_block_no + length blocks)
    × (bc'.highest_committed ≡ b.view)
    × (bc'.forest.lowest_level ≡ b.view)
    × ((id : Identifier)
        → bc'.quorum.votes id ≡ (if on_path blocks id then none else bc.quorum.votes id))
    × ((j : ℕ) → get_vertex bc'.forest j ≡ at_least b.view (get_vertex bc.forest j))

abbrev pub CommitsPair : BlockChain → Block → BlockChain × CommitResult → Type 0
CommitsPair bc b (bc', r) = Commits bc b bc' r

-- CommitBlock by views of a stored block, on a well-formed and levelled forest and with more fuel
-- than its view, does not run out of fuel; unless it crashes, it commits the stored path from the
-- block down to the lowest level, counts it, forgets the votes for exactly its blocks, moves the
-- lowest level up to the block and drops exactly the blocks below.
pub commit_block-CommitsPair :
    (fuel : ℕ) (bc : BlockChain) (b : Block) (view : Word)
    → IsWellFormed block_vertex bc.forest
    → IsLevelled block_vertex bc.forest
    → get_vertex bc.forest b.id ≡ some b
    → b.view < fuel
    → Ends (CommitsPair bc b) (commit_block fuel bc b.id view)
unfolding commit_block walked prune_chain
commit_block-CommitsPair fuel bc b view w d stored enough =
    let (path, after, run, has, is_path) =
      commit_walk-IsPath bc.forest w d fuel view b
        (record {
          blocks = [];
          votes = bc.quorum.votes;
          count = bc.committed_block_no;
          intervals = bc.total_block_intervals;
        })
        stored enough in
    elim (Bool-cases (lacks_qc fuel bc.forest b.view)) [
      | inl lacks ↦ rw (commit_block, stored, run, ◌>>=◌, prune_chain, lacks, ◌>>=◌) tt
      | inr full ↦ elim (Outcome-cases (prune_up_to_level fuel bc.forest b.view)) [
        | inr (inr e) ↦ absurd (prune_up_to_level-ends bc.forest w d fuel b.view enough e)
        | inr (inl (x, e)) ↦ rw (commit_block, stored, run, ◌>>=◌, prune_chain, full, e, ◌>>=◌) tt
        | inl ((g, level_too_low), e) ↦ absurd (
            prune_up_to_level_high bc.forest fuel b.view g
              (level-get_vertex bc.forest w d b.id b stored) e)
        | inl ((g, pruned forked count), e) ↦
            let (w', l, same) =
              get_vertex-prune_up_to_level bc.forest w d fuel b.view g forked count e in
            rw (commit_block, stored, run, ◌>>=◌, prune_chain, full, e, ◌>>=◌)
              (
                subst (IsPath bc.forest b) (sym has.appended) is_path,
                has.counted ∙ ap (λ bs. bc.committed_block_no + length bs) (sym has.appended),
                refl,
                l,
                (λ id.
                    has.forgotten id
                    ∙ ap (λ bs. if on_path bs id then none else bc.quorum.votes id)
                        (sym has.appended)),
                same,
              )
      ]
    ]
