-- ===== src/Forest/Prune.antt =====
-- blockchain/leveled_forrest.go: `PruneUpToLevel`, with its two loops.
use banyan.Base.{
  ℕ, zero, suc, ◌+◌, ◌-◌, List, [], ◌∷◌, ◌++◌, Option, none, some, Bool, true, false, not, ◌&&◌,
  leb, ltb, if◌then◌else◌, update, Outcome, ok, panic, starved, ◌>>=◌, nil_dereference,
  index_out_of_range,
}
use banyan.Forest.Defs.{Vertex, Forest, get_vertex}

-- What `PruneUpToLevel` returns beside the forest. An error is a level below the lowest one.
pub data Pruned (V : Type 0) : Type 0 where
  pruned : List V → ℕ → Pruned V
  level_too_low : Pruned V

module _ {V : Type 0} where
  -- `f.verticesAtLevel[l][0].vertex`, a method of which is called next.
  unfoldable pub first_vertex : Forest V → ℕ → Outcome V
  first_vertex f l = elim (f.vertices_at_level l) [
    | [] ↦ panic index_out_of_range
    | a ∷ _ ↦ elim (f.cells a).vertex [ none ↦ panic nil_dereference | some v ↦ ok v ]
  ]

  -- One level of the second loop: the containers of the level leave the map by id, and the full
  -- ones of a forked level are collected.
  unfoldable pub prune_level :
      Forest V → Bool → List ℕ → (ℕ → Option ℕ) × List V × ℕ → (ℕ → Option ℕ) × List V × ℕ
  prune_level f forked [] acc = acc
  prune_level f forked (a ∷ rest) (vs, blocks, count) = prune_level f forked rest (
    update vs (f.cells a).id none,
    (if forked
        then elim (f.cells a).vertex [ none ↦ blocks | some v ↦ blocks ++ v ∷ [] ]
        else blocks),
    count + 1,
  )

  -- One round of the second loop.
  unfoldable pub prune_step : (ℕ → Bool) → ℕ → Forest V × List V × ℕ → Forest V × List V × ℕ
  prune_step committed l (f, blocks, count) =
      let (vs, blocks', count') =
        prune_level f (not (committed l) && ltb 1 l) (f.vertices_at_level l)
          (f.vertices, blocks, count) in
      (
        record f { vertices = vs; vertices_at_level = update f.vertices_at_level l [] },
        blocks',
        count',
      )

  -- The second loop, over `n` levels from `l` up.
  unfoldable pub prune_levels : (ℕ → Bool) → ℕ → ℕ → Forest V × List V × ℕ → Forest V × List V × ℕ
  prune_levels committed zero l acc = acc
  prune_levels committed (suc n) l acc =
      prune_levels committed n (l + 1) (prune_step committed l acc)

module _ {V : Type 0} ⦃o : Vertex V⦄ where
  -- The first loop: the levels of the committed chain below `l`. The fuel bounds the rounds.
  unfoldable pub committed_levels : ℕ → Forest V → ℕ → (ℕ → Bool) → Outcome (ℕ → Bool)
  committed_levels zero f l marks = starved
  committed_levels (suc fuel) f l marks = elim (leb f.lowest_level l && ltb 1 l) [
    | false ↦ ok marks
    | true ↦ first_vertex f l >>= λ v. elim (get_vertex f (o.parent v).0) [
      | none ↦ ok marks
      | some p ↦ elim (ltb (o.level p) f.lowest_level) [
        | true ↦ ok marks
        | false ↦ committed_levels fuel f (o.level p) (update marks (o.level p) true)
      ]
    ]
  ]

  unfoldable pub prune_up_to_level : ℕ → Forest V → ℕ → Outcome (Forest V × Pruned V)
  prune_up_to_level fuel f level =
      if ltb level f.lowest_level
      then ok (f, level_too_low)
      else (committed_levels fuel f level (λ _. false) >>= λ marks.
          let (g, blocks, count) =
            prune_levels marks (level - f.lowest_level) f.lowest_level (f, [], 0) in
          ok (record g { lowest_level = level }, pruned blocks count))
