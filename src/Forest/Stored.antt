-- ===== src/Forest/Stored.antt =====
-- blockchain/leveled_forrest.go: a stored vertex lies at the lowest level or above it, and so
-- `PruneUpToLevel` takes its level.
use banyan.Base.{
  ℕ, ◌≤◌, ◌≡◌, ◌≢◌, inl, inr, some, false, ltb, Outcome-cases, Option-cases, ok, ◌>>=◌, arith,
}
use banyan.Forest.{Vertex, Forest, level_too_low, get_vertex, committed_levels, prune_up_to_level}
use banyan.Forest.Invariant.{IsWellFormed}
use banyan.Forest.Lookup.{get_vertex_lem}
use banyan.Forest.Levels.{IsLevelled}

module _ {V : Type 0} ⦃o : Vertex V⦄ (f : Forest V) where
  pub level-get_vertex :
      IsWellFormed o f
      → IsLevelled o f
      → (i : ℕ) (v : V) → get_vertex f i ≡ some v
      → f.lowest_level ≤ o.level v
  level-get_vertex w d i v h = elim (Option-cases (f.vertices i)) [
    | inl e ↦ absurd (ground (arith, e, h, get_vertex_lem f i))
    | inr (a, e) ↦
        let held : (f.cells a).vertex ≡ some v = ground (arith, e, h, get_vertex_lem f i) in
        ground (arith, d.own_level i a v e held, w.levels i a e)
  ]

  pub prune_up_to_level_high :
      (fuel level : ℕ) (g : Forest V)
      → f.lowest_level ≤ level
      → prune_up_to_level fuel f level ≢ ok (g, level_too_low)
  unfolding prune_up_to_level
  prune_up_to_level_high fuel level g high =
      let not_below : ltb level f.lowest_level ≡ false = ground (arith, high) in
      elim (Outcome-cases (committed_levels fuel f level (λ _. false))) [
        | inl (marks, e) ↦ rw (prune_up_to_level, not_below, e, ◌>>=◌) (λ q. cc)
        | inr (inl (x, e)) ↦ rw (prune_up_to_level, not_below, e, ◌>>=◌) (λ q. cc)
        | inr (inr e) ↦ rw (prune_up_to_level, not_below, e, ◌>>=◌) (λ q. cc)
      ]
