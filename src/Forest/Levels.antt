-- ===== src/Forest/Levels.antt =====
-- blockchain/leveled_forrest.go: `PruneUpToLevel` as a whole.
use banyan.Base.{
  ℕ, zero, suc, ◌-◌, ◌≤◌, ◌<◌, ◌≡◌, refl, subst, sym, ◌≢◌, ◌∙◌, inl, inr, List, [], Option, none,
  some, Bool, false, ◌&&◌, leb, ltb, if◌then◌else◌, arith, Option-cases, Bool-cases, In, List-cases,
  Outcome-cases, ok, starved, ◌>>=◌, >>=-eq-ok,
}
use banyan.Forest.{
  Vertex, Container, Forest, pruned, first_vertex, prune_levels, committed_levels,
  prune_up_to_level, get_vertex,
}
use banyan.Forest.Invariant.{IsWellFormed}
use banyan.Forest.Lookup.{get_vertex_lem}
use banyan.Forest.Pruning.{kept, levels-cells, levels-IsWellFormed, levels-vertices}

-- Every stored vertex has the level of its container, and a stored parent lies strictly lower.
pub record IsLevelled {V : Type 0} (o : Vertex V) (f : Forest V) : Type 0 where
  pub own_level :
      (i a : ℕ) (v : V)
      → f.vertices i ≡ some a
      → (f.cells a).vertex ≡ some v
      → o.level v ≡ (f.cells a).level
  pub descending :
      (i : ℕ) (v u : V)
      → get_vertex f i ≡ some v
      → get_vertex f (o.parent v).0 ≡ some u
      → o.level u < o.level v

-- The vertices at or above a level.
abbrev pub at_least : {V : Type 0} ⦃o : Vertex V⦄ → ℕ → Option V → Option V
at_least n none = none
at_least ⦃o⦄ n (some v) = if leb n (o.level v) then some v else none

module _ {V : Type 0} ⦃o : Vertex V⦄ (f : Forest V) (w : IsWellFormed o f) where
  first_vertex-level :
      IsLevelled o f
      → (l : ℕ) (v : V) → first_vertex f l ≡ ok v
      → (o.level v ≡ l) × (get_vertex f (o.vertex_id v) ≡ some v)
  unfolding first_vertex
  first_vertex-level d l v h = elim (List-cases (f.vertices_at_level l)) [
    | inl e ↦ absurd (ground (arith, e))
    | inr (a, rest, e) ↦
        let listed : In a (f.vertices_at_level l) = rw e (inl refl) in
        let known = w.listed_id l a listed in
        let held : (f.cells a).vertex ≡ some v = ground (arith, e) in
        let named = w.named (f.cells a).id a v known held in
        (
          d.own_level (f.cells a).id a v known held ∙ w.listed_level l a listed,
          rw (named, get_vertex_lem, known) held,
        )
  ]

  first_vertex-ends : (l : ℕ) → first_vertex f l ≢ starved
  unfolding first_vertex
  first_vertex-ends l = ground arith

  -- With more fuel than the level, the walk over the committed chain ends.
  committed_levels-ends :
      IsLevelled o f
      → (fuel l : ℕ) (marks : ℕ → Bool) → l < fuel
      → committed_levels fuel f l marks ≢ starved
  unfolding committed_levels
  committed_levels-ends d zero l marks h = elim h [ ]
  committed_levels-ends d (suc fuel) l marks h =
      elim (Bool-cases (leb f.lowest_level l && ltb 1 l)) [
        | inr out ↦ rw (out, committed_levels) (λ e. cc)
        | inl go ↦ elim (Outcome-cases (first_vertex f l)) [
          | inr (inr e) ↦ absurd (first_vertex-ends l e)
          | inr (inl (x, e)) ↦ rw (go, e, committed_levels) (λ q. cc)
          | inl (v, e) ↦ elim (Option-cases (get_vertex f (o.parent v).0)) [
            | inl root ↦ rw (go, committed_levels, e, ◌>>=◌, root) (λ q. cc)
            | inr (u, up) ↦ elim (Bool-cases (ltb (o.level u) f.lowest_level)) [
              | inl low ↦ rw (go, committed_levels, e, ◌>>=◌, up, low) (λ q. cc)
              | inr high ↦
                  let at_l = first_vertex-level d l v e in
                  rw (go, committed_levels, e, ◌>>=◌, up, high)
                    (committed_levels-ends d fuel (o.level u) _
                      (omega (arith, at_l.0, d.descending (o.vertex_id v) v u at_l.1 up)))
            ]
          ]
        ]
      ]

  -- The forest after the second loop.
  cut : (ℕ → Bool) → ℕ → Forest V
  cut marks level =
      record (prune_levels marks (level - f.lowest_level) f.lowest_level (f, [], 0)).0 {
        lowest_level = level;
      }

  cut-vertices :
      (marks : ℕ → Bool) (level j : ℕ)
      → (cut marks level).vertices j ≡ kept f f.lowest_level (level - f.lowest_level) (f.vertices j)
  unfolding cut
  cut-vertices marks level j =
      levels-vertices o marks (level - f.lowest_level) f.lowest_level f [] 0 w j

  cut-cells : (marks : ℕ → Bool) (level : ℕ) → (cut marks level).cells ≡ f.cells
  unfolding cut
  cut-cells marks level = (levels-cells o marks (level - f.lowest_level) f.lowest_level f [] 0).0

  cut_high :
      (marks : ℕ → Bool) (level i a : ℕ)
      → f.lowest_level ≤ level
      → (cut marks level).vertices i ≡ some a
      → level ≤ (f.cells a).level
  cut_high marks level i a low h = elim (Option-cases (f.vertices i)) [
    | inl e ↦ absurd (ground (arith, cut-vertices marks level i, e))
    | inr (b, e) ↦ ground (arith, cut-vertices marks level i, e, w.levels i b e)
  ]

  cut-IsWellFormed :
      (marks : ℕ → Bool) (level : ℕ) → f.lowest_level ≤ level → IsWellFormed o (cut marks level)
  unfolding cut
  cut-IsWellFormed marks level low =
      let left = levels-IsWellFormed o marks (level - f.lowest_level) f.lowest_level f [] 0 w in
      record {
        bounded = left.bounded;
        keyed = left.keyed;
        levels = λ i a h.
            subst (λ (g : ℕ → Container V). level ≤ (g a).level) (sym (cut-cells marks level))
              (cut_high marks level i a low h);
        placed = left.placed;
        listed = left.listed;
        listed_level = left.listed_level;
        listed_id = left.listed_id;
        named = left.named;
      }

  get_vertex-cut :
      IsLevelled o f
      → (marks : ℕ → Bool) (level j : ℕ) → f.lowest_level ≤ level
      → get_vertex (cut marks level) j ≡ at_least level (get_vertex f j)
  get_vertex-cut d marks level j low =
      rw
        (
          get_vertex_lem (cut marks level) j,
          get_vertex_lem f j,
          cut-vertices marks level j,
          cut-cells marks level,
        )
        (elim (Option-cases (f.vertices j)) [
          | inl e ↦ rw e refl
          | inr (a, e) ↦ elim (Option-cases (f.cells a).vertex) [
            | inl q ↦ rw e (ground arith)
            | inr (v, q) ↦ rw e (ground (arith, d.own_level j a v e q, w.levels j a e))
          ]
        ])

  -- In a well-formed forest whose vertices have the levels of their containers and parents on lower
  -- levels, after a successful PruneUpToLevel the lowest level is the one asked for, the forest is
  -- well formed, and exactly the vertices below the level are gone.
  pub get_vertex-prune_up_to_level :
      IsLevelled o f
      → (fuel level : ℕ) (g : Forest V) (blocks : List V) (count : ℕ)
      → prune_up_to_level fuel f level ≡ ok (g, pruned blocks count)
      → IsWellFormed o g
        × (g.lowest_level ≡ level)
        × ((j : ℕ) → get_vertex g j ≡ at_least level (get_vertex f j))
  unfolding prune_up_to_level cut
  get_vertex-prune_up_to_level d fuel level g blocks count h =
      elim (Bool-cases (ltb level f.lowest_level)) [
        | inl low ↦ absurd (ground (arith, low))
        | inr high ↦
            let (marks, walked, e) =
              >>=-eq-ok (committed_levels fuel f level (λ _. false)) _ (rw high at h) in
            let low : f.lowest_level ≤ level = ground arith in
            let same : g ≡ cut marks level = cc in
            rw same
              (cut-IsWellFormed marks level low, refl, λ j. get_vertex-cut d marks level j low)
      ]

  pub prune_up_to_level-IsLevelled :
      IsLevelled o f
      → (fuel level : ℕ) (g : Forest V) (blocks : List V) (count : ℕ)
      → prune_up_to_level fuel f level ≡ ok (g, pruned blocks count)
      → IsLevelled o g
  unfolding prune_up_to_level cut
  prune_up_to_level-IsLevelled d fuel level g blocks count h =
      let (_, _, found) = get_vertex-prune_up_to_level d fuel level g blocks count h in
      elim (Bool-cases (ltb level f.lowest_level)) [
        | inl low ↦ absurd (ground (arith, low))
        | inr high ↦
            let (marks, walked, e) =
              >>=-eq-ok (committed_levels fuel f level (λ _. false)) _ (rw high at h) in
            let same : g ≡ cut marks level = cc in
            record {
              own_level = λ i a v known held. ground (
                arith,
                same,
                known,
                held,
                cut-vertices marks level i,
                cut-cells marks level,
                d.own_level i a v,
              );
              descending = λ i v u below above.
                  ground (arith, found i, found (o.parent v).0, below, above, d.descending i v u);
            }
      ]

  -- In a well-formed forest whose vertices have the levels of their containers and parents on lower
  -- levels, more fuel than the level asked for is enough for PruneUpToLevel.
  pub prune_up_to_level-ends :
      IsLevelled o f → (fuel level : ℕ) → level < fuel → prune_up_to_level fuel f level ≢ starved
  unfolding prune_up_to_level
  prune_up_to_level-ends d fuel level enough = elim (Bool-cases (ltb level f.lowest_level)) [
    | inl low ↦ rw low (λ e. cc)
    | inr high ↦ elim (Outcome-cases (committed_levels fuel f level (λ _. false))) [
      | inl (marks, e) ↦ rw (high, e, ◌>>=◌) (λ q. cc)
      | inr (inl (x, e)) ↦ rw (high, e, ◌>>=◌) (λ q. cc)
      | inr (inr e) ↦ absurd (committed_levels-ends d fuel level (λ _. false) enough e)
    ]
  ]
