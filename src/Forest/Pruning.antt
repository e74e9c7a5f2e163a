-- ===== src/Forest/Pruning.antt =====
-- blockchain/leveled_forrest.go: the second loop of `PruneUpToLevel`.
use banyan.Base.{
  ℕ, zero, suc, ◌+◌, ◌≡◌, refl, ap, ◌≢◌, ◌∙◌, inl, inr, List, [], ◌∷◌, Option, none, some, Bool,
  true, false, not, ◌&&◌, ◌||◌, leb, ltb, ◌==◌, if◌then◌else◌, arith, Option-cases, Bool-cases, In,
  length,
}
use banyan.Forest.{Vertex, Container, Forest, prune_level, prune_step, prune_levels}
use banyan.Forest.Invariant.{IsWellFormed}

-- Some container of the list has the id.
abbrev id_in : {V : Type 0} → Forest V → ℕ → List ℕ → Bool
id_in f j [] = false
id_in f j (a ∷ rest) = (f.cells a).id == j || id_in f j rest

id_in-In :
    {V : Type 0} (f : Forest V) (j a : ℕ) (l : List ℕ)
    → In a l
    → (f.cells a).id ≡ j
    → id_in f j l ≡ true
id_in-In f j a (b ∷ l) (inl e) h = ground arith
id_in-In f j a (b ∷ l) (inr m) h = ground (arith, id_in-In f j a l m h)
id_in-In f j a [] m h = absurd m

In-id_in :
    {V : Type 0} (f : Forest V) (j : ℕ) (l : List ℕ)
    → id_in f j l ≡ true
    → (a : ℕ) × In a l × ((f.cells a).id ≡ j)
In-id_in f j [] h = absurd (cc)
In-id_in f j (b ∷ l) h = elim (Bool-cases ((f.cells b).id == j)) [
  | inl e ↦ (b, inl refl, ground arith)
  | inr n ↦ let (a, m, e) = In-id_in f j l (rw n at h) in (a, inr m, e)
]

module _ {V : Type 0} (f : Forest V) (forked : Bool) where
  prune_level-vertices :
      (l : List ℕ) (vs : ℕ → Option ℕ) (bs : List V) (c j : ℕ)
      → (prune_level f forked l (vs, bs, c)).0 j ≡ (if id_in f j l then none else vs j)
  unfolding prune_level
  prune_level-vertices [] vs bs c j = refl
  prune_level-vertices (a ∷ l) vs bs c j = prune_level-vertices l _ _ _ j ∙ ground arith

  prune_level-count :
      (l : List ℕ) (vs : ℕ → Option ℕ) (bs : List V) (c : ℕ)
      → (prune_level f forked l (vs, bs, c)).2 ≡ c + length l
  unfolding prune_level
  prune_level-count [] vs bs c = omega arith
  prune_level-count (a ∷ l) vs bs c = prune_level-count l _ _ (c + 1) ∙ omega arith

-- What is left of an entry when the levels from `l` up to `l + n` go.
abbrev pub kept : {V : Type 0} → Forest V → ℕ → ℕ → Option ℕ → Option ℕ
kept f l n none = none
kept f l n (some a) =
    if leb l (f.cells a).level && ltb (f.cells a).level (l + n) then none else some a

module _ {V : Type 0} (o : Vertex V) (committed : ℕ → Bool) where
  abbrev step_of : ℕ → Forest V → List V → ℕ → Forest V
  step_of l f bs c = (prune_step committed l (f, bs, c)).0

  module _ (f : Forest V) (w : IsWellFormed o f) (bs : List V) (c l : ℕ) where
    -- An id is in the level's list exactly when its container has that level.
    id_in-level :
        (j a : ℕ)
        → f.vertices j ≡ some a
        → id_in f j (f.vertices_at_level l) ≡ ((f.cells a).level == l)
    id_in-level j a h = elim (Bool-cases (id_in f j (f.vertices_at_level l))) [
      | inl e ↦
          let (b, m, same) = In-id_in f j (f.vertices_at_level l) e in
          ground (arith, w.listed_id l b m, w.listed_level l b m)
      | inr n ↦ elim (Bool-cases ((f.cells a).level == l)) [
        | inl q ↦
            let here : (f.cells a).level ≡ l = ground arith in
            ground (
              arith,
              id_in-In f j a (f.vertices_at_level l) (rw here at (w.placed j a h)) (w.keyed j a h),
            )
        | inr q ↦ ground arith
      ]
    ]

    step-vertices :
        (j a : ℕ)
        → f.vertices j ≡ some a
        → (step_of l f bs c).vertices j ≡ (if (f.cells a).level == l then none else some a)
    unfolding prune_step
    step-vertices j a h =
        prune_level-vertices f _ (f.vertices_at_level l) f.vertices bs c j
        ∙ rw (id_in-level j a h, h) refl

    step-only :
        (j a : ℕ)
        → (step_of l f bs c).vertices j ≡ some a
        → (f.vertices j ≡ some a) × ((f.cells a).level ≢ l)
    unfolding prune_step
    step-only j a h = ground (
      arith,
      prune_level-vertices f (not (committed l) && ltb 1 l) (f.vertices_at_level l) f.vertices bs c
          j,
      id_in-level j a,
    )

    step-IsWellFormed : IsWellFormed o (step_of l f bs c)
    unfolding prune_step
    step-IsWellFormed = record {
      bounded = λ i a h. w.bounded i a (step-only i a h).0;
      keyed = λ i a h. w.keyed i a (step-only i a h).0;
      levels = λ i a h. w.levels i a (step-only i a h).0;
      placed = λ i a h. ground (arith, step-only i a h, w.placed i a);
      listed = λ k a m. ground (arith, w.listed k a);
      listed_level = λ k a m. ground (arith, w.listed_level k a);
      listed_id = λ k a m.
          ground (arith, w.listed_id k a, w.listed_level k a, step-vertices (f.cells a).id a);
      named = λ i a v h e. w.named i a v (step-only i a h).0 e;
    }

  step-cells : (f : Forest V) (bs : List V) (c l : ℕ) → (step_of l f bs c).cells ≡ f.cells
  unfolding prune_step
  step-cells f bs c l = refl

  step_kept :
      (n l : ℕ) (f : Forest V) (w : IsWellFormed o f) (bs : List V) (c j : ℕ)
      → kept (step_of l f bs c) (l + 1) n ((step_of l f bs c).vertices j)
        ≡ kept f l (suc n) (f.vertices j)
  step_kept n l f w bs c j = elim (Option-cases (f.vertices j)) [
    | inr (a, h) ↦
        rw (step-vertices f w bs c l j a h, h)
          (ground (arith, ap (λ (g : ℕ → Container V). (g a).level) (step-cells f bs c l)))
    | inl h ↦ elim (Option-cases ((step_of l f bs c).vertices j)) [
      | inl e ↦ rw (e, h) refl
      | inr (a, e) ↦ absurd (ground (arith, step-only f w bs c l j a e))
    ]
  ]

  -- The loop touches no container.
  pub levels-cells :
      (n l : ℕ) (f : Forest V) (bs : List V) (c : ℕ)
      → ((prune_levels committed n l (f, bs, c)).0.cells ≡ f.cells)
        × ((prune_levels committed n l (f, bs, c)).0.lowest_level ≡ f.lowest_level)
  unfolding prune_levels prune_step
  levels-cells zero l f bs c = (refl, refl)
  levels-cells (suc n) l f bs c = levels-cells n (l + 1) _ _ _

  pub levels-IsWellFormed :
      (n l : ℕ) (f : Forest V) (bs : List V) (c : ℕ)
      → IsWellFormed o f
      → IsWellFormed o (prune_levels committed n l (f, bs, c)).0
  unfolding prune_levels
  levels-IsWellFormed zero l f bs c w = w
  levels-IsWellFormed (suc n) l f bs c w =
      levels-IsWellFormed n (l + 1) _ _ _ (step-IsWellFormed f w bs c l)

  pub levels-vertices :
      (n l : ℕ) (f : Forest V) (bs : List V) (c : ℕ)
      → IsWellFormed o f
      → (j : ℕ) → (prune_levels committed n l (f, bs, c)).0.vertices j ≡ kept f l n (f.vertices j)
  unfolding prune_levels
  levels-vertices zero l f bs c w j = ground arith
  levels-vertices (suc n) l f bs c w j =
      levels-vertices n (l + 1) _ _ _ (step-IsWellFormed f w bs c l) j ∙ step_kept n l f w bs c j
