-- ===== src/Forest/Listed.antt =====
-- blockchain/leveled_forrest.go: `AddVertex` of a vertex above the lowest level, whose id is not known
-- at another level.
use banyan.Base.{
  ℕ, ◌<◌, ◌≡◌, ◌∙◌, subst, inl, inr, some, ◌==◌, if◌then◌else◌, arith, Option-cases, In,
}
use mathlib.Core.Option.{get_or}
use banyan.Forest.{
  Vertex, Forest, get_vertex, get_or_create_vertex_container, append_child, fill,
  register_with_parent, add_vertex,
}
use banyan.Forest.Invariant.{IsWellFormed, get_or_create-IsWellFormed}
use banyan.Forest.Lookup.{
  add_vertex-IsWellFormed, get_vertex-add_vertex, register_cases, add_vertex_cases,
  fill-IsWellFormed, get_or_create_found,
}

-- The container of the id is at the level.
abbrev HasLevel : {V : Type 0} → Forest V → ℕ → ℕ → Type 0
HasLevel f i l = (a : ℕ) × (f.vertices i ≡ some a) × ((f.cells a).level ≡ l)

-- The container of the id is listed at the level.
abbrev pub IsListed : {V : Type 0} → Forest V → ℕ → ℕ → Type 0
IsListed f i l = (a : ℕ) × (f.vertices i ≡ some a) × In a (f.vertices_at_level l)

module _ {V : Type 0} ⦃o : Vertex V⦄ (f : Forest V) (w : IsWellFormed o f) (i l : ℕ) where
  get_or_create-HasLevel :
      (j m : ℕ) → HasLevel f i l → HasLevel (get_or_create_vertex_container f j m).0 i l
  unfolding get_or_create_vertex_container
  get_or_create-HasLevel j m (a, h, e) = elim (Option-cases (f.vertices j)) [
    | inr (b, k) ↦ rw (k, get_or_create_vertex_container) (a, h, e)
    | inl k ↦
        rw (k, get_or_create_vertex_container)
          (a, ground (arith, h, k), ground (arith, w.bounded i a h, e))
  ]

  get_or_create-HasLevel_own :
      ((a : ℕ) → f.vertices i ≡ some a → (f.cells a).level ≡ l)
      → HasLevel (get_or_create_vertex_container f i l).0 i l
  unfolding get_or_create_vertex_container
  get_or_create-HasLevel_own same = elim (Option-cases (f.vertices i)) [
    | inr (a, k) ↦ rw (k, get_or_create_vertex_container) (a, k, same a k)
    | inl k ↦ rw (k, get_or_create_vertex_container) (f.next, ground (arith), ground (arith))
  ]

  append_child-HasLevel : (p a : ℕ) → HasLevel f i l → HasLevel (append_child f p a) i l
  append_child-HasLevel p a (b, h, e) = (b, h, ground (arith, e))

  fill-HasLevel : (a : ℕ) (v : V) → HasLevel f i l → HasLevel (fill f a v) i l
  fill-HasLevel a v (b, h, e) = (b, h, ground (arith, e))

module _ {V : Type 0} ⦃o : Vertex V⦄ (f : Forest V) (w : IsWellFormed o f) where
  register-HasLevel :
      (i l a : ℕ) (v : V) → HasLevel f i l → HasLevel (register_with_parent f a v) i l
  register-HasLevel i l a v h =
      register_cases f (λ g. HasLevel g i l) a v h
        (λ low.
          append_child-HasLevel _
            (get_or_create-IsWellFormed o f w (o.parent v).0 (o.parent v).1 low) i l _ a
            (get_or_create-HasLevel f w i l (o.parent v).0 (o.parent v).1 h))

module _ {V : Type 0} ⦃o : Vertex V⦄ (f : Forest V) (w : IsWellFormed o f) where
  add_vertex-HasLevel :
      (v : V)
      → f.lowest_level < o.level v
      → ((a : ℕ) → f.vertices (o.vertex_id v) ≡ some a → (f.cells a).level ≡ o.level v)
      → HasLevel (add_vertex f v) (o.vertex_id v) (o.level v)
  add_vertex-HasLevel v above same =
      let i = o.vertex_id v in
      let l = o.level v in
      let own = get_or_create-HasLevel_own f w i l same in
      add_vertex_cases f (λ g. HasLevel g i l) v (λ low. absurd (omega (arith, low, above)))
        (λ high.
          let made = get_or_create-IsWellFormed o f w i l high in
          (
            λ u e. own,
            λ e.
                register-HasLevel _ (fill-IsWellFormed o _ _ v made (get_or_create_found f i l)) i l
                  _ v (fill-HasLevel _ made i l _ v own),
          ))

  -- AddVertex, on a well-formed forest, of a vertex above the lowest level whose id is not known at
  -- another level: the first vertex of the id is kept or this one stored, what is read at every
  -- other id stays, and the container of the id is listed at the level of the vertex.
  pub get_vertex-add_vertex_above :
      (v : V)
      → f.lowest_level < o.level v
      → ((a : ℕ) → f.vertices (o.vertex_id v) ≡ some a → (f.cells a).level ≡ o.level v)
      → ((j : ℕ)
          → get_vertex (add_vertex f v) j
            ≡ (if o.vertex_id v == j then some (get_or (get_vertex f j) v) else get_vertex f j))
        × IsListed (add_vertex f v) (o.vertex_id v) (o.level v)
  get_vertex-add_vertex_above v above same =
      let (a, known, level) = add_vertex-HasLevel v above same in
      (
        λ j. get_vertex-add_vertex f w v j ∙ ground (arith, above),
        (
          a,
          known,
          subst (λ l. In a ((add_vertex f v).vertices_at_level l)) level
              ((add_vertex-IsWellFormed f w v).placed (o.vertex_id v) a known),
        ),
      )
