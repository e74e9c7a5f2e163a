-- ===== src/Forest/Lookup.antt =====
-- blockchain/leveled_forrest.go: `AddVertex`, and what `GetVertex` reads after it.
use banyan.Base.{
  ℕ, ◌≤◌, ◌<◌, ◌≡◌, refl, ◌∙◌, inl, inr, Option, none, some, true, ◌&&◌, leb, ltb, ◌==◌,
  if◌then◌else◌, arith, Option-cases, Bool-cases,
}
use mathlib.Core.Option.{get_or}
use banyan.Forest.{
  Vertex, Forest, get_vertex, has_vertex, get_or_create_vertex_container, append_child, fill,
  register_with_parent, add_vertex, is_empty_container,
}
use banyan.Forest.Invariant.{IsWellFormed, write-IsWellFormed, get_or_create-IsWellFormed}

-- The container's vertex, if the id is known: an empty container reads as no vertex.
abbrev vertex_at : {V : Type 0} → Forest V → Option ℕ → Option V
vertex_at f none = none
vertex_at f (some a) = (f.cells a).vertex

pub get_vertex_lem :
    {V : Type 0} (f : Forest V) (i : ℕ) → get_vertex f i ≡ vertex_at f (f.vertices i)
unfolding get_vertex
get_vertex_lem f i = ground arith

pub has_vertex-get_vertex :
    {V : Type 0} (f : Forest V) (i : ℕ) {v : V} → get_vertex f i ≡ some v → has_vertex f i ≡ true
unfolding get_vertex has_vertex
has_vertex-get_vertex f i h = ground arith

pub get_vertex-has_vertex :
    {V : Type 0} (f : Forest V) (i : ℕ)
    → has_vertex f i ≡ true
    → (v : V) × (get_vertex f i ≡ some v)
unfolding get_vertex has_vertex
get_vertex-has_vertex f i h = elim (Option-cases (vertex_at f (f.vertices i))) [
  | inr (v, e) ↦ (v, get_vertex_lem f i ∙ e)
  | inl e ↦ absurd (ground (arith, e))
]

-- `append` to the children of a container hides no vertex.
get_vertex-append_child :
    {V : Type 0} (f : Forest V) (p a j : ℕ) → get_vertex (append_child f p a) j ≡ get_vertex f j
get_vertex-append_child f p a j =
    rw (get_vertex_lem (append_child f p a) j, get_vertex_lem f j) (ground arith)

module _ {V : Type 0} ⦃o : Vertex V⦄ (f : Forest V) where
  pub get_or_create_found :
      (id level : ℕ)
      → let (g, a) = get_or_create_vertex_container f id level in g.vertices id ≡ some a
  unfolding get_or_create_vertex_container
  get_or_create_found id level = ground arith

  -- A new child is registered nowhere, or with the container of its parent.
  pub register_cases :
      (P : Forest V → Type 0) (a : ℕ) (v : V)
      → P f
      → (f.lowest_level ≤ (o.parent v).1
          → let (g, p) = get_or_create_vertex_container f (o.parent v).0 (o.parent v).1 in
            P (append_child g p a))
      → P (register_with_parent f a v)
  unfolding register_with_parent
  register_cases P a v skip link = elim (Bool-cases (leb (f.cells a).level f.lowest_level)) [
    | inl low ↦ rw low skip
    | inr high ↦ elim (Bool-cases (ltb (o.parent v).1 f.lowest_level)) [
      | inl low ↦ rw (high, low) skip
      | inr fits ↦ rw (high, fits) (link (ground arith))
    ]
  ]

  -- A vertex is ignored below the lowest level, kept out by an earlier one, or stored.
  pub add_vertex_cases :
      (P : Forest V → Type 0) (v : V)
      → (o.level v < f.lowest_level → P f)
      → (f.lowest_level ≤ o.level v
          → let (g, a) = get_or_create_vertex_container f (o.vertex_id v) (o.level v) in
            ((w : V) → (g.cells a).vertex ≡ some w → P g)
            × ((g.cells a).vertex ≡ none → P (register_with_parent (fill g a v) a v)))
      → P (add_vertex f v)
  unfolding add_vertex
  add_vertex_cases P v low high = elim (Bool-cases (ltb (o.level v) f.lowest_level)) [
    | inl e ↦ rw e (low (ground arith))
    | inr n ↦ rw n (elim (Option-cases (g.cells a).vertex) [
      | inr (w, e) ↦ rw (e, is_empty_container) ((high (ground arith)).0 w e)
      | inl e ↦ rw (e, is_empty_container) ((high (ground arith)).1 e)
    ])
  ]
    where
      g : Forest V
      g = (get_or_create_vertex_container f (o.vertex_id v) (o.level v)).0

      a : ℕ
      a = (get_or_create_vertex_container f (o.vertex_id v) (o.level v)).1

module _ {V : Type 0} ⦃o : Vertex V⦄ (f : Forest V) (w : IsWellFormed o f) where
  pub vertex_id-get_vertex : (i : ℕ) (v : V) → get_vertex f i ≡ some v → o.vertex_id v ≡ i
  vertex_id-get_vertex i v h = elim (Option-cases (f.vertices i)) [
    | inl e ↦ absurd (ground (arith, e, get_vertex_lem f i))
    | inr (a, e) ↦ w.named i a v e (ground (arith, e, h, get_vertex_lem f i))
  ]

  get_vertex-get_or_create :
      (id level j : ℕ) → get_vertex (get_or_create_vertex_container f id level).0 j ≡ get_vertex f j
  unfolding get_or_create_vertex_container
  get_vertex-get_or_create id level j = elim (Option-cases (f.vertices id)) [
    | inr (a, h) ↦ rw (h, get_or_create_vertex_container) refl
    | inl h ↦
        rw (h, get_or_create_vertex_container)
          (rw (get_vertex_lem _ j, get_vertex_lem f j)
            (elim (Option-cases (f.vertices j)) [
              | inl e ↦ ground arith
              | inr (b, e) ↦ ground (arith, w.bounded j b e)
            ]))
  ]

  get_vertex-fill :
      (a j : ℕ) (v : V)
      → f.vertices (o.vertex_id v) ≡ some a
      → get_vertex (fill f a v) j ≡ (if o.vertex_id v == j then some v else get_vertex f j)
  get_vertex-fill a j v h =
      rw (get_vertex_lem (fill f a v) j, get_vertex_lem f j)
        (elim (Option-cases (f.vertices j)) [
          | inl e ↦ ground arith
          | inr (b, e) ↦ ground (arith, w.keyed (o.vertex_id v) a h, w.keyed j b e)
        ])

  get_vertex-register :
      (a j : ℕ) (v : V) → get_vertex (register_with_parent f a v) j ≡ get_vertex f j
  get_vertex-register a j v =
      register_cases f (λ g. get_vertex g j ≡ get_vertex f j) a v refl
        (λ _. get_vertex-append_child _ _ a j ∙ get_vertex-get_or_create _ _ j)

append_child-IsWellFormed :
    {V : Type 0} (o : Vertex V) (f : Forest V) (i p a : ℕ)
    → IsWellFormed o f
    → f.vertices i ≡ some p
    → IsWellFormed o (append_child f p a)
append_child-IsWellFormed o f i p a w h =
    write-IsWellFormed o f p _ w refl refl (λ v e. ground (arith, w.named i p v h, w.keyed i p h))

pub fill-IsWellFormed :
    {V : Type 0} (o : Vertex V) (f : Forest V) (a : ℕ) (v : V)
    → IsWellFormed o f
    → f.vertices (o.vertex_id v) ≡ some a
    → IsWellFormed o (fill f a v)
fill-IsWellFormed o f a v w h =
    write-IsWellFormed o f a _ w refl refl (λ u e. ground (arith, w.keyed (o.vertex_id v) a h))

module _ {V : Type 0} ⦃o : Vertex V⦄ (f : Forest V) (w : IsWellFormed o f) where
  register-IsWellFormed : (a : ℕ) (v : V) → IsWellFormed o (register_with_parent f a v)
  register-IsWellFormed a v = register_cases f (IsWellFormed o) a v w (λ low.
      append_child-IsWellFormed o _ (o.parent v).0 _ a
        (get_or_create-IsWellFormed o f w (o.parent v).0 (o.parent v).1 low)
        (get_or_create_found f (o.parent v).0 (o.parent v).1))

module _ {V : Type 0} ⦃o : Vertex V⦄ (f : Forest V) (w : IsWellFormed o f) where
  -- AddVertex keeps the store of containers well formed.
  pub add_vertex-IsWellFormed : (v : V) → IsWellFormed o (add_vertex f v)
  add_vertex-IsWellFormed v =
      add_vertex_cases f (IsWellFormed o) v (λ _. w)
        (λ high.
          let made = get_or_create-IsWellFormed o f w (o.vertex_id v) (o.level v) high in
          (
            λ u e. made,
            λ e.
                register-IsWellFormed _
                  (fill-IsWellFormed o _ _ v made
                    (get_or_create_found f (o.vertex_id v) (o.level v)))
                  _ v,
          ))

  -- What is read after AddVertex: the first vertex of an id stays, and one below the lowest level is
  -- ignored.
  pub get_vertex-add_vertex :
      (v : V) (j : ℕ)
      → get_vertex (add_vertex f v) j ≡ (
          if leb f.lowest_level (o.level v) && (o.vertex_id v == j)
          then some (get_or (get_vertex f j) v)
          else get_vertex f j)
  get_vertex-add_vertex v j =
      add_vertex_cases f
        (λ g. get_vertex g j ≡ (
          if leb f.lowest_level (o.level v) && (o.vertex_id v == j)
          then some (get_or (get_vertex f j) v)
          else get_vertex f j))
        v (λ low. ground arith)
        (λ high.
          let made = get_or_create-IsWellFormed o f w (o.vertex_id v) (o.level v) high in
          let same = get_vertex-get_or_create f w (o.vertex_id v) (o.level v) in
          let found = get_or_create_found f (o.vertex_id v) (o.level v) in
          let stored =
            get_vertex_lem (get_or_create_vertex_container f (o.vertex_id v) (o.level v)).0
              (o.vertex_id v) in
          (
            λ u e. ground (arith, same j, same (o.vertex_id v), found, stored),
            λ e. ground (
              arith,
              same j,
              same (o.vertex_id v),
              found,
              stored,
              get_vertex-register _ (fill-IsWellFormed o _ _ v made found)
                  (get_or_create_vertex_container f (o.vertex_id v) (o.level v)).1 j v,
              get_vertex-fill _ made
                  (get_or_create_vertex_container f (o.vertex_id v) (o.level v)).1 j v found,
            ),
          ))
