-- ===== src/Forest/Invariant.antt =====
-- blockchain/leveled_forrest.go: when the store behind a forest is well formed.
use banyan.Base.{
  ℕ, ◌≤◌, ◌<◌, ◌≡◌, refl, ◌⊎◌, inl, inr, List, [], ◌∷◌, ◌++◌, some, ◌==◌, update, arith, In,
  In-append, In-append_left, In-append_right, ==_refl, Option-cases, Bool-cases,
}
use banyan.Forest.{Vertex, Container, Forest, new_forest, write, get_or_create_vertex_container}

-- Addresses in the maps are allocated, each id names its own container, each container hangs in the
-- list of its level and no lower than `LowestLevel`, and a full one holds the vertex of its id.
pub record IsWellFormed {V : Type 0} (o : Vertex V) (f : Forest V) : Type 0 where
  pub bounded : (i a : ℕ) → f.vertices i ≡ some a → a < f.next
  pub keyed : (i a : ℕ) → f.vertices i ≡ some a → (f.cells a).id ≡ i
  pub levels : (i a : ℕ) → f.vertices i ≡ some a → f.lowest_level ≤ (f.cells a).level
  pub placed : (i a : ℕ) → f.vertices i ≡ some a → In a (f.vertices_at_level (f.cells a).level)
  pub listed : (l a : ℕ) → In a (f.vertices_at_level l) → a < f.next
  pub listed_level : (l a : ℕ) → In a (f.vertices_at_level l) → (f.cells a).level ≡ l
  pub listed_id : (l a : ℕ) → In a (f.vertices_at_level l) → f.vertices (f.cells a).id ≡ some a
  pub named :
      (i a : ℕ) (v : V) → f.vertices i ≡ some a → (f.cells a).vertex ≡ some v → o.vertex_id v ≡ i

module _ {V : Type 0} (o : Vertex V) where
  pub new_forest-IsWellFormed : IsWellFormed o new_forest
  unfolding new_forest
  new_forest-IsWellFormed = record {
    bounded = λ i a h. absurd (cc);
    keyed = λ i a h. absurd (cc);
    levels = λ i a h. absurd (cc);
    placed = λ i a h. absurd (cc);
    listed = λ l a h. absurd h;
    listed_level = λ l a h. absurd h;
    listed_id = λ l a h. absurd h;
    named = λ i a v h. absurd (cc);
  }

  -- A write that keeps the id and the level, and stores no vertex of another id.
  pub write-IsWellFormed :
      (f : Forest V) (b : ℕ) (c : Container V)
      → IsWellFormed o f
      → c.id ≡ (f.cells b).id
      → c.level ≡ (f.cells b).level
      → ((v : V) → c.vertex ≡ some v → o.vertex_id v ≡ c.id)
      → IsWellFormed o (write f b c)
  write-IsWellFormed f b c w same_id same_level own = record {
    bounded = w.bounded;
    keyed = λ i a h. ground (arith, w.keyed i a h);
    levels = λ i a h. ground (arith, w.levels i a h);
    placed = λ i a h. elim (Bool-cases (b == a)) [
      | inl e ↦ rw e (rw same_level (let q : b ≡ a = ground arith in rw q (w.placed i a h)))
      | inr n ↦ rw n (w.placed i a h)
    ];
    listed = w.listed;
    listed_level = λ l a h. ground (arith, w.listed_level l a h);
    listed_id = λ l a h. ground (arith, w.listed_id l a h);
    named = λ i a v h e. ground (arith, w.named i a v h, own v, w.keyed i a h);
  }

-- Appending `x` to the list at key `k`, and who is in the lists then.
module _ (m : ℕ → List ℕ) (k x : ℕ) where
  snoc_at : ℕ → List ℕ
  snoc_at = update m k (m k ++ x ∷ [])

  In-snoc_at : (a j : ℕ) → In a (snoc_at j) → In a (m j) ⊎ ((x ≡ a) × (k ≡ j))
  unfolding snoc_at
  In-snoc_at a j h = elim (Bool-cases (k == j)) [
    | inl e ↦
        let q : k ≡ j = ground arith in
        elim (In-append a (m k) (x ∷ []) (rw e at h)) [
          | inl old ↦ inl (rw q at old)
          | inr new ↦ elim new [ inl same ↦ inr (same, q) | inr bad ↦ absurd bad ]
        ]
    | inr n ↦ inl (rw n at h)
  ]

  snoc_at_old : (a j : ℕ) → In a (m j) → In a (snoc_at j)
  unfolding snoc_at
  snoc_at_old a j h = elim (Bool-cases (k == j)) [
    | inl e ↦ let q : k ≡ j = ground arith in rw e (In-append_left a (m k) (x ∷ []) (rw q h))
    | inr n ↦ rw n h
  ]

  snoc_at_new : In x (snoc_at k)
  unfolding snoc_at
  snoc_at_new = rw (==_refl k) (In-append_right x (m k) (x ∷ []) (inl refl))

module _ {V : Type 0} (o : Vertex V) (f : Forest V) (w : IsWellFormed o f) where
  -- A container that is there is handed out, and nothing changes.
  pub get_or_create_known :
      (id level a : ℕ) → f.vertices id ≡ some a → get_or_create_vertex_container f id level ≡ (f, a)
  unfolding get_or_create_vertex_container
  get_or_create_known id level a h = rw (h, get_or_create_vertex_container) refl

  pub get_or_create-IsWellFormed :
      (id level : ℕ)
      → f.lowest_level ≤ level
      → IsWellFormed o (get_or_create_vertex_container f id level).0
  unfolding get_or_create_vertex_container snoc_at
  get_or_create-IsWellFormed id level low = elim (Option-cases (f.vertices id)) [
    | inr (a, h) ↦ rw (h, get_or_create_vertex_container) w
    | inl h ↦
        rw (h, get_or_create_vertex_container)
          (record {
            bounded = λ i a e. ground (arith, w.bounded i a);
            keyed = λ i a e. ground (arith, w.keyed i a, w.bounded i a);
            levels = λ i a e. ground (arith, w.levels i a, w.bounded i a);
            placed = λ i a e. elim (Bool-cases (f.next == a)) [
              | inl q ↦
                  let here : f.next ≡ a = ground arith in
                  rw (← here, ==_refl f.next) (snoc_at_new at_level level f.next)
              | inr n ↦ rw n (
                  snoc_at_old at_level level f.next a (f.cells a).level
                    (w.placed i a (ground (arith, w.bounded i a))))
            ];
            listed = λ l a e. ground (arith, In-snoc_at at_level level f.next a l e, w.listed l a);
            listed_level = λ l a e.
                ground
                  (arith, In-snoc_at at_level level f.next a l e, w.listed l a, w.listed_level l a);
            listed_id = λ l a e.
                ground
                  (arith, In-snoc_at at_level level f.next a l e, w.listed l a, w.listed_id l a);
            named = λ i a v e q. ground (arith, w.named i a v, w.bounded i a);
          })
  ]
    where
      open f use {vertices_at_level as at_level}
