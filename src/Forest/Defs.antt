-- ===== src/Forest/Defs.antt =====
-- blockchain/leveled_forrest.go: the state, lookups and `AddVertex`.
use banyan.Base.{
  ℕ, ◌+◌, List, [], ◌∷◌, ◌++◌, Option, none, some, Bool, false, not, leb, ltb, if◌then◌else◌,
  update, is_some,
}

-- The interface `Vertex`; `parent` gives the parent's id and level.
pub record Vertex (V : Type 0) : Type 0 where
  pub vertex_id : V → ℕ
  pub level : V → ℕ
  pub parent : V → ℕ × ℕ

-- `vertexContainer`; an empty container has no vertex. `children` holds addresses.
pub record Container (V : Type 0) : Type 0 where
  pub id : ℕ
  pub level : ℕ
  pub children : List ℕ
  pub vertex : Option V

-- `LevelledForest`: the store with its next free address, the two maps and `LowestLevel`.
-- A level that is missing from the map reads as the nil slice, here `[]`.
pub record Forest (V : Type 0) : Type 0 where
  pub cells : ℕ → Container V
  pub next : ℕ
  pub vertices : ℕ → Option ℕ
  pub vertices_at_level : ℕ → List ℕ
  pub lowest_level : ℕ

module _ {V : Type 0} where
  unfoldable pub new_forest : Forest V
  new_forest = record {
    cells = λ _. record { id = 0; level = 0; children = []; vertex = none };
    next = 0;
    vertices = λ _. none;
    vertices_at_level = λ _. [];
    lowest_level = 0;
  }

  unfoldable pub is_empty_container : Container V → Bool
  is_empty_container c = not (is_some c.vertex)

  -- A write through a pointer to the container at address `a`.
  abbrev pub write : Forest V → ℕ → Container V → Forest V
  write f a c = record f { cells = update f.cells a c }

  unfoldable pub has_vertex : Forest V → ℕ → Bool
  unfolding is_empty_container
  has_vertex f id = elim (f.vertices id) [
    | none ↦ false
    | some a ↦ not (is_empty_container (f.cells a))
  ]

  unfoldable pub get_vertex : Forest V → ℕ → Option V
  unfolding is_empty_container
  get_vertex f id = elim (f.vertices id) [
    | none ↦ none
    | some a ↦ if is_empty_container (f.cells a) then none else (f.cells a).vertex
  ]

  -- The container with the id, or a new empty one: the forest and its address.
  unfoldable pub get_or_create_vertex_container : Forest V → ℕ → ℕ → Forest V × ℕ
  get_or_create_vertex_container f id level = elim (f.vertices id) [
    | some a ↦ (f, a)
    | none ↦
        let made : Forest V = record {
          cells =
              update f.cells f.next
                (record { id = id; level = level; children = []; vertex = none });
          next = f.next + 1;
          vertices = update f.vertices id (some f.next);
          vertices_at_level =
              update f.vertices_at_level level (f.vertices_at_level level ++ f.next ∷ []);
          lowest_level = f.lowest_level;
        } in
        (made, f.next)
  ]

  -- `append(parentContainer.children, vertexContainer)`
  abbrev pub append_child : Forest V → ℕ → ℕ → Forest V
  append_child f p a = write f p (record {
    id = (f.cells p).id;
    level = (f.cells p).level;
    children = (f.cells p).children ++ a ∷ [];
    vertex = (f.cells p).vertex;
  })

  -- `container.vertex = vertex`
  abbrev pub fill : Forest V → ℕ → V → Forest V
  fill f a v = write f a (record {
    id = (f.cells a).id;
    level = (f.cells a).level;
    children = (f.cells a).children;
    vertex = some v;
  })

module _ {V : Type 0} ⦃o : Vertex V⦄ where
  -- `v` is the vertex of the container at `a`.
  unfoldable pub register_with_parent : Forest V → ℕ → V → Forest V
  register_with_parent f a v =
      if leb (f.cells a).level f.lowest_level
      then f
      else if ltb (o.parent v).1 f.lowest_level
      then f
      else (let (g, p) = get_or_create_vertex_container f (o.parent v).0 (o.parent v).1 in
          append_child g p a)

  unfoldable pub add_vertex : Forest V → V → Forest V
  unfolding is_empty_container
  add_vertex f v =
      if ltb (o.level v) f.lowest_level
      then f
      else (let (g, a) = get_or_create_vertex_container f (o.vertex_id v) (o.level v) in
          if not (is_empty_container (g.cells a)) then g else register_with_parent (fill g a v) a v)
