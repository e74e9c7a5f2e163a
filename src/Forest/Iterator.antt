-- ===== src/Forest/Iterator.antt =====
-- blockchain/vertex.go: the iterator over a list of containers, and the accessors that use it.
use banyan.Base.{
  ℕ, ◌+◌, List, [], ◌∷◌, Option, none, some, Bool, is_some, Outcome, ok, panic, nil_dereference,
}
use banyan.Forest.Defs.{Forest}

-- `data` is what `it.data[it.idx:]` reads; the entries before `idx` are never read again.
pub record VertexIterator (V : Type 0) : Type 0 where
  pub rest : List ℕ
  pub next : Option V

module _ {V : Type 0} where
  -- `preLoad`: skips empty containers.
  unfoldable pub preload : Forest V → List ℕ → VertexIterator V
  preload f [] = record { rest = []; next = none }
  preload f (a ∷ rest) = elim (f.cells a).vertex [
    | some v ↦ record { rest = rest; next = some v }
    | none ↦ preload f rest
  ]

  unfoldable pub new_vertex_iterator : Forest V → List ℕ → VertexIterator V
  new_vertex_iterator f l = preload f l

  unfoldable pub has_next : VertexIterator V → Bool
  has_next it = is_some it.next

  -- The vertex, and the iterator after it.
  unfoldable pub next_vertex : Forest V → VertexIterator V → Option V × VertexIterator V
  next_vertex f it = (it.next, preload f it.rest)

  -- A missing id gives a nil container, whose children are then read.
  unfoldable pub get_children : Forest V → ℕ → Outcome (VertexIterator V)
  get_children f id = elim (f.vertices id) [
    | none ↦ panic nil_dereference
    | some a ↦ ok (new_vertex_iterator f (f.cells a).children)
  ]

  unfoldable pub get_vertices_at_level : Forest V → ℕ → VertexIterator V
  get_vertices_at_level f level = new_vertex_iterator f (f.vertices_at_level level)

  -- The loops that count the full containers.
  unfoldable pub count_full : Forest V → List ℕ → ℕ
  count_full f [] = 0
  count_full f (a ∷ rest) = elim (f.cells a).vertex [
    | none ↦ count_full f rest
    | some _ ↦ count_full f rest + 1
  ]

  unfoldable pub get_number_of_children : Forest V → ℕ → Outcome ℕ
  get_number_of_children f id = elim (f.vertices id) [
    | none ↦ panic nil_dereference
    | some a ↦ ok (count_full f (f.cells a).children)
  ]

  unfoldable pub get_number_of_vertices_at_level : Forest V → ℕ → ℕ
  get_number_of_vertices_at_level f level = count_full f (f.vertices_at_level level)
