-- ===== src/Forest/Verify.antt =====
-- blockchain/leveled_forrest.go: `VerifyVertex` and what it calls.
use banyan.Base.{Option, none, some, not, leb, ltb, ◌==◌, if◌then◌else◌}
use banyan.Forest.Defs.{Vertex, Forest, get_vertex}

pub data VertexError : Type 0 where
  conflicting_vertices parent_not_below parent_level_differs : VertexError

-- (false, nil), (true, nil) and (false, err) of `isEquivalentToStoredVertex`.
pub data Equivalence : Type 0 where
  not_equivalent equivalent : Equivalence
  invalid : VertexError → Equivalence

module _ {V : Type 0} ⦃o : Vertex V⦄ where
  unfoldable pub is_equivalent_to_stored_vertex : Forest V → V → Equivalence
  is_equivalent_to_stored_vertex f v = elim (get_vertex f (o.vertex_id v)) [
    | none ↦ not_equivalent
    | some stored ↦
        if not (o.level v == o.level stored)
        then invalid conflicting_vertices
        else if leb (o.level v) f.lowest_level
        then equivalent
        else if not ((o.parent v).0 == (o.parent stored).0)
        then invalid conflicting_vertices
        else if not ((o.parent v).1 == (o.parent stored).1)
        then invalid conflicting_vertices
        else equivalent
  ]

  unfoldable pub verify_parent : Forest V → V → Option VertexError
  verify_parent f v =
      if not (ltb (o.parent v).1 (o.level v))
      then some parent_not_below
      else elim (get_vertex f (o.parent v).0) [
        | none ↦ none
        | some p ↦ if not (o.level p == (o.parent v).1) then some parent_level_differs else none
      ]

  unfoldable pub verify_vertex : Forest V → V → Option VertexError
  unfolding is_equivalent_to_stored_vertex verify_parent
  verify_vertex f v =
      if ltb (o.level v) f.lowest_level then none else elim (is_equivalent_to_stored_vertex f v) [
        | invalid e ↦ some e
        | equivalent ↦ none
        | not_equivalent ↦ if o.level v == f.lowest_level then none else verify_parent f v
      ]
