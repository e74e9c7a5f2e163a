-- ===== src/Examples/Forests.antt =====
-- Forests of one and of two blocks.
use banyan.Base.{ℕ, ◌≡◌, ◌≢◌, refl, [], some, arith, ok, panic, starved, ◌==◌, sub, if◌then◌else◌}
use mathlib.Core.Option.{get_or}
use banyan.Chain.{Block, block_vertex}
use banyan.Forest.{
  Forest, pruned, new_forest, has_vertex, get_vertex, add_vertex, prune_up_to_level,
  get_or_create_vertex_container, register_with_parent, is_empty_container, committed_levels,
  first_vertex, prune_levels, prune_step, prune_level,
}
use banyan.Forest.Invariant.{IsWellFormed, new_forest-IsWellFormed}
use banyan.Forest.Lookup.{add_vertex-IsWellFormed}
use banyan.Forest.Listed.{IsListed, get_vertex-add_vertex_above}
use banyan.Forest.Levels.{
  IsLevelled, at_least, get_vertex-prune_up_to_level, prune_up_to_level-ends,
}
use banyan.Examples.Setup.{toy_block}

abbrev pub trunk : Forest Block
trunk = add_vertex new_forest (toy_block 1 0 7)

trunk-IsWellFormed : IsWellFormed block_vertex trunk
trunk-IsWellFormed =
    add_vertex-IsWellFormed new_forest (new_forest-IsWellFormed block_vertex) (toy_block 1 0 7)

add_vertex-IsWellFormed_example : IsWellFormed block_vertex (add_vertex trunk (toy_block 2 7 8))
add_vertex-IsWellFormed_example = add_vertex-IsWellFormed trunk trunk-IsWellFormed (toy_block 2 7 8)

get_vertex-add_vertex_above_example :
    ((j : ℕ)
      → get_vertex (add_vertex trunk (toy_block 2 7 8)) j ≡ (
          if 8 == j
          then some (get_or (get_vertex trunk j) (toy_block 2 7 8))
          else get_vertex trunk j))
    × IsListed (add_vertex trunk (toy_block 2 7 8)) 8 2
unfolding new_forest add_vertex get_or_create_vertex_container register_with_parent
    is_empty_container sub
get_vertex-add_vertex_above_example =
    get_vertex-add_vertex_above trunk trunk-IsWellFormed (toy_block 2 7 8) (omega arith)
      (λ a h. ground (arith, h))

abbrev pub fork : Forest Block
fork = add_vertex trunk (toy_block 2 7 8)

pub fork-IsWellFormed : IsWellFormed block_vertex fork
fork-IsWellFormed = add_vertex-IsWellFormed trunk trunk-IsWellFormed (toy_block 2 7 8)

pub fork-IsLevelled : IsLevelled block_vertex fork
unfolding new_forest add_vertex get_or_create_vertex_container register_with_parent
    is_empty_container get_vertex has_vertex sub
fork-IsLevelled = record {
  own_level = λ i a v h e. ground (arith);
  descending = λ i v u h e. ground (arith);
}

-- What is left above the height 1.
abbrev cut : Forest Block
cut = elim (prune_up_to_level 3 fork 2) [ ok r ↦ r.0 | panic _ ↦ fork | starved ↦ fork ]

cuts : prune_up_to_level 3 fork 2 ≡ ok (cut, pruned [] 2)
unfolding new_forest add_vertex get_or_create_vertex_container register_with_parent
    is_empty_container get_vertex has_vertex sub prune_up_to_level committed_levels first_vertex
    prune_levels prune_step prune_level
cuts = refl

get_vertex-prune_up_to_level_example :
    IsWellFormed block_vertex cut
    × (cut.lowest_level ≡ 2)
    × ((j : ℕ) → get_vertex cut j ≡ at_least 2 (get_vertex fork j))
get_vertex-prune_up_to_level_example =
    get_vertex-prune_up_to_level fork fork-IsWellFormed fork-IsLevelled 3 2 cut [] 2 cuts

prune_up_to_level-ends_example : prune_up_to_level 3 fork 2 ≢ starved
prune_up_to_level-ends_example =
    prune_up_to_level-ends fork fork-IsWellFormed fork-IsLevelled 3 2 (omega arith)
