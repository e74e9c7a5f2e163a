-- ===== src/Protocol/Streamlet/Rules.antt =====
-- protocol/streamlet.go: the notarized chain, `updateNotarizedChain`, `votingRule`, `commitRule` and
-- `forkChoice`. A level of the chain is read at an index that may be out of range.
use banyan.Base.{
  ℕ, zero, suc, ◌-◌, List, [], ◌∷◌, ◌++◌, Option, none, some, Bool, true, false, ◌&&◌, ltb, ◌==◌,
  sle, add, length, get_elem?, if◌then◌else◌, update, Outcome, ok, panic, ◌>>=◌, index_out_of_range,
}
use banyan.Crypto.{Identifier}
use banyan.View.{Block, get_block_by_id, Qc}
use banyan.Protocol.Streamlet.Defs.{Streamlet}

unfoldable pub get_notarized_height : Streamlet → ℕ
get_notarized_height s = length s.notarized_chain

-- Whether one of the blocks has the id.
unfoldable pub has_id : List Block → Identifier → Bool
has_id [] id = false
has_id (b ∷ bs) id = let more = has_id bs id in if b.id == id then true else more

-- The loop of `updateNotarizedChain`, at the index one below the second number; `height` is the
-- number of levels. It ends at the index -1 if that is below `height - 3` too, and reads there
-- otherwise. The level that holds the parent, if one does.
unfoldable pub find_level : ℕ → ℕ → List (List Block) → Identifier → Outcome (Option ℕ)
find_level height zero chain prev = if ltb height 3 then panic index_out_of_range else ok none
find_level height (suc i) chain prev = elim (get_elem? chain i) [
  | none ↦ panic index_out_of_range
  | some blocks ↦ elim (has_id blocks prev) [
    | true ↦ ok (some i)
    | false ↦ find_level height i chain prev
  ]
]

-- `append(sl.notarizedChain, blocks)`, where the block is alone.
unfoldable pub extend_chain : Streamlet → Block → Streamlet
extend_chain s b = record s { notarized_chain = s.notarized_chain ++ (b ∷ []) ∷ [] }

-- `false` is an error.
unfoldable pub update_notarized_chain : Streamlet → Qc → Outcome (Streamlet × Bool)
update_notarized_chain s qc = elim (get_block_by_id s.bc qc.block_id) [
  | none ↦ ok (s, false)
  | some b ↦ elim (get_notarized_height s == 0) [
    | true ↦ ok (extend_chain s b, true)
    | false ↦
        find_level (get_notarized_height s) (get_notarized_height s) s.notarized_chain b.prev_id
        >>= λ found. elim found [
          | some _ ↦ ok (extend_chain s b, true)
          | none ↦ ok (
            record s {
              buffered_notarized_block = update s.buffered_notarized_block b.prev_id (some qc);
            },
            false,
          )
        ]
  ]
]

-- The tail of the notarized chain; a chain without levels has none.
unfoldable pub tail_level : Streamlet → Outcome (List Block)
tail_level s = elim (s.notarized_chain) [
  | [] ↦ panic index_out_of_range
  | _ ∷ _ ↦ elim (get_elem? s.notarized_chain (get_notarized_height s - 1)) [
    | none ↦ panic index_out_of_range
    | some blocks ↦ ok blocks
  ]
]

unfoldable pub voting_rule : Streamlet → Block → Outcome Bool
voting_rule s b =
    if sle b.view 2 then ok true else (tail_level s >>= λ blocks. ok (has_id blocks b.prev_id))

-- The block of a level that holds one.
unfoldable pub single_block : Option (List Block) → Option Block
single_block (some (b ∷ [])) = some b
single_block _ = none

-- The second of the last three levels, if each holds one block and their views are consecutive.
unfoldable pub commit_rule : Streamlet → Option Block
commit_rule s =
    let height = get_notarized_height s in
    elim (ltb height 3) [
      | true ↦ none
      | false ↦ elim (single_block (get_elem? s.notarized_chain (height - 1))) [
        | none ↦ none
        | some last ↦ elim (single_block (get_elem? s.notarized_chain (height - 2))) [
          | none ↦ none
          | some second ↦ elim (single_block (get_elem? s.notarized_chain (height - 3))) [
            | none ↦ none
            | some first ↦
                if (add first.view 1 == second.view) && (add second.view 1 == last.view)
                then some second
                else none
          ]
        ]
      ]
    ]

-- The parent of a proposal: the first block of the tail, or the genesis block.
unfoldable pub fork_choice : Identifier → Streamlet → Outcome Identifier
fork_choice genesis s = elim (get_notarized_height s == 0) [
  | true ↦ ok genesis
  | false ↦
      tail_level s >>= λ blocks. elim blocks [ [] ↦ panic index_out_of_range | b ∷ _ ↦ ok b.id ]
]
