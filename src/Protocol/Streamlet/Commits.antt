-- ===== src/Protocol/Streamlet/Commits.antt =====
-- protocol/streamlet.go: which block `commitRule` commits, and what that block is to the one that
-- was certified last.
use banyan.Base.{
  ◌⊎◌, ◌↔◌, inl, inr, none, ℕ, suc, ◌+◌, ◌-◌, ◌<◌, ◌≡◌, ◌≢◌, ◌==◌, ◌&&◌, refl, sym, ap, ◌∙◌,
  if◌then◌else◌, List, [], ◌∷◌, ◌++◌, some, true, ==_ne, add, length, length-append, get_elem?,
  get_elem?-append, arith, ok,
}
use mathlib.Core.List.{append_assoc}
use banyan.Crypto.{Identifier}
use banyan.Forest.Invariant.{IsWellFormed}
use banyan.Forest.Lookup.{vertex_id-get_vertex}
use banyan.Forest.Levels.{IsLevelled}
use banyan.View.{Block, BlockChain, block_vertex, get_block_by_id, Qc}
use banyan.Protocol.Streamlet.Levels.{extend_at, update_notarized_chain_eq}
use banyan.Protocol.Streamlet.{
  Streamlet, get_notarized_height, has_id, find_level, extend_chain, update_notarized_chain,
  single_block, commit_rule,
}

append_three :
    (rest : List (List Block)) (a c b : List Block)
    → (rest ++ a ∷ c ∷ []) ++ b ∷ [] ≡ rest ++ a ∷ c ∷ b ∷ []
append_three [] a c b = refl
append_three (x ∷ rest) a c b = ap (λ r. x ∷ r) (append_three rest a c b)

-- The level at a place of a chain that is written as a beginning and an end.
level_at :
    (rest levels : List (List Block)) (i n : ℕ)
    → n ≡ length rest + i
    → get_elem? (rest ++ levels) n ≡ get_elem? levels i
level_at rest levels i n e = rw e (get_elem?-append rest levels i)

-- One block is an ancestor of another by the parents that are stored.
pub data IsAncestor (bc : BlockChain) (x : Block) : Block → Type 0 where
  parent_of : {y : Block} → get_block_by_id bc y.prev_id ≡ some x → IsAncestor bc x y
  beyond :
      {y p : Block} → get_block_by_id bc y.prev_id ≡ some p → IsAncestor bc x p → IsAncestor bc x y

-- The ancestors of a stored block are below it.
IsAncestor-lower :
    (bc : BlockChain) (x y : Block) (id : Identifier)
    → IsLevelled block_vertex bc.forest
    → get_block_by_id bc id ≡ some y
    → IsAncestor bc x y
    → x.view < y.view
unfolding get_block_by_id
IsAncestor-lower bc x y id d stored (parent_of e) = d.descending id y x stored e
IsAncestor-lower bc x y id d stored (beyond {p = p} e up) =
    let below = d.descending id y p stored e in
    omega (arith, below, IsAncestor-lower bc x p y.prev_id d e up)

-- A block that is not below the parent, and is not the parent, is no ancestor.
IsAncestor-other :
    (bc : BlockChain) (a x b : Block)
    → IsLevelled block_vertex bc.forest
    → get_block_by_id bc b.prev_id ≡ some a
    → a.view < x.view
    → ¬ IsAncestor bc x b
IsAncestor-other bc a x b d up above (parent_of e) =
    let same : a ≡ x = cc in omega (arith, above, ap (λ (z : Block). z.view) same)
IsAncestor-other bc a x b d up above (beyond {p = p} e rest) =
    let same : a ≡ p = cc in
    let below = IsAncestor-lower bc x p b.prev_id d e rest in
    omega (arith, above, below, ap (λ (z : Block). z.view) same)

commit_rule_last :
    (s : Streamlet) (rest : List (List Block)) (a c b : Block)
    → s.notarized_chain ≡ rest ++ (a ∷ []) ∷ (c ∷ []) ∷ (b ∷ []) ∷ []
    → add a.view 1 ≡ c.view
    → add c.view 1 ≡ b.view
    → commit_rule s ≡ some c
unfolding commit_rule get_notarized_height single_block
commit_rule_last s rest a c b chain first second =
    let levels = (a ∷ []) ∷ (c ∷ []) ∷ (b ∷ []) ∷ [] in
    let h = length-append rest levels in
    rw chain (
      ground (
        arith,
        h,
        level_at rest levels 2 (length (rest ++ levels) - 1) (omega (arith, h)),
        level_at rest levels 1 (length (rest ++ levels) - 2) (omega (arith, h)),
        level_at rest levels 0 (length (rest ++ levels) - 3) (omega (arith, h)),
      ))

find_level_second :
    (height : ℕ) (rest : List (List Block)) (a c : Block) (id : Identifier)
    → a.id ≡ id
    → c.id ≢ id
    → find_level height (suc (suc (length rest))) (rest ++ (a ∷ []) ∷ (c ∷ []) ∷ []) id
      ≡ ok (some (length rest))
unfolding find_level has_id
find_level_second height rest a c id same other =
    let levels = (a ∷ []) ∷ (c ∷ []) ∷ [] in
    ground (
      arith,
      level_at rest levels 1 (suc (length rest)) (omega arith),
      level_at rest levels 0 (length rest) (omega arith),
      ==_ne c.id id other,
    )

find_level-length :
    (chain rest : List (List Block)) (a c : Block) (id : Identifier)
    → chain ≡ rest ++ (a ∷ []) ∷ (c ∷ []) ∷ []
    → a.id ≡ id
    → c.id ≢ id
    → find_level (length chain) (length chain) chain id ≡ ok (some (length rest))
find_level-length chain rest a c id e same other =
    let levels = rest ++ (a ∷ []) ∷ (c ∷ []) ∷ [] in
    let height : length levels ≡ suc (suc (length rest)) =
      length-append rest ((a ∷ []) ∷ (c ∷ []) ∷ []) ∙ omega arith in
    rw (e, height) (find_level_second (suc (suc (length rest))) rest a c id same other)

-- On a well-formed and levelled forest, the last two levels of a notarized chain hold one block
-- each, a stored block has the first of them as its stored parent, the id of the second is not that
-- of the parent, the second is above the first, and the three views are consecutive: the
-- certificate of the block appends it as a new last level, the commit rule then names the second,
-- and the second is no ancestor of the block by the parents that are stored.
pub update_notarized_chain-commit_rule :
    (s : Streamlet) (qc : Qc) (rest : List (List Block)) (a c b : Block)
    → IsWellFormed block_vertex s.bc.forest
    → IsLevelled block_vertex s.bc.forest
    → get_block_by_id s.bc qc.block_id ≡ some b
    → get_block_by_id s.bc b.prev_id ≡ some a
    → s.notarized_chain ≡ rest ++ (a ∷ []) ∷ (c ∷ []) ∷ []
    → c.id ≢ b.prev_id
    → a.view < c.view
    → add a.view 1 ≡ c.view
    → add c.view 1 ≡ b.view
    → (t : Streamlet) × (update_notarized_chain s qc ≡ ok (t, true))
      × (t.notarized_chain ≡ rest ++ (a ∷ []) ∷ (c ∷ []) ∷ (b ∷ []) ∷ [])
      × (commit_rule t ≡ some c)
      × (¬ IsAncestor t.bc c b)
unfolding get_notarized_height extend_chain extend_at get_block_by_id
update_notarized_chain-commit_rule s qc rest a c b w d stored up chain other above first second =
    let some_levels = ap length chain ∙ length-append rest ((a ∷ []) ∷ (c ∷ []) ∷ []) in
    let parent = vertex_id-get_vertex s.bc.forest w b.prev_id a up in
    let longer : (extend_chain s b).notarized_chain ≡ rest ++ (a ∷ []) ∷ (c ∷ []) ∷ (b ∷ []) ∷ [] =
      ap (λ (l : List (List Block)). l ++ (b ∷ []) ∷ []) chain
      ∙ append_three rest (a ∷ []) (c ∷ []) (b ∷ []) in
    (
      extend_chain s b,
      update_notarized_chain_eq s qc b stored (omega (arith, some_levels))
          ∙ rw (find_level-length s.notarized_chain rest a c b.prev_id chain parent other) refl,
      longer,
      commit_rule_last (extend_chain s b) rest a c b longer first second,
      IsAncestor-other s.bc a c b d up above,
    )

append_two :
    (rest : List (List Block)) (a b : List Block) → (rest ++ a ∷ []) ++ b ∷ [] ≡ rest ++ a ∷ b ∷ []
append_two [] a b = refl
append_two (x ∷ rest) a b = ap (λ r. x ∷ r) (append_two rest a b)

-- The levels end with a block that is alone and one view below the block.
abbrev pub IsPreceded : List (List Block) → Block → Type 0
IsPreceded levels a =
    (before : List (List Block)) × (g : Block) × (levels ≡ before ++ (g ∷ []) ∷ [])
    × (add g.view 1 ≡ a.view)

snoc_cases :
    {A : Type 0} (xs : List A) → (xs ≡ []) ⊎ ((before : List A) × (x : A) × (xs ≡ before ++ x ∷ []))
snoc_cases [] = inl refl
snoc_cases (x ∷ xs) = elim (snoc_cases xs) [
  | inl e ↦ inr ([], x, ap (λ l. x ∷ l) e)
  | inr (before, y, e) ↦ inr (x ∷ before, y, ap (λ l. x ∷ l) e)
]

commit_rule_short :
    (s : Streamlet) (a b : Block)
    → s.notarized_chain ≡ (a ∷ []) ∷ (b ∷ []) ∷ []
    → commit_rule s ≡ none
unfolding commit_rule get_notarized_height
commit_rule_short s a b chain = rw chain refl

-- The rule where the last two levels hold one block each.
commit_rule_third :
    (s : Streamlet) (before : List (List Block)) (l : List Block) (a b : Block)
    → s.notarized_chain ≡ before ++ l ∷ (a ∷ []) ∷ (b ∷ []) ∷ []
    → commit_rule s ≡ elim (single_block (some l)) [
      | none ↦ none
      | some g ↦ if (add g.view 1 == a.view) && (add a.view 1 == b.view) then some a else none
    ]
unfolding commit_rule get_notarized_height single_block
commit_rule_third s before l a b chain =
    let levels = l ∷ (a ∷ []) ∷ (b ∷ []) ∷ [] in
    let h = length-append before levels in
    rw chain (
      ground (
        arith,
        h,
        level_at before levels 2 (length (before ++ levels) - 1) (omega (arith, h)),
        level_at before levels 1 (length (before ++ levels) - 2) (omega (arith, h)),
        level_at before levels 0 (length (before ++ levels) - 3) (omega (arith, h)),
      ))

single_block_cases :
    (l : List Block) → (single_block (some l) ≡ none) ⊎ ((g : Block) × (l ≡ g ∷ []))
unfolding single_block
single_block_cases [] = inl refl
single_block_cases (g ∷ []) = inr (g, refl)
single_block_cases (g ∷ h ∷ l) = inl refl

commit_rule_second :
    (s : Streamlet) (rest : List (List Block)) (a b d : Block)
    → s.notarized_chain ≡ rest ++ (a ∷ []) ∷ (b ∷ []) ∷ []
    → commit_rule s ≡ some d
    → (d ≡ a) × IsPreceded rest a × (add a.view 1 ≡ b.view)
unfolding single_block
commit_rule_second s rest a b d chain h = elim (snoc_cases rest) [
  | inl e ↦
      let none_yet =
        commit_rule_short s a b
          (chain ∙ ap (λ (r : List (List Block)). r ++ (a ∷ []) ∷ (b ∷ []) ∷ []) e) in
      absurd (cc)
  | inr (before, l, e) ↦
      let rule = commit_rule_third s before l a b (
        chain
        ∙ ap (λ (r : List (List Block)). r ++ (a ∷ []) ∷ (b ∷ []) ∷ []) e
        ∙ append_assoc before (l ∷ []) ((a ∷ []) ∷ (b ∷ []) ∷ [])) in
      elim (single_block_cases l) [
        | inl f ↦ absurd (ground (arith, rule, f, h))
        | inr (g, f) ↦
            let run : (if (add g.view 1 == a.view) && (add a.view 1 == b.view)
                  then some a
                  else none)
                ≡ some d =
              sym (rule ∙ rw f refl) ∙ h in
            (
              ground (arith, run),
              (before, g, e ∙ rw f refl, ground (arith, run)),
              ground (arith, run),
            )
      ]
]

find_level_last :
    (height : ℕ) (rest : List (List Block)) (a : Block) (id : Identifier)
    → a.id ≡ id
    → find_level height (suc (length rest)) (rest ++ (a ∷ []) ∷ []) id ≡ ok (some (length rest))
unfolding find_level has_id
find_level_last height rest a id same =
    ground (arith, level_at rest ((a ∷ []) ∷ []) 0 (length rest) (omega arith))

-- The last level of a notarized chain holds one block alone, the parent of a stored block: the
-- certificate of the block appends it as a new last level, and the commit rule then names a block
-- exactly when it is the parent, the level before the parent holds one block alone, and the three
-- views are consecutive.
pub update_notarized_chain_on_tail :
    (s : Streamlet) (qc : Qc) (rest : List (List Block)) (a b : Block)
    → get_block_by_id s.bc qc.block_id ≡ some b
    → s.notarized_chain ≡ rest ++ (a ∷ []) ∷ []
    → a.id ≡ b.prev_id
    → (t : Streamlet) × (update_notarized_chain s qc ≡ ok (t, true))
      × (t.notarized_chain ≡ rest ++ (a ∷ []) ∷ (b ∷ []) ∷ [])
      × ((d : Block)
          → (commit_rule t ≡ some d) ↔ ((d ≡ a) × IsPreceded rest a × (add a.view 1 ≡ b.view)))
unfolding get_notarized_height extend_chain extend_at
update_notarized_chain_on_tail s qc rest a b stored chain parent =
    let one : length (rest ++ (a ∷ []) ∷ []) ≡ suc (length rest) =
      length-append rest ((a ∷ []) ∷ []) ∙ omega arith in
    let found : find_level (length s.notarized_chain) (length s.notarized_chain) s.notarized_chain
          b.prev_id
        ≡ ok (some (length rest)) =
      rw (chain, one) (find_level_last (suc (length rest)) rest a b.prev_id parent) in
    let some_levels = ap length chain ∙ one in
    let longer : (extend_chain s b).notarized_chain ≡ rest ++ (a ∷ []) ∷ (b ∷ []) ∷ [] =
      ap (λ (l : List (List Block)). l ++ (b ∷ []) ∷ []) chain
      ∙ append_two rest (a ∷ []) (b ∷ []) in
    (
      extend_chain s b,
      update_notarized_chain_eq s qc b stored (omega (arith, some_levels)) ∙ rw found refl,
      longer,
      λ d. (
        commit_rule_second (extend_chain s b) rest a b d longer,
        λ (same, (before, g, e, first), second).
            commit_rule_last (extend_chain s b) before g a b
              (longer
                ∙ ap (λ (r : List (List Block)). r ++ (a ∷ []) ∷ (b ∷ []) ∷ []) e
                ∙ append_assoc before ((g ∷ []) ∷ []) ((a ∷ []) ∷ (b ∷ []) ∷ []))
              first second
            ∙ ap some (sym same),
      ),
    )
