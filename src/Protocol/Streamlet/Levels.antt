-- ===== src/Protocol/Streamlet/Levels.antt =====
-- protocol/streamlet.go: what `updateNotarizedChain` does to the notarized chain, and what
-- `commitRule` then commits.
use banyan.Base.{
  ℕ, zero, suc, ◌≤◌, ◌<◌, ◌≡◌, refl, ap, ◌∙◌, inl, inr, List, [], ◌∷◌, Option, none, some, Bool,
  true, false, ◌||◌, ltb, ==_ne, >>=-is_ok, length, get_elem?, update, arith, Bool-cases, Outcome,
  ok, ◌>>=◌, is_ok,
}
use banyan.Crypto.{Identifier}
use banyan.View.{Block, get_block_by_id, Qc}
use banyan.Protocol.Streamlet.{
  Streamlet, get_notarized_height, has_id, find_level, extend_chain, update_notarized_chain,
}

-- Whether a block of the chain has the id.
unfoldable pub on_chain : List (List Block) → Identifier → Bool
on_chain [] id = false
on_chain (level ∷ chain) id = let more = on_chain chain id in has_id level id || more

-- The same for the first `k` levels, from the last of them down.
on_levels : ℕ → List (List Block) → Identifier → Bool
on_levels zero chain id = false
on_levels (suc i) chain id =
    let more = on_levels i chain id in
    elim (get_elem? chain i) [ none ↦ false | some level ↦ has_id level id || more ]

get_elem?-some :
    (chain : List (List Block)) (i : ℕ)
    → i < length chain
    → (level : List Block) × (get_elem? chain i ≡ some level)
get_elem?-some [] i h = absurd (omega arith)
get_elem?-some (l ∷ chain) zero h = (l, refl)
get_elem?-some (l ∷ chain) (suc i) h = get_elem?-some chain i (omega arith)

on_levels_step :
    (i : ℕ) (chain : List (List Block)) (id : Identifier) (level : List Block)
    → get_elem? chain i ≡ some level
    → on_levels (suc i) chain id ≡ (has_id level id || on_levels i chain id)
unfolding on_levels
on_levels_step i chain id level found = rw (on_levels, found) refl

on_levels-cons :
    (k : ℕ) (level : List Block) (chain : List (List Block)) (id : Identifier)
    → k ≤ length chain
    → on_levels (suc k) (level ∷ chain) id ≡ (has_id level id || on_levels k chain id)
unfolding on_levels
on_levels-cons zero level chain id h = ground (arith)
on_levels-cons (suc k) level chain id h =
    let (l, found) = get_elem?-some chain k (omega arith) in
    rw
      (
        on_levels_step (suc k) (level ∷ chain) id l found,
        on_levels_step k chain id l found,
        on_levels-cons k level chain id (omega arith),
      )
      (ground (arith))

on_levels-length :
    (chain : List (List Block)) (id : Identifier)
    → on_levels (length chain) chain id ≡ on_chain chain id
unfolding on_levels on_chain
on_levels-length [] id = refl
on_levels-length (level ∷ chain) id =
    on_levels-cons (length chain) level chain id (omega arith)
    ∙ ap (λ (more : Bool). has_id level id || more) (on_levels-length chain id)

find_level-is_ok :
    (height k : ℕ) (chain : List (List Block)) (id : Identifier)
    → k ≤ length chain
    → is_ok (find_level height k chain id) ≡ (ltb 2 height || on_levels k chain id)
unfolding find_level on_levels
find_level-is_ok height zero chain id h = ground (arith)
find_level-is_ok height (suc k) chain id h =
    let (level, found) = get_elem?-some chain k h in
    elim (Bool-cases (has_id level id)) [
      | inl here ↦
          rw (on_levels_step k chain id level found, here)
            (rw (find_level, found, here) (ground (arith)))
      | inr other ↦
          rw (on_levels_step k chain id level found, other)
            (rw (find_level, found, other) (find_level-is_ok height k chain id (omega arith)))
    ]

-- What `updateNotarizedChain` does with the level found.
unfoldable pub extend_at : Streamlet → Qc → Block → Option ℕ → Outcome (Streamlet × Bool)
extend_at s qc b none = ok (
  record s { buffered_notarized_block = update s.buffered_notarized_block b.prev_id (some qc) },
  false,
)
extend_at s qc b (some i) = ok (extend_chain s b, true)

pub update_notarized_chain_eq :
    (s : Streamlet) (qc : Qc) (b : Block)
    → get_block_by_id s.bc qc.block_id ≡ some b
    → 0 < get_notarized_height s
    → update_notarized_chain s qc ≡ (
        find_level (get_notarized_height s) (get_notarized_height s) s.notarized_chain b.prev_id
        >>= extend_at s qc b)
unfolding update_notarized_chain extend_at
update_notarized_chain_eq s qc b stored some_levels =
    rw (update_notarized_chain, stored)
      (rw (==_ne (get_notarized_height s) 0 (λ e. omega (arith, e, some_levels))) refl)

extend_at-is_ok :
    (s : Streamlet) (qc : Qc) (b : Block) (found : Option ℕ) → is_ok (extend_at s qc b found) ≡ true
unfolding extend_at
extend_at-is_ok s qc b none = refl
extend_at-is_ok s qc b (some i) = refl

-- On a notarized chain that is not empty, updateNotarizedChain for the certificate of a stored
-- block runs without a crash exactly when the chain has more than two levels or holds the parent of
-- the block.
pub update_notarized_chain-is_ok :
    (s : Streamlet) (qc : Qc) (b : Block)
    → get_block_by_id s.bc qc.block_id ≡ some b
    → 0 < get_notarized_height s
    → is_ok (update_notarized_chain s qc)
      ≡ (ltb 2 (get_notarized_height s) || on_chain s.notarized_chain b.prev_id)
unfolding get_notarized_height
update_notarized_chain-is_ok s qc b stored some_levels =
    let height : ℕ = length s.notarized_chain in
    ap is_ok (update_notarized_chain_eq s qc b stored some_levels)
    ∙ >>=-is_ok (find_level height height s.notarized_chain b.prev_id) (extend_at s qc b)
        (extend_at-is_ok s qc b)
    ∙ find_level-is_ok height height s.notarized_chain b.prev_id (omega arith)
    ∙ ap (λ (x : Bool). ltb 2 height || x) (on_levels-length s.notarized_chain b.prev_id)
