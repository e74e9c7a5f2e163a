-- ===== src/Ballots.antt =====
-- The maps of votes by block and voter, `map[Identifier]map[NodeID]*Vote`, that the share bags, the
-- quorum and the timeout controller keep. The inner map is an association list, in the order in
-- which `range` visits it.
pub mod Quorum
pub mod Held
pub mod Distinct
use banyan.Base.{
  ℕ, List, [], ◌∷◌, map, Option, none, some, Bool, ltb, length, update, insert, bytes_eq, ◌*◌, ◌/◌,
}
use banyan.Identity.{NodeId}

abbrev pub Ballots : Type 0 → Type 0
Ballots S = ℕ → Option (List (NodeId × S))

module _ {S : Type 0} where
  unfoldable pub no_ballots : Ballots S
  no_ballots = λ _. none

  -- `q.votes[id]`; a missing key reads as the nil map.
  unfoldable pub ballots_of : Ballots S → ℕ → List (NodeId × S)
  ballots_of b id = elim (b id) [ none ↦ [] | some m ↦ m ]

  -- `len(q.votes[id])`
  unfoldable pub ballot_count : Ballots S → ℕ → ℕ
  ballot_count b id = length (ballots_of b id)

  -- `if !exist { q.votes[id] = make(...) }`
  unfoldable pub open_ballot : Ballots S → ℕ → Ballots S
  open_ballot b id = elim (b id) [ none ↦ update b id (some []) | some _ ↦ b ]

  -- `q.votes[id][voter] = vote`, on a map that is there.
  unfoldable pub put_ballot : Ballots S → ℕ → NodeId → S → Ballots S
  put_ballot b id voter s = update b id (some (insert voter s (ballots_of b id)))

  -- The first lines of each `Add`.
  unfoldable pub cast : Ballots S → ℕ → NodeId → S → Ballots S
  unfolding open_ballot put_ballot
  cast b id voter s = put_ballot (open_ballot b id) id voter s
