-- ===== src/View/Once.antt =====
-- blockchain_view/quorum.go: the certificates of a sequence of votes.
use banyan.Base.{
  ℕ, ◌+◌, ◌≤◌, ◌≡◌, inl, inr, List, [], ◌∷◌, none, some, true, false, ◌==◌, if◌then◌else◌, arith,
  Option-cases, ==_iff, length-insert, bytes_eq,
}
use banyan.Crypto.{Identifier}
use banyan.Ballots.{ballots_of, ballot_count, cast}
use banyan.Ballots.Quorum.{ballots_of-cast}
use banyan.View.Votes.{Vote, Qc, Quorum, q_size, q_super_majority, q_add}

ballot_count-cast :
    (q : Quorum) (id : Identifier) (vote : Vote)
    → ballot_count q.votes id ≤ ballot_count (cast q.votes vote.block_id vote.voter vote) id
unfolding ballot_count
ballot_count-cast q id vote = rw (ballots_of-cast q.votes vote.block_id id vote.voter vote) (
    ground (
      arith,
      ==_iff vote.block_id id,
      length-insert vote.voter vote (ballots_of q.votes vote.block_id),
    ))

unfoldable pub occurrences : ℕ → List ℕ → ℕ
occurrences id [] = 0
occurrences id (x ∷ xs) = let rest = occurrences id xs in if x == id then rest + 1 else rest

-- The blocks of the certificates that a sequence of votes makes.
unfoldable pub certified : Quorum → List Vote → List Identifier
certified q [] = []
certified q (v ∷ vs) =
    let rest = certified (q_add q v).0 vs in
    elim (q_add q v).1 [ none ↦ rest | some qc ↦ qc.block_id ∷ rest ]

q_add-keeps :
    (q : Quorum) (v : Vote) (id : Identifier)
    → q_super_majority q id ≡ true
    → q_super_majority (q_add q v).0 id ≡ true
unfolding q_super_majority q_size q_add
q_add-keeps q v id h = ground (arith, ballot_count-cast q id v)

q_add-completes :
    (q : Quorum) (v : Vote) (qc : Qc)
    → (q_add q v).1 ≡ some qc
    → (q_super_majority q v.block_id ≡ false)
      × ((qc.block_id ≡ v.block_id) × (q_super_majority (q_add q v).0 v.block_id ≡ true))
unfolding q_add
q_add-completes q v qc h = ground (arith)

-- A sequence of votes makes at most one quorum certificate for a block, and none for a block that
-- has its super majority already.
pub certified-once :
    (q : Quorum) (votes : List Vote) (id : Identifier)
    → occurrences id (certified q votes) + (if q_super_majority q id then 1 else 0) ≤ 1
unfolding certified occurrences
certified-once q [] id = ground (arith)
certified-once q (v ∷ vs) id = elim (Option-cases (q_add q v).1) [
  | inl e ↦
      rw (certified, e) (ground (arith, certified-once (q_add q v).0 vs id, q_add-keeps q v id))
  | inr (qc, e) ↦
      let done = q_add-completes q v qc e in
      rw (certified, e)
        (ground (
          arith,
          certified-once (q_add q v).0 vs id,
          q_add-keeps q v id,
          done.0,
          done.1.0,
          done.1.1,
          ==_iff qc.block_id id,
        ))
]
