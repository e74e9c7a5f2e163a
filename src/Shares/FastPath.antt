-- ===== src/Shares/FastPath.antt =====
-- blockchain/notarization.go: the fast path of `NSharesBagBanyan` under repeated shares.
use banyan.Base.{
  ℕ, zero, suc, ◌+◌, ◌≤◌, ◌≡◌, refl, true, arith, minus_one, leb, ==_refl, lookup, insert, is_some,
  lookup-insert, length-insert, bytes_eq,
}
use banyan.Ballots.{ballot_count, ballots_of}
use banyan.Ballots.Quorum.{ballots_of-cast}
use banyan.Shares.{NotarizationShare, NSharesBagBanyan, b_add}

-- The bag after the same share is added `k` times.
abbrev pub again : ℕ → NSharesBagBanyan → NotarizationShare → NSharesBagBanyan
again zero q v = q
again (suc k) q v = (b_add (again k q v) v).0

-- The voter of a share has a vote for its block.
abbrev Present : NSharesBagBanyan → NotarizationShare → Type 0
Present q v = is_some (lookup v.voter (ballots_of q.votes v.block_id)) ≡ true

module _ (q : NSharesBagBanyan) (v : NotarizationShare) where
  b_add-fast :
      v.rank ≡ minus_one
      → (((b_add q v).0.fast_votes_rank_zero v.height ≡ q.fast_votes_rank_zero v.height + 1)
          × ((b_add q v).0.n ≡ q.n)
          × ((b_add q v).0.p ≡ q.p))
        × ((b_add q v).1.1 ≡ leb q.n (q.fast_votes_rank_zero v.height + 1 + q.p))
  unfolding b_add
  b_add-fast h = ground arith

  b_add-votes :
      ballots_of (b_add q v).0.votes v.block_id ≡ insert v.voter v (ballots_of q.votes v.block_id)
  unfolding b_add
  b_add-votes =
      rw (ballots_of-cast q.votes v.block_id v.block_id v.voter v, ==_refl v.block_id) refl

  b_add-Present : Present (b_add q v).0 v
  b_add-Present =
      rw
        (
          b_add-votes,
          lookup-insert v.voter v.voter v (ballots_of q.votes v.block_id),
          (bytes_eq.beq_iff v.voter v.voter).1 refl,
        )
        refl

  b_add-count_le :
      (ballot_count (b_add q v).0.votes v.block_id ≤ ballot_count q.votes v.block_id + 1)
      × (Present q v
          → ballot_count (b_add q v).0.votes v.block_id ≡ ballot_count q.votes v.block_id)
  unfolding ballot_count
  b_add-count_le = (
    ground (arith, b_add-votes, length-insert v.voter v (ballots_of q.votes v.block_id)),
    λ here. ground (arith, b_add-votes, length-insert v.voter v (ballots_of q.votes v.block_id)),
  )

again-fast :
    (k : ℕ) (q : NSharesBagBanyan) (v : NotarizationShare)
    → v.rank ≡ minus_one
    → ((again k q v).fast_votes_rank_zero v.height ≡ q.fast_votes_rank_zero v.height + k)
      × ((again k q v).n ≡ q.n)
      × ((again k q v).p ≡ q.p)
again-fast zero q v h = (omega arith, refl, refl)
again-fast (suc k) q v h = omega (arith, again-fast k q v h, (b_add-fast (again k q v) v h).0)

again-count :
    (k : ℕ) (q : NSharesBagBanyan) (v : NotarizationShare)
    → ballot_count (again (suc k) q v).votes v.block_id ≤ ballot_count q.votes v.block_id + 1
again-count zero q v = (b_add-count_le q v).0
again-count (suc k) q v = omega (
  arith,
  again-count k q v,
  (b_add-count_le (again (suc k) q v) v).1 (b_add-Present (again k q v) v),
)

-- One voter who repeats a share of rank -1 finalizes the block by the fast path once the repeats
-- make up n - p with the votes that the height had, although at most one voter has joined those of
-- the block.
pub b_add_repeated :
    (k : ℕ) (q : NSharesBagBanyan) (v : NotarizationShare)
    → v.rank ≡ minus_one
    → q.n ≤ q.fast_votes_rank_zero v.height + suc k + q.p
    → ((b_add (again k q v) v).1.1 ≡ true)
      × (ballot_count (b_add (again k q v) v).0.votes v.block_id
          ≤ ballot_count q.votes v.block_id + 1)
b_add_repeated k q v h enough =
    (ground (arith, again-fast k q v h, b_add-fast (again k q v) v h), again-count k q v)
