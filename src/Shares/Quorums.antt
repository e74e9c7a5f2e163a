-- ===== src/Shares/Quorums.antt =====
-- blockchain/notarization.go, blockchain/finalization.go: what two quorums have in common.
use banyan.Base.{
  ℕ, ◌+◌, ◌*◌, ◌≤◌, ◌<◌, ◌≡◌, refl, List, true, arith, bytes_eq, length, ltb→lt, [], ◌∷◌,
  length-insert,
}
use banyan.Identity.{NodeId}
use banyan.Ballots.{ballots_of, ballot_count}
use banyan.Ballots.Distinct.{Within, common}
use banyan.Ballots.Quorum.{voters, IsTally, ballots_of-cast, cast-IsTally, quorum_overlap}
use banyan.Shares.{
  NotarizationShare, FinalizationShare, FSharesBag, NSharesBagBanyan, f_add, f_size,
  f_super_majority, b_add,
}

-- The voters for a block in a bag.
abbrev pub f_voters : FSharesBag → ℕ → List NodeId
f_voters q id = voters (ballots_of q.votes id)

abbrev pub b_voters : NSharesBagBanyan → ℕ → List NodeId
b_voters q id = voters (ballots_of q.votes id)

-- Whatever is added, a bag counts each voter once for a block.
pub f_add-IsTally :
    (q : FSharesBag) (v : FinalizationShare) → IsTally q.votes → IsTally (f_add q v).0.votes
unfolding f_add
f_add-IsTally q v t = cast-IsTally q.votes v.block_id v.voter v t

pub b_add-IsTally :
    (q : NSharesBagBanyan) (v : NotarizationShare) → IsTally q.votes → IsTally (b_add q v).0.votes
unfolding b_add
b_add-IsTally q v t = cast-IsTally q.votes v.block_id v.voter v t

-- In a finalization bag for total nodes, 3f+1 or more, that counts each voter once and holds votes
-- of its nodes only, two blocks with a super majority have more than f voters in common.
pub f_super_majority-overlap :
    (nodes : List NodeId) (q : FSharesBag) (x y f : ℕ)
    → IsTally q.votes
    → ((id : ℕ) → Within (f_voters q id) nodes)
    → length nodes ≡ q.total
    → 3 * f + 1 ≤ q.total
    → f_super_majority q x ≡ true
    → f_super_majority q y ≡ true
    → f < length (common bytes_eq (f_voters q y) (f_voters q x))
unfolding f_super_majority f_size
f_super_majority-overlap nodes q x y f t known all enough hx hy =
    quorum_overlap nodes q.votes x y f t known (omega (arith, ltb→lt _ _ hx, ltb→lt _ _ hy))

-- A bag after a list of shares.
abbrev pub b_add_all : NSharesBagBanyan → List NotarizationShare → NSharesBagBanyan
b_add_all q [] = q
b_add_all q (v ∷ vs) = b_add_all (b_add q v).0 vs

pub b_add-count :
    (q : NSharesBagBanyan) (v : NotarizationShare) (id : ℕ)
    → (ballot_count q.votes id ≤ ballot_count (b_add q v).0.votes id)
      × ((b_add q v).0.n ≡ q.n)
      × ((b_add q v).0.f ≡ q.f)
unfolding b_add ballot_count
b_add-count q v id = (
  ground (
    arith,
    ballots_of-cast q.votes v.block_id id v.voter v,
    length-insert v.voter v (ballots_of q.votes v.block_id),
  ),
  refl,
  refl,
)

-- Adding shares loses no vote, and keeps the counts of the nodes and of the faults.
b_add_all-count :
    (q : NSharesBagBanyan) (vs : List NotarizationShare) (id : ℕ)
    → (ballot_count q.votes id ≤ ballot_count (b_add_all q vs).votes id)
      × ((b_add_all q vs).n ≡ q.n)
      × ((b_add_all q vs).f ≡ q.f)
b_add_all-count q [] id = (omega arith, refl, refl)
b_add_all-count q (v ∷ vs) id =
    omega (arith, b_add-count q v id, b_add_all-count (b_add q v).0 vs id)

b_add_all-IsTally :
    (q : NSharesBagBanyan) (vs : List NotarizationShare)
    → IsTally q.votes
    → IsTally (b_add_all q vs).votes
b_add_all-IsTally q [] t = t
b_add_all-IsTally q (v ∷ vs) t = b_add_all-IsTally (b_add q v).0 vs (b_add-IsTally q v t)

pub b_add-notarized :
    (q : NSharesBagBanyan) (v : NotarizationShare)
    → (b_add q v).1.0 ≡ true
    → q.n + q.f < ballot_count (b_add q v).0.votes v.block_id * 2
unfolding b_add
b_add-notarized q v h = ltb→lt _ _ h

-- In a bag for n nodes that counts each voter once and hears from its nodes only, Add reports one
-- block notarized and, after any shares, another: then more than f voters stand behind both.
pub b_add-overlap :
    (nodes : List NodeId) (q : NSharesBagBanyan) (v w : NotarizationShare)
    (vs : List NotarizationShare)
    → IsTally q.votes
    → length nodes ≡ q.n
    → (b_add q v).1.0 ≡ true
    → (b_add (b_add_all (b_add q v).0 vs) w).1.0 ≡ true
    → ((id : ℕ) → Within (b_voters (b_add (b_add_all (b_add q v).0 vs) w).0 id) nodes)
    → q.f
      < length (
          common bytes_eq
            (b_voters (b_add (b_add_all (b_add q v).0 vs) w).0 w.block_id)
            (b_voters (b_add (b_add_all (b_add q v).0 vs) w).0 v.block_id))
b_add-overlap nodes q v w vs t all first second known =
    let one = (b_add q v).0 in
    let later = b_add_all one vs in
    let last = (b_add later w).0 in
    quorum_overlap nodes last.votes v.block_id w.block_id q.f
      (b_add-IsTally later w (b_add_all-IsTally one vs (b_add-IsTally q v t))) known
      (omega (
        arith,
        b_add-notarized q v first,
        b_add-notarized later w second,
        b_add-count q v v.block_id,
        b_add_all-count one vs v.block_id,
        b_add-count later w v.block_id,
      ))
