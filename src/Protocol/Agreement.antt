-- ===== src/Protocol/Agreement.antt =====
-- protocol/banyan.go and protocol/icc_actually.go: several replicas that run a protocol by heights and
-- exchange their shares.
use banyan.Base.{
  ℕ, ◌+◌, ◌<◌, ◌≡◌, sym, ap, ◌∙◌, subst, inl, inr, List, Bool, arith, Word, length, In, bytes_eq,
}
use banyan.Identity.{NodeId}
use banyan.Crypto.{Identifier}
use banyan.Ballots.{Ballots, ballots_of, ballot_count}
use banyan.Ballots.Distinct.{common, common-In, common-IsDistinct, overlap, outsider}
use banyan.Ballots.Quorum.{IsTally, voters, length-voters}
use banyan.Ballots.Held.{Held, Held-map, Held-In}
use banyan.Shares.{NotarizationShare, FinalizationShare}
use banyan.Protocol.Common.{Message, block, notarization, finalization}
use banyan.Protocol.Exclusive.{Exclusive, same_height}
use banyan.Protocol.Accounted.{Accounted, NVote, FVote}

-- What the votes of a replica depend on: its bags, what it noted for each height, and what it sent.
pub record Votes : Type 0 where
  pub head : Word
  pub is_notarized : Identifier → Bool
  pub no : Word → ℕ
  pub voted : Word → Identifier
  pub sent_fshare : Word → Bool
  pub sent : List Message
  pub nv : Ballots NotarizationShare
  pub fv : Ballots FinalizationShare

-- A share is in the name of a node, and if that node is not faulty, the node has sent it.
abbrev pub IsAuthentic : List NodeId → List NodeId → (NodeId → List Message) → Message → Type 0
IsAuthentic nodes faulty sent (block b) = Unit
IsAuthentic nodes faulty sent (notarization ns) =
    In ns.voter nodes × ((¬ In ns.voter faulty) → In (notarization ns) (sent ns.voter))
IsAuthentic nodes faulty sent (finalization fs) =
    In fs.voter nodes × ((¬ In fs.voter faulty) → In (finalization fs) (sent fs.voter))

module _ (height_of : Identifier → Word) (nodes faulty : List NodeId) (run : NodeId → Votes)
    (Enough : ℕ → Type 0) where
  abbrev IsFair : NodeId → Votes → Type 0
  IsFair i v =
      Accounted height_of (IsAuthentic nodes faulty (λ j. (run j).sent)) i Enough v.nv v.fv
        v.is_notarized v.sent

  -- What holds of a replica that is not faulty.
  abbrev pub IsSoundNode : NodeId → Type 0
  IsSoundNode i =
      Exclusive height_of (run i).head (run i).is_notarized (run i).no (run i).voted
        (run i).sent_fshare (run i).sent
      × IsFair i (run i)

  -- The share stands for a vote of a node, which has sent it if it is not faulty.
  abbrev IsSentBy : NodeId → Message → Type 0
  IsSentBy i m = In i nodes × ((¬ In i faulty) → In m (run i).sent)

  -- The votes in the bags of a replica are those of the nodes.
  abbrev NCast : Identifier → NodeId → NotarizationShare → Type 0
  NCast x i ns = (ns.block_id ≡ x) × IsSentBy i (notarization ns)

  abbrev FCast : Identifier → NodeId → FinalizationShare → Type 0
  FCast x i fs = (fs.block_id ≡ x) × IsSentBy i (finalization fs)

  n_cast :
      (b : NodeId) (x : Identifier)
      → In b nodes
      → IsFair b (run b)
      → Held (NCast x) (ballots_of (run b).nv x)
  n_cast b x there e =
      Held-map (NVote (IsAuthentic nodes faulty (λ j. (run j).sent)) (run b).sent x) (NCast x) _
        (λ i ns h. (
          h.1.0,
          elim h.1.1 [
            | inl known ↦ subst (λ k. IsSentBy k (notarization ns)) h.0 known
            | inr mine ↦
                subst (λ k. IsSentBy k (notarization ns))
                  (sym (e.own (notarization ns) mine).0 ∙ h.0) (there, λ _. mine)
          ],
        ))
        (e.n_votes x)

  f_cast :
      (b : NodeId) (x : Identifier)
      → In b nodes
      → IsFair b (run b)
      → Held (FCast x) (ballots_of (run b).fv x)
  f_cast b x there e =
      Held-map (FVote (IsAuthentic nodes faulty (λ j. (run j).sent)) (run b).sent x) (FCast x) _
        (λ i fs h. (
          h.1.0,
          elim h.1.1 [
            | inl known ↦ subst (λ k. IsSentBy k (finalization fs)) h.0 known
            | inr mine ↦
                subst (λ k. IsSentBy k (finalization fs))
                  (sym (e.own (finalization fs) mine).0 ∙ h.0) (there, λ _. mine)
          ],
        ))
        (e.f_votes x)

  -- A quorum for the notarization of `y` in one replica and one for the finalization of `x` in
  -- another have a voter in common that is not faulty.
  common_voter :
      (a b : NodeId) (x y : Identifier)
      → length nodes + length faulty < ballot_count (run a).fv x + ballot_count (run b).nv y
      → In a nodes
      → In b nodes
      → IsFair a (run a)
      → IsFair b (run b)
      → (i : NodeId) × In i (voters (ballots_of (run a).fv x))
        × In i (voters (ballots_of (run b).nv y))
        × (¬ In i faulty)
  unfolding ballot_count IsTally
  common_voter a b x y many in_a in_b fair_a fair_b =
      let xs = voters (ballots_of (run a).fv x) in
      let ys = voters (ballots_of (run b).nv y) in
      let shared =
        overlap bytes_eq nodes xs ys (fair_a.f_tally x) (fair_b.n_tally y)
          (λ i h. (Held-In (FCast x) i _ (f_cast a x in_a fair_a) h).1.1.0)
          (λ i h. (Held-In (NCast y) i _ (n_cast b y in_b fair_b) h).1.1.0) in
      let (i, there, honest) =
        outsider bytes_eq (common bytes_eq ys xs) faulty
          (common-IsDistinct bytes_eq ys xs (fair_b.n_tally y))
          (omega (
            arith,
            shared,
            length-voters (ballots_of (run a).fv x),
            length-voters (ballots_of (run b).nv y),
          )) in
      let (in_y, in_x) = common-In bytes_eq i ys xs there in (i, in_x, in_y, honest)

  -- If the votes for the finalization of `x` and for the notarization of `y` are more than all
  -- nodes and the faulty ones, the blocks are one.
  pub sound_replicas_agree :
      (a b : NodeId) (x y : Identifier)
      → ((i : NodeId) → In i nodes → (¬ In i faulty) → IsSoundNode i)
      → In a nodes
      → (¬ In a faulty)
      → In b nodes
      → (¬ In b faulty)
      → length nodes + length faulty < ballot_count (run a).fv x + ballot_count (run b).nv y
      → height_of x ≡ height_of y
      → x ≡ y
  sound_replicas_agree a b x y sound in_a good_a in_b good_b many same =
      let fair_a = (sound a in_a good_a).1 in
      let fair_b = (sound b in_b good_b).1 in
      let (i, in_x, in_y, good) = common_voter a b x y many in_a in_b fair_a fair_b in
      let (fs, (is_x, (in_i, sent_x))) = Held-In (FCast x) i _ (f_cast a x in_a fair_a) in_x in
      let (ns, (is_y, (in_i', sent_y))) = Held-In (NCast y) i _ (n_cast b y in_b fair_b) in_y in
      let (exclusive, fair_i) = sound i in_i good in
      let heights : ns.height ≡ fs.height =
        sym (fair_i.own (notarization ns) (sent_y good)).1
        ∙ ap height_of is_y
        ∙ sym same
        ∙ sym (ap height_of is_x)
        ∙ (fair_i.own (finalization fs) (sent_x good)).1 in
      let one =
        same_height height_of (run i).head (run i).is_notarized (run i).no (run i).voted
          (run i).sent_fshare (run i).sent exclusive ns fs (sent_y good) (sent_x good) heights in
      (sym is_x ∙ sym one ∙ is_y)
