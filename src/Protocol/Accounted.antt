-- ===== src/Protocol/Accounted.antt =====
-- protocol/banyan.go and protocol/icc_actually.go: where the shares in the bags of a replica come from,
-- and what its own say.
use banyan.Base.{
  ℕ, ◌≤◌, ◌≡◌, ◌⊎◌, refl, subst, inl, inr, List, [], ◌∷◌, ◌++◌, Bool, true, ◌==◌, update, arith,
  Word, Bool-cases, ==_iff, In, In-append_left, length-insert, bytes_eq,
}
use banyan.Identity.{NodeId}
use banyan.Crypto.{Identifier}
use banyan.Ballots.{Ballots, ballots_of, ballot_count, cast}
use banyan.Ballots.Quorum.{IsTally, cast-IsTally, ballots_of-cast}
use banyan.Ballots.Held.{Held, Held-map, cast-Held}
use banyan.Shares.{NotarizationShare, FinalizationShare}
use banyan.Protocol.Common.{Message, notarization, finalization, block}
use banyan.Protocol.Exclusive.{In-snoc}

-- A share that was got, or is among those sent.
abbrev pub Known : (Message → Type 0) → List Message → Message → Type 0
Known got sent m = got m ⊎ In m sent

-- A notarization share in the votes for the block `x`, under the voter `i`; and a finalization
-- share.
abbrev pub NVote :
    (Message → Type 0) → List Message → Identifier → NodeId → NotarizationShare → Type 0
NVote got sent x i ns = (ns.voter ≡ i) × ((ns.block_id ≡ x) × Known got sent (notarization ns))

abbrev pub FVote :
    (Message → Type 0) → List Message → Identifier → NodeId → FinalizationShare → Type 0
FVote got sent x i fs = (fs.voter ≡ i) × ((fs.block_id ≡ x) × Known got sent (finalization fs))

-- A share in the name of the replica, with the height of its block.
abbrev pub IsOwn : (Identifier → Word) → NodeId → Message → Type 0
IsOwn height_of self (block b) = Unit
IsOwn height_of self (notarization ns) = (ns.voter ≡ self) × (height_of ns.block_id ≡ ns.height)
IsOwn height_of self (finalization fs) = (fs.voter ≡ self) × (height_of fs.block_id ≡ fs.height)

-- Who voted for what, for a replica `self`: the bags hold the shares it got and its own, each voter
-- once for a block; a notarized block has enough votes; and what the replica sends is its own.
pub record Accounted (height_of : Identifier → Word) (got : Message → Type 0) (self : NodeId)
    (Enough : ℕ → Type 0) (nv : Ballots NotarizationShare) (fv : Ballots FinalizationShare)
    (is_notarized : Identifier → Bool) (sent : List Message) : Type 0 where
  pub n_tally : IsTally nv
  pub f_tally : IsTally fv
  pub n_votes : (x : Identifier) → Held (NVote got sent x) (ballots_of nv x)
  pub f_votes : (x : Identifier) → Held (FVote got sent x) (ballots_of fv x)
  pub quorum : (x : Identifier) → is_notarized x ≡ true → Enough (ballot_count nv x)
  pub own : (m : Message) → In m sent → IsOwn height_of self m

module _ {S : Type 0} where
  -- A vote more takes none away.
  pub ballot_count-cast :
      (b : Ballots S) (id : ℕ) (i : NodeId) (s : S) (x : ℕ)
      → ballot_count b x ≤ ballot_count (cast b id i s) x
  unfolding ballot_count
  ballot_count-cast b id i s x =
      ground (arith, ballots_of-cast b id x i s, length-insert i s (ballots_of b id), ==_iff id x)

module _ (height_of : Identifier → Word) (got : Message → Type 0) (self : NodeId)
    (Enough : ℕ → Type 0) (nv : Ballots NotarizationShare) (fv : Ballots FinalizationShare)
    (is_notarized : Identifier → Bool) (sent : List Message)
    (e : Accounted height_of got self Enough nv fv is_notarized sent) where
  pub sent-Accounted :
      (m : Message)
      → IsOwn height_of self m
      → Accounted height_of got self Enough nv fv is_notarized (sent ++ m ∷ [])
  sent-Accounted m mine =
      let more : (k : Message) → Known got sent k → Known got (sent ++ m ∷ []) k =
        λ k h. elim h [ inl a ↦ inl a | inr b ↦ inr (In-append_left k sent (m ∷ []) b) ] in
      record {
        n_tally = e.n_tally;
        f_tally = e.f_tally;
        n_votes = λ x.
            Held-map (NVote got sent x) (NVote got (sent ++ m ∷ []) x) _
              (λ i ns h. (h.0, (h.1.0, more (notarization ns) h.1.1))) (e.n_votes x);
        f_votes = λ x.
            Held-map (FVote got sent x) (FVote got (sent ++ m ∷ []) x) _
              (λ i fs h. (h.0, (h.1.0, more (finalization fs) h.1.1))) (e.f_votes x);
        quorum = e.quorum;
        own = λ k i. elim (In-snoc k m sent i) [
          | inl old ↦ e.own k old
          | inr new ↦ subst (IsOwn height_of self) new mine
        ];
      }

  -- A share that is known is counted.
  pub n_counted-Accounted :
      (ns : NotarizationShare)
      → ((a b : ℕ) → a ≤ b → Enough a → Enough b)
      → Known got sent (notarization ns)
      → Accounted height_of got self Enough (cast nv ns.block_id ns.voter ns) fv is_notarized sent
  n_counted-Accounted ns mono known = record {
    n_tally = cast-IsTally nv ns.block_id ns.voter ns e.n_tally;
    f_tally = e.f_tally;
    n_votes = cast-Held (NVote got sent) nv ns.block_id ns.voter ns (refl, (refl, known)) e.n_votes;
    f_votes = e.f_votes;
    quorum = λ x h. mono _ _ (ballot_count-cast nv ns.block_id ns.voter ns x) (e.quorum x h);
    own = e.own;
  }

  pub f_counted-Accounted :
      (fs : FinalizationShare)
      → Known got sent (finalization fs)
      → Accounted height_of got self Enough nv (cast fv fs.block_id fs.voter fs) is_notarized sent
  f_counted-Accounted fs known = record {
    n_tally = e.n_tally;
    f_tally = cast-IsTally fv fs.block_id fs.voter fs e.f_tally;
    n_votes = e.n_votes;
    f_votes = cast-Held (FVote got sent) fv fs.block_id fs.voter fs (refl, (refl, known)) e.f_votes;
    quorum = e.quorum;
    own = e.own;
  }

  -- A block with enough votes is marked.
  pub marked-Accounted :
      (id : Identifier)
      → Enough (ballot_count nv id)
      → Accounted height_of got self Enough nv fv (update is_notarized id true) sent
  marked-Accounted id enough = record {
    n_tally = e.n_tally;
    f_tally = e.f_tally;
    n_votes = e.n_votes;
    f_votes = e.f_votes;
    quorum = λ x h. elim (Bool-cases (id == x)) [
      | inl same ↦ subst (λ y. Enough (ballot_count nv y)) ((==_iff id x).0 same) enough
      | inr other ↦ e.quorum x (rw other at h)
    ];
    own = e.own;
  }
