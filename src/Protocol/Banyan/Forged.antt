-- ===== src/Protocol/Banyan/Forged.antt =====
-- protocol/banyan.go, crypto/sign.go and identity/identity.go: shares in the name of node ids that
-- differ as texts and are one number.
use banyan.Base.{
  ℕ, zero, suc, ◌+◌, ◌*◌, ◌/◌, ◌≤◌, ◌<◌, ◌≡◌, ◌⊎◌, refl, ap, subst, ◌∙◌, inl, inr, List, [], ◌∷◌,
  true, false, arith, Word, ok, Gives, Gives-bind, Gives-map, Bool-cases, length, In, bytes_eq,
  ==_iff,
}
use banyan.Identity.{NodeId, node, parse_uint, parse_digits}
use banyan.Crypto.{Crypto, Identifier, Signature, verified, key_index, pub_verify}
use banyan.Chain.{exists}
use banyan.Ballots.{ballots_of, ballot_count, cast}
use banyan.Ballots.Distinct.{IsDistinct, Within, length_of_Within}
use banyan.Ballots.Quorum.{voters, length-voters, cast-In}
use banyan.Shares.{FinalizationShare, FSharesBag, f_add, f_size, f_super_majority}
use banyan.Shares.Quorums.{f_voters}
use banyan.Protocol.Safety.{handle_event, handle_events}
use banyan.Protocol.Common.{Env, Message, finalization, check_signature}
use banyan.Protocol.Banyan.{
  Banyan, try_to_ship, finalize, count_finalization_share, process_finalization_share,
  banyan_safety,
}

-- The text with `k` zeros in front.
abbrev pub padded : ℕ → NodeId → NodeId
padded zero i = i
padded (suc k) i = b'0' ∷ padded k i

node-zero : (i : NodeId) → node (b'0' ∷ i) ≡ node i
unfolding node parse_uint parse_digits
node-zero [] = refl
node-zero (c ∷ s) = refl

pub node-padded : (k : ℕ) (i : NodeId) → node (padded k i) ≡ node i
node-padded zero i = refl
node-padded (suc k) i = node-zero (padded k i) ∙ node-padded k i

length-padded : (k : ℕ) (i : NodeId) → length (padded k i) ≡ k + length i
length-padded zero i = omega arith
length-padded (suc k) i = omega (arith, length-padded k i)

check_signature-padded :
    (c : Crypto) (self : NodeId) (sig : Signature) (id : Identifier) (k : ℕ) (i : NodeId)
    → pub_verify c sig id i ≡ ok (verified true)
    → check_signature c self sig id (padded k i) ≡ ok true
unfolding check_signature pub_verify key_index
check_signature-padded c self sig id k i valid =
    elim (Bool-cases (bytes_eq.beq (padded k i) self)) [
      | inl own ↦ rw own refl
      | inr other ↦ rw (other, node-padded k i, valid) refl
    ]

-- A finalization share under each of the texts with fewer than `m` zeros.
abbrev pub forged : Word → Word → Identifier → Signature → NodeId → ℕ → List Message
forged height rank x sig i zero = []
forged height rank x sig i (suc k) =
    finalization
      (record { height = height; rank = rank; voter = padded k i; block_id = x; signature = sig })
    ∷ forged height rank x sig i k

-- The block is final, or its votes are no super majority and hold those seen.
record Counted (total : ℕ) (x : Identifier) (seen : List NodeId) (s : Banyan) : Type 0 where
  missing : exists s.bc x ≡ false
  sized : s.fshares_bag.total ≡ total
  progress :
      (s.is_finalized x ≡ true)
      ⊎ (Within seen (f_voters s.fshares_bag x) × (length seen ≤ total * 2 / 3))

f_add_few :
    (q : FSharesBag) (fs : FinalizationShare) (seen : List NodeId)
    → (f_add q fs).1 ≡ false
    → IsDistinct (fs.voter ∷ seen)
    → Within seen (f_voters q fs.block_id)
    → Within (fs.voter ∷ seen) (f_voters (f_add q fs).0 fs.block_id)
      × (length (fs.voter ∷ seen) ≤ q.total * 2 / 3)
unfolding f_add f_super_majority f_size ballot_count
f_add_few q fs seen few distinct within =
    let votes = cast q.votes fs.block_id fs.voter fs in
    let more : Within (fs.voter ∷ seen) (voters (ballots_of votes fs.block_id)) = λ a h.
      cast-In q.votes fs.block_id a fs.voter fs
        (elim h [ inl e ↦ inl e | inr old ↦ inr (within a old) ]) in
    (
      more,
      ground (
        arith,
        length_of_Within bytes_eq (fs.voter ∷ seen) (voters (ballots_of votes fs.block_id)) distinct
            more,
        length-voters (ballots_of votes fs.block_id),
      ),
    )

f_add-total : (q : FSharesBag) (fs : FinalizationShare) → (f_add q fs).0.total ≡ q.total
unfolding f_add
f_add-total q fs = refl

module _ (i : NodeId) where
  -- The texts with `k` zeros or more, up to `m`.
  texts : ℕ → ℕ → List NodeId
  texts zero k = []
  texts (suc d) k = padded k i ∷ texts d (suc k)

  longer : (d k : ℕ) (a : NodeId) → In a (texts d k) → k + length i ≤ length a
  unfolding texts
  longer zero k a h = absurd h
  longer (suc d) k a (inl e) = omega (arith, length-padded k i, ap (length {A = ℕ}) e)
  longer (suc d) k a (inr h) = omega (arith, longer d (suc k) a h)

  texts-IsDistinct : (d k : ℕ) → IsDistinct (texts d k)
  unfolding texts
  texts-IsDistinct zero k = tt
  texts-IsDistinct (suc d) k = (
    λ h. absurd (omega (arith, longer d (suc k) (padded k i) h, length-padded k i)),
    texts-IsDistinct d (suc k),
  )

  length-texts : (d k : ℕ) → length (texts d k) ≡ d
  unfolding texts
  length-texts zero k = refl
  length-texts (suc d) k = omega (arith, length-texts d (suc k))

module _ (env : Env) (fuel : ℕ) (total : ℕ) where
  -- A block that is not stored is marked and queued.
  finalize-Counted :
      (s : Banyan) (x : Identifier) (seen : List NodeId)
      → exists s.bc x ≡ false
      → s.fshares_bag.total ≡ total
      → Gives (Counted total x seen) (finalize env (suc fuel) s x)
  unfolding finalize try_to_ship
  finalize-Counted s x seen absent sized =
      rw (try_to_ship, absent)
        (record { missing = absent; sized = sized; progress = inl (ground (arith, ==_iff x x)) })

  -- One more share that passes the checks.
  process_finalization_share-Counted :
      (s : Banyan) (fs : FinalizationShare) (seen : List NodeId)
      → check_signature env.crypto s.id fs.signature fs.block_id fs.voter ≡ ok true
      → IsDistinct (fs.voter ∷ seen)
      → Counted total fs.block_id seen s
      → Gives
          (Counted total fs.block_id (fs.voter ∷ seen))
          (process_finalization_share env (suc fuel) s fs)
  unfolding process_finalization_share count_finalization_share
  process_finalization_share-Counted s fs seen valid distinct e =
      elim (Bool-cases (s.is_finalized fs.block_id)) [
        | inl done ↦
            rw (done, process_finalization_share)
              (record { missing = e.missing; sized = e.sized; progress = inl done })
        | inr fresh ↦ elim (Bool-cases (f_add s.fshares_bag fs).1) [
          | inl built ↦
              rw (fresh, valid, built)
                (finalize-Counted (record s { fshares_bag = (f_add s.fshares_bag fs).0 })
                  fs.block_id (fs.voter ∷ seen) e.missing (f_add-total s.fshares_bag fs ∙ e.sized))
          | inr few ↦
              rw (fresh, valid, few)
                (record {
                  missing = e.missing;
                  sized = f_add-total s.fshares_bag fs ∙ e.sized;
                  progress = elim e.progress [
                    | inl done ↦ inl done
                    | inr (within, size) ↦
                        let (more, bound) = f_add_few s.fshares_bag fs seen few distinct within in
                        inr (more, omega (arith, bound, e.sized))
                  ];
                })
        ]
      ]

  module _ (height rank : Word) (x : Identifier) (sig : Signature) (i : NodeId)
      (valid : pub_verify env.crypto sig x i ≡ ok (verified true)) where
    forged-Counted :
        (k d : ℕ) (s : Banyan)
        → Counted total x (texts i d k) s
        → Gives
            (Counted total x (texts i (k + d) 0))
            (handle_events (banyan_safety env (suc fuel)) s (forged height rank x sig i k))
    unfolding handle_events handle_event texts
    forged-Counted zero d s e = subst (λ n. Counted total x (texts i n 0) s) (omega arith) e
    forged-Counted (suc k) d s e =
        let fs : FinalizationShare = record {
          height = height;
          rank = rank;
          voter = padded k i;
          block_id = x;
          signature = sig;
        } in
        Gives-bind (Counted total x (padded k i ∷ texts i d (suc k)))
          (Counted total x (texts i (suc k + d) 0)) (process_finalization_share env (suc fuel) s fs)
          _
          (process_finalization_share-Counted s fs (texts i d (suc k))
            (check_signature-padded env.crypto s.id sig x k i valid) (texts-IsDistinct i (suc d) k)
            e)
          (λ t kept.
            subst
              (λ n.
                Gives (Counted total x (texts i n 0))
                  (handle_events (banyan_safety env (suc fuel)) t (forged height rank x sig i k)))
              (omega arith) (forged-Counted k (suc d) t kept))

-- One signature of a node for a block that is not stored, sent as finalization shares in the name
-- of the node's text with no zeros, one zero and so on in front, more of them than two thirds of
-- the nodes: with fuel for one call of TryToShip the replica returns, and the block is final.
pub padded_ids_finalize :
    (env : Env) (fuel m : ℕ) (s : Banyan) (height rank : Word) (x : Identifier) (sig : Signature)
    (i : NodeId)
    → pub_verify env.crypto sig x i ≡ ok (verified true)
    → exists s.bc x ≡ false
    → s.fshares_bag.total * 2 / 3 < m
    → Gives
        (λ t. t.is_finalized x ≡ true)
        (handle_events (banyan_safety env (suc fuel)) s (forged height rank x sig i m))
unfolding texts
padded_ids_finalize env fuel m s height rank x sig i valid absent enough =
    Gives-map (Counted s.fshares_bag.total x (texts i m 0)) (λ t. t.is_finalized x ≡ true) _
      (subst
        (λ n.
          Gives (Counted s.fshares_bag.total x (texts i n 0))
            (handle_events (banyan_safety env (suc fuel)) s (forged height rank x sig i m)))
        (omega arith)
        (forged-Counted env fuel s.fshares_bag.total height rank x sig i valid m 0 s (record {
          missing = absent;
          sized = refl;
          progress = inr (λ a h. absurd h, omega arith);
        })))
      (λ t e. elim e.progress [
        | inl done ↦ done
        | inr (within, few) ↦ absurd (omega (arith, few, length-texts i m 0))
      ])
