-- ===== src/Protocol/HotStuff/Handlers.antt =====
-- protocol/hotstuff.go: `ProcessBlock` and `MakeProposal`. The fuel bounds the buffered blocks that
-- one call goes on to.
use banyan.Base.{
  ℕ, zero, suc, [], ◌∷◌, ◌++◌, Option, none, some, Bool, true, false, slt, add, sub, if◌then◌else◌,
  update, Word, Bytes, Outcome, ok, starved, ◌>>=◌, bytes_eq,
}
use banyan.Crypto.{pub_verify}
use banyan.Election.{is_leader_view, find_leader_for_view}
use banyan.View.{Block, add_block, make_block, make_vote, Qc}
use banyan.Protocol.Views.{ViewEnv, block_message, vote_message}
use banyan.Protocol.HotStuff.Defs.{HotStuff, update_high_qc, voting_rule}
use banyan.Protocol.HotStuff.Certificates.{process_certificate, process_vote}

pub data ProposalError : Type 0 where
  missing_qc invalid_leader unknown_parent : ProposalError

-- The block is echoed once, and stored.
unfoldable pub store_block : HotStuff → Block → Outcome HotStuff
store_block s b =
    let t : HotStuff = if s.echoed_block b.id then s else record s {
      echoed_block = update s.echoed_block b.id true;
      sent = s.sent ++ block_message b ∷ [];
    } in
    add_block t.bc b >>= λ bc. ok (record t { bc = bc })

module _ (env : ViewEnv) where
  -- The result of verifying the block's signature is only logged.
  unfoldable pub check_proposer : HotStuff → Block → Outcome Bool
  check_proposer s b =
      if bytes_eq.beq b.proposer s.id
      then ok true
      else pub_verify env.crypto b.sig b.id b.proposer >>= λ _. ok true

  -- The certificate that the block carries; the proposer does not process its own.
  unfoldable pub take_certificate : HotStuff → Block → Qc → Outcome HotStuff
  take_certificate s b qc =
      if bytes_eq.beq b.proposer s.id
      then ok (update_high_qc s qc)
      else process_certificate env (update_high_qc s qc) qc

  -- The certificate that waited for the block.
  unfoldable pub release_qc : HotStuff → Block → Outcome HotStuff
  release_qc s b = elim (s.buffered_qcs b.id) [
    | none ↦ ok s
    | some qc ↦ process_certificate env s qc >>= λ t.
        ok (record t { buffered_qcs = update t.buffered_qcs b.id none })
  ]

  -- The vote goes to the leader of the next view.
  unfoldable pub send_vote : HotStuff → Block → Outcome HotStuff
  send_vote s b = make_vote env.crypto b.view s.id b.id >>= λ v.
      let aggregator = find_leader_for_view s.election (add b.view 1) in
      if bytes_eq.beq aggregator s.id
      then process_vote env s v
      else ok (record s { sent = s.sent ++ vote_message aggregator v ∷ [] })

  unfoldable pub process_block : ℕ → HotStuff → Block → Outcome (HotStuff × Option ProposalError)
  process_block zero s b = starved
  process_block (suc fuel) s b = check_proposer s b >>= λ _.
      elim (slt (add s.pm.cur_view 1) b.view) [
        | true ↦
            ok (
              record s { buffered_blocks = update s.buffered_blocks (sub b.view 1) (some b) },
              none,
            )
        | false ↦ elim b.qc [
          | none ↦ ok (s, some missing_qc)
          | some qc ↦ take_certificate s b qc >>= λ t. elim (slt b.view t.pm.cur_view) [
            | true ↦ ok (t, none)
            | false ↦ elim (is_leader_view t.election b.proposer b.view) [
              | false ↦ ok (t, some invalid_leader)
              | true ↦ store_block t b >>= λ w. release_qc w b >>= λ u. elim (voting_rule u b) [
                | none ↦ ok (u, some unknown_parent)
                | some false ↦ ok (u, none)
                | some true ↦ send_vote u b >>= λ v. elim (v.buffered_blocks b.view) [
                  | none ↦ ok (v, none)
                  | some c ↦ process_block fuel v c >>= λ r. ok (
                    record (r.0) { buffered_blocks = update r.0.buffered_blocks b.view none },
                    none,
                  )
                ]
              ]
            ]
          ]
        ]
      ]

  -- `payload` holds the bytes drawn for the block.
  unfoldable pub make_proposal : HotStuff → Word → Bytes → Outcome Block
  make_proposal s view payload =
      make_block env.crypto env.hash_block view (some s.high_qc) s.high_qc.block_id s.id payload
