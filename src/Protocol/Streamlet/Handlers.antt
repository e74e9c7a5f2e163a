-- ===== src/Protocol/Streamlet/Handlers.antt =====
-- protocol/streamlet.go: `ProcessBlock`, `ProcessVote`, `processCertificate`, the timeouts and
-- `MakeProposal`. The first two call the third, and it calls itself and the first; the fuel bounds
-- how deep the calls nest.
use banyan.Base.{
  ℕ, zero, suc, List, [], ◌∷◌, ◌++◌, Option, none, some, Bool, true, false, not, ◌&&◌, slt, is_some,
  if◌then◌else◌, update, get_elem?, Word, Bytes, Outcome, ok, panic, starved, ◌>>=◌,
  nil_dereference, bytes_eq,
}
use banyan.Crypto.{Identifier, pub_verify}
use banyan.Election.{is_leader_view}
use banyan.View.{
  Block, BlockChain, exists, add_block, get_block_by_id, add_vote, commit_block, make_block,
  CommitResult, commits, unknown_block, cannot_prune, Vote, make_vote, Qc, Tmo, Tc,
  process_remote_tmo, advance_view,
}
use banyan.Protocol.Common.{check_signature}
use banyan.Protocol.Views.{ViewEnv, block_message, vote_broadcast, tmo_message, check_certificate}
use banyan.Protocol.Streamlet.Defs.{Streamlet}
use banyan.Protocol.Streamlet.Rules.{update_notarized_chain, voting_rule, commit_rule, fork_choice}

pub data StreamletError : Type 0 where
  stale_block invalid_leader : StreamletError

-- `delete`, for the ids of the blocks.
unfoldable pub forget_echoes : List Block → (Identifier → Bool) → Identifier → Bool
forget_echoes [] echoed = echoed
forget_echoes (b ∷ bs) echoed = forget_echoes bs (update echoed b.id false)

-- What a commit leaves; `false` is an error.
unfoldable pub committed : Streamlet → BlockChain → CommitResult → Streamlet × Bool
committed s bc unknown_block = (record s { bc = bc }, false)
committed s bc cannot_prune = (record s { bc = bc }, false)
committed s bc (commits blocks forked) = (
  record s {
    bc = bc;
    committed_blocks = s.committed_blocks ++ blocks;
    echoed_block = forget_echoes blocks s.echoed_block;
    echoed_vote = forget_echoes blocks s.echoed_vote;
    forked_blocks = s.forked_blocks ++ forked;
  },
  true,
)

-- The block is echoed once, and stored; its certificate is a pointer that is not tested.
unfoldable pub store_block : Streamlet → Block → Outcome Streamlet
store_block s b =
    let t : Streamlet = if s.echoed_block b.id then s else record s {
      echoed_block = update s.echoed_block b.id true;
      sent = s.sent ++ block_message b ∷ [];
    } in
    add_block t.bc b >>= λ bc. ok (record t { bc = bc })

-- The vote is echoed, unless the block it is for has been.
unfoldable pub echo_vote : Streamlet → Vote → Streamlet
echo_vote s v = if s.echoed_block v.block_id then s else record s {
  echoed_block = update s.echoed_block v.block_id true;
  sent = s.sent ++ vote_broadcast v ∷ [];
}

-- The certificate starts a goroutine that advances the view.
unfoldable pub process_tc : Streamlet → Tc → Streamlet
process_tc s tc =
    if slt tc.view s.pm.cur_view
    then s
    else record s { pending_views = s.pending_views ++ tc.view ∷ [] }

-- The goroutine of that number runs.
unfoldable pub drop_view : List Word → ℕ → List Word
drop_view [] k = []
drop_view (v ∷ vs) zero = vs
drop_view (v ∷ vs) (suc k) = v ∷ drop_view vs k

unfoldable pub run_pending : Streamlet → ℕ → Streamlet
run_pending s k = elim (get_elem? s.pending_views k) [
  | none ↦ s
  | some view ↦ record s {
    pm = advance_view s.pm view;
    pending_views = drop_view s.pending_views k;
  }
]

unfoldable pub process_tmo : Streamlet → Tmo → Outcome Streamlet
process_tmo s tmo =
    let (pm, built, tc) = process_remote_tmo s.pm tmo in
    let t : Streamlet = record s { pm = pm } in
    if built then elim tc [ none ↦ panic nil_dereference | some c ↦ ok (process_tc t c) ] else ok t

unfoldable pub process_local_tmo : Streamlet → Word → Outcome Streamlet
process_local_tmo s view =
    let tmo : Tmo = record { view = view; node_id = s.id; high_qc = none } in
    process_tmo (record s { sent = s.sent ++ tmo_message tmo ∷ [] }) tmo

module _ (env : ViewEnv) where
  -- The result of verifying the block's signature is only logged.
  unfoldable pub check_proposer : Streamlet → Block → Outcome Bool
  check_proposer s b =
      if bytes_eq.beq b.proposer s.id
      then ok true
      else pub_verify env.crypto b.sig b.id b.proposer >>= λ _. ok true

  -- A vote that passed the checks is echoed and counted, and may complete a certificate.
  unfoldable pub count_vote :
      (Streamlet → Qc → Outcome Streamlet) → Streamlet → Vote → Outcome Streamlet
  count_vote certify s v =
      let t = echo_vote s v in
      let (bc, made) = add_vote t.bc v in
      elim made [ none ↦ ok (record t { bc = bc }) | some qc ↦ certify (record t { bc = bc }) qc ]

  unfoldable pub vote_step :
      (Streamlet → Qc → Outcome Streamlet) → Streamlet → Vote → Outcome Streamlet
  vote_step certify s v =
      check_signature env.crypto s.id v.signature v.block_id v.voter >>= λ valid.
      if valid then count_vote certify s v else ok s

  -- A certified block that is next on the notarized chain: the view, and the commit. `false` when
  -- nothing was committed.
  unfoldable pub commit_certified : Streamlet → Qc → Outcome (Streamlet × Bool)
  commit_certified s qc =
      let t : Streamlet = record s { pm = advance_view s.pm qc.view } in
      elim (slt qc.view 3) [
        | true ↦ ok (t, false)
        | false ↦ elim (commit_rule t) [
          | none ↦ ok (t, false)
          | some b ↦
              commit_block env.walk_fuel t.bc b.id t.pm.cur_view >>= λ r. ok (committed t r.0 r.1)
        ]
      ]

  -- The block and the certificate that waited for this one.
  unfoldable pub release_buffers :
      (Streamlet → Block → Outcome (Streamlet × Option StreamletError))
      → (Streamlet → Qc → Outcome Streamlet)
      → Streamlet
      → Qc
      → Outcome Streamlet
  release_buffers propose certify s qc =
      elim (s.buffered_blocks qc.block_id) [
        | none ↦ ok s
        | some b ↦ propose s b >>= λ r.
            let t = r.0 in
            ok (record t { buffered_blocks = update t.buffered_blocks qc.block_id none })
      ]
      >>= λ t. elim (t.buffered_notarized_block qc.block_id) [
        | none ↦ ok t
        | some next ↦ certify t next >>= λ u.
            ok (record u { buffered_qcs = update u.buffered_qcs next.block_id none })
      ]

  -- A certificate whose block is there, or is of the first view.
  unfoldable pub apply_certificate :
      (Streamlet → Block → Outcome (Streamlet × Option StreamletError))
      → (Streamlet → Qc → Outcome Streamlet)
      → Streamlet
      → Qc
      → Outcome Streamlet
  apply_certificate propose certify s qc = update_notarized_chain s qc >>= λ r. elim r.1 [
    | false ↦ ok r.0
    | true ↦ commit_certified r.0 qc >>= λ c. elim c.1 [
      | false ↦ ok c.0
      | true ↦ release_buffers propose certify c.0 qc
    ]
  ]

  unfoldable pub certificate_step :
      (Streamlet → Block → Outcome (Streamlet × Option StreamletError))
      → (Streamlet → Qc → Outcome Streamlet)
      → Streamlet
      → Qc
      → Outcome Streamlet
  certificate_step propose certify s qc = elim (slt qc.view s.pm.cur_view) [
    | true ↦ ok s
    | false ↦ elim (not (is_some (get_block_by_id s.bc qc.block_id)) && slt 1 qc.view) [
      | true ↦ ok (record s { buffered_qcs = update s.buffered_qcs qc.block_id (some qc) })
      | false ↦ check_certificate env.crypto s.id qc >>= λ valid. elim valid [
        | false ↦ ok s
        | true ↦ apply_certificate propose certify s qc
      ]
    ]
  ]

  -- The vote for a block, and what waited for the block.
  unfoldable pub send_vote :
      (Streamlet → Block → Outcome (Streamlet × Option StreamletError))
      → (Streamlet → Qc → Outcome Streamlet)
      → Streamlet
      → Block
      → Outcome Streamlet
  send_vote propose certify s b = make_vote env.crypto b.view s.id b.id >>= λ v.
      vote_step certify s v >>= λ t.
      let u : Streamlet = record t { sent = t.sent ++ vote_broadcast v ∷ [] } in
      elim (u.buffered_qcs b.id) [ none ↦ ok u | some qc ↦ certify u qc ] >>= λ w.
      elim (w.buffered_blocks b.id) [ none ↦ ok w | some next ↦ propose w next >>= λ r. ok r.0 ]

  -- A proposal of the view's leader.
  unfoldable pub accept_block :
      (Streamlet → Block → Outcome (Streamlet × Option StreamletError))
      → (Streamlet → Qc → Outcome Streamlet)
      → Streamlet
      → Block
      → Outcome Streamlet
  accept_block propose certify s b = check_proposer s b >>= λ _. store_block s b >>= λ t.
      voting_rule t b >>= λ votes. elim votes [
        | false ↦ ok (record t { buffered_blocks = update t.buffered_blocks b.prev_id (some b) })
        | true ↦ send_vote propose certify t b
      ]

  unfoldable pub block_step :
      (Streamlet → Block → Outcome (Streamlet × Option StreamletError))
      → (Streamlet → Qc → Outcome Streamlet)
      → Streamlet
      → Block
      → Outcome (Streamlet × Option StreamletError)
  block_step propose certify s b = elim (exists s.bc b.id) [
    | true ↦ ok (s, none)
    | false ↦ elim (slt b.view s.pm.cur_view) [
      | true ↦ ok (s, some stale_block)
      | false ↦ elim (not (is_some (get_block_by_id s.bc b.prev_id)) && slt 1 b.view) [
        | true ↦
            ok (record s { buffered_blocks = update s.buffered_blocks b.prev_id (some b) }, none)
        | false ↦ elim (is_leader_view s.election b.proposer b.view) [
          | false ↦ ok (s, some invalid_leader)
          | true ↦ accept_block propose certify s b >>= λ t. ok (t, none)
        ]
      ]
    ]
  ]

  unfoldable mutual
    pub process_block : ℕ → Streamlet → Block → Outcome (Streamlet × Option StreamletError)
    process_block zero s b = starved
    process_block (suc fuel) s b = block_step (process_block fuel) (process_certificate fuel) s b

    pub process_certificate : ℕ → Streamlet → Qc → Outcome Streamlet
    process_certificate zero s qc = starved
    process_certificate (suc fuel) s qc =
        certificate_step (process_block fuel) (process_certificate fuel) s qc

  unfoldable pub process_vote : ℕ → Streamlet → Vote → Outcome Streamlet
  process_vote fuel s v = vote_step (process_certificate fuel) s v

  -- `payload` holds the bytes drawn for the block.
  unfoldable pub make_proposal : Streamlet → Word → Bytes → Outcome Block
  make_proposal s view payload = fork_choice env.genesis s >>= λ prev.
      make_block env.crypto env.hash_block view
        (some (record {
          leader = [];
          view = 0;
          block_id = prev;
          signers = [];
          agg_sig = [];
          signature = [];
        }))
        prev s.id payload
