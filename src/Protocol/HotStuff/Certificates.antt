-- ===== src/Protocol/HotStuff/Certificates.antt =====
-- protocol/hotstuff.go: `processCertificate`, `processTC`, `ProcessVote`, `ProcessRemoteTmo` and
-- `ProcessLocalTmo`.
use banyan.Base.{
  [], ◌∷◌, ◌++◌, none, some, Bool, true, false, slt, add, if◌then◌else◌, update, Word, Outcome, ok,
  panic, ◌>>=◌, nil_dereference, bytes_eq,
}
use banyan.Crypto.{verified, failed, pub_verify}
use banyan.View.{
  commit_block, get_block_by_id, add_vote, Vote, Qc, Tmo, Tc, process_remote_tmo, advance_view,
  commits, unknown_block, cannot_prune, CommitResult, BlockChain,
}
use banyan.Protocol.Views.{ViewEnv, tmo_message, check_certificate}
use banyan.Protocol.HotStuff.Defs.{HotStuff, update_high_qc, update_preferred_view, commit_rule}

-- What a commit leaves, or an error.
unfoldable pub committed : HotStuff → BlockChain → CommitResult → HotStuff
committed s bc unknown_block = record s { bc = bc }
committed s bc cannot_prune = record s { bc = bc }
committed s bc (commits blocks forked) = record s {
  bc = bc;
  committed_blocks = s.committed_blocks ++ blocks;
  forked_blocks = s.forked_blocks ++ forked;
}

unfoldable pub process_tc : HotStuff → Tc → HotStuff
process_tc s tc =
    if slt tc.view s.pm.cur_view then s else record s { pm = advance_view s.pm tc.view }

module _ (env : ViewEnv) where
  -- The commit rule, from the third view on.
  unfoldable pub commit_certified : HotStuff → Qc → Outcome HotStuff
  commit_certified s qc = elim (slt qc.view 3) [
    | true ↦ ok s
    | false ↦ elim (commit_rule s qc) [
      | none ↦ ok s
      | some b ↦
          commit_block env.walk_fuel s.bc b.id s.pm.cur_view >>= λ r. ok (committed s r.0 r.1)
    ]
  ]

  -- A certificate that passed the checks.
  unfoldable pub apply_certificate : HotStuff → Qc → Outcome HotStuff
  apply_certificate s qc = elim (update_preferred_view s qc) [
    | none ↦ ok (record s { buffered_qcs = update s.buffered_qcs qc.block_id (some qc) })
    | some t ↦ commit_certified (update_high_qc (record t { pm = advance_view t.pm qc.view }) qc) qc
  ]

  unfoldable pub process_certificate : HotStuff → Qc → Outcome HotStuff
  process_certificate s qc =
      if slt qc.view s.pm.cur_view
      then ok s
      else (check_certificate env.crypto s.id qc >>= λ valid.
          if valid then apply_certificate s qc else ok s)

  -- A replica trusts its own votes.
  unfoldable pub check_vote : HotStuff → Vote → Outcome Bool
  check_vote s v =
      if bytes_eq.beq v.voter s.id
      then ok true
      else (pub_verify env.crypto v.signature v.block_id v.voter >>= λ r.
          ok (elim r [ failed ↦ false | verified valid ↦ valid ]))

  -- A vote that passed the check is counted; a certificate for an unknown block is buffered.
  unfoldable pub count_vote : HotStuff → Vote → Outcome HotStuff
  count_vote s v =
      let (bc, made) = add_vote s.bc v in
      let t : HotStuff = record s { bc = bc } in
      elim made [
        | none ↦ ok t
        | some qc ↦
            let own : Qc = record qc { leader = s.id } in
            elim (get_block_by_id t.bc qc.block_id) [
              | none ↦ ok (record t { buffered_qcs = update t.buffered_qcs qc.block_id (some own) })
              | some _ ↦ process_certificate t own
            ]
      ]

  unfoldable pub process_vote : HotStuff → Vote → Outcome HotStuff
  process_vote s v = check_vote s v >>= λ valid. if valid then count_vote s v else ok s

  -- The certificate of the timeout is a pointer that is not tested.
  unfoldable pub process_tmo : HotStuff → Tmo → Outcome HotStuff
  process_tmo s tmo = elim tmo.high_qc [
    | none ↦ panic nil_dereference
    | some qc ↦ process_certificate s qc >>= λ t.
        let (pm, built, tc) = process_remote_tmo t.pm tmo in
        let u : HotStuff = record t { pm = pm } in
        if built
        then elim tc [ none ↦ panic nil_dereference | some c ↦ ok (process_tc u c) ]
        else ok u
  ]

  unfoldable pub process_local_tmo : HotStuff → Word → Outcome HotStuff
  process_local_tmo s view =
      let t : HotStuff = record s { pm = advance_view s.pm view } in
      let tmo : Tmo = record { view = add view 1; node_id = t.id; high_qc = some t.high_qc } in
      process_tmo (record t { sent = t.sent ++ tmo_message tmo ∷ [] }) tmo
