-- ===== src/Protocol/HotStuff/Growth.antt =====
-- protocol/hotstuff.go: what no handler takes back.
use banyan.Base.{
  ℕ, zero, suc, ◌≤◌, biased, List, [], ◌++◌, ◌≡◌, refl, sym, ap, ◌∙◌, inl, inr, Option, some, true,
  false, slt, add, Word, ok, bytes_eq, arith, Returns, Returns-bind, Returns-then, Returns-if,
  Bool-cases, Option-cases,
}
use mathlib.Core.List.{append-nil, append_assoc}
use banyan.Election.{is_leader_view, find_leader_for_view}
use banyan.View.{
  Block, BlockChain, CommitResult, commits, unknown_block, cannot_prune, commit_block, add_vote,
  add_block, get_block_by_id, make_vote, Vote, Qc, advance_view,
}
use banyan.Protocol.Views.{ViewEnv, check_certificate}
use banyan.Protocol.HotStuff.{
  HotStuff, ProposalError, update_high_qc, update_preferred_view, commit_rule, voting_rule,
  committed, commit_certified, apply_certificate, process_certificate, check_vote, count_vote,
  process_vote, store_block, check_proposer, take_certificate, release_qc, send_vote, process_block,
}

-- The view last voted in, the views of the high certificate and preferred, and the commits, before
-- and after: the first stays, the next two are no lower, and commits are only added.
pub record Growth (voted high preferred : Word) (commits : List Block)
    (voted' high' preferred' : Word) (commits' : List Block) : Type 0 where
  pub same_vote : voted' ≡ voted
  pub no_lower : biased high ≤ biased high'
  pub no_less : biased preferred ≤ biased preferred'
  pub added : (new : List Block) × (commits' ≡ commits ++ new)

abbrev pub Grows : HotStuff → HotStuff → Type 0
Grows s t =
    Growth s.last_voted_view s.high_qc.view s.preferred_view s.committed_blocks t.last_voted_view
      t.high_qc.view t.preferred_view t.committed_blocks

abbrev pub GrowsFst : HotStuff → HotStuff × Option ProposalError → Type 0
GrowsFst s r = Grows s r.0

pub Grows-refl : (s : HotStuff) → Grows s s
Grows-refl s = record {
  same_vote = refl;
  no_lower = omega arith;
  no_less = omega arith;
  added = ([], sym (append-nil s.committed_blocks));
}

pub Grows-trans : (s t u : HotStuff) → Grows s t → Grows t u → Grows s u
Grows-trans s t u g h = record {
  same_vote = h.same_vote ∙ g.same_vote;
  no_lower = omega (arith, g.no_lower, h.no_lower);
  no_less = omega (arith, g.no_less, h.no_less);
  added = (
    g.added.0 ++ h.added.0,
    h.added.1
        ∙ ap (λ l. l ++ h.added.0) g.added.1
        ∙ append_assoc s.committed_blocks g.added.0 h.added.0,
  );
}

committed-Grows : (s : HotStuff) (bc : BlockChain) (r : CommitResult) → Grows s (committed s bc r)
unfolding committed
committed-Grows s bc unknown_block = Grows-refl s
committed-Grows s bc cannot_prune = Grows-refl s
committed-Grows s bc (commits x y) = record {
  same_vote = refl;
  no_lower = omega arith;
  no_less = omega arith;
  added = (x, refl);
}

update_high_qc-Grows : (s : HotStuff) (qc : Qc) → Grows s (update_high_qc s qc)
unfolding update_high_qc
update_high_qc-Grows s qc = elim (Bool-cases (slt s.high_qc.view qc.view)) [
  | inl e ↦ rw e (record {
    same_vote = refl;
    no_lower = ground (arith, e);
    no_less = omega arith;
    added = (Grows-refl s).added;
  })
  | inr e ↦ rw e (Grows-refl s)
]

update_preferred_view-Grows :
    (s t : HotStuff) (qc : Qc) → update_preferred_view s qc ≡ some t → Grows s t
unfolding update_preferred_view
update_preferred_view-Grows s t qc h = record {
  same_vote = ground (arith, h);
  no_lower = ground (arith, h);
  no_less = ground (arith, h);
  added = ([], ground (arith, h, append-nil s.committed_blocks));
}

store_block-Grows : (s : HotStuff) (b : Block) → Returns (Grows s) (store_block s b)
unfolding store_block
store_block-Grows s b = elim (Bool-cases (s.echoed_block b.id)) [
  | inl e ↦ rw e (Returns-then (Grows s) (add_block s.bc b) _ (λ _ _. Grows-refl s))
  | inr e ↦ rw e (Returns-then (Grows s) (add_block s.bc b) _ (λ _ _. Grows-refl s))
]

module _ (env : ViewEnv) (o : HotStuff) where
  commit_certified-Grows :
      (s : HotStuff) (qc : Qc) → Grows o s → Returns (Grows o) (commit_certified env s qc)
  unfolding commit_certified
  commit_certified-Grows s qc h = elim (Bool-cases (slt qc.view 3)) [
    | inl e ↦ rw (commit_certified, e) h
    | inr e ↦ elim (Option-cases (commit_rule s qc)) [
      | inl f ↦ rw (commit_certified, e, f) h
      | inr (b, f) ↦
          rw (commit_certified, e, f)
            (Returns-then (Grows o) (commit_block env.walk_fuel s.bc b.id s.pm.cur_view) _
              (λ r _. Grows-trans o s (committed s r.0 r.1) h (committed-Grows s r.0 r.1)))
    ]
  ]

  apply_certificate-Grows :
      (s : HotStuff) (qc : Qc) → Grows o s → Returns (Grows o) (apply_certificate env s qc)
  unfolding apply_certificate
  apply_certificate-Grows s qc h = elim (Option-cases (update_preferred_view s qc)) [
    | inl e ↦ rw (apply_certificate, e) h
    | inr (t, e) ↦
        rw (apply_certificate, e)
          (commit_certified-Grows _ qc (
            Grows-trans o t (update_high_qc (record t { pm = advance_view t.pm qc.view }) qc)
              (Grows-trans o s t h (update_preferred_view-Grows s t qc e))
              (update_high_qc-Grows (record t { pm = advance_view t.pm qc.view }) qc)))
  ]

  pub process_certificate-Grows :
      (s : HotStuff) (qc : Qc) → Grows o s → Returns (Grows o) (process_certificate env s qc)
  unfolding process_certificate
  process_certificate-Grows s qc h =
      Returns-if (Grows o) (slt qc.view s.pm.cur_view) (ok s) _ (λ _. h)
        (λ _. Returns-then (Grows o) (check_certificate env.crypto s.id qc) _ (λ valid _.
          Returns-if (Grows o) valid _ (ok s) (λ _. apply_certificate-Grows s qc h) (λ _. h)))

  count_vote-Grows : (s : HotStuff) (v : Vote) → Grows o s → Returns (Grows o) (count_vote env s v)
  unfolding count_vote
  count_vote-Grows s v h = elim (Option-cases (add_vote s.bc v).1) [
    | inl e ↦ rw (count_vote, e) h
    | inr (qc, e) ↦ elim (Option-cases (get_block_by_id (add_vote s.bc v).0 qc.block_id)) [
      | inl f ↦ rw (count_vote, e, f) h
      | inr (b, f) ↦ rw (count_vote, e, f) (process_certificate-Grows _ _ h)
    ]
  ]

  pub process_vote-Grows :
      (s : HotStuff) (v : Vote) → Grows o s → Returns (Grows o) (process_vote env s v)
  unfolding process_vote
  process_vote-Grows s v h =
      Returns-then (Grows o) (check_vote env s v) _
        (λ valid _. Returns-if (Grows o) valid _ (ok s) (λ _. count_vote-Grows s v h) (λ _. h))

  take_certificate-Grows :
      (s : HotStuff) (b : Block) (qc : Qc)
      → Grows o s
      → Returns (Grows o) (take_certificate env s b qc)
  unfolding take_certificate
  take_certificate-Grows s b qc h =
      let h' = Grows-trans o s (update_high_qc s qc) h (update_high_qc-Grows s qc) in
      Returns-if (Grows o) (bytes_eq.beq b.proposer s.id) (ok (update_high_qc s qc)) _ (λ _. h')
        (λ _. process_certificate-Grows (update_high_qc s qc) qc h')

  release_qc-Grows : (s : HotStuff) (b : Block) → Grows o s → Returns (Grows o) (release_qc env s b)
  unfolding release_qc
  release_qc-Grows s b h = elim (Option-cases (s.buffered_qcs b.id)) [
    | inl e ↦ rw (release_qc, e) h
    | inr (qc, e) ↦
        rw (release_qc, e)
          (Returns-bind (Grows o) (Grows o) (process_certificate env s qc) _
            (process_certificate-Grows s qc h) (λ t k. k))
  ]

  send_vote-Grows : (s : HotStuff) (b : Block) → Grows o s → Returns (Grows o) (send_vote env s b)
  unfolding send_vote
  send_vote-Grows s b h = Returns-then (Grows o) (make_vote env.crypto b.view s.id b.id) _ (λ v _.
      Returns-if (Grows o) (bytes_eq.beq (find_leader_for_view s.election (add b.view 1)) s.id) _
        (ok _) (λ _. process_vote-Grows s v h) (λ _. h))

  -- x
  pub process_block-Grows :
      (fuel : ℕ) (s : HotStuff) (b : Block)
      → Grows o s
      → Returns (GrowsFst o) (process_block env fuel s b)
  unfolding process_block
  process_block-Grows zero s b h = tt
  process_block-Grows (suc fuel) s b h =
      Returns-then (GrowsFst o) (check_proposer env s b) _ (λ _ _.
        elim (Bool-cases (slt (add s.pm.cur_view 1) b.view)) [
          | inl e ↦ rw e h
          | inr e ↦ elim (Option-cases b.qc) [
            | inl f ↦ rw (e, f) h
            | inr (qc, f) ↦
                rw (e, f)
                  (Returns-bind (Grows o) (GrowsFst o) (take_certificate env s b qc) _
                    (take_certificate-Grows s b qc h)
                    (λ t k. elim (Bool-cases (slt b.view t.pm.cur_view)) [
                      | inl g ↦ rw g k
                      | inr g ↦ elim (Bool-cases (is_leader_view t.election b.proposer b.view)) [
                        | inr l ↦ rw (g, l) k
                        | inl l ↦
                            rw (g, l)
                              (Returns-bind (Grows t) (GrowsFst o) (store_block t b) _
                                (store_block-Grows t b)
                                (λ w kept.
                                  Returns-bind (Grows o) (GrowsFst o) (release_qc env w b) _
                                    (release_qc-Grows w b (Grows-trans o t w k kept))
                                    (λ u m. elim (Option-cases (voting_rule u b)) [
                                      | inl v ↦ rw v m
                                      | inr (false, v) ↦ rw v m
                                      | inr (true, v) ↦ rw v (
                                          Returns-bind (Grows o) (GrowsFst o) (send_vote env u b) _
                                            (send_vote-Grows u b m)
                                            (λ x n. elim (Option-cases (x.buffered_blocks b.view)) [
                                              | inl z ↦ rw z n
                                              | inr (c, z) ↦ rw z (
                                                  Returns-bind (GrowsFst o) (GrowsFst o)
                                                    (process_block env fuel x c) _
                                                    (process_block-Grows fuel x c n) (λ r q. q))
                                            ]))
                                    ])))
                      ]
                    ]))
          ]
        ])
