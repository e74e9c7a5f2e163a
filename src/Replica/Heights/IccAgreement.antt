-- ===== src/Replica/Heights/IccAgreement.antt =====
-- replica/replica.go with protocol/icc_actually.go: several replicas that propose, exchange their
-- blocks and shares, and run their goroutines in any order.
use banyan.Base.{
  ℕ, ◌+◌, ◌*◌, ◌≤◌, ◌≡◌, List, true, Word, ok, length, In, All, Returns-at, Returns-map, arith,
  ltb→lt,
}
use banyan.Identity.{NodeId}
use banyan.Crypto.{Identifier}
use banyan.LocalTimeout.{new_local_timeout}
use banyan.Chain.{Block, RawBlock, make_block}
use banyan.Shares.{f_super_majority, f_size}
use banyan.Protocol.Common.{Env, Message, block}
use banyan.Protocol.Exclusive.{Agrees}
use banyan.Protocol.Agreement.{Votes, IsAuthentic, sound_replicas_agree}
use banyan.Protocol.Icc.{Icc, make_proposal, icc_safety}
use banyan.Protocol.Icc.Sound.{IsSound, IsQuorum, broadcast-IsSound}
use banyan.Protocol.Icc.Sound.Runs.{handle_event-IsSound, new_icc-IsSound}
use banyan.Replica.Heights.Defs.{Replica, Task, new_replica_with, new_icc_replica, run_tasks}
use banyan.Replica.Heights.Invariant.{Maintains, IsGood, Holds, run_tasks_keep}
use banyan.Replica.Heights.Banyan.{IsFair, make_block-Agrees}

icc-Maintains :
    (env : Env) (height_of : Identifier → Word) (fuel : ℕ)
    → ((raw : RawBlock) → height_of (env.hash_block raw) ≡ raw.height)
    → (got : Message → Type 0) (self : NodeId) (n : ℕ) → ((b : Block) → got (block b))
    → Maintains (icc_safety env fuel) (IsFair height_of got) (IsSound height_of got self n)
unfolding make_proposal
icc-Maintains env height_of fuel hashed got self n blocks = record {
  takes_in = λ s m good h. handle_event-IsSound env height_of got self n fuel s m good.1 good.0 h;
  broadcast = λ s b h. broadcast-IsSound env height_of got self n s b h;
  set_lt = λ s lt h. h;
  proposal = λ s height rank now payload h.
      Returns-map (λ (made : Block). Agrees height_of (block (record made { timestamp = now })))
        (λ (made : Block). IsFair height_of got (block (record made { timestamp = now })))
        (make_block env.crypto env.hash_block height rank s.head_id s.id payload)
        (make_block-Agrees env height_of hashed height rank now s.head_id s.id payload)
        (λ made agree. (agree, blocks (record made { timestamp = now })));
}

-- What the votes of a replica depend on.
abbrev pub icc_votes : Icc → Votes
icc_votes s = record {
  head = s.head_height;
  is_notarized = s.is_notarized;
  no = s.sent_nshares_no;
  voted = s.sent_nshare_id;
  sent_fshare = s.sent_fshare;
  sent = s.sent;
  nv = s.nshares_bag.votes;
  fv = s.fshares_bag.votes;
}

-- A message whose block has one height, and whose author has sent it if not faulty.
abbrev pub IsHonestIcc :
    (Identifier → Word) → List NodeId → List NodeId → (NodeId → Replica Icc) → Message → Type 0
IsHonestIcc height_of nodes faulty run =
    IsFair height_of (IsAuthentic nodes faulty (λ i. (run i).safety.sent))

run_tasks-IsSound :
    (env : Env) (height_of : Identifier → Word) (fuel : ℕ) (duration payload_size : Word)
    (nodes faulty : List NodeId) (tasks : List Task) (run : NodeId → Replica Icc) (i : NodeId)
    → ((raw : RawBlock) → height_of (env.hash_block raw) ≡ raw.height)
    → run_tasks
        (icc_safety env fuel)
        (new_icc_replica env i (length nodes) duration payload_size)
        tasks
      ≡ ok (run i)
    → All (IsGood (IsHonestIcc height_of nodes faulty run)) tasks
    → IsSound height_of
        (IsAuthentic nodes faulty (λ j. (run j).safety.sent))
        i
        (length nodes)
        (run i).safety
unfolding new_icc_replica new_replica_with
run_tasks-IsSound env height_of fuel duration payload_size nodes faulty tasks run i hashed runs
      honest =
    let got = IsAuthentic nodes faulty (λ j. (run j).safety.sent) in
    let keep = icc-Maintains env height_of fuel hashed got i (length nodes) (λ b. tt) in
    let start = new_icc_replica env i (length nodes) duration payload_size in
    (Returns-at
      (Holds (icc_safety env fuel) (IsHonestIcc height_of nodes faulty run)
        (IsSound height_of got i (length nodes)) keep)
      (run_tasks (icc_safety env fuel) start tasks) (run i)
      (run_tasks_keep (icc_safety env fuel) (IsHonestIcc height_of nodes faulty run)
        (IsSound height_of got i (length nodes)) keep start tasks honest
        (
          new_icc-IsSound env height_of got i (length nodes) (record { peer_no = length nodes })
              new_local_timeout,
          tt,
        ))
      runs).0

-- The same for ICC. Nodes, at least 3f+1, of which at most f are faulty: the id of a block tells
-- its height, and each of the others starts a replica, whose goroutines run in any order and which
-- proposes and takes in messages whose blocks have one height each and shares in the name of nodes
-- that, if not faulty, have sent them. When the replicas have returned, a block with a super
-- majority in the finalization bag of one of them and a block that is notarized at one of them are
-- the same block if their heights are the same.
pub icc_replicas_agree :
    (env : Env) (height_of : Identifier → Word) (fuel f : ℕ) (duration payload_size : Word)
    (nodes faulty : List NodeId) (tasks : NodeId → List Task) (run : NodeId → Replica Icc)
    (a b : NodeId) (x y : Identifier)
    → ((raw : RawBlock) → height_of (env.hash_block raw) ≡ raw.height)
    → 3 * f + 1 ≤ length nodes
    → length faulty ≤ f
    → ((i : NodeId)
        → In i nodes
        → (¬ In i faulty)
        → run_tasks
            (icc_safety env fuel)
            (new_icc_replica env i (length nodes) duration payload_size)
            (tasks i)
          ≡ ok (run i))
    → ((i : NodeId)
        → In i nodes
        → (¬ In i faulty)
        → All (IsGood (IsHonestIcc height_of nodes faulty run)) (tasks i))
    → In a nodes
    → (¬ In a faulty)
    → In b nodes
    → (¬ In b faulty)
    → f_super_majority (run a).safety.fshares_bag x ≡ true
    → (run b).safety.is_notarized y ≡ true
    → height_of x ≡ height_of y
    → x ≡ y
unfolding f_super_majority f_size
icc_replicas_agree env height_of fuel f duration payload_size nodes faulty tasks run a b x y hashed
      enough few runs honest in_a good_a in_b good_b final notarized same =
    let sound = λ (i : NodeId) (there : In i nodes) (good : ¬ In i faulty).
      run_tasks-IsSound env height_of fuel duration payload_size nodes faulty (tasks i) run i hashed
        (runs i there good) (honest i there good) in
    let sized_a = (sound a in_a good_a).2 in
    let quorum_b = (sound b in_b good_b).1.quorum y notarized in
    sound_replicas_agree height_of nodes faulty (λ i. icc_votes (run i).safety)
      (IsQuorum (length nodes)) a b x y
      (λ i there good. ((sound i there good).0, (sound i there good).1)) in_a good_a in_b good_b
      (omega (arith, ltb→lt _ _ final, sized_a.f_total, quorum_b)) same
