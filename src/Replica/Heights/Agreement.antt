-- ===== src/Replica/Heights/Agreement.antt =====
-- replica/replica.go with protocol/banyan.go: several replicas that propose, exchange their blocks and
-- shares, and run their goroutines in any order.
use banyan.Base.{
  arith, ltb→lt, ℕ, ◌+◌, ◌*◌, ◌≤◌, ◌≡◌, List, true, Word, ok, length, In, All, Returns-at,
}
use banyan.Identity.{NodeId}
use banyan.Election.{Rotation}
use banyan.Crypto.{Identifier}
use banyan.LocalTimeout.{new_local_timeout}
use banyan.Chain.{RawBlock}
use banyan.Shares.{f_super_majority, f_size}
use banyan.Protocol.Common.{Env, Message}
use banyan.Protocol.Banyan.{Banyan, banyan_safety}
use banyan.Protocol.Banyan.Exclusive.Runs.{new_banyan-IsExclusive}
use banyan.Protocol.Banyan.Accounted.Runs.{new_banyan-IsAccounted}
use banyan.Protocol.Agreement.{Votes, IsAuthentic, IsSoundNode, sound_replicas_agree}
use banyan.Protocol.Banyan.Accounted.{IsQuorum, HasSize}
use banyan.Replica.Heights.Defs.{Replica, Task, new_replica_with, new_banyan_replica, run_tasks}
use banyan.Replica.Heights.Invariant.{IsGood, Holds, run_tasks_keep}
use banyan.Replica.Heights.Banyan.{IsFair, IsSound, banyan-Maintains}

-- What the votes of a replica depend on.
abbrev pub banyan_votes : Banyan → Votes
banyan_votes s = record {
  head = s.head_height;
  is_notarized = s.is_notarized;
  no = s.sent_nshares_no;
  voted = s.sent_nshare_id;
  sent_fshare = s.sent_fshare;
  sent = s.sent;
  nv = s.nshares_bag_banyan.votes;
  fv = s.fshares_bag.votes;
}

-- A message whose block has one height, and whose author has sent it if not faulty.
abbrev pub IsHonest :
    (Identifier → Word) → List NodeId → List NodeId → (NodeId → Replica Banyan) → Message → Type 0
IsHonest height_of nodes faulty run =
    IsFair height_of (IsAuthentic nodes faulty (λ i. (run i).safety.sent))

run_tasks-IsSoundNode :
    (env : Env) (height_of : Identifier → Word) (fuel f p : ℕ) (duration payload_size : Word)
    (nodes faulty : List NodeId) (tasks : List Task) (run : NodeId → Replica Banyan) (i : NodeId)
    → ((raw : RawBlock) → height_of (env.hash_block raw) ≡ raw.height)
    → run_tasks
        (banyan_safety env fuel)
        (new_banyan_replica env i (length nodes) f p duration payload_size)
        tasks
      ≡ ok (run i)
    → All (IsGood (IsHonest height_of nodes faulty run)) tasks
    → IsSoundNode height_of nodes faulty
        (λ j. banyan_votes (run j).safety)
        (IsQuorum (length nodes) f)
        i
      × HasSize i
          (length nodes)
          f
          (run i).safety.id
          (run i).safety.nshares_bag_banyan
          (run i).safety.fshares_bag
unfolding new_banyan_replica new_replica_with
run_tasks-IsSoundNode env height_of fuel f p duration payload_size nodes faulty tasks run i hashed
      runs honest =
    let got = IsAuthentic nodes faulty (λ j. (run j).safety.sent) in
    let keep = banyan-Maintains env height_of fuel hashed got i (length nodes) f (λ b. tt) in
    let start = new_banyan_replica env i (length nodes) f p duration payload_size in
    let elec : Rotation = record { peer_no = length nodes } in
    let held =
      (Returns-at
        (Holds (banyan_safety env fuel) (IsHonest height_of nodes faulty run)
          (IsSound height_of got i (length nodes) f) keep)
        (run_tasks (banyan_safety env fuel) start tasks) (run i)
        (run_tasks_keep (banyan_safety env fuel) (IsHonest height_of nodes faulty run)
          (IsSound height_of got i (length nodes) f) keep start tasks honest
          (
            (
              new_banyan-IsExclusive env height_of fuel i elec new_local_timeout (length nodes) f p,
              new_banyan-IsAccounted env height_of got i (length nodes) f fuel elec
                  new_local_timeout p,
            ),
            tt,
          ))
        runs).0 in
    ((held.0, held.1.0), held.1.1)

-- Nodes, at least 3f+1, of which at most f are faulty: the id of a block tells its height, and each
-- of the others starts a replica, whose goroutines run in any order and which proposes and takes in
-- messages whose blocks have one height each and shares in the name of nodes that, if not faulty,
-- have sent them. When the replicas have returned, a block with a super majority in the
-- finalization bag of one of them and a block that is notarized at one of them are the same block
-- if their heights are the same.
pub finalized_and_notarized_agree :
    (env : Env) (height_of : Identifier → Word) (fuel f p : ℕ) (duration payload_size : Word)
    (nodes faulty : List NodeId) (tasks : NodeId → List Task) (run : NodeId → Replica Banyan)
    (a b : NodeId) (x y : Identifier)
    → ((raw : RawBlock) → height_of (env.hash_block raw) ≡ raw.height)
    → 3 * f + 1 ≤ length nodes
    → length faulty ≤ f
    → ((i : NodeId)
        → In i nodes
        → (¬ In i faulty)
        → run_tasks
            (banyan_safety env fuel)
            (new_banyan_replica env i (length nodes) f p duration payload_size)
            (tasks i)
          ≡ ok (run i))
    → ((i : NodeId)
        → In i nodes
        → (¬ In i faulty)
        → All (IsGood (IsHonest height_of nodes faulty run)) (tasks i))
    → In a nodes
    → (¬ In a faulty)
    → In b nodes
    → (¬ In b faulty)
    → f_super_majority (run a).safety.fshares_bag x ≡ true
    → (run b).safety.is_notarized y ≡ true
    → height_of x ≡ height_of y
    → x ≡ y
unfolding f_super_majority f_size
finalized_and_notarized_agree env height_of fuel f p duration payload_size nodes faulty tasks run a
      b x y hashed enough few runs honest in_a good_a in_b good_b final notarized same =
    let sound = λ (i : NodeId) (there : In i nodes) (good : ¬ In i faulty).
      run_tasks-IsSoundNode env height_of fuel f p duration payload_size nodes faulty (tasks i) run
        i hashed (runs i there good) (honest i there good) in
    let sized_a = (sound a in_a good_a).1 in
    let quorum_b = (sound b in_b good_b).0.1.quorum y notarized in
    sound_replicas_agree height_of nodes faulty (λ i. banyan_votes (run i).safety)
      (IsQuorum (length nodes) f) a b x y (λ i there good. (sound i there good).0) in_a good_a in_b
      good_b (omega (arith, ltb→lt _ _ final, sized_a.f_total, quorum_b)) same
