-- ===== src/Replica/Views/HotStuff.antt =====
-- replica/replica_view.go with protocol/hotstuff.go: what a replica of HotStuff never takes back.
use banyan.Base.{
  Returns-map, ℕ, ◌≡◌, inl, inr, none, some, Bool, true, not, slt, sle, biased, Word, refl, false,
  arith, Option-cases, List, Returns, Returns-bind,
}
use banyan.Identity.{NodeId}
use banyan.View.{Block, get_parent_block}
use banyan.Protocol.Views.{ViewEnv}
use banyan.Protocol.HotStuff.{HotStuff, new_hotstuff, voting_rule, process_block}
use banyan.Protocol.HotStuff.Growth.{
  Grows, GrowsFst, Grows-refl, process_vote-Grows, process_block-Grows,
}
use banyan.Protocol.HotStuff.Timeouts.{process_tmo-Grows, process_local_tmo-Grows}
use banyan.Protocol.ViewSafety.{hotstuff_safety}
use banyan.Replica.Views.{ReplicaView, Action, new_replica, new_hotstuff_replica, run_actions}
use banyan.Replica.Views.Invariant.{Keeps, run_actions_keep}

hotstuff-Keeps :
    (env : ViewEnv) (fuel : ℕ) (o : HotStuff) → Keeps (hotstuff_safety env fuel) (Grows o)
hotstuff-Keeps env fuel o = record {
  process_block = λ s b h.
      Returns-bind (GrowsFst o) (Grows o) (process_block env fuel s b) _
        (process_block-Grows env o fuel s b h) (λ r k. k);
  process_vote = process_vote-Grows env o;
  process_remote_tmo = process_tmo-Grows env o;
  process_local_tmo = process_local_tmo-Grows env o;
  broadcast = λ s m h. h;
  set_pm = λ s pm h. h;
  run_pending = λ s k h. h;
}

-- The protocol of the replica has grown from a state.
abbrev pub HasGrown : HotStuff → ReplicaView HotStuff → Type 0
HasGrown o r = Grows o r.safety_view

-- Whatever the goroutines of a HotStuff replica do, in any order: when they have returned, the view
-- last voted in is the same, the views of the high certificate and the preferred view are no lower,
-- and the committed blocks are those before and more.
pub run_actions-HasGrown :
    (env : ViewEnv) (fuel : ℕ) (r : ReplicaView HotStuff) (actions : List Action)
    → Returns (HasGrown r.safety_view) (run_actions (hotstuff_safety env fuel) r actions)
run_actions-HasGrown env fuel r actions =
    run_actions_keep (hotstuff_safety env fuel) (Grows r.safety_view)
      (hotstuff-Keeps env fuel r.safety_view) r actions (Grows-refl r.safety_view)

-- Whether the replica votes for the block depends on the view of its parent only.
pub VotesByParent : Block → ReplicaView HotStuff → Type 0
VotesByParent b r =
    let s = r.safety_view in
    voting_rule s b ≡ elim (get_parent_block s.bc b.id) [
      | none ↦ none
      | some p ↦ some (not (slt p.view s.preferred_view))
    ]

above_two : (view : Word) → slt 2 view ≡ true → sle view 0 ≡ false
unfolding biased
above_two view late = ground (arith, late)

voting_rule-VotesByParent :
    (b : Block) (r : ReplicaView HotStuff)
    → slt 2 b.view ≡ true
    → r.safety_view.last_voted_view ≡ 0
    → VotesByParent b r
unfolding VotesByParent voting_rule
voting_rule-VotesByParent b r late unvoted =
    let above : sle b.view 2 ≡ false = ground (arith, late) in
    let fresh : sle b.view r.safety_view.last_voted_view ≡ false =
      rw unvoted (above_two b.view late) in
    elim (Option-cases (get_parent_block r.safety_view.bc b.id)) [
      | inl e ↦ rw (voting_rule, above, e) refl
      | inr (p, e) ↦ rw (voting_rule, above, e, fresh) refl
    ]

-- A new HotStuff replica, and a block above view 2, in the order of int: whatever the goroutines of
-- the replica do, in any order, when they have returned the voting rule looks at the view of the
-- block's parent and the preferred view only, and not at the votes sent before.
pub run_actions-VotesByParent :
    (env : ViewEnv) (fuel n : ℕ) (node : NodeId) (is_byz : Bool) (actions : List Action) (b : Block)
    → slt 2 b.view ≡ true
    → Returns
        (VotesByParent b)
        (run_actions (hotstuff_safety env fuel) (new_hotstuff_replica node n is_byz) actions)
unfolding new_hotstuff_replica new_replica new_hotstuff
run_actions-VotesByParent env fuel n node is_byz actions b late =
    let start = new_hotstuff_replica node n is_byz in
    Returns-map (HasGrown start.safety_view) (VotesByParent b)
      (run_actions (hotstuff_safety env fuel) start actions)
      (run_actions-HasGrown env fuel start actions)
      (λ r g. voting_rule-VotesByParent b r late g.same_vote)
