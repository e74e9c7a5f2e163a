-- ===== src/Protocol/ViewSafety.antt =====
-- replica/safety_view.go: what a replica asks of a protocol by views, and how HotStuff and Streamlet
-- fill it in.
use banyan.Base.{ℕ, List, [], ◌∷◌, ◌++◌, ◌≡◌, Bytes, Word, Outcome, ok, ◌>>=◌}
use banyan.Identity.{NodeId}
use banyan.Election.{Rotation}
use banyan.View.{Block, Vote, Tmo, Pacemaker}
use banyan.Protocol.Views.{ViewEnv, ViewMessage}
use banyan.Protocol.HotStuff as HotStuff
use banyan.Protocol.HotStuff.{HotStuff}
use banyan.Protocol.Streamlet as Streamlet
use banyan.Protocol.Streamlet.{Streamlet}

-- `SafetyView`, with what the embedded node and election and the pacemaker give; the replica ignores
-- the errors of `ProcessBlock`. `run_pending` runs a goroutine that the protocol has started.
pub record SafetyView (S : Type 0) : Type 0 where
  pub process_block : S → Block → Outcome S
  pub process_vote : S → Vote → Outcome S
  pub process_remote_tmo : S → Tmo → Outcome S
  pub process_local_tmo : S → Word → Outcome S
  pub make_proposal : S → Word → Bytes → Outcome Block
  pub broadcast : S → ViewMessage → S
  pub sent : S → List ViewMessage
  pub node_id : S → NodeId
  pub election : S → Rotation
  pub pm : S → Pacemaker
  pub set_pm : S → Pacemaker → S
  pub run_pending : S → ℕ → S

-- Neither the pacemaker nor a goroutine that advances it sends anything.
pub record IsQuiet {S : Type 0} (safety : SafetyView S) : Type 0 where
  pub set_pm : (s : S) (pm : Pacemaker) → safety.sent (safety.set_pm s pm) ≡ safety.sent s
  pub run_pending : (s : S) (k : ℕ) → safety.sent (safety.run_pending s k) ≡ safety.sent s

-- `fuel` bounds the nested calls of `ProcessBlock`.
abbrev pub hotstuff_safety : ViewEnv → ℕ → SafetyView HotStuff
hotstuff_safety env fuel = record {
  process_block = λ s b. HotStuff.process_block env fuel s b >>= λ r. ok r.0;
  process_vote = HotStuff.process_vote env;
  process_remote_tmo = HotStuff.process_tmo env;
  process_local_tmo = HotStuff.process_local_tmo env;
  make_proposal = HotStuff.make_proposal env;
  broadcast = λ s m. record s { sent = s.sent ++ m ∷ [] };
  sent = λ s. s.sent;
  node_id = λ s. s.id;
  election = λ s. s.election;
  pm = λ s. s.pm;
  set_pm = λ s pm. record s { pm = pm };
  run_pending = λ s k. s;
}

abbrev pub streamlet_safety : ViewEnv → ℕ → SafetyView Streamlet
streamlet_safety env fuel = record {
  process_block = λ s b. Streamlet.process_block env fuel s b >>= λ r. ok r.0;
  process_vote = Streamlet.process_vote env fuel;
  process_remote_tmo = Streamlet.process_tmo;
  process_local_tmo = Streamlet.process_local_tmo;
  make_proposal = Streamlet.make_proposal env;
  broadcast = λ s m. record s { sent = s.sent ++ m ∷ [] };
  sent = λ s. s.sent;
  node_id = λ s. s.id;
  election = λ s. s.election;
  pm = λ s. s.pm;
  set_pm = λ s pm. record s { pm = pm };
  run_pending = Streamlet.run_pending;
}
