-- ===== src/Election.antt =====
-- election/rotation.go and election/static.go: who may propose. `peer_no` counts the replicas, this
-- one included, and is positive.
pub mod Leaders
use banyan.Base.{
  ℕ, ◌+◌, ◌-◌, ◌%◌, Bool, true, ◌==◌, if◌then◌else◌, Word, add, sub, slt, word_mod, biased,
  bytes_eq,
}
use banyan.Identity.{NodeId, node, new_node_id}

pub record Rotation : Type 0 where
  pub peer_no : ℕ

-- `%` on `int`: the sign of the result is that of the dividend.
unfoldable pub srem : Word → ℕ → Word
srem a m = if slt a 0 then sub 0 (sub 0 a % m) else a % m

unfoldable pub is_leader : Rotation → NodeId → Word → Word → Bool
is_leader r id height rank = (add (sub height 1) rank % r.peer_no) == (sub (node id) 1)

unfoldable pub is_leader_view : Rotation → NodeId → Word → Bool
is_leader_view r id view = (sub view 1 % r.peer_no) == (sub (node id) 1)

unfoldable pub find_leader_for : Rotation → Word → Word → NodeId
find_leader_for r height rank = new_node_id (add (srem (sub (add height rank) 1) r.peer_no) 1)

unfoldable pub find_leader_for_view : Rotation → Word → NodeId
find_leader_for_view r view = new_node_id (add (srem (sub view 1) r.peer_no) 1)

-- The election with one master.
pub record Static : Type 0 where
  pub master : NodeId

unfoldable pub is_leader_static : Static → NodeId → Word → Word → Bool
is_leader_static st id height rank = bytes_eq.beq id st.master

unfoldable pub find_leader_for_static : Static → Word → Word → NodeId
find_leader_for_static st height rank = st.master
