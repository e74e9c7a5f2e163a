-- ===== src/Replica/Heights/Handlers/Dispatch.antt =====
-- node/node.go with replica/replica.go: from the socket to the channel of events.
use banyan.Base.{
  List, [], ◌∷◌, ◌++◌, map, ◌≡◌, refl, ap, ◌∙◌, Bool, Outcome, ok, panic, starved, ◌>>=◌, Gives,
  Bytes, lookup, list_beq, insert,
}
use mathlib.Core.List.{append_assoc, append-nil}
use banyan.Identity.{NodeId}
use banyan.Protocol.Common.{block, notarization, finalization}
use banyan.Protocol.Safety.{Safety}
use banyan.Node.{Node, new_node, register, same_type, recv, call_handler, handle}
use banyan.Replica.Heights.Defs.{Replica, Task, deliver, ask, run_task, run_tasks}
use banyan.Replica.Heights.Handlers.{
  Packet, protocol, query, type_of, block_type, notarization_type, finalization_type, query_type,
  on_block, on_notarization, on_finalization, on_query, register_handlers,
}

-- What the replica does with a packet.
abbrev pub task_of : Packet → Task
task_of (protocol m) = deliver m
task_of (query now) = ask now

recv-message_chan :
    {M R : Type 0} (n : Node M R) (ms : List M)
    → ((recv n ms).message_chan ≡ n.message_chan ++ ms) × ((recv n ms).handles ≡ n.handles)
unfolding recv
recv-message_chan n [] = (rw append-nil, refl)
recv-message_chan n (m ∷ ms) =
    let (queued, same) =
      recv-message_chan (record n { message_chan = n.message_chan ++ m ∷ [] }) ms in
    (queued ∙ append_assoc n.message_chan (m ∷ []) ms, same)

then_same :
    {A B : Type 0} (m : Outcome A) (f g : A → Outcome B)
    → ((a : A) → f a ≡ g a)
    → (m >>= f) ≡ (m >>= g)
then_same (ok a) f g h = h a
then_same (panic fault) f g h = refl
then_same starved f g h = refl

module _ {S : Type 0} (safety : Safety S) where
  -- The handlers in the order in which they are registered.
  abbrev table : List (Bytes × (Packet → Replica S → Outcome (Replica S)))
  table =
      (block_type.text, on_block)
      ∷ (notarization_type.text, on_notarization)
      ∷ (finalization_type.text, on_finalization)
      ∷ (query_type.text, on_query)
      ∷ []

  call_handler-run_task :
      (m : Packet) (r : Replica S) → call_handler type_of table m r ≡ run_task safety r (task_of m)
  unfolding call_handler lookup list_beq run_task on_block on_notarization on_finalization on_query
  call_handler-run_task (protocol (block b)) r = refl
  call_handler-run_task (protocol (notarization ns)) r = refl
  call_handler-run_task (protocol (finalization fs)) r = refl
  call_handler-run_task (query now) r = refl

  handle-run_tasks :
      (ms : List Packet) (r : Replica S)
      → handle type_of table ms r ≡ run_tasks safety r (map task_of ms)
  unfolding handle run_tasks
  handle-run_tasks [] r = refl
  handle-run_tasks (m ∷ ms) r =
      ap (λ k. k >>= handle type_of table ms) (call_handler-run_task m r)
      ∙ then_same (run_task safety r (task_of m)) _ _ (λ s. handle-run_tasks ms s)

  registered :
      (id : NodeId) (is_byz : Bool)
      → (n : Node Packet (Replica S)) × (register_handlers (new_node id is_byz) ≡ ok n)
        × (n.handles ≡ table)
        × (n.message_chan ≡ [])
  unfolding register_handlers new_node register same_type list_beq insert
  registered id is_byz =
      (record { id = id; is_byz = is_byz; message_chan = []; handles = table }, refl, refl, refl)

-- A new node registers the four handlers of a replica by heights without a panic, and when it has
-- received any blocks, shares and queries and hands them on by the text of their type, the replica
-- does what the tasks of the deliveries and queries do in that order.
pub handle-register_handlers :
    {S : Type 0} (safety : Safety S) (id : NodeId) (is_byz : Bool) (ms : List Packet)
    (r : Replica S)
    → Gives
        (λ n.
          handle type_of (recv n ms).handles (recv n ms).message_chan r
          ≡ run_tasks safety r (map task_of ms))
        (register_handlers (new_node id is_byz))
handle-register_handlers safety id is_byz ms r =
    let (n, made, handles, chan) = registered safety id is_byz in
    let (queued, same) = recv-message_chan n ms in
    rw made (
      ap (λ k. handle type_of k (recv n ms).message_chan r) (same ∙ handles)
      ∙ ap (λ k. handle type_of (table safety) k r) (queued ∙ ap (λ k. k ++ ms) chan)
      ∙ handle-run_tasks safety ms r)
