-- ===== src/Node.antt =====
-- node/node.go: the handlers of a node, by the type of a message, and the loops that call them.
use banyan.Base.{
  List, [], ◌∷◌, ◌++◌, none, some, Bool, not, ◌&&◌, if◌then◌else◌, bytes_eq, lookup, insert, Bytes,
  Outcome, ok, panic, ◌>>=◌, index_out_of_range, fatal, explicit,
}
use banyan.Identity.{NodeId}

-- A type as reflection sees it: the path of its package, and its text, with the package's name.
pub record GoType : Type 0 where
  pub path : Bytes
  pub text : Bytes

unfoldable pub same_type : GoType → GoType → Bool
same_type a b = bytes_eq.beq a.path b.path && bytes_eq.beq a.text b.text

-- The second argument of `Register`: a function with the types of its parameters, or another value.
-- A call may change what the handlers keep, of the type `R`.
pub data Callable (M R : Type 0) : Type 0 where
  function : List GoType → (M → R → Outcome R) → Callable M R
  other_value : Callable M R

-- `node`, without the socket and the server.
pub record Node (M R : Type 0) : Type 0 where
  pub id : NodeId
  pub is_byz : Bool
  pub message_chan : List M
  pub handles : List (Bytes × (M → R → Outcome R))

unfoldable pub new_node : {M R : Type 0} → NodeId → Bool → Node M R
new_node id is_byz = record { id = id; is_byz = is_byz; message_chan = []; handles = [] }

module _ {M R : Type 0} where
  -- The type of the first parameter is read before their number is tested.
  unfoldable pub register : Node M R → GoType → Callable M R → Outcome (Node M R)
  register n t other_value = panic explicit
  register n t (function [] f) = panic index_out_of_range
  register n t (function (a ∷ []) f) =
      if not (same_type a t)
      then panic explicit
      else ok (record n { handles = insert t.text f n.handles })
  register n t (function (a ∷ b ∷ more) f) = panic explicit

  -- The loop of `recv`, over what the socket gives.
  unfoldable pub recv : Node M R → List M → Node M R
  recv n [] = n
  recv n (m ∷ ms) = recv (record n { message_chan = n.message_chan ++ m ∷ [] }) ms

module _ {M R : Type 0} (type_of : M → GoType) where
  -- The call of the handler that is registered under the text of the message's type.
  unfoldable pub call_handler : List (Bytes × (M → R → Outcome R)) → M → R → Outcome R
  call_handler handles m r = elim (lookup (type_of m).text handles) [
    | none ↦ panic fatal
    | some f ↦ f m r
  ]

  -- The loop of `handle`, until no message is left.
  unfoldable pub handle : List (Bytes × (M → R → Outcome R)) → List M → R → Outcome R
  unfolding call_handler
  handle handles [] r = ok r
  handle handles (m ∷ ms) r = call_handler handles m r >>= λ s. handle handles ms s
