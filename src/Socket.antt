-- ===== src/Socket.antt =====
-- socket/socket.go, and `Retry` of utils/utils.go: to whom a node sends. Whether an attempt to dial an
-- address succeeds is given, by the number of the attempt; a transport is the list of what was handed
-- to it.
pub mod Reach
use banyan.Base.{
  ℕ, zero, suc, ◌+◌, ◌-◌, List, [], ◌∷◌, ◌++◌, Option, none, some, Bool, true, false, if◌then◌else◌,
  lookup, bytes_eq, Bytes, Outcome, ok, panic, ◌>>=◌, explicit,
}
use banyan.Identity.{NodeId}
use banyan.Config.{keys}

-- The loop of `Retry` at the attempt `i`, with so many attempts after it. The waiting between two
-- attempts is left out.
unfoldable pub retry_from : (ℕ → Bool) → ℕ → ℕ → Bool
retry_from f i zero = f i
retry_from f i (suc left) = elim (f i) [ true ↦ true | false ↦ retry_from f (suc i) left ]

-- There is one attempt at least.
unfoldable pub retry : (ℕ → Bool) → ℕ → Bool
retry f attempts = retry_from f 0 (attempts - 1)

-- `socket`: `nodes` holds the ids that have a transport, and `sent` what was handed to one.
pub record Socket (M : Type 0) : Type 0 where
  pub silence : Bool
  pub id : NodeId
  pub addresses : List (NodeId × Bytes)
  pub nodes : List NodeId
  pub sent : List (NodeId × M)

unfoldable pub new_socket : {M : Type 0} → NodeId → List (NodeId × Bytes) → Bool → Socket M
new_socket id addrs silence = record {
  silence = silence;
  id = id;
  addresses = addrs;
  nodes = id ∷ [];
  sent = [];
}

unfoldable pub has_node : List NodeId → NodeId → Bool
has_node [] to = false
has_node (x ∷ xs) to = let more = has_node xs to in if bytes_eq.beq x to then true else more

-- `if !s.silence { t.Send(m) }`
unfoldable pub hand_over : {M : Type 0} → Socket M → NodeId → M → Socket M
hand_over s to m = if s.silence then s else record s { sent = s.sent ++ (to, m) ∷ [] }

module _ {M : Type 0} (dial : Bytes → ℕ → Bool) where
  -- `Send`; a node without an address is only logged.
  unfoldable pub send : Socket M → NodeId → M → Outcome (Socket M)
  send s to m = elim (has_node s.nodes to) [
    | true ↦ ok (hand_over s to m)
    | false ↦ elim (lookup to s.addresses) [
      | none ↦ ok s
      | some address ↦ elim (retry (dial address) 100) [
        | false ↦ panic explicit
        | true ↦ ok (hand_over (record s { nodes = s.nodes ++ to ∷ [] }) to m)
      ]
    ]
  ]

  -- The loop of `Broadcast`, over the keys in the order of `range`.
  unfoldable pub send_each : Socket M → List NodeId → M → Outcome (Socket M)
  send_each s [] m = ok s
  send_each s (id ∷ ids) m = elim (bytes_eq.beq id s.id) [
    | true ↦ send_each s ids m
    | false ↦ send s id m >>= λ t. send_each t ids m
  ]

  unfoldable pub broadcast_all : (List NodeId → List NodeId) → Socket M → M → Outcome (Socket M)
  broadcast_all order s m = send_each s (order (keys s.addresses)) m
