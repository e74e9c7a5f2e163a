-- ===== src/Examples/Network.antt =====
-- A configuration of three nodes, and the socket of one of them.
use banyan.Base.{
  ℕ, refl, [], ◌∷◌, List, some, false, Bool, Bytes, arith, Gives, ◌==◌, lookup, list_beq, biased,
}
use banyan.Identity.{NodeId, new_node_id, itoa, digits}
use banyan.Config.{Config, keys, load}
use banyan.Config.Ids.{HasIds, IsLoaded, numbered, load-IsLoaded}
use banyan.Socket.{Socket, new_socket, retry, retry_from, broadcast_all}
use banyan.Socket.Reach.{HasSent, to_others, unless_silent, broadcast_all-HasSent}
use banyan.Examples.Setup.{node_1, node_2, node_3}

-- As in the file of the repository, the first node has an address already.
abbrev decoded : Config
decoded = record {
  addrs = some ((node_1, []) ∷ []);
  http_addrs = some ((node_1, []) ∷ []);
  byz_no = 1;
  n = 0;
}

abbrev three_hosts : List Bytes
three_hosts = (b'a' ∷ []) ∷ (b'b' ∷ []) ∷ (b'c' ∷ []) ∷ []

decoded-HasIds : HasIds 1 1 decoded
unfolding keys numbered new_node_id itoa biased digits
decoded-HasIds = record {
  tcp = (node_1, []) ∷ [];
  http = (node_1, []) ∷ [];
  tcp_there = refl;
  http_there = refl;
  numbers = refl;
  byzantine = refl;
}

load-IsLoaded_example : Gives (IsLoaded 1 3) (load decoded three_hosts)
load-IsLoaded_example =
    load-IsLoaded decoded three_hosts 1 1 decoded-HasIds (omega arith) (omega arith) (omega arith)

-- The fourth attempt succeeds.
abbrev fourth : ℕ → Bool
fourth i = i == 3

abbrev peers : List (NodeId × Bytes)
peers = (node_1, []) ∷ (node_2, b'b' ∷ []) ∷ (node_3, b'c' ∷ []) ∷ []

abbrev plug : Socket ℕ
plug = new_socket node_1 peers false

broadcast_all-HasSent_example :
    Gives
      (HasSent plug (unless_silent plug.silence (to_others plug.id (keys plug.addresses) 42)))
      (broadcast_all (λ _. fourth) (λ ids. ids) plug 42)
unfolding new_socket keys lookup list_beq retry retry_from
broadcast_all-HasSent_example =
    broadcast_all-HasSent (λ _. fourth) 42 (λ ids. ids) plug
      (([], refl, refl), ((b'b' ∷ [], refl, refl), ((b'c' ∷ [], refl, refl), tt)))
