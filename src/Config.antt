-- ===== src/Config.antt =====
-- config/config.go: the addresses that `Load` reads, and who is Byzantine. What the JSON decoder
-- makes of the file is given, and so are the lines of `ips.txt` that the scanner yields; a file that
-- cannot be opened ends the process, or yields no lines.
pub mod Ids
use banyan.Base.{
  ℕ, zero, suc, ◌+◌, List, [], ◌∷◌, ◌++◌, map, Option, none, some, Bool, slt, sub, length, insert,
  bytes_eq, Word, Bytes, Outcome, ok, panic, ◌>>=◌, nil_map,
}
use banyan.Identity.{NodeId, node, new_node_id, itoa}

-- The part of `Config` that concerns the nodes; the maps are nil if the file has none.
pub record Config : Type 0 where
  pub addrs : Option (List (NodeId × Bytes))
  pub http_addrs : Option (List (NodeId × Bytes))
  pub byz_no : Word
  pub n : Word

-- The keys of a map, in the order in which `range` visits them.
unfoldable pub keys : List (NodeId × Bytes) → List NodeId
keys [] = []
keys ((id, _) ∷ m) = id ∷ keys m

-- `IDs`
unfoldable pub ids : Config → List NodeId
ids c = elim c.addrs [ none ↦ [] | some m ↦ keys m ]

-- `m[id] = v`
unfoldable pub assign :
    Option (List (NodeId × Bytes)) → NodeId → Bytes → Outcome (List (NodeId × Bytes))
assign none id v = panic nil_map
assign (some m) id v = ok (insert id v m)

-- The addresses of the node `i` at `host`.
unfoldable pub tcp_address : Word → Bytes → Bytes
tcp_address i host =
    (b't' ∷ b'c' ∷ b'p' ∷ b':' ∷ b'/' ∷ b'/' ∷ []) ++ (host ++ b':' ∷ itoa (3734 + i))

unfoldable pub http_address : Word → Bytes → Bytes
http_address i host =
    (b'h' ∷ b't' ∷ b't' ∷ b'p' ∷ b':' ∷ b'/' ∷ b'/' ∷ []) ++ (host ++ b':' ∷ itoa (8069 + i))

-- The loop over the lines, at the line `i`.
unfoldable pub load_ips : Word → Config → List Bytes → Outcome Config
load_ips i c [] = ok c
load_ips i c (host ∷ hosts) = assign c.addrs (new_node_id i) (tcp_address i host) >>= λ addrs.
    assign c.http_addrs (new_node_id i) (http_address i host) >>= λ http.
    load_ips (i + 1) (record c { addrs = some addrs; http_addrs = some http }) hosts

-- `Load`, from the decoded configuration.
unfoldable pub load : Config → List Bytes → Outcome Config
load c hosts = load_ips 1 c hosts >>= λ d. ok (record d { n = length (ids d) })

unfoldable pub is_byzantine : Config → NodeId → Bool
is_byzantine c id = slt (sub c.n c.byz_no) (node id)
