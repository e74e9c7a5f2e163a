-- ===== src/Identity.antt =====
-- identity/identity.go: node ids, the decimal text of a number. `strconv.Itoa` and
-- `strconv.ParseUint(s, 10, 64)` are written out as Go documents them.
pub mod RoundTrip
use banyan.Base.{
  ℕ, zero, suc, ◌+◌, ◌-◌, ◌*◌, ◌/◌, ◌%◌, ◌^◌, List, [], ◌∷◌, ◌++◌, Option, none, some, Bool, ◌&&◌,
  ltb, leb, if◌then◌else◌, Word, Bytes, slt, sub, word_mod,
}

-- `type NodeID string`
abbrev pub NodeId : Type 0
NodeId = Bytes

-- The decimal digits of `n`; `fuel` bounds their number.
unfoldable pub digits : ℕ → ℕ → Bytes
digits zero n = []
digits (suc fuel) n =
    let rest = digits fuel (n / 10) ++ (b'0' + n % 10) ∷ [] in
    if ltb n 10 then (b'0' + n) ∷ [] else rest

-- `strconv.Itoa`: a 64-bit number has at most 20 digits.
unfoldable pub itoa : Word → Bytes
itoa n = if slt n 0 then b'-' ∷ digits 20 (word_mod - n) else digits 20 n

-- The loop of `strconv.ParseUint`: `none` is an error, for a byte that is no digit or a value past
-- the largest `uint64`.
unfoldable pub parse_digits : ℕ → Bytes → Option ℕ
parse_digits acc [] = some acc
parse_digits acc (c ∷ s) =
    let n = acc * 10 + (c - b'0') in
    let rest = parse_digits n s in
    if leb b'0' c && leb c b'9' then (if ltb n word_mod then rest else none) else none

unfoldable pub parse_uint : Bytes → Option ℕ
parse_uint [] = none
parse_uint (c ∷ s) = parse_digits 0 (c ∷ s)

unfoldable pub new_node_id : Word → NodeId
new_node_id n = itoa (if slt n 0 then sub 0 n else n)

-- `Node`: 0 where the text is no number.
unfoldable pub node : NodeId → Word
node i = elim (parse_uint i) [ none ↦ 0 | some n ↦ n ]
