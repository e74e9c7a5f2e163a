-- ===== src/Election/Leaders.antt =====
-- election/rotation.go: the two ways to ask for the leader, and the turns of the replicas.
use banyan.Base.{
  ℕ, ◌+◌, ◌-◌, ◌*◌, ◌/◌, ◌%◌, ◌^◌, ◌≤◌, ◌<◌, ◌≡◌, refl, ap, sym, ◌∙◌, slt_zero, inl, inr,
  Bool-cases, leb, ◌↔◌, true, arith, Word, add, sub,
}
use native.Mathlib.Nat.{mod-lt, div-add-mod, mod-eq_of_lt, mul-add-mod_self_left}
use banyan.Identity.{NodeId, node, new_node_id}
use banyan.Identity.RoundTrip.{node-new_node_id, node_bounded}
use banyan.Election.{Rotation, is_leader, find_leader_for, srem}

-- The index that both computations take modulo the number of replicas.
turn : Rotation → Word → Word → ℕ
turn r height rank = (height + rank - 1) % r.peer_no

module _ (r : Rotation) (height rank : Word) (some_peers : 0 < r.peer_no) (few : r.peer_no < 2 ^ 62)
    (started : 0 < height) (low : height < 2 ^ 62) (early : rank < 2 ^ 62) where
  turn_lt : turn r height rank < r.peer_no
  unfolding turn
  turn_lt = mod-lt _ some_peers

  first_sum : add (sub height 1) rank ≡ height + rank - 1
  unfolding add sub
  first_sum = omega arith

  second_sum : sub (add height rank) 1 ≡ height + rank - 1
  unfolding add sub
  second_sum = omega arith

  is_leader-turn :
      (id : NodeId) → (is_leader r id height rank ≡ true) ↔ (node id ≡ turn r height rank + 1)
  unfolding is_leader turn sub
  is_leader-turn id = rw first_sum (ground (arith, node_bounded id, turn_lt))

  srem_small : srem (height + rank - 1) r.peer_no ≡ turn r height rank
  unfolding srem turn
  srem_small = rw (slt_zero (height + rank - 1) (omega arith)) refl

  turn_next : add (turn r height rank) 1 ≡ turn r height rank + 1
  unfolding add
  turn_next = omega (arith, turn_lt)

  find_leader_for-turn : node (find_leader_for r height rank) ≡ turn r height rank + 1
  unfolding find_leader_for
  find_leader_for-turn =
      rw (second_sum, srem_small)
        (ap (λ (m : Word). node (new_node_id m)) turn_next
          ∙ node-new_node_id (turn r height rank + 1) (omega (arith, turn_lt)))

  -- Over positive heights below 2^62, ranks below 2^62 and between 1 and 2^62 replicas, IsLeader
  -- accepts exactly the ids with the number of the replica that FindLeaderFor names.
  pub is_leader-find_leader_for :
      (id : NodeId)
      → (is_leader r id height rank ≡ true) ↔ (node id ≡ node (find_leader_for r height rank))
  is_leader-find_leader_for id = rw find_leader_for-turn (is_leader-turn id)

-- Numbers less than `n` apart with the same remainder are the same.
same_remainder : (n x y : ℕ) → x ≤ y → y < x + n → x % n ≡ y % n → x ≡ y
same_remainder n x y le near e = grind (arith, div-add-mod x n, div-add-mod y n)

only : (n base a b : ℕ) → a < n → b < n → (base + a) % n ≡ (base + b) % n → a ≡ b
only n base a b ha hb e = elim (Bool-cases (leb a b)) [
  | inl le ↦ omega (arith, same_remainder n (base + a) (base + b) (ground arith) (ground arith) e)
  | inr gt ↦
      omega (arith, same_remainder n (base + b) (base + a) (ground arith) (ground arith) (sym e))
]

-- Some rank below the number of replicas brings the remainder to `k`.
rank_for : (n base k : ℕ) → k < n → (rank : ℕ) × (rank < n) × ((base + rank) % n ≡ k)
rank_for n base k h =
    let whole : (q : ℕ) → (n * q + k) % n ≡ k = λ q. mul-add-mod_self_left n q k ∙ mod-eq_of_lt h in
    elim (Bool-cases (leb (base % n) k)) [
      | inl up ↦ (
        k - base % n,
        omega arith,
        ap (λ (x : ℕ). x % n) (ground (arith, div-add-mod base n)) ∙ whole (base / n),
      )
      | inr down ↦ (
        k + n - base % n,
        ground arith,
        ap (λ (x : ℕ). x % n) (grind (arith, div-add-mod base n, mod-lt base {m = n}))
            ∙ whole (base / n + 1),
      )
    ]

-- A replica leads where the remainder is its number less one.
leads_iff :
    (r : Rotation) (height k rank : ℕ)
    → 0 < r.peer_no
    → r.peer_no < 2 ^ 61
    → 0 < height
    → height < 2 ^ 62
    → 0 < k
    → k ≤ r.peer_no
    → rank < r.peer_no
    → (is_leader r (new_node_id k) height rank ≡ true) ↔ ((height - 1 + rank) % r.peer_no ≡ k - 1)
unfolding turn
leads_iff r height k rank some_peers few started low pos le below =
    (λ h. omega (arith, iff.0 h, named, shifted), λ h. iff.1 (omega (arith, h, named, shifted)))
  where
    iff :
        (is_leader r (new_node_id k) height rank ≡ true)
        ↔ (node (new_node_id k) ≡ turn r height rank + 1)
    iff =
        is_leader-turn r height rank some_peers (omega arith) started low (omega arith)
          (new_node_id k)

    named : node (new_node_id k) ≡ k
    named = node-new_node_id k (omega arith)

    shifted : (height + rank - 1) % r.peer_no ≡ (height - 1 + rank) % r.peer_no
    shifted = ap (λ (x : ℕ). x % r.peer_no) (omega arith)

-- At every positive height below 2^62 each of fewer than 2^61 replicas is the leader of exactly one
-- rank below their number.
pub every_replica_leads :
    (r : Rotation) (height k : ℕ)
    → 0 < r.peer_no
    → r.peer_no < 2 ^ 61
    → 0 < height
    → height < 2 ^ 62
    → 0 < k
    → k ≤ r.peer_no
    → (rank : ℕ) × (rank < r.peer_no)
      × (is_leader r (new_node_id k) height rank ≡ true)
      × ((other : ℕ)
          → other < r.peer_no
          → is_leader r (new_node_id k) height other ≡ true
          → other ≡ rank)
every_replica_leads r height k some_peers few started low pos le =
    let (rank, below, lands) = rank_for r.peer_no (height - 1) (k - 1) (omega arith) in
    let leads =
      λ (x : ℕ) (h : x < r.peer_no). leads_iff r height k x some_peers few started low pos le h in
    (
      rank,
      below,
      (leads rank below).1 lands,
      λ other small there.
          only r.peer_no (height - 1) other rank small below
            ((leads other small).0 there ∙ sym lands),
    )
