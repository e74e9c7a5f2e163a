-- ===== src/Socket/Reach.antt =====
-- socket/socket.go: whom a broadcast reaches.
use banyan.Base.{
  ℕ, zero, suc, ◌+◌, ◌-◌, ◌≤◌, ◌<◌, ◌≡◌, ◌↔◌, ◌⊎◌, refl, sym, ap, ◌∙◌, inl, inr, List, [], ◌∷◌,
  ◌++◌, some, Bool, true, false, if◌then◌else◌, lookup, All, bytes_eq, Bytes, Gives, Gives-bind,
  Gives-map, subst, arith, Bool-cases,
}
use mathlib.Core.List.{append-nil, append_assoc}
use banyan.Identity.{NodeId}
use banyan.Config.{keys}
use banyan.Socket.{retry_from, retry, Socket, has_node, hand_over, send, send_each, broadcast_all}

retry_from_sound :
    (f : ℕ → Bool) (i left : ℕ)
    → retry_from f i left ≡ true
    → (j : ℕ) × (j ≤ left) × (f (i + j) ≡ true)
unfolding retry_from
retry_from_sound f i zero h = (0, omega arith, ap f (omega arith) ∙ h)
retry_from_sound f i (suc left) h = elim (Bool-cases (f i)) [
  | inl e ↦ (0, omega arith, ap f (omega arith) ∙ e)
  | inr e ↦
      let (j, few, hit) = retry_from_sound f (suc i) left (ground (arith, e, h)) in
      (suc j, omega (arith, few), ap f (omega arith) ∙ hit)
]

retry_from_complete :
    (f : ℕ → Bool) (i left j : ℕ) → j ≤ left → f (i + j) ≡ true → retry_from f i left ≡ true
unfolding retry_from
retry_from_complete f i zero j few hit = ap f (omega (arith, few)) ∙ hit
retry_from_complete f i (suc left) zero few hit =
    let now : f i ≡ true = ap f (omega arith) ∙ hit in rw (retry_from, now) refl
retry_from_complete f i (suc left) (suc j) few hit = elim (Bool-cases (f i)) [
  | inl e ↦ rw (retry_from, e) refl
  | inr e ↦
      rw (retry_from, e)
        (retry_from_complete f (suc i) left j (omega (arith, few)) (ap f (omega arith) ∙ hit))
]

in_range : (j attempts : ℕ) → j ≤ attempts - 1 → (j ≡ 0) ⊎ (j < attempts)
in_range zero attempts h = inl refl
in_range (suc j) attempts h = inr (omega (arith, h))

below_attempts : (j attempts : ℕ) → (j ≡ 0) ⊎ (j < attempts) → j ≤ attempts - 1
below_attempts j attempts (inl e) = omega (arith, e)
below_attempts j attempts (inr h) = omega (arith, h)

-- Retry succeeds exactly when the first attempt or one within the number of attempts does.
pub retry_iff :
    (f : ℕ → Bool) (attempts : ℕ)
    → (retry f attempts ≡ true) ↔ ((i : ℕ) × ((i ≡ 0) ⊎ (i < attempts)) × (f i ≡ true))
unfolding retry
retry_iff f attempts = (
  λ h.
      let (j, few, hit) = retry_from_sound f 0 (attempts - 1) h in
      (j, in_range j attempts few, ap f (omega arith) ∙ hit),
  λ (i, place, hit).
      retry_from_complete f 0 (attempts - 1) i (below_attempts i attempts place)
        (ap f (omega arith) ∙ hit),
)

-- The messages to all of them but the node itself.
unfoldable pub to_others : {M : Type 0} → NodeId → List NodeId → M → List (NodeId × M)
to_others self [] m = []
to_others self (id ∷ ids) m =
    let rest = to_others self ids m in if bytes_eq.beq id self then rest else (id, m) ∷ rest

-- The socket has handed over these messages too.
pub record HasSent {M : Type 0} (s : Socket M) (more : List (NodeId × M)) (t : Socket M)
    : Type 0 where
  pub same_id : t.id ≡ s.id
  pub same_addresses : t.addresses ≡ s.addresses
  pub same_silence : t.silence ≡ s.silence
  pub handed : t.sent ≡ s.sent ++ more

-- The node has an address, which is dialled within 100 attempts.
abbrev pub Reachable : (Bytes → ℕ → Bool) → List (NodeId × Bytes) → NodeId → Type 0
Reachable dial addrs to = (a : Bytes) × (lookup to addrs ≡ some a) × (retry (dial a) 100 ≡ true)

-- What a silent node keeps for itself.
abbrev pub unless_silent : {A : Type 0} → Bool → List A → List A
unless_silent silence xs = if silence then [] else xs

unless_silent-append :
    {A : Type 0} (silence : Bool) (xs ys : List A)
    → unless_silent silence (xs ++ ys) ≡ unless_silent silence xs ++ unless_silent silence ys
unless_silent-append true xs ys = refl
unless_silent-append false xs ys = refl

one_more :
    {M : Type 0} (self self' : NodeId) (silence silence' : Bool) (xs : List (NodeId × M))
    (ids : List NodeId) (m : M)
    → self' ≡ self
    → silence' ≡ silence
    → unless_silent silence xs ++ unless_silent silence' (to_others self' ids m)
      ≡ unless_silent silence (xs ++ to_others self ids m)
one_more self self' silence silence' xs ids m e q =
    ap (λ b. unless_silent silence xs ++ unless_silent b (to_others self' ids m)) q
    ∙ ap (λ i. unless_silent silence xs ++ unless_silent silence (to_others i ids m)) e
    ∙ sym (unless_silent-append silence xs (to_others self ids m))

module _ {M : Type 0} where
  hand_over-HasSent :
      (s : Socket M) (to : NodeId) (m : M)
      → HasSent s (unless_silent s.silence ((to, m) ∷ [])) (hand_over s to m)
  unfolding hand_over
  hand_over-HasSent s to m = record {
    same_id = ground (arith);
    same_addresses = ground (arith);
    same_silence = ground (arith);
    handed = ground (arith, append-nil s.sent);
  }

  HasSent-trans :
      (s t u : Socket M) (xs ys : List (NodeId × M))
      → HasSent s xs t
      → HasSent t ys u
      → HasSent s (xs ++ ys) u
  HasSent-trans s t u xs ys g h = record {
    same_id = h.same_id ∙ g.same_id;
    same_addresses = h.same_addresses ∙ g.same_addresses;
    same_silence = h.same_silence ∙ g.same_silence;
    handed = h.handed ∙ ap (λ l. l ++ ys) g.handed ∙ append_assoc s.sent xs ys;
  }

module _ {M : Type 0} (dial : Bytes → ℕ → Bool) (m : M) where
  send-HasSent :
      (s : Socket M) (to : NodeId)
      → Reachable dial s.addresses to
      → Gives (HasSent s (unless_silent s.silence ((to, m) ∷ []))) (send dial s to m)
  unfolding send
  send-HasSent s to (a, found, dialled) = elim (Bool-cases (has_node s.nodes to)) [
    | inl e ↦ rw (send, e) (hand_over-HasSent s to m)
    | inr e ↦
        let h = hand_over-HasSent (record s { nodes = s.nodes ++ to ∷ [] }) to m in
        rw (send, e, found, dialled)
          (record {
            same_id = h.same_id;
            same_addresses = h.same_addresses;
            same_silence = h.same_silence;
            handed = h.handed;
          })
  ]

  send_each-HasSent :
      (s : Socket M) (ids : List NodeId)
      → All (Reachable dial s.addresses) ids
      → Gives (HasSent s (unless_silent s.silence (to_others s.id ids m))) (send_each dial s ids m)
  unfolding send_each to_others
  send_each-HasSent s [] reach = record {
    same_id = refl;
    same_addresses = refl;
    same_silence = refl;
    handed = ground (arith, append-nil s.sent);
  }
  send_each-HasSent s (id ∷ ids) (here, reach) = elim (Bool-cases (bytes_eq.beq id s.id)) [
    | inl own ↦ rw (send_each, own) (send_each-HasSent s ids reach)
    | inr other ↦
        rw (send_each, other)
          (Gives-bind (HasSent s (unless_silent s.silence ((id, m) ∷ []))) _ (send dial s id m) _
            (send-HasSent s id here)
            (λ t g.
              Gives-map _ _ (send_each dial t ids m)
                (send_each-HasSent t ids
                  (subst (λ addrs. All (Reachable dial addrs) ids) (sym g.same_addresses) reach))
                (λ u h.
                  subst (λ l. HasSent s l u)
                    (one_more s.id t.id s.silence t.silence ((id, m) ∷ []) ids m g.same_id
                      g.same_silence)
                    (HasSent-trans s t u _ _ g h))))
  ]

  -- Every node that a broadcast visits has an address that is dialled within 100 attempts: the
  -- broadcast returns, and has handed over the message once for each of them in that order but the
  -- node itself, or nothing if the node is silent.
  pub broadcast_all-HasSent :
      (order : List NodeId → List NodeId) (s : Socket M)
      → All (Reachable dial s.addresses) (order (keys s.addresses))
      → Gives
          (HasSent s (unless_silent s.silence (to_others s.id (order (keys s.addresses)) m)))
          (broadcast_all dial order s m)
  unfolding broadcast_all
  broadcast_all-HasSent order s reach = send_each-HasSent s (order (keys s.addresses)) reach
