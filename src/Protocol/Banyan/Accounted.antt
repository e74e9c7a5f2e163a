-- ===== src/Protocol/Banyan/Accounted.antt =====
-- protocol/banyan.go: where the shares in the bags of a replica come from, and what its own say.
pub mod Runs
use banyan.Base.{
  ℕ, zero, suc, ◌+◌, ◌*◌, ◌≤◌, ◌<◌, ◌≡◌, ◌∙◌, refl, inl, inr, ◌++◌, true, slt, update, arith, Word,
  Returns, Bool-cases, [], ◌∷◌,
}
use banyan.Identity.{NodeId}
use banyan.Crypto.{Identifier}
use banyan.Ballots.{ballot_count}
use banyan.Shares.{NotarizationShare, FinalizationShare, NSharesBagBanyan, FSharesBag, b_add, f_add}
use banyan.Protocol.Common.{Env, Message, notarization, finalization, exclude}
use banyan.Protocol.Accounted.{
  Known, IsOwn, Accounted, sent-Accounted, n_counted-Accounted, f_counted-Accounted,
  marked-Accounted,
}
use banyan.Protocol.Banyan.Rules.{try_to_ship_rule, ship_each_rule}
use banyan.Protocol.Banyan.{Banyan, broadcast, shipped, try_to_ship, raise_head}

-- The replica `self` is one of `n` nodes, of which `f` may fail.
pub record HasSize (self : NodeId) (n f : ℕ) (id : NodeId) (q : NSharesBagBanyan) (r : FSharesBag)
    : Type 0 where
  pub named : id ≡ self
  pub n_size : q.n ≡ n
  pub n_faults : q.f ≡ f
  pub f_total : r.total ≡ n

-- A block is notarized by more than half of the nodes and the faulty ones.
abbrev pub IsQuorum : ℕ → ℕ → ℕ → Type 0
IsQuorum n f k = n + f < k * 2

abbrev pub IsAccounted : (Identifier → Word) → (Message → Type 0) → NodeId → ℕ → ℕ → Banyan → Type 0
IsAccounted height_of got self n f s =
    Accounted height_of got self (IsQuorum n f) s.nshares_bag_banyan.votes s.fshares_bag.votes
      s.is_notarized s.sent
    × HasSize self n f s.id s.nshares_bag_banyan s.fshares_bag

module _ (env : Env) (height_of : Identifier → Word) (got : Message → Type 0) (self : NodeId)
    (n f : ℕ) where
  pub try_to_ship-IsAccounted :
      (fuel : ℕ) (s : Banyan) (x : Identifier)
      → IsAccounted height_of got self n f s
      → Returns (IsAccounted height_of got self n f) (try_to_ship env fuel s x)
  unfolding try_to_ship shipped
  try_to_ship-IsAccounted zero s x e = tt
  try_to_ship-IsAccounted (suc fuel) s x e =
      try_to_ship_rule env (IsAccounted height_of got self n f) fuel s x (λ _. e) e (λ bc. e)
        (λ bc committed forked.
          ship_each_rule env (IsAccounted height_of got self n f) (try_to_ship env fuel)
            (λ t y _ kept. try_to_ship-IsAccounted fuel t y kept)
            (env.order (exclude s.ship_queue x)) (shipped s bc x committed forked) e)

  pub broadcast-IsAccounted :
      (s : Banyan) (m : Message)
      → IsOwn height_of self m
      → IsAccounted height_of got self n f s
      → IsAccounted height_of got self n f (broadcast s m)
  broadcast-IsAccounted s m mine e = (
    sent-Accounted height_of got self (IsQuorum n f) s.nshares_bag_banyan.votes s.fshares_bag.votes
        s.is_notarized s.sent e.0 m mine,
    e.1,
  )

  -- A share that is known is counted.
  pub n_counted-IsAccounted :
      (s : Banyan) (ns : NotarizationShare)
      → Known got s.sent (notarization ns)
      → IsAccounted height_of got self n f s
      → IsAccounted height_of got self n f
          (record s { nshares_bag_banyan = (b_add s.nshares_bag_banyan ns).0 })
  unfolding b_add
  n_counted-IsAccounted s ns known e = (
    n_counted-Accounted height_of got self (IsQuorum n f) s.nshares_bag_banyan.votes
        s.fshares_bag.votes s.is_notarized s.sent e.0 ns (λ a b h k. omega arith) known,
    record {
      named = e.1.named;
      n_size = e.1.n_size;
      n_faults = e.1.n_faults;
      f_total = e.1.f_total;
    },
  )

  pub f_counted-IsAccounted :
      (s : Banyan) (fs : FinalizationShare)
      → Known got s.sent (finalization fs)
      → IsAccounted height_of got self n f s
      → IsAccounted height_of got self n f (record s { fshares_bag = (f_add s.fshares_bag fs).0 })
  unfolding f_add
  f_counted-IsAccounted s fs known e = (
    f_counted-Accounted height_of got self (IsQuorum n f) s.nshares_bag_banyan.votes
        s.fshares_bag.votes s.is_notarized s.sent e.0 fs known,
    record {
      named = e.1.named;
      n_size = e.1.n_size;
      n_faults = e.1.n_faults;
      f_total = e.1.f_total;
    },
  )

  -- A block with a quorum is marked.
  pub marked-IsAccounted :
      (s : Banyan) (id : Identifier)
      → IsQuorum n f (ballot_count s.nshares_bag_banyan.votes id)
      → IsAccounted height_of got self n f s
      → IsAccounted height_of got self n f
          (record s { is_notarized = update s.is_notarized id true })
  marked-IsAccounted s id enough e = (
    marked-Accounted height_of got self (IsQuorum n f) s.nshares_bag_banyan.votes
        s.fshares_bag.votes s.is_notarized s.sent e.0 id enough,
    e.1,
  )

  pub raise_head-IsAccounted :
      (s : Banyan) (height : Word) (id : Identifier)
      → IsAccounted height_of got self n f s
      → IsAccounted height_of got self n f (raise_head s height id)
  unfolding raise_head
  raise_head-IsAccounted s height id e = elim (Bool-cases (slt s.head_height height)) [
    | inl h ↦ rw h e
    | inr h ↦ rw h e
  ]
