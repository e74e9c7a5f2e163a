-- ===== src/Ballots/Quorum.antt =====
-- The voters of a block, and the quorums that they form.
use banyan.Base.{
  ℕ, ◌+◌, ◌<◌, ◌≡◌, ◌∙◌, refl, subst, sym, ◌⊎◌, inl, inr, List, [], ◌∷◌, Option, none, some, Bool,
  true, false, ◌==◌, arith, if◌then◌else◌, length, In, bytes_eq, insert, Bool-cases, Option-cases,
  ==_iff,
}
use banyan.Identity.{NodeId}
use banyan.Ballots.{Ballots, no_ballots, ballots_of, ballot_count, cast, open_ballot, put_ballot}
use banyan.Ballots.Distinct.{IsDistinct, Within, common, overlap}

module _ {S : Type 0} where
  abbrev pub voters : List (NodeId × S) → List NodeId
  voters [] = []
  voters ((i, s) ∷ m) = i ∷ voters m

  pub length-voters : (m : List (NodeId × S)) → length (voters m) ≡ length m
  length-voters [] = refl
  length-voters ((i, s) ∷ m) = omega (arith, length-voters m)

  In-insert :
      (a i : NodeId) (s : S) (m : List (NodeId × S))
      → In a (voters (insert i s m))
      → (i ≡ a) ⊎ In a (voters m)
  unfolding insert
  In-insert a i s [] h = h
  In-insert a i s ((j, t) ∷ m) h = elim (Bool-cases (bytes_eq.beq j i)) [
    | inl same ↦ elim (let q : (i ≡ a) ⊎ In a (voters m) = rw same at h in q) [
      | inl e ↦ inl e
      | inr r ↦ inr (inr r)
    ]
    | inr other ↦ elim (let q : (j ≡ a) ⊎ In a (voters (insert i s m)) = rw other at h in q) [
      | inl e ↦ inr (inl e)
      | inr r ↦ elim (In-insert a i s m r) [ inl e ↦ inl e | inr k ↦ inr (inr k) ]
    ]
  ]

  insert-In :
      (a i : NodeId) (s : S) (m : List (NodeId × S))
      → (i ≡ a) ⊎ In a (voters m)
      → In a (voters (insert i s m))
  unfolding insert
  insert-In a i s [] (inl e) = inl e
  insert-In a i s [] (inr h) = absurd h
  insert-In a i s ((j, t) ∷ m) h = elim (Bool-cases (bytes_eq.beq j i)) [
    | inl same ↦ rw same (elim h [
      | inl e ↦ inl e
      | inr (inl e) ↦ inl (sym ((bytes_eq.beq_iff j i).0 same) ∙ e)
      | inr (inr r) ↦ inr r
    ])
    | inr other ↦ rw other (elim h [
      | inl e ↦ inr (insert-In a i s m (inl e))
      | inr (inl e) ↦ inl e
      | inr (inr r) ↦ inr (insert-In a i s m (inr r))
    ])
  ]

  insert-IsDistinct :
      (i : NodeId) (s : S) (m : List (NodeId × S))
      → IsDistinct (voters m)
      → IsDistinct (voters (insert i s m))
  unfolding insert
  insert-IsDistinct i s [] d = (λ h. h, tt)
  insert-IsDistinct i s ((j, t) ∷ m) d = elim (Bool-cases (bytes_eq.beq j i)) [
    | inl same ↦ rw (same, ← (bytes_eq.beq_iff j i).0 same) d
    | inr other ↦ rw other (
      (λ h. elim (In-insert j i s m h) [
        | inl e ↦ cc (other, (bytes_eq.beq_iff j i).1 (sym e))
        | inr k ↦ d.0 k
      ]),
      insert-IsDistinct i s m d.1,
    )
  ]

  abbrev or_empty : Option (List (NodeId × S)) → List (NodeId × S)
  or_empty none = []
  or_empty (some m) = m

  or_empty-if :
      (t : Bool) (m : List (NodeId × S)) (o : Option (List (NodeId × S)))
      → or_empty (if t then some m else o) ≡ (if t then m else or_empty o)
  or_empty-if true m o = refl
  or_empty-if false m o = refl

  -- A block that nobody voted for reads the same after its map is made.
  or_empty-made :
      (b : Ballots S) (id j : ℕ)
      → b id ≡ none
      → or_empty (if id == j then some [] else b j) ≡ or_empty (b j)
  or_empty-made b id j e = elim (Bool-cases (id == j)) [
    | inl q ↦ rw (q, ← (==_iff id j).0 q, e) refl
    | inr q ↦ rw q refl
  ]

  ballots_of-open : (b : Ballots S) (id j : ℕ) → ballots_of (open_ballot b id) j ≡ ballots_of b j
  unfolding ballots_of open_ballot
  ballots_of-open b id j = elim (Option-cases (b id)) [
    | inl e ↦ rw (e, open_ballot) (or_empty-made b id j e)
    | inr (m, e) ↦ rw (e, open_ballot) refl
  ]

  ballots_of-put :
      (b : Ballots S) (id j : ℕ) (i : NodeId) (s : S)
      → ballots_of (put_ballot b id i s) j
        ≡ (if id == j then insert i s (ballots_of b id) else ballots_of b j)
  unfolding put_ballot ballots_of
  ballots_of-put b id j i s = or_empty-if (id == j) _ (b j)

  -- `Add` changes the votes of one block.
  pub ballots_of-cast :
      (b : Ballots S) (id j : ℕ) (i : NodeId) (s : S)
      → ballots_of (cast b id i s) j
        ≡ (if id == j then insert i s (ballots_of b id) else ballots_of b j)
  unfolding cast
  ballots_of-cast b id j i s =
      rw
        (
          ballots_of-put (open_ballot b id) id j i s,
          ballots_of-open b id id,
          ballots_of-open b id j,
        )
        refl

  -- The voter is counted, with those before.
  pub cast-In :
      (b : Ballots S) (id : ℕ) (a i : NodeId) (s : S)
      → (i ≡ a) ⊎ In a (voters (ballots_of b id))
      → In a (voters (ballots_of (cast b id i s) id))
  cast-In b id a i s h =
      rw (ballots_of-cast b id id i s, (==_iff id id).1 refl) (insert-In a i s (ballots_of b id) h)

  -- No voter is counted twice for a block.
  unfoldable pub IsTally : Ballots S → Type 0
  IsTally b = (id : ℕ) → IsDistinct (voters (ballots_of b id))

  pub cast-IsTally :
      (b : Ballots S) (id : ℕ) (i : NodeId) (s : S) → IsTally b → IsTally (cast b id i s)
  unfolding IsTally
  cast-IsTally b id i s t j = elim (Bool-cases (id == j)) [
    | inl same ↦
        rw (ballots_of-cast b id j i s, same) (insert-IsDistinct i s (ballots_of b id) (t id))
    | inr other ↦ rw (ballots_of-cast b id j i s, other) (t j)
  ]

  -- A vote of a known node leaves only votes of known nodes.
  pub cast-Within :
      (nodes : List NodeId) (b : Ballots S) (id : ℕ) (i : NodeId) (s : S)
      → In i nodes
      → ((j : ℕ) → Within (voters (ballots_of b j)) nodes)
      → (j : ℕ) → Within (voters (ballots_of (cast b id i s) j)) nodes
  cast-Within nodes b id i s known all j = elim (Bool-cases (id == j)) [
    | inl same ↦
        rw (ballots_of-cast b id j i s, same)
          (λ a h. elim (In-insert a i s (ballots_of b id) h) [
            | inl e ↦ subst (λ x. In x nodes) e known
            | inr old ↦ all id a old
          ])
    | inr other ↦ rw (ballots_of-cast b id j i s, other) (all j)
  ]

  -- More than `f` voters stand behind both of two quorums whose sizes together exceed the number
  -- of nodes by more than `f`.
  pub quorum_overlap :
      (nodes : List NodeId) (b : Ballots S) (x y f : ℕ)
      → IsTally b
      → ((id : ℕ) → Within (voters (ballots_of b id)) nodes)
      → length nodes + f < ballot_count b x + ballot_count b y
      → f < length (common bytes_eq (voters (ballots_of b y)) (voters (ballots_of b x)))
  unfolding IsTally ballot_count
  quorum_overlap nodes b x y f t known big = omega (
    arith,
    length-voters (ballots_of b x),
    length-voters (ballots_of b y),
    overlap bytes_eq nodes (voters (ballots_of b x)) (voters (ballots_of b y)) (t x) (t y) (known x)
        (known y),
  )

-- The empty map counts nobody.
pub no_ballots-IsTally : (S : Type 0) → IsTally (no_ballots {S = S})
unfolding IsTally no_ballots ballots_of
no_ballots-IsTally S id = tt
