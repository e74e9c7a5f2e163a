-- ===== src/Ballots/Held.antt =====
-- What holds of every vote in a map of votes, with its voter.
use banyan.Base.{ℕ, subst, inl, inr, List, [], ◌∷◌, ◌==◌, In, bytes_eq, insert, Bool-cases, ==_iff}
use banyan.Identity.{NodeId}
use banyan.Ballots.{Ballots, no_ballots, ballots_of, cast}
use banyan.Ballots.Quorum.{voters, ballots_of-cast}

module _ {S : Type 0} where
  abbrev pub Held : (NodeId → S → Type 0) → List (NodeId × S) → Type 0
  Held P [] = Unit
  Held P ((i, s) ∷ m) = P i s × Held P m

  pub insert-Held :
      (P : NodeId → S → Type 0) (i : NodeId) (s : S) (m : List (NodeId × S))
      → P i s
      → Held P m
      → Held P (insert i s m)
  unfolding insert
  insert-Held P i s [] h all = (h, tt)
  insert-Held P i s ((j, t) ∷ m) h all = elim (Bool-cases (bytes_eq.beq j i)) [
    | inl same ↦ rw same (h, all.1)
    | inr other ↦ rw other (all.0, insert-Held P i s m h all.1)
  ]

  pub Held-map :
      (P Q : NodeId → S → Type 0) (m : List (NodeId × S))
      → ((i : NodeId) (s : S) → P i s → Q i s)
      → Held P m
      → Held Q m
  Held-map P Q [] h all = tt
  Held-map P Q ((i, s) ∷ m) h all = (h i s all.0, Held-map P Q m h all.1)

  -- The vote of a voter.
  pub Held-In :
      (P : NodeId → S → Type 0) (i : NodeId) (m : List (NodeId × S))
      → Held P m
      → In i (voters m)
      → (s : S) × P i s
  Held-In P i [] all h = absurd h
  Held-In P i ((j, t) ∷ m) all (inl same) = (t, subst (λ k. P k t) same all.0)
  Held-In P i ((j, t) ∷ m) all (inr h) = Held-In P i m all.1 h

  -- The predicate may name the block.
  pub cast-Held :
      (P : ℕ → NodeId → S → Type 0) (b : Ballots S) (id : ℕ) (i : NodeId) (s : S)
      → P id i s
      → ((x : ℕ) → Held (P x) (ballots_of b x))
      → (x : ℕ) → Held (P x) (ballots_of (cast b id i s) x)
  cast-Held P b id i s h all x = elim (Bool-cases (id == x)) [
    | inl same ↦
        rw (ballots_of-cast b id x i s, same)
          (subst (λ y. Held (P y) (insert i s (ballots_of b id))) ((==_iff id x).0 same)
            (insert-Held (P id) i s (ballots_of b id) h (all id)))
    | inr other ↦ rw (ballots_of-cast b id x i s, other) (all x)
  ]

pub no_ballots-Held :
    (S : Type 0) (P : ℕ → NodeId → S → Type 0) (x : ℕ)
    → Held (P x) (ballots_of (no_ballots {S = S}) x)
unfolding no_ballots ballots_of
no_ballots-Held S P x = tt
