-- ===== src/Shares.antt =====
-- blockchain/notarization.go and blockchain/finalization.go: the shares and the bags that collect
-- them. Logging is left out; `Add` discards what `getSigs` returns, so only its error would show.
pub mod Quorums
pub mod FastPath
pub mod Made
use banyan.Base.{
  ℕ, ◌+◌, ◌*◌, ◌/◌, List, [], ◌∷◌, map, Option, none, some, Bool, true, false, ◌&&◌, ltb, leb, ◌==◌,
  if◌then◌else◌, update, length, Word, minus_one, Outcome, ok, panic, starved, ◌>>=◌, fatal,
}
use banyan.Identity.{NodeId}
use banyan.Crypto.{Crypto, Identifier, Signature, AggSig, priv_sign}
use banyan.Ballots.{Ballots, no_ballots, ballots_of, ballot_count, cast}

pub record NotarizationShare : Type 0 where
  pub height : Word
  pub rank : Word
  pub voter : NodeId
  pub block_id : Identifier
  pub signature : Signature

pub record FinalizationShare : Type 0 where
  pub height : Word
  pub rank : Word
  pub voter : NodeId
  pub block_id : Identifier
  pub signature : Signature

module _ (c : Crypto) where
  -- An error in signing ends the process.
  unfoldable pub make_nshare : Word → Word → NodeId → Identifier → Outcome NotarizationShare
  make_nshare height rank voter id = priv_sign c id voter >>= λ signed. elim signed [
    | none ↦ panic fatal
    | some sig ↦
        ok (record { height = height; rank = rank; voter = voter; block_id = id; signature = sig })
  ]

  unfoldable pub make_fshare : Word → Word → NodeId → Identifier → Outcome FinalizationShare
  make_fshare height rank voter id = priv_sign c id voter >>= λ signed. elim signed [
    | none ↦ panic fatal
    | some sig ↦
        ok (record { height = height; rank = rank; voter = voter; block_id = id; signature = sig })
  ]

-- The bag of the ICC protocol; `total` is the number of nodes.
pub record NSharesBag : Type 0 where
  pub total : ℕ
  pub votes : Ballots NotarizationShare

unfoldable pub new_nshares_bag : ℕ → NSharesBag
new_nshares_bag total = record { total = total; votes = no_ballots }

unfoldable pub n_super_majority : NSharesBag → Identifier → Bool
n_super_majority q id = ltb (q.total * 2 / 3) (ballot_count q.votes id)

-- The signatures and the signers of a block, or an error.
unfoldable pub n_get_sigs : NSharesBag → Identifier → Option (AggSig × List NodeId)
n_get_sigs q id = elim (q.votes id) [
  | none ↦ none
  | some m ↦ some (map (λ e. e.1.signature) m, map (λ e. e.0) m)
]

unfoldable pub n_add : NSharesBag → NotarizationShare → NSharesBag × Bool
n_add q vote =
    let q' : NSharesBag = record q { votes = cast q.votes vote.block_id vote.voter vote } in
    (q', n_super_majority q' vote.block_id)

pub record FSharesBag : Type 0 where
  pub total : ℕ
  pub votes : Ballots FinalizationShare

unfoldable pub new_fshares_bag : ℕ → FSharesBag
new_fshares_bag total = record { total = total; votes = no_ballots }

unfoldable pub f_size : FSharesBag → Identifier → ℕ
f_size q id = ballot_count q.votes id

unfoldable pub f_super_majority : FSharesBag → Identifier → Bool
f_super_majority q id = ltb (q.total * 2 / 3) (f_size q id)

unfoldable pub f_get_sigs : FSharesBag → Identifier → Option (AggSig × List NodeId)
f_get_sigs q id = elim (q.votes id) [
  | none ↦ none
  | some m ↦ some (map (λ e. e.1.signature) m, map (λ e. e.0) m)
]

unfoldable pub f_add : FSharesBag → FinalizationShare → FSharesBag × Bool
f_add q vote =
    let q' : FSharesBag = record q { votes = cast q.votes vote.block_id vote.voter vote } in
    (q', f_super_majority q' vote.block_id)

-- The bag of the Banyan protocol: `n` nodes, `f` faults, and `p` nodes that the fast path can miss.
pub record NSharesBagBanyan : Type 0 where
  pub n : ℕ
  pub f : ℕ
  pub p : ℕ
  pub votes : Ballots NotarizationShare
  pub fast_votes_rank_zero : ℕ → ℕ

unfoldable pub new_nshares_bag_banyan : ℕ → ℕ → ℕ → NSharesBagBanyan
new_nshares_bag_banyan n f p = record {
  n = n;
  f = f;
  p = p;
  votes = no_ballots;
  fast_votes_rank_zero = λ _. 0;
}

-- Whether the block is notarized, and whether it is finalized by the fast path. `n - p` may be
-- negative in the source; the test is `votes >= n - p`, here with `p` on the other side.
unfoldable pub b_add : NSharesBagBanyan → NotarizationShare → NSharesBagBanyan × (Bool × Bool)
b_add q vote =
    let fast =
      if vote.rank == minus_one
      then update q.fast_votes_rank_zero vote.height (q.fast_votes_rank_zero vote.height + 1)
      else q.fast_votes_rank_zero in
    let q' : NSharesBagBanyan = record q {
      votes = cast q.votes vote.block_id vote.voter vote;
      fast_votes_rank_zero = fast;
    } in
    (
      q',
      (
        ltb (q'.n + q'.f) (ballot_count q'.votes vote.block_id * 2),
        (vote.rank == minus_one) && leb q'.n (q'.fast_votes_rank_zero vote.height + q'.p),
      ),
    )
