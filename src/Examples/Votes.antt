-- ===== src/Examples/Votes.antt =====
-- Bags of four nodes, one of which may be faulty.
use banyan.Base.{
  ℕ, ◌+◌, ◌≤◌, ◌<◌, ◌≡◌, refl, sym, inl, inr, List, [], ◌∷◌, true, length, arith, bytes_eq,
  minus_one, Word, if◌then◌else◌, insert, list_beq,
}
use banyan.Identity.{NodeId}
use banyan.Crypto.{Identifier}
use banyan.Ballots.{no_ballots, ballots_of, ballot_count, open_ballot, put_ballot, cast}
use banyan.Ballots.Distinct.{Within, common}
use banyan.Ballots.Quorum.{voters, no_ballots-IsTally, cast-IsTally, cast-Within, IsTally}
use banyan.Shares.{
  NotarizationShare, FinalizationShare, NSharesBagBanyan, new_nshares_bag_banyan, b_add,
}
use banyan.Shares.Quorums.{b_voters, b_add_all, b_add-overlap}
use banyan.Shares.FastPath.{again, b_add_repeated}
use banyan.View.{Vote, new_quorum, q_super_majority}
use banyan.View.Once.{occurrences, certified, certified-once}
use banyan.Examples.Setup.{node_1, node_2, node_3, node_4}

abbrev nodes : List NodeId
nodes = node_1 ∷ node_2 ∷ node_3 ∷ node_4 ∷ []

abbrev nshare : Word → NodeId → Identifier → NotarizationShare
nshare rank voter id = record {
  height = 1;
  rank = rank;
  voter = voter;
  block_id = id;
  signature = [];
}

abbrev fshare : NodeId → Identifier → FinalizationShare
fshare voter id = record { height = 1; rank = 0; voter = voter; block_id = id; signature = [] }

abbrev two_votes : NSharesBagBanyan
two_votes = b_add_all (new_nshares_bag_banyan 4 1 0) (nshare 0 node_1 7 ∷ nshare 0 node_2 7 ∷ [])

abbrev later_votes : List NotarizationShare
later_votes = nshare 1 node_2 8 ∷ nshare 1 node_3 8 ∷ []

abbrev last_bag : NSharesBagBanyan
last_bag =
    (b_add (b_add_all (b_add two_votes (nshare 0 node_3 7)).0 later_votes) (nshare 1 node_4 8)).0

two_votes-IsTally : IsTally two_votes.votes
unfolding b_add new_nshares_bag_banyan
two_votes-IsTally =
    cast-IsTally _ 7 node_2 (nshare 0 node_2 7)
      (cast-IsTally _ 7 node_1 (nshare 0 node_1 7) (no_ballots-IsTally NotarizationShare))

no_ballots-Within :
    (j : ℕ) → Within (voters (ballots_of (no_ballots {S = NotarizationShare}) j)) nodes
unfolding no_ballots ballots_of
no_ballots-Within j a h = absurd h

last_bag-Within : (j : ℕ) → Within (b_voters last_bag j) nodes
unfolding b_add new_nshares_bag_banyan
last_bag-Within = cast-Within nodes _ 8 node_4 (nshare 1 node_4 8) (inr (inr (inr (inl refl)))) (
    cast-Within nodes _ 8 node_3 (nshare 1 node_3 8) (inr (inr (inl refl))) (
      cast-Within nodes _ 8 node_2 (nshare 1 node_2 8) (inr (inl refl)) (
        cast-Within nodes _ 7 node_3 (nshare 0 node_3 7) (inr (inr (inl refl))) (
          cast-Within nodes _ 7 node_2 (nshare 0 node_2 7) (inr (inl refl)) (
            cast-Within nodes no_ballots 7 node_1 (nshare 0 node_1 7) (inl refl)
              no_ballots-Within)))))

first_notarized : (two_votes.n ≡ 4) × ((b_add two_votes (nshare 0 node_3 7)).1.0 ≡ true)
unfolding b_add new_nshares_bag_banyan ballot_count ballots_of cast open_ballot put_ballot
    no_ballots insert list_beq
first_notarized = (refl, refl)

second_notarized :
    (b_add (b_add_all (b_add two_votes (nshare 0 node_3 7)).0 later_votes) (nshare 1 node_4 8)).1.0
    ≡ true
unfolding b_add new_nshares_bag_banyan ballot_count ballots_of cast open_ballot put_ballot
    no_ballots insert list_beq
second_notarized = refl

b_add-overlap_example :
    two_votes.f < length (common bytes_eq (b_voters last_bag 8) (b_voters last_bag 7))
b_add-overlap_example =
    b_add-overlap nodes two_votes (nshare 0 node_3 7) (nshare 1 node_4 8) later_votes
      two_votes-IsTally (sym (first_notarized.0)) first_notarized.1 second_notarized last_bag-Within

abbrev empty_bag : NSharesBagBanyan
empty_bag = new_nshares_bag_banyan 4 1 0

empty_low : empty_bag.n ≤ empty_bag.fast_votes_rank_zero 1 + 4 + empty_bag.p
unfolding new_nshares_bag_banyan
empty_low = omega arith

b_add_repeated_example :
    ((b_add (again 3 empty_bag (nshare minus_one node_2 7)) (nshare minus_one node_2 7)).1.1 ≡ true)
    × (ballot_count
          (b_add
            (again 3 empty_bag (nshare minus_one node_2 7))
            (nshare minus_one node_2 7)).0.votes
          7
        ≤ ballot_count empty_bag.votes 7 + 1)
b_add_repeated_example = b_add_repeated 3 empty_bag (nshare minus_one node_2 7) refl empty_low

abbrev votes : List Vote
votes =
    record { view = 1; voter = node_1; block_id = 7; signature = [] }
    ∷ record { view = 1; voter = node_2; block_id = 7; signature = [] }
    ∷ []

certified-once_example :
    occurrences 7 (certified (new_quorum 1) votes)
      + (if q_super_majority (new_quorum 1) 7 then 1 else 0)
    ≤ 1
certified-once_example = certified-once (new_quorum 1) votes 7
