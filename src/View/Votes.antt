-- ===== src/View/Votes.antt =====
-- blockchain_view/quorum.go: votes and quorum certificates. `types.View` is an `int`; logging is
-- left out, so an error of `getSigs` shows as a certificate without signatures.
use banyan.Base.{
  ℕ, ◌*◌, ◌/◌, List, [], map, Option, none, some, Bool, ltb, if◌then◌else◌, Word, Outcome, ok,
  panic, ◌>>=◌, fatal,
}
use banyan.Identity.{NodeId}
use banyan.Crypto.{Crypto, Identifier, Signature, AggSig, priv_sign}
use banyan.Ballots.{Ballots, no_ballots, ballot_count, cast}

pub record Vote : Type 0 where
  pub view : Word
  pub voter : NodeId
  pub block_id : Identifier
  pub signature : Signature

pub record Qc : Type 0 where
  pub leader : NodeId
  pub view : Word
  pub block_id : Identifier
  pub signers : List NodeId
  pub agg_sig : AggSig
  pub signature : Signature

pub record Quorum : Type 0 where
  pub total : ℕ
  pub votes : Ballots Vote

-- An error in signing ends the process.
unfoldable pub make_vote : Crypto → Word → NodeId → Identifier → Outcome Vote
make_vote c view voter id = priv_sign c id voter >>= λ signed. elim signed [
  | none ↦ panic fatal
  | some sig ↦ ok (record { view = view; voter = voter; block_id = id; signature = sig })
]

unfoldable pub new_quorum : ℕ → Quorum
new_quorum total = record { total = total; votes = no_ballots }

unfoldable pub q_size : Quorum → Identifier → ℕ
q_size q id = ballot_count q.votes id

unfoldable pub q_super_majority : Quorum → Identifier → Bool
q_super_majority q id = ltb (q.total * 2 / 3) (q_size q id)

-- The signatures and the signers; an error leaves both empty.
unfoldable pub q_get_sigs : Quorum → Identifier → AggSig × List NodeId
q_get_sigs q id = elim (q.votes id) [
  | none ↦ ([], [])
  | some m ↦ (map (λ e. e.1.signature) m, map (λ e. e.0) m)
]

-- The certificate, when the vote completes the quorum.
unfoldable pub q_add : Quorum → Vote → Quorum × Option Qc
q_add q vote =
    let q' : Quorum = record q { votes = cast q.votes vote.block_id vote.voter vote } in
    if q_super_majority q vote.block_id
    then (q, none)
    else if q_super_majority q' vote.block_id
    then (
      q',
      some (record {
        leader = [];
        view = vote.view;
        block_id = vote.block_id;
        signers = (q_get_sigs q' vote.block_id).1;
        agg_sig = (q_get_sigs q' vote.block_id).0;
        signature = [];
      }),
    )
    else (q', none)
