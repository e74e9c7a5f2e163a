-- ===== src/Protocol/HotStuff/LastVoted.antt =====
-- protocol/hotstuff.go: what `ProcessBlock` does to `lastVotedView`.
use banyan.Base.{ℕ, ◌≡◌, ◌∙◌, Option, Word, Returns, Returns-map}
use banyan.View.{Block}
use banyan.Protocol.Views.{ViewEnv}
use banyan.Protocol.HotStuff.{HotStuff, ProposalError, process_block}
use banyan.Protocol.HotStuff.Growth.{GrowsFst, Grows-refl, process_block-Grows}

-- The view last voted in is `w`.
abbrev pub HasVoted : Word → HotStuff → Type 0
HasVoted w s = s.last_voted_view ≡ w

abbrev pub HasVotedFst : Word → HotStuff × Option ProposalError → Type 0
HasVotedFst w r = HasVoted w r.0

-- ProcessBlock of HotStuff, whatever the block and the buffered blocks after it, leaves the view
-- that the replica last voted in as it is.
pub process_block-last_voted_view :
    (env : ViewEnv) (w : Word) (fuel : ℕ) (s : HotStuff) (b : Block)
    → HasVoted w s
    → Returns (HasVotedFst w) (process_block env fuel s b)
process_block-last_voted_view env w fuel s b h =
    Returns-map (GrowsFst s) (HasVotedFst w) (process_block env fuel s b)
      (process_block-Grows env s fuel s b (Grows-refl s)) (λ r g. g.same_vote ∙ h)
