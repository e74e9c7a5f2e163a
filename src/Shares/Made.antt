-- ===== src/Shares/Made.antt =====
-- blockchain/notarization.go, blockchain/finalization.go: what MakeNShare and MakeFShare write.
use banyan.Base.{◌≡◌, Word, ok, >>=-eq-ok, arith}
use banyan.Identity.{NodeId}
use banyan.Crypto.{Crypto, Identifier, priv_sign}
use banyan.Shares.{NotarizationShare, FinalizationShare, make_nshare, make_fshare}

module _ (c : Crypto) (height rank : Word) (voter : NodeId) (id : Identifier) where
  pub make_fshare-ok :
      (share : FinalizationShare)
      → make_fshare c height rank voter id ≡ ok share
      → (share.height ≡ height) × (share.block_id ≡ id) × (share.voter ≡ voter)
  unfolding make_fshare
  make_fshare-ok share h =
      let (signed, made, rest) = >>=-eq-ok (priv_sign c id voter) _ h in ground (arith)

  pub make_nshare-ok :
      (share : NotarizationShare)
      → make_nshare c height rank voter id ≡ ok share
      → (share.height ≡ height) × (share.block_id ≡ id) × (share.voter ≡ voter)
  unfolding make_nshare
  make_nshare-ok share h =
      let (signed, made, rest) = >>=-eq-ok (priv_sign c id voter) _ h in ground (arith)
