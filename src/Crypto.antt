-- ===== src/Crypto.antt =====
-- crypto/sign.go, crypto/ecdsa.go, crypto/signature.go: signing and verification with the key of a
-- node. ECDSA itself (Go's crypto/ecdsa and math/big) and SHA3 over the JSON encoding are
-- parameters.
use banyan.Base.{
  ℕ, List, [], ◌∷◌, Option, none, some, Bool, true, false, ltb, if◌then◌else◌, Bytes, sub, Outcome,
  ok, panic, ◌>>=◌, index_out_of_range,
}
use banyan.Identity.{NodeId, node}

-- `Identifier`, 32 bytes, as a number; the zero value is 0.
abbrev pub Identifier : Type 0
Identifier = ℕ

-- `Signature`: the decimal texts of the two numbers.
abbrev pub Signature : Type 0
Signature = List Bytes

abbrev pub AggSig : Type 0
AggSig = List Signature

-- What the code takes from Go's libraries: the number of keys made by `SetKeys` (the
-- configuration's N), verification and signing with the key at an index (`none` is an error of
-- `ecdsa.Sign`), and the hash of bytes.
pub record Crypto : Type 0 where
  pub key_count : ℕ
  pub ecdsa_verify : ℕ → Identifier → Bytes → Bytes → Bool
  pub ecdsa_sign : ℕ → Identifier → Option (Bytes × Bytes)
  pub hash_bytes : Bytes → Identifier

-- The pair (bool, error) of a verification.
pub data Verification : Type 0 where
  verified : Bool → Verification
  failed : Verification

-- `ToECDSA` reads the two texts at their places.
unfoldable pub to_ecdsa : Signature → Outcome (Bytes × Bytes)
to_ecdsa [] = panic index_out_of_range
to_ecdsa (r ∷ []) = panic index_out_of_range
to_ecdsa (r ∷ s ∷ more) = ok (r, s)

module _ (c : Crypto) where
  -- The place of a node's key in `keys` and `pubKeys`. A negative index is a pattern past 2 ^ 63.
  unfoldable pub key_index : NodeId → Outcome ℕ
  key_index i =
      if ltb (sub (node i) 1) c.key_count then ok (sub (node i) 1) else panic index_out_of_range

  -- `Verify` of the public key at `k`; it returns no error.
  unfoldable pub verify : ℕ → Signature → Identifier → Outcome Verification
  unfolding to_ecdsa
  verify k sig hash = to_ecdsa sig >>= λ p. ok (verified (c.ecdsa_verify k hash p.0 p.1))

  unfoldable pub pub_verify : Signature → Identifier → NodeId → Outcome Verification
  unfolding key_index
  pub_verify sig hash i = key_index i >>= λ k. verify k sig hash

  -- `none` is an error.
  unfoldable pub priv_sign : Identifier → NodeId → Outcome (Option Signature)
  unfolding key_index
  priv_sign hash i = key_index i >>= λ k.
      ok (elim (c.ecdsa_sign k hash) [ none ↦ none | some (r, s) ↦ some (r ∷ s ∷ []) ])

  -- The loop reads the signature at the place of each signer.
  unfoldable pub verify_quorum_signature : AggSig → Identifier → List NodeId → Outcome Verification
  verify_quorum_signature sigs block [] = ok (verified true)
  verify_quorum_signature [] block (i ∷ signers) = panic index_out_of_range
  verify_quorum_signature (sig ∷ sigs) block (i ∷ signers) =
      let rest = verify_quorum_signature sigs block signers in
      pub_verify sig block i >>= λ r. elim r [
        | failed ↦ ok failed
        | verified correct ↦ elim correct [ true ↦ rest | false ↦ ok (verified false) ]
      ]
