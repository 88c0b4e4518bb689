-- ===== src/Vochain/Transaction/Vote/Signatures.antt =====
-- The signatures of the votes that CheckTx accepts.
use go_dvote.Vochain.Transaction.Vote.Conditions.{new_vote_proof-SignedBy, vote_proof-ProofSource}
use go_dvote.Vochain.Transaction.Vote.{new_vote_proof, vote_proof}
use go_dvote.Vochain.Deps.{Deps}
use go_dvote.Types.{VoteTx, Process, VoteProof}
use go_dvote.Vochain.State.{ChainState}
use go_dvote.Ethereum.{pub_key_from_signature, EthCrypto}
use go_dvote.Util.Hex.{trim_hex}
use go_dvote.Prelude.{[], ◌∷◌, Bytes, ℕ, ◌≡◌, ok, false, arith, length, inr, inl, ◌≤◌, ◌∷◌}

length-trim_hex : (s : Bytes) → length (trim_hex s) ≤ length s
unfolding trim_hex
length-trim_hex [] = omega arith
length-trim_hex (a ∷ []) = omega arith
length-trim_hex (a ∷ b ∷ s) = ground arith

-- Only signatures of 130 characters are read.
length-pub_key_from_signature :
    (E : EthCrypto) (msg sig key : Bytes)
    → pub_key_from_signature E msg sig ≡ ok key
    → 130 ≤ length sig
unfolding pub_key_from_signature
length-pub_key_from_signature E msg sig key h =
    let shorter = length-trim_hex sig in
    let enough : 130 ≤ length (trim_hex sig) = ground (arith, h) in omega (arith, shorter, enough)

module _ (X : Deps) (now : ℕ) (tx : VoteTx) (p : Process) (pid : Bytes) (s s' : ChainState X)
    (vp : VoteProof) where
  -- CheckTx makes a new proof, of a signature of 130 characters at least.
  pub vote_proof-new :
      vote_proof X now false p pid tx s ≡ (ok vp, s')
      → (new_vote_proof X now p pid tx s ≡ ok vp) × (130 ≤ length tx.signature)
  unfolding vote_proof
  vote_proof-new h = elim (vote_proof-ProofSource X now tx false p pid s s' vp h) [
    | inr e ↦ absurd (ground (arith, e, h))
    | inl made ↦
        let by = new_vote_proof-SignedBy X now tx p pid s vp made in
        (
          made,
          length-pub_key_from_signature X.eth tx.signed_bytes tx.signature by.pub_key by.signed,
        )
  ]
