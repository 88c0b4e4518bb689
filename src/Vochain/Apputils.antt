-- ===== src/Vochain/Apputils.antt =====
-- vochain/apputils.go and trie/trie.go: the checks of proofs and signatures of a transaction.
use go_dvote.Prelude.Fallible.{◌>>=◌, ◌>>◌, reject_if}
use go_dvote.Vochain.Deps.{Deps}
use go_dvote.Prelude.{Bytes, List, Res, ◌++◌, Bool, not, [], length, map, ◌==◌, root_size, ok}
use go_dvote.Ethereum.{hash_raw, verify_sender}
use go_dvote.Util.Hex.{decode_string}

module _ (X : Deps) where
  -- gravitonstate.Verify
  unfoldable pub graviton_verify : Bytes → Bytes → Bytes → Res Bool
  graviton_verify key proof root = do
    p ← X.unmarshal_proof proof
    reject_if (not (length root == 32)) root_size
    ok (X.verify_membership p root key)

  -- trie.CheckProof
  unfoldable pub check_proof : Bytes → Bytes → Bytes → Bytes → Res Bool
  check_proof root mp_hex index value = do
    p ← decode_string mp_hex
    r ← decode_string root
    graviton_verify index p r

  -- checkMerkleProof
  unfoldable pub check_merkle_proof : Bytes → Bytes → Bytes → Res Bool
  check_merkle_proof root_hash hexproof leaf_data = check_proof root_hash hexproof leaf_data []

  -- verifySignatureAgainstOracles
  unfoldable pub verify_signature_against_oracles : List Bytes → Bytes → Bytes → Res (Bool × Bytes)
  verify_signature_against_oracles oracles message sign_hex =
      verify_sender X.eth (map X.eth.hex_to_address oracles) message sign_hex

  -- GenerateNullifier
  unfoldable pub generate_nullifier : Bytes → Bytes → Bytes
  generate_nullifier address process_id = hash_raw X.eth (address ++ process_id)
