-- ===== src/Vochain/Transaction/Vote.antt =====
-- vochain/transaction.go: VoteTxCheck.
pub mod Acceptance
pub mod Conditions
pub mod Signatures
pub mod Cached
pub mod Delivery
pub mod Double
pub mod Canceled
pub mod Lifecycle
pub mod Purged
pub mod NextBlock
use go_dvote.Prelude.{
  Bytes, Bool, bytes_eq, ℕ, Exec, Res, ◌||◌, bind_res, ◌>>=◌, if◌then◌else◌, ◌&&◌, lift, or_error,
  not, [], cannot_extract_pub_key, gets_res, some, no_keys_available, cannot_extract_address, false,
  err, snark_not_implemented, vote_already_exists, length, invalid_process_type, none,
  no_state_header, ◌==◌, ok, vote_in_cache, cannot_compute_poseidon, ◌>>◌, no_key_indexes, modify,
  fail_if, invalid_block_frame, cannot_check_merkle_proof, proof_not_valid, pure,
}
use go_dvote.Prelude.Fallible.{reject_if}
use go_dvote.Types.{Process, VoteTx, Vote, VoteProof, require_keys, uniq_id, is_encrypted}
use go_dvote.Vochain.Deps.{Deps}
use go_dvote.Prelude.Int.{ℤ, leb_ℤ, add64, ltb_ℤ, pos}
use go_dvote.Types.Consts.{poll_vote, petition_sign, encrypted_poll, snark_vote}
use go_dvote.Vochain.State.{ChainState, header}
use go_dvote.Ethereum.{pub_key_from_signature, addr_from_public_key}
use go_dvote.Vochain.State.Cache.{vote_cache_get, vote_cache_del, vote_cache_add}
use go_dvote.Util.Hex.{decode_string}
use go_dvote.Vochain.State.Votes.{envelope_exists}
use go_dvote.Vochain.Apputils.{generate_nullifier, check_merkle_proof}
use go_dvote.Vochain.State.Processes.{process}

-- The process takes votes at this height: the block frame, and neither canceled nor paused.
unfoldable pub accepts_votes : Process → ℤ → Bool
accepts_votes p height =
    leb_ℤ p.start_block height
    && leb_ℤ height (add64 p.start_block p.number_of_blocks)
    && (not p.canceled && not p.paused)

-- `case types.PollVote, types.PetitionSign, types.EncryptedPoll`
unfoldable pub is_ballot_type : Bytes → Bool
is_ballot_type t = bytes_eq t poll_vote || (bytes_eq t petition_sign || bytes_eq t encrypted_poll)

-- The tests between the frame and the vote cache, in the order of the code.
unfoldable pub check_process_type : Process → VoteTx → Res (Unit {0})
check_process_type p tx =
    bind_res (reject_if (require_keys p && ltb_ℤ p.key_index (pos 1)) no_keys_available) λ _.
      bind_res (reject_if (bytes_eq p.type snark_vote) snark_not_implemented) λ _.
        bind_res (reject_if (not (is_ballot_type p.type)) invalid_process_type)
          λ _. reject_if (is_encrypted p && length tx.encryption_key_indexes == 0) no_key_indexes

-- The vote of a transaction with its nullifier; the height is set when it is stored.
unfoldable pub vote_of : Process → VoteTx → Bytes → Bytes → Vote
vote_of p tx pid nullifier = record {
  encryption_key_indexes = if is_encrypted p then tx.encryption_key_indexes else [];
  height = pos 0;
  nullifier = nullifier;
  process_id = pid;
  vote_package = tx.vote_package;
}

module _ (X : Deps) where
  -- The branch without a cached proof: the key is recovered from the signature, the nullifier is
  -- computed, and the census proof is checked.
  unfoldable pub new_vote_proof : ℕ → Process → Bytes → VoteTx → ChainState X → Res VoteProof
  new_vote_proof now p pid tx s =
      bind_res
        (or_error (pub_key_from_signature X.eth tx.signed_bytes tx.signature)
          cannot_extract_pub_key)
        λ pub_key.
          bind_res (or_error (addr_from_public_key X.eth pub_key) cannot_extract_address) λ addr.
            let nullifier = generate_nullifier X addr pid in
            bind_res (reject_if (envelope_exists X pid nullifier s) vote_already_exists) λ _.
              bind_res (decode_string pub_key) λ pub_key_dec.
                let digest = X.poseidon pub_key_dec in
                bind_res (reject_if (not (length digest == 32)) cannot_compute_poseidon) λ _.
                  bind_res
                    (or_error (check_merkle_proof X p.mk_root tx.proof digest)
                      cannot_check_merkle_proof)
                    λ valid. bind_res (reject_if (not valid) proof_not_valid) λ _. ok (record {
                      proof = tx.proof;
                      pub_key = pub_key;
                      pub_key_digest = digest;
                      nullifier = nullifier;
                      created = now;
                    })

  -- The proof of a vote: from the cache when a block is delivered, which removes it there whether
  -- or not the vote exists, and else a new one, which is cached.
  unfoldable pub vote_proof : ℕ → Bool → Process → Bytes → VoteTx → Exec (ChainState X) VoteProof
  vote_proof now for_commit p pid tx s =
      let uid = uniq_id tx p.type in
      elim (vote_cache_get uid s) [
        | some vp ↦
            if for_commit
            then (if envelope_exists X pid vp.nullifier s
                then (err vote_already_exists, vote_cache_del uid s)
                else (ok vp, vote_cache_del uid s))
            else (err vote_in_cache, s)
        | none ↦
            (do
              vp ← gets_res (new_vote_proof now p pid tx)
              modify (vote_cache_add uid vp)
              pure vp)
              s
      ]

  -- VoteTxCheck at time `now`
  unfoldable pub vote_tx_check : ℕ → VoteTx → Bool → Exec (ChainState X) Vote
  vote_tx_check now tx for_commit = do
    pid ← lift (decode_string tx.process_id)
    p ← gets_res (process X pid false)
    h ← gets_res (λ s. elim (header X false s) [ none ↦ err no_state_header | some h ↦ ok h ])
    fail_if (not (accepts_votes p h.height)) invalid_block_frame
    lift (check_process_type p tx)
    vp ← vote_proof now for_commit p pid tx
    pure (vote_of p tx pid vp.nullifier)
