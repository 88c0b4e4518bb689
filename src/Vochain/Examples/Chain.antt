-- ===== src/Vochain/Examples/Chain.antt =====
-- The life of votes and of blocks in the setting.
use go_dvote.Vochain.State.Cache.Purge.{vote_cache_get-vote_cache_purge, vote_cache_purge-young}
use go_dvote.Vochain.State.Cache.{
  vote_cache_purge, purge_old, is_multiple_of_six, vote_cache_add, vote_cache_get, vote_cache_del,
  vote_cache_purge_threshold,
}
use go_dvote.Vochain.App.{or_fatal, put_header, begin_block, check_tx}
use go_dvote.Vochain.State.Blocks.{rollback_state, save}
use go_dvote.Sample.{process_ser, header_ser, mem_add, codec_of, sample}
use go_dvote.Prelude.Int.{◌+ℤ◌, wrap64, add64, pos}
use go_dvote.Vochain.Transaction.Vote.{
  vote_proof, is_ballot_type, check_process_type, accepts_votes, vote_tx_check, vote_of,
  new_vote_proof,
}
use go_dvote.Vochain.Apputils.{graviton_verify, generate_nullifier, check_proof, check_merkle_proof}
use go_dvote.Util.Hex.{
  trim_hex, hex_char, encode_to_string, from_hex_char, decode_pair, push_byte, decode_string,
}
use go_dvote.Util.Decimal.{decimal}
use go_dvote.Types.{
  require_keys, process_require_keys, process_is_encrypted, is_encrypted, Process, VoteProof,
  VoteTx, uniq_id,
}
use go_dvote.Types.Consts.{snark_vote, poll_vote, petition_sign, encrypted_poll}
use go_dvote.Prelude.{
  at_index, erase, insert, lookup, Bytes, [], ◌∷◌, ◌≡◌, false, refl, true, ok, err, ◌≢◌,
  invalid_block_frame, codes, some, value_or, if◌then◌else◌, ◌&&◌, bytes_eq, ltb, ◌-◌,
}
use go_dvote.Ethereum.{
  signing_prefix, pub_key_from_signature, normalize_recover_id, hash_raw, hash, decompress_pub_key,
  addr_from_public_key,
}
use go_dvote.Vochain.State.{
  store_as, tree_add, header, tree_get, notify, on_cancel, header_key, rollback,
}
use go_dvote.Vochain.State.Processes.{set_process, cancel_process, process}
use go_dvote.Vochain.State.Votes.{vote_id, add_vote, envelope_exists}
use go_dvote.Vochain.Examples.Setting.{
  open_chain, voted_chain, saved_chain, checked_chain, a_vote, a_vote_tx, a_tx_vote, a_nullifier,
  a_header, a_process, a_pid, canceled_chain, second_chain, next_header, begun_chain,
}
use go_dvote.Vochain.Transaction.Vote.Acceptance.{SameChain}
use go_dvote.Vochain.Transaction.Vote.Double.{vote_tx_check-after_save}
use go_dvote.Vochain.Transaction.Vote.Canceled.{vote_tx_check-canceled}
use go_dvote.Vochain.App.CheckTx.{check_tx-SameChain}
use go_dvote.Vochain.App.BeginBlock.{begin_block-committed}
use go_dvote.Vochain.State.Processes.Cancel.{cancel_process-outcome}
use go_dvote.Statedb.{TreeName, tree_eq}

a_vote_added_here : add_vote sample a_vote open_chain ≡ (ok tt, voted_chain)
unfolding add_vote vote_id header codec_of lookup put_header tree_add mem_add tree_eq insert
    set_process store_as bytes_eq header_key header_ser
a_vote_added_here = refl

a_vote_saved : save sample voted_chain ≡ (ok [], saved_chain)
unfolding save
a_vote_saved = refl

other_vote_accepted :
    vote_tx_check sample 8 a_vote_tx true saved_chain
    ≡ (ok a_tx_vote, (vote_tx_check sample 8 a_vote_tx true saved_chain).1)
unfolding vote_tx_check decode_string push_byte decode_pair from_hex_char process tree_get lookup
    save header codec_of add_vote vote_id put_header tree_add mem_add tree_eq addr_from_public_key
    decompress_pub_key hash hash_raw normalize_recover_id pub_key_from_signature signing_prefix
    bytes_eq erase insert add64 wrap64 ◌+ℤ◌ at_index encrypted_poll petition_sign poll_vote
    snark_vote uniq_id is_encrypted process_is_encrypted process_require_keys require_keys decimal
    encode_to_string hex_char trim_hex check_merkle_proof check_proof generate_nullifier
    graviton_verify vote_cache_add vote_cache_del vote_cache_get envelope_exists header_key notify
    store_as accepts_votes check_process_type is_ballot_type new_vote_proof vote_of vote_proof
    set_process header_ser process_ser
other_vote_accepted = refl

vote_tx_check-after_save_example : a_nullifier ≢ a_vote.nullifier
vote_tx_check-after_save_example =
    vote_tx_check-after_save sample a_vote open_chain voted_chain saved_chain
      (vote_tx_check sample 8 a_vote_tx true saved_chain).1 [] 8 a_vote_tx true a_tx_vote
      a_vote_added_here a_vote_saved other_vote_accepted refl

-- The transaction with another package, whose proof is in the cache.
abbrev changed_tx : VoteTx
changed_tx = record a_vote_tx { vote_package = 66 ∷ []; proof = [] }

abbrev cached_proof : VoteProof
cached_proof =
    value_or (new_vote_proof sample 7 a_process a_pid a_vote_tx open_chain)
      (record { proof = []; pub_key = []; pub_key_digest = []; nullifier = []; created = 0 })

proof_is_cached :
    vote_cache_get (uniq_id changed_tx a_process.type) checked_chain ≡ some cached_proof
unfolding vote_cache_get uniq_id bytes_eq poll_vote encode_to_string lookup vote_tx_check
    decode_string push_byte decode_pair from_hex_char process tree_get put_header tree_add mem_add
    codec_of addr_from_public_key decompress_pub_key hash hash_raw normalize_recover_id
    pub_key_from_signature signing_prefix erase insert add64 wrap64 ◌+ℤ◌ at_index tree_eq
    encrypted_poll petition_sign snark_vote is_encrypted process_is_encrypted process_require_keys
    require_keys decimal hex_char trim_hex check_merkle_proof check_proof generate_nullifier
    graviton_verify vote_cache_add vote_cache_del envelope_exists vote_id header header_key
    accepts_votes check_process_type is_ballot_type new_vote_proof vote_of vote_proof set_process
    store_as process_ser header_ser
proof_is_cached = refl

a_pid_decoded : decode_string a_vote_tx.process_id ≡ ok a_pid
unfolding decode_string push_byte decode_pair from_hex_char
a_pid_decoded = refl

a_header_there : header sample false open_chain ≡ some a_header
unfolding header codec_of lookup put_header tree_add mem_add tree_eq insert set_process store_as
    bytes_eq header_key header_ser
a_header_there = refl

a_process_canceled : cancel_process sample a_pid open_chain ≡ (ok tt, canceled_chain)
unfolding cancel_process process tree_get lookup put_header tree_add mem_add codec_of tree_eq
    store_as insert bytes_eq process_ser
a_process_canceled = refl

vote_tx_check-canceled_example :
    vote_tx_check sample 9 a_vote_tx true canceled_chain ≡ (err invalid_block_frame, canceled_chain)
vote_tx_check-canceled_example =
    vote_tx_check-canceled sample 9 a_vote_tx true open_chain canceled_chain a_pid a_header
      a_pid_decoded a_header_there a_process_canceled

cancel_process-outcome_example :
    (p : Process) × (process sample a_pid false open_chain ≡ ok p)
    × (process sample a_pid false canceled_chain ≡ ok (record p { canceled = true }))
    × (header sample false canceled_chain ≡ header sample false open_chain)
    × (canceled_chain.calls
        ≡ (if p.canceled then open_chain.calls else (notify (on_cancel a_pid) open_chain).calls))
cancel_process-outcome_example =
    cancel_process-outcome sample a_pid open_chain canceled_chain a_process_canceled

check_tx-SameChain_example :
    SameChain open_chain (check_tx sample 7 false (codes "vote") open_chain).1
check_tx-SameChain_example = check_tx-SameChain sample 7 open_chain false (codes "vote")

a_block_begun : begin_block sample 7 next_header second_chain ≡ (ok tt, begun_chain)
unfolding begin_block rollback_state or_fatal put_header tree_add mem_add codec_of header lookup
    notify add_vote vote_id save tree_eq insert set_process store_as bytes_eq is_multiple_of_six
    purge_old vote_cache_purge header_key tree_get header_ser
a_block_begun = refl

begin_block-committed_example :
    (header sample false begun_chain ≡ some next_header)
    × ((bytes : Bytes) × ((t : TreeName) (k : Bytes)
          → tree_get sample t false k begun_chain ≡ (
              if tree_eq TreeName.app_tree t && bytes_eq header_key k
              then some bytes
              else tree_get sample t true k second_chain)))
    × ((t : TreeName) (k : Bytes)
        → tree_get sample t true k begun_chain ≡ tree_get sample t true k second_chain)
    × (begun_chain.calls ≡ (notify rollback second_chain).calls)
begin_block-committed_example =
    begin_block-committed sample 7 next_header second_chain begun_chain a_block_begun

proof_is_young : ltb vote_cache_purge_threshold (9 - cached_proof.created) ≡ false
unfolding vote_cache_get uniq_id bytes_eq poll_vote encode_to_string lookup vote_tx_check
    decode_string push_byte decode_pair from_hex_char process tree_get put_header tree_add mem_add
    codec_of addr_from_public_key decompress_pub_key hash hash_raw normalize_recover_id
    pub_key_from_signature signing_prefix erase insert add64 wrap64 ◌+ℤ◌ at_index tree_eq
    encrypted_poll petition_sign snark_vote is_encrypted process_is_encrypted process_require_keys
    require_keys decimal hex_char trim_hex check_merkle_proof check_proof generate_nullifier
    graviton_verify vote_cache_add vote_cache_del envelope_exists vote_id header header_key
    accepts_votes check_process_type is_ballot_type new_vote_proof vote_of vote_proof set_process
    store_as process_ser header_ser
proof_is_young = refl

vote_cache_get-vote_cache_purge_example :
    vote_cache_get (uniq_id changed_tx a_process.type) (vote_cache_purge (pos 6) 9 checked_chain)
    ≡ some cached_proof
vote_cache_get-vote_cache_purge_example =
    vote_cache_get-vote_cache_purge (pos 6) 9 (uniq_id changed_tx a_process.type) cached_proof
      checked_chain proof_is_cached proof_is_young

six_is_multiple : is_multiple_of_six (pos 6) ≡ true
unfolding is_multiple_of_six
six_is_multiple = refl

proof_is_kept :
    vote_cache_get (uniq_id changed_tx a_process.type) (vote_cache_purge (pos 6) 9 checked_chain)
    ≡ some cached_proof
unfolding vote_cache_purge purge_old is_multiple_of_six vote_cache_get uniq_id bytes_eq poll_vote
    encode_to_string lookup vote_tx_check decode_string push_byte decode_pair from_hex_char process
    tree_get put_header tree_add mem_add codec_of addr_from_public_key decompress_pub_key hash
    hash_raw normalize_recover_id pub_key_from_signature signing_prefix erase insert add64 wrap64
    ◌+ℤ◌ at_index tree_eq encrypted_poll petition_sign snark_vote is_encrypted process_is_encrypted
    process_require_keys require_keys decimal hex_char trim_hex check_merkle_proof check_proof
    generate_nullifier graviton_verify vote_cache_add vote_cache_del envelope_exists vote_id header
    header_key accepts_votes check_process_type is_ballot_type new_vote_proof vote_of vote_proof
    set_process store_as process_ser header_ser
proof_is_kept = refl

vote_cache_purge-young_example : ltb vote_cache_purge_threshold (9 - cached_proof.created) ≡ false
vote_cache_purge-young_example =
    vote_cache_purge-young (pos 6) 9 (uniq_id changed_tx a_process.type) cached_proof checked_chain
      six_is_multiple proof_is_kept
