-- ===== src/Vochain/Examples/Votes.antt =====
-- Votes in the setting.
use go_dvote.Statedb.{TreeName}
use go_dvote.Statedb.Iterate.Ranges.{with_prefix}
use go_dvote.Db.{has_prefix}
use go_dvote.Vochain.State.Votes.Identity.{
  envelope_exists-add_vote, envelope-add_vote, envelope-add_vote_other,
}
use go_dvote.Vochain.State.{notify, tree_get, header_key, store_as, tree_add, header}
use go_dvote.Vochain.State.Votes.Listing.{
  vote_pairs, vote_entries-tree_get, envelope_list-eq-window, nullifier_of,
}
use go_dvote.Sample.{process_ser, header_ser, mem_add, codec_of, sample}
use go_dvote.Prelude.Int.{◌+ℤ◌, wrap64, add64, pos}
use go_dvote.Vochain.Transaction.Vote.{
  vote_proof, new_vote_proof, is_ballot_type, check_process_type, accepts_votes, vote_tx_check,
  vote_of,
}
use go_dvote.Vochain.State.Cache.{vote_cache_get, vote_cache_del, vote_cache_add}
use go_dvote.Vochain.Apputils.{graviton_verify, generate_nullifier, check_proof, check_merkle_proof}
use go_dvote.Util.Hex.{
  trim_hex, hex_char, from_hex_char, decode_pair, push_byte, decode_string, encode_to_string,
}
use go_dvote.Util.Decimal.{decimal}
use go_dvote.Types.{
  require_keys, process_require_keys, process_is_encrypted, is_encrypted, uniq_id, Header,
}
use go_dvote.Types.Consts.{snark_vote, poll_vote, petition_sign, encrypted_poll}
use go_dvote.Prelude.{
  at_index, ◌≢◌, inr, erase, bytes_eq, insert, lookup, ◌≡◌, false, refl, true, ok, arith, some,
  replicate, length, take, ◌<◌, ◌^◌, drop, map, Bytes, ◌++◌, none, ◌∷◌, [], if◌then◌else◌,
}
use go_dvote.Ethereum.{
  signing_prefix, pub_key_from_signature, normalize_recover_id, hash_raw, hash, decompress_pub_key,
  addr_from_public_key,
}
use go_dvote.Vochain.State.Processes.{process, set_process}
use go_dvote.Vochain.State.Votes.{
  vote_id, add_vote, envelope, envelope_exists, vote_entries, envelope_list, count_votes,
}
use go_dvote.Statedb.{tree_eq}
use go_dvote.Vochain.App.{put_header}
use go_dvote.Vochain.Examples.Setting.{
  open_chain, voted_chain, checked_chain, delivered_chain, a_vote, a_vote_tx, a_tx_vote,
  a_nullifier, a_header, a_pid,
}
use go_dvote.Vochain.Transaction.Vote.Acceptance.{Checked}
use go_dvote.Vochain.Transaction.Vote.Conditions.{Acceptable, vote_tx_check-accepted}
use go_dvote.Vochain.Transaction.Vote.Delivery.{envelope-add_vote_tx}
use go_dvote.Vochain.Transaction.AddTx.{add_vote_tx}

a_header_found : header sample false open_chain ≡ some a_header
unfolding header codec_of lookup put_header tree_add mem_add tree_eq insert set_process store_as
    bytes_eq header_key header_ser
a_header_found = refl

a_vote_added : add_vote sample a_vote open_chain ≡ (ok tt, voted_chain)
unfolding add_vote vote_id header codec_of lookup put_header tree_add mem_add tree_eq insert
    set_process store_as bytes_eq header_key header_ser
a_vote_added = refl

a_tx_checked : vote_tx_check sample 7 a_vote_tx false open_chain ≡ (ok a_tx_vote, checked_chain)
unfolding vote_tx_check decode_string push_byte decode_pair from_hex_char process tree_get lookup
    put_header tree_add mem_add codec_of tree_eq set_process store_as insert bytes_eq
    addr_from_public_key decompress_pub_key hash hash_raw normalize_recover_id
    pub_key_from_signature signing_prefix erase add64 wrap64 ◌+ℤ◌ at_index encrypted_poll
    petition_sign poll_vote snark_vote uniq_id is_encrypted process_is_encrypted
    process_require_keys require_keys decimal encode_to_string hex_char trim_hex check_merkle_proof
    check_proof generate_nullifier graviton_verify vote_cache_add vote_cache_del vote_cache_get
    envelope_exists vote_id header header_key accepts_votes check_process_type is_ballot_type
    new_vote_proof vote_of vote_proof process_ser header_ser
a_tx_checked = refl

a_tx_delivered : add_vote_tx sample 7 a_vote_tx true open_chain ≡ (ok a_nullifier, delivered_chain)
unfolding add_vote_tx vote_tx_check decode_string push_byte decode_pair from_hex_char process
    tree_get lookup put_header tree_add mem_add codec_of tree_eq set_process store_as insert
    addr_from_public_key decompress_pub_key hash hash_raw normalize_recover_id
    pub_key_from_signature signing_prefix bytes_eq erase add64 wrap64 ◌+ℤ◌ at_index encrypted_poll
    petition_sign poll_vote snark_vote uniq_id is_encrypted process_is_encrypted
    process_require_keys require_keys decimal encode_to_string hex_char trim_hex check_merkle_proof
    check_proof generate_nullifier graviton_verify vote_cache_add vote_cache_del vote_cache_get
    add_vote envelope_exists vote_id header header_key notify accepts_votes check_process_type
    is_ballot_type new_vote_proof vote_of vote_proof process_ser header_ser
a_tx_delivered = refl

vote_tx_check-accepted_example : Acceptable sample a_vote_tx open_chain a_tx_vote
vote_tx_check-accepted_example =
    vote_tx_check-accepted sample 7 a_vote_tx false open_chain checked_chain a_tx_vote a_tx_checked

envelope-add_vote_tx_example :
    (c : Checked sample a_vote_tx open_chain) × (envelope sample c.pid a_nullifier false
        delivered_chain
      ≡ ok (record {
        encryption_key_indexes = if is_encrypted c.p then a_vote_tx.encryption_key_indexes else [];
        height = c.hd.height;
        nullifier = a_nullifier;
        process_id = c.pid;
        vote_package = a_vote_tx.vote_package;
      }))
envelope-add_vote_tx_example =
    envelope-add_vote_tx sample 7 a_vote_tx open_chain delivered_chain a_nullifier a_tx_delivered

envelope-add_vote_example :
    (hd : Header) × (header sample false open_chain ≡ some hd)
    × (envelope sample a_pid (replicate 32 4) false voted_chain
        ≡ ok (record a_vote { height = hd.height }))
envelope-add_vote_example = envelope-add_vote sample a_vote open_chain voted_chain a_vote_added

apart : a_nullifier ≢ a_vote.nullifier
apart = λ e. absurd (ground (arith, e))

envelope-add_vote_other_example :
    envelope sample a_pid a_nullifier false voted_chain
    ≡ envelope sample a_pid a_nullifier false open_chain
envelope-add_vote_other_example =
    envelope-add_vote_other sample a_vote open_chain voted_chain a_vote_added a_pid a_nullifier
      (inr apart)

few_entries : length (with_prefix a_pid (vote_pairs sample false voted_chain)) < 2 ^ 63
unfolding vote_entries notify add_vote vote_id header codec_of lookup put_header tree_add mem_add
    tree_eq insert set_process store_as bytes_eq header_key header_ser with_prefix has_prefix
    tree_get
few_entries = omega arith

envelope_list-eq-window_example :
    (envelope_list sample a_pid (pos 0) (pos 10) false voted_chain
      ≡ take 10
          (drop 0 (map nullifier_of (with_prefix a_pid (vote_pairs sample false voted_chain)))))
    × (count_votes sample a_pid false voted_chain
        ≡ pos (length (map nullifier_of (with_prefix a_pid (vote_pairs sample false voted_chain)))))
envelope_list-eq-window_example =
    envelope_list-eq-window sample (replicate 31 1) 1 0 10 false voted_chain refl (omega arith)
      (omega arith) few_entries

-- The bytes of the vote.
abbrev stored_vote : Bytes
stored_vote = elim (lookup (a_pid ++ a_vote.nullifier) (vote_pairs sample false voted_chain)) [
  | none ↦ []
  | some b ↦ b
]

a_vote_stored :
    tree_get sample TreeName.vote_tree false (a_pid ++ a_vote.nullifier) voted_chain
    ≡ some stored_vote
unfolding vote_entries notify add_vote vote_id header codec_of lookup put_header tree_add mem_add
    tree_eq insert set_process store_as bytes_eq header_key header_ser with_prefix has_prefix
    tree_get
a_vote_stored = refl

-- A process id before that of the vote, which ends in 0xFF.
abbrev earlier_pid : Bytes
earlier_pid = replicate 30 1 ++ 0 ∷ 255 ∷ []

vote_entries-tree_get_example :
    (lookup (a_pid ++ a_vote.nullifier) (vote_entries sample earlier_pid false voted_chain)
      ≡ some stored_vote)
    × (has_prefix earlier_pid (a_pid ++ a_vote.nullifier) ≡ false)
vote_entries-tree_get_example =
    vote_entries-tree_get sample (replicate 30 1) 0 1 a_vote.nullifier stored_vote false voted_chain
      (omega arith) (omega arith) a_vote_stored

envelope_exists-add_vote_example :
    envelope_exists sample a_pid a_vote.nullifier voted_chain
    ≡ envelope_exists sample a_pid a_vote.nullifier open_chain
envelope_exists-add_vote_example =
    envelope_exists-add_vote sample a_vote open_chain voted_chain a_vote_added a_pid
      a_vote.nullifier
