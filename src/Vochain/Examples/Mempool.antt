-- ===== src/Vochain/Examples/Mempool.antt =====
-- A vote that goes through CheckTx, BeginBlock and DeliverTx in the setting.
use go_dvote.Vochain.Transaction.Vote.Lifecycle.{vote_tx_check-same_prefix}
use go_dvote.Vochain.Examples.Setting.{saved_chain, next_header, a_vote_tx, a_tx_vote, Chain}
use go_dvote.Vochain.State.Cache.{vote_cache_add, vote_cache_get, vote_cache_del}
use go_dvote.Vochain.App.{put_header, begin_block}
use go_dvote.Vochain.State.Blocks.{save}
use go_dvote.Sample.{process_ser, header_ser, mem_add, codec_of, sample}
use go_dvote.Prelude.Int.{◌+ℤ◌, wrap64, add64}
use go_dvote.Vochain.Transaction.Vote.{
  vote_proof, is_ballot_type, check_process_type, accepts_votes, vote_tx_check, vote_of,
  new_vote_proof,
}
use go_dvote.Vochain.Apputils.{graviton_verify, generate_nullifier, check_proof, check_merkle_proof}
use go_dvote.Util.Hex.{
  trim_hex, hex_char, encode_to_string, from_hex_char, decode_pair, push_byte, decode_string,
}
use go_dvote.Util.Decimal.{decimal}
use go_dvote.Types.{
  require_keys, process_require_keys, process_is_encrypted, is_encrypted, VoteTx, uniq_id, Vote,
}
use go_dvote.Types.Consts.{snark_vote, poll_vote, petition_sign, encrypted_poll}
use go_dvote.Prelude.{
  at_index, erase, insert, lookup, [], ◌∷◌, ◌≡◌, false, refl, true, ok, bytes_eq, arith,
}
use go_dvote.Ethereum.{
  signing_prefix, pub_key_from_signature, normalize_recover_id, hash_raw, hash, decompress_pub_key,
  addr_from_public_key,
}
use go_dvote.Vochain.State.{store_as, tree_add, header, tree_get, notify, header_key}
use go_dvote.Vochain.State.Processes.{set_process, process}
use go_dvote.Vochain.State.Votes.{vote_id, add_vote, envelope_exists}
use go_dvote.Statedb.{tree_eq}

-- CheckTx of the vote after a block.
abbrev mempool_chain : Chain
mempool_chain = (vote_tx_check sample 8 a_vote_tx false saved_chain).1

abbrev block_chain : Chain
block_chain = (begin_block sample 9 next_header mempool_chain).1

a_tx_admitted : vote_tx_check sample 8 a_vote_tx false saved_chain ≡ (ok a_tx_vote, mempool_chain)
unfolding vote_tx_check decode_string push_byte decode_pair from_hex_char process tree_get lookup
    save header codec_of add_vote vote_id put_header tree_add mem_add tree_eq addr_from_public_key
    decompress_pub_key hash hash_raw normalize_recover_id pub_key_from_signature signing_prefix
    bytes_eq erase insert add64 wrap64 ◌+ℤ◌ at_index encrypted_poll petition_sign poll_vote
    snark_vote uniq_id is_encrypted process_is_encrypted process_require_keys require_keys decimal
    encode_to_string hex_char trim_hex check_merkle_proof check_proof generate_nullifier
    graviton_verify vote_cache_add vote_cache_del vote_cache_get envelope_exists header_key notify
    store_as accepts_votes check_process_type is_ballot_type new_vote_proof vote_of vote_proof
    set_process header_ser process_ser
a_tx_admitted = refl

-- The transaction with another package, whose proof is in the cache.
abbrev changed_tx : VoteTx
changed_tx = record a_vote_tx { vote_package = 66 ∷ []; proof = [] }

vote_tx_check-same_prefix_example :
    (v : Vote) × (s2 : Chain) × (vote_tx_check sample 9 changed_tx true mempool_chain ≡ (ok v, s2))
    × (v.nullifier ≡ a_tx_vote.nullifier)
    × (v.process_id ≡ a_tx_vote.process_id)
    × (v.vote_package ≡ changed_tx.vote_package)
unfolding encode_to_string hex_char
vote_tx_check-same_prefix_example =
    vote_tx_check-same_prefix sample 8 a_vote_tx saved_chain mempool_chain a_tx_vote a_tx_admitted 9
      changed_tx refl refl refl (omega arith)
