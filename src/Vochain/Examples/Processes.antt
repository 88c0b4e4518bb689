-- ===== src/Vochain/Examples/Processes.antt =====
-- Processes and oracles in the setting.
use go_dvote.Vochain.State.{notify, header, oracle_key, header_key, store_as, tree_add, tree_get}
use go_dvote.Vochain.Examples.Setting.{
  open_chain, oracle_chain, removed_chain, an_oracle, a_new_process_tx, created_chain,
}
use go_dvote.Sample.{header_ser, strings_ser, mem_add, codec_of, sample}
use go_dvote.Vochain.Transaction.NewProcess.{
  state_header, no_keys, is_process_type, check_oracle_signature, required_oracles,
  new_process_tx_check, process_of_tx,
}
use go_dvote.Vochain.State.Processes.{process, add_process, set_process}
use go_dvote.Vochain.Apputils.{verify_signature_against_oracles}
use go_dvote.Util.Hex.{
  is_hex_char, hex_char, encode_to_string, from_hex_char, decode_pair, push_byte, decode_string,
  all_hex, is_hex, is_hex_encoded_string_with_length, trim_hex,
}
use go_dvote.Util.Decimal.{decimal}
use go_dvote.Types.Consts.{snark_vote, encrypted_poll, petition_sign, poll_vote}
use go_dvote.Prelude.{
  at_index, ◌++◌, ◌∷◌, bytes_eq, insert, lookup, contains, [], ◌≡◌, false, refl, true, ok,
  replicate, ◌≢◌, ℕ, get_or,
}
use go_dvote.Ethereum.{
  verify_sender, signing_prefix, pub_key_from_signature, normalize_recover_id, hex_to_pub_key,
  hash_raw, hash, decompress_pub_key, addr_from_signature,
}
use go_dvote.Vochain.State.Oracles.{
  remove_first, put_oracles, add_oracle, oracles, remove_oracle, stored_oracles,
}
use go_dvote.Statedb.{tree_eq}
use go_dvote.Vochain.App.{put_header}
use go_dvote.Vochain.Transaction.NewProcess.Stored.{
  add_new_process_tx-created, new_process_tx_check-again, CreatedProcess,
}
use go_dvote.Vochain.Transaction.NewProcess.Created.{process_of_tx-KeysBalanced}
use go_dvote.Vochain.State.Processes.Keys.{KeysBalanced}
use go_dvote.Vochain.State.Oracles.Membership.{remove_oracle-add_oracle, oracles-add_oracle}
use go_dvote.Vochain.Transaction.AddTx.{add_new_process_tx}
use go_dvote.Types.{process_require_keys, Process}
use go_dvote.Prelude.Int.{pos}

oracle_added : add_oracle sample an_oracle open_chain ≡ (ok tt, oracle_chain)
unfolding add_oracle contains stored_oracles codec_of tree_get lookup put_header tree_add mem_add
    tree_eq insert set_process store_as bytes_eq header_key oracle_key
oracle_added = refl

oracle_removed : remove_oracle sample an_oracle oracle_chain ≡ (ok tt, removed_chain)
unfolding remove_oracle contains stored_oracles codec_of tree_get lookup add_oracle put_header
    tree_add mem_add tree_eq insert set_process store_as bytes_eq header_key oracle_key trim_hex
    put_oracles remove_first strings_ser
oracle_removed = refl

oracles-add_oracle_example :
    (contains (trim_hex an_oracle) (stored_oracles sample open_chain) ≡ false)
    × (oracles sample false oracle_chain
        ≡ ok (stored_oracles sample open_chain ++ trim_hex an_oracle ∷ []))
    × (oracle_chain.calls ≡ open_chain.calls)
oracles-add_oracle_example =
    oracles-add_oracle sample an_oracle open_chain oracle_chain oracle_added

remove_oracle-add_oracle_example :
    oracles sample false removed_chain ≡ ok (stored_oracles sample open_chain)
remove_oracle-add_oracle_example =
    remove_oracle-add_oracle sample an_oracle open_chain oracle_chain removed_chain oracle_added
      oracle_removed

a_process_created :
    add_new_process_tx sample a_new_process_tx true oracle_chain ≡ (ok [], created_chain)
unfolding add_new_process_tx new_process_tx_check is_hex_encoded_string_with_length trim_hex is_hex
    all_hex decode_string push_byte decode_pair from_hex_char required_oracles oracles codec_of
    tree_get lookup add_oracle contains addr_from_signature decompress_pub_key hash hash_raw
    hex_to_pub_key normalize_recover_id pub_key_from_signature signing_prefix verify_sender bytes_eq
    at_index encrypted_poll petition_sign poll_vote snark_vote process_require_keys decimal
    encode_to_string hex_char is_hex_char verify_signature_against_oracles put_oracles
    stored_oracles add_process process set_process header header_key notify oracle_key store_as
    tree_add check_oracle_signature is_process_type no_keys process_of_tx state_header put_header
    mem_add tree_eq insert strings_ser header_ser
a_process_created = refl

add_new_process_tx-created_example :
    CreatedProcess sample a_new_process_tx oracle_chain created_chain [] a_process_created
add_new_process_tx-created_example =
    add_new_process_tx-created sample a_new_process_tx oracle_chain created_chain []
      a_process_created

new_process_tx_check-again_example :
    new_process_tx_check sample a_new_process_tx created_chain
    ≢ ok (process_of_tx a_new_process_tx [])
new_process_tx_check-again_example =
    new_process_tx_check-again sample a_new_process_tx oracle_chain created_chain []
      a_process_created a_new_process_tx (process_of_tx a_new_process_tx []) refl

a_type_needs_keys : process_require_keys a_new_process_tx.process_type ≡ true
unfolding process_require_keys bytes_eq poll_vote petition_sign encrypted_poll
a_type_needs_keys = refl

abbrev a_new_process : Process
a_new_process = process_of_tx a_new_process_tx (replicate 20 2)

process_of_tx-KeysBalanced_example :
    KeysBalanced a_new_process
    × (a_new_process.key_index ≡ pos 0)
    × ((i : ℕ)
        → (get_or a_new_process.encryption_public_keys i [] ≡ [])
          × (get_or a_new_process.encryption_private_keys i [] ≡ [])
          × (get_or a_new_process.commitment_keys i [] ≡ [])
          × (get_or a_new_process.reveal_keys i [] ≡ []))
process_of_tx-KeysBalanced_example =
    process_of_tx-KeysBalanced a_new_process_tx (replicate 20 2) a_type_needs_keys
