-- ===== src/Vochain/Examples/Keys.antt =====
-- The keys of the encrypted poll of the setting.
use go_dvote.Vochain.Transaction.Admin.KeyIndex.{
  RevealedAt, reveal_keys_check-ok, add_keys_check-ok, add_keys_check-out, AddedAt,
}
use go_dvote.Sample.{process_ser, header_ser, strings_ser, mem_add, codec_of, sample}
use go_dvote.Prelude.{
  insert, set_index, contains, lookup, at_index, bytes_eq, Bytes, [], ◌∷◌, ℕ, ◌≡◌, false, refl,
  true, ok, panic, arith, replicate, value_or, inl, ap, codes, sym, ◌∙◌, subst, ◌&&◌, not,
}
use go_dvote.Statedb.{tree_eq}
use go_dvote.Vochain.App.{put_header}
use go_dvote.Vochain.State.Processes.{
  with_revealed_keys, set_key, set_process, add_process, add_process_keys, process,
  reveal_process_keys, with_added_keys,
}
use go_dvote.Prelude.Int.{◌-ℤ◌, ◌+ℤ◌, sub64, wrap64, add64, pos, ◌≤ℤ◌, ltb_ℤ}
use go_dvote.Vochain.Transaction.Admin.{
  matches_key, check_reveal_key, check_private_key, check_reveal_process_keys, or_else,
  bad_key_index, check_add_process_keys, key_is_set, either_key_is_set, add_keys_check,
  reveal_keys_check,
}
use go_dvote.Nacl.{decode_private, decode_key}
use go_dvote.Vochain.Transaction.NewProcess.{
  state_header, no_keys, is_process_type, check_oracle_signature, required_oracles,
  new_process_tx_check, process_of_tx,
}
use go_dvote.Vochain.State.{tree_add, store_as, oracle_key, notify, header_key, header, tree_get}
use go_dvote.Vochain.State.Oracles.{stored_oracles, put_oracles, add_oracle, oracles}
use go_dvote.Vochain.Apputils.{verify_signature_against_oracles}
use go_dvote.Util.Hex.{
  is_hex_char, hex_char, all_hex, is_hex, trim_hex, is_hex_encoded_string_with_length,
  from_hex_char, decode_pair, push_byte, decode_string, encode_to_string,
}
use go_dvote.Util.Decimal.{decimal}
use go_dvote.Types.Consts.{snark_vote, encrypted_poll, petition_sign, poll_vote}
use go_dvote.Ethereum.{
  verify_sender, signing_prefix, pub_key_from_signature, normalize_recover_id, hex_to_pub_key,
  hash_raw, hash, decompress_pub_key, addr_from_signature,
}
use go_dvote.Vochain.Transaction.AddTx.{add_new_process_tx}
use go_dvote.Vochain.Examples.Setting.{a_new_process_tx, created_chain, Chain}
use go_dvote.Vochain.Transaction.NewProcess.Created.{process_of_tx-KeysBalanced}
use go_dvote.Vochain.State.Processes.Keys.{KeysBalanced}
use go_dvote.Vochain.Transaction.Admin.Balance.{
  add_process_keys-KeysBalanced, reveal_process_keys-KeysBalanced,
}
use go_dvote.Types.{AdminTx, Process, process_require_keys}

abbrev pub keys_pid : Bytes
keys_pid = replicate 32 6

abbrev pub keys_process : Process
keys_process = process_of_tx a_new_process_tx (replicate 20 2)

abbrev keys_tx : AdminTx
keys_tx = record {
  address = [];
  commitment_key = encode_to_string (171 ∷ replicate 31 0);
  encryption_private_key = [];
  encryption_public_key = codes "aa";
  key_index = pos 1;
  nonce = [];
  power = pos 0;
  process_id = a_new_process_tx.process_id;
  pub_key = [];
  reveal_key = codes "ab";
  signature = [];
  type = codes "addProcessKeys";
  signed_bytes = [];
}

needs_keys : process_require_keys a_new_process_tx.process_type ≡ true
unfolding process_require_keys bytes_eq poll_vote petition_sign encrypted_poll
needs_keys = refl

pub keys_process-KeysBalanced : KeysBalanced keys_process
keys_process-KeysBalanced =
    (process_of_tx-KeysBalanced a_new_process_tx (replicate 20 2) needs_keys).0

keys_tx_accepted : add_keys_check keys_tx keys_process (pos 5) ≡ ok tt
unfolding add_keys_check process_of_tx either_key_is_set key_is_set at_index process_require_keys
    bytes_eq poll_vote petition_sign encrypted_poll check_add_process_keys encode_to_string
    bad_key_index or_else
keys_tx_accepted = refl

add_keys_check-ok_example :
    ((i : ℕ) × AddedAt keys_tx keys_process (pos 5) keys_process-KeysBalanced i)
    × (pos 5 ≤ℤ keys_process.start_block)
    × (keys_process.canceled ≡ false)
add_keys_check-ok_example =
    add_keys_check-ok keys_tx keys_process (pos 5) keys_process-KeysBalanced keys_tx_accepted

-- The largest index that the bounds of the check let pass.
abbrev index_16_tx : AdminTx
index_16_tx = record keys_tx { key_index = pos 16 }

starts_later : pos 5 ≤ℤ keys_process.start_block
unfolding process_of_tx
starts_later = omega arith

goes_on : keys_process.canceled ≡ false
unfolding process_of_tx
goes_on = refl

add_keys_check-out_example : add_keys_check index_16_tx keys_process (pos 5) ≡ panic
add_keys_check-out_example =
    add_keys_check-out index_16_tx keys_process (pos 5) keys_process-KeysBalanced starts_later
      goes_on 16 (inl (refl, omega arith))

keys_pid_decoded : decode_string keys_tx.process_id ≡ ok keys_pid
unfolding decode_string push_byte decode_pair from_hex_char
keys_pid_decoded = refl

keys_process_found : process sample keys_pid false created_chain ≡ ok keys_process
unfolding process tree_get lookup add_new_process_tx new_process_tx_check
    is_hex_encoded_string_with_length trim_hex is_hex all_hex decode_string push_byte decode_pair
    from_hex_char required_oracles oracles codec_of add_oracle addr_from_signature
    decompress_pub_key hash hash_raw hex_to_pub_key normalize_recover_id pub_key_from_signature
    signing_prefix verify_sender bytes_eq contains at_index encrypted_poll petition_sign poll_vote
    snark_vote process_require_keys decimal encode_to_string hex_char is_hex_char
    verify_signature_against_oracles put_oracles stored_oracles add_process set_process header
    header_key notify oracle_key store_as tree_add check_oracle_signature is_process_type no_keys
    process_of_tx state_header put_header mem_add tree_eq insert strings_ser header_ser process_ser
keys_process_found = refl

abbrev keys_chain : Chain
keys_chain = (add_process_keys sample keys_tx created_chain).1

keys_added : add_process_keys sample keys_tx created_chain ≡ (ok tt, keys_chain)
unfolding add_process_keys decode_string push_byte decode_pair from_hex_char process tree_get lookup
    add_new_process_tx new_process_tx_check is_hex_encoded_string_with_length trim_hex is_hex
    all_hex required_oracles oracles codec_of addr_from_signature decompress_pub_key hash hash_raw
    hex_to_pub_key normalize_recover_id pub_key_from_signature signing_prefix verify_sender bytes_eq
    contains add64 wrap64 ◌+ℤ◌ at_index set_index encrypted_poll petition_sign poll_vote snark_vote
    process_require_keys decimal encode_to_string hex_char is_hex_char
    verify_signature_against_oracles add_process set_key set_process with_added_keys header
    header_key notify oracle_key store_as tree_add check_oracle_signature is_process_type no_keys
    process_of_tx state_header add_oracle stored_oracles put_header mem_add tree_eq insert
    strings_ser header_ser process_ser
keys_added = refl

add_process_keys-KeysBalanced_example :
    (p' : Process) × (process sample keys_pid false keys_chain ≡ ok p') × KeysBalanced p'
add_process_keys-KeysBalanced_example =
    add_process_keys-KeysBalanced sample keys_tx created_chain keys_chain keys_pid keys_process
      (pos 5) keys_pid_decoded keys_process_found keys_process-KeysBalanced keys_tx_accepted
      keys_added

abbrev added_process : Process
added_process = value_or (with_added_keys keys_tx keys_process) keys_process

added_process_found : process sample keys_pid false keys_chain ≡ ok added_process
unfolding process tree_get lookup add_process_keys decode_string push_byte decode_pair from_hex_char
    add_new_process_tx new_process_tx_check is_hex_encoded_string_with_length trim_hex is_hex
    all_hex required_oracles oracles codec_of addr_from_signature decompress_pub_key hash hash_raw
    hex_to_pub_key normalize_recover_id pub_key_from_signature signing_prefix verify_sender bytes_eq
    contains add64 wrap64 ◌+ℤ◌ at_index set_index encrypted_poll petition_sign poll_vote snark_vote
    process_require_keys decimal encode_to_string hex_char is_hex_char
    verify_signature_against_oracles add_process set_key set_process with_added_keys header
    header_key notify oracle_key store_as tree_add check_oracle_signature is_process_type no_keys
    process_of_tx state_header add_oracle stored_oracles put_header mem_add tree_eq insert
    strings_ser header_ser process_ser
added_process_found = refl

added_process-KeysBalanced : KeysBalanced added_process
added_process-KeysBalanced =
    let (p', found, balanced) =
      add_process_keys-KeysBalanced sample keys_tx created_chain keys_chain keys_pid keys_process
        (pos 5) keys_pid_decoded keys_process_found keys_process-KeysBalanced keys_tx_accepted
        keys_added in
    let same : p' ≡ added_process =
      value_of_ok p' added_process keys_process (sym found ∙ added_process_found) in
    subst (λ p. KeysBalanced p) same balanced
  where
    value_of_ok : (p q d : Process) → ok p ≡ ok q → p ≡ q
    value_of_ok p q d e = ap (λ r. value_or r d) e

reveal_accepted : reveal_keys_check sample keys_tx added_process (pos 20) ≡ ok tt
unfolding reveal_keys_check add64 wrap64 ◌+ℤ◌ with_added_keys encode_to_string set_index
    process_of_tx process_require_keys bytes_eq poll_vote petition_sign encrypted_poll
    either_key_is_set key_is_set at_index check_reveal_process_keys decode_key decode_private
    snark_vote decode_pair decode_string from_hex_char hex_char push_byte set_key bad_key_index
    check_private_key check_reveal_key matches_key or_else no_keys
reveal_accepted = refl

abbrev revealed_chain : Chain
revealed_chain = (reveal_process_keys sample keys_tx keys_chain).1

keys_revealed : reveal_process_keys sample keys_tx keys_chain ≡ (ok tt, revealed_chain)
unfolding reveal_process_keys decode_string push_byte decode_pair from_hex_char process tree_get
    lookup add_process_keys add_new_process_tx new_process_tx_check
    is_hex_encoded_string_with_length trim_hex is_hex all_hex required_oracles oracles
    addr_from_signature decompress_pub_key hash hash_raw hex_to_pub_key normalize_recover_id
    pub_key_from_signature signing_prefix verify_sender bytes_eq contains add64 sub64 wrap64 ◌+ℤ◌
    ◌-ℤ◌ at_index set_index encrypted_poll petition_sign poll_vote snark_vote process_require_keys
    decimal encode_to_string hex_char is_hex_char verify_signature_against_oracles add_process
    set_key set_process with_added_keys with_revealed_keys header header_key notify oracle_key
    store_as tree_add check_oracle_signature is_process_type no_keys process_of_tx state_header
    codec_of add_oracle stored_oracles put_header mem_add tree_eq insert strings_ser header_ser
    process_ser
keys_revealed = refl

reveal_process_keys-KeysBalanced_example :
    (p' : Process) × (process sample keys_pid false revealed_chain ≡ ok p') × KeysBalanced p'
reveal_process_keys-KeysBalanced_example =
    reveal_process_keys-KeysBalanced sample keys_tx keys_chain revealed_chain keys_pid added_process
      (pos 20) keys_pid_decoded added_process_found added_process-KeysBalanced reveal_accepted
      keys_revealed

reveal_keys_check-ok_example :
    ((i : ℕ) × RevealedAt sample keys_tx added_process (pos 20) added_process-KeysBalanced i)
    × ((ltb_ℤ (pos 20) (add64 added_process.start_block added_process.number_of_blocks)
          && not added_process.canceled)
        ≡ false)
reveal_keys_check-ok_example =
    reveal_keys_check-ok sample keys_tx added_process (pos 20) added_process-KeysBalanced
      reveal_accepted
