-- ===== src/Prelude/Errors.antt =====
-- The `error` values of the program, one constructor for each error value or message. `library`
-- stands for an error that a package outside the repository made.
pub data Error : Type 0 where
  library hex_invalid_byte hex_odd_length : Error
  -- statedb
  immutable_tree nil_value : Error
  -- vochain/state.go
  oracle_already_added oracle_not_found validator_not_found : Error
  cannot_marshal cannot_unmarshal pub_key_length process_not_found no_more_keys : Error
  wrong_process_id_size wrong_nullifier_size vote_not_found recovered_panic : Error
  -- vochain/transaction.go
  invalid_tx_type cannot_extract_type cannot_parse_tx process_does_not_exist no_state_header
        no_keys_available :
      Error
  snark_not_implemented no_key_indexes vote_already_exists vote_in_cache : Error
  cannot_extract_pub_key cannot_extract_address cannot_compute_poseidon : Error
  cannot_check_merkle_proof proof_not_valid invalid_process_type invalid_block_frame : Error
  malformed_process_id malformed_entity_id no_oracles start_block_too_low : Error
  duration_too_low unauthorized process_already_exists already_canceled : Error
  process_finalized keys_not_required process_started process_is_canceled : Error
  keys_already_revealed invalid_keys_or_index key_index_already_exists : Error
  process_not_finished key_index_does_not_exist private_key_mismatch : Error
  commitment_mismatch : Error
  -- vochain/scrutinizer
  key_not_found already_computed no_results_yet no_process_for_envelope : Error
  too_many_questions too_many_key_indexes key_index_overflow no_keys_provided : Error
  -- vochain/keykeeper
  decode_too_small missing_values index_zero keys_already_exist send_tx_failed : Error
  -- crypto/ethereum
  signature_length bad_recover_id no_private_key nacl_key_length root_size : Error
  -- census
  signature_not_provided timestamp_not_valid census_unauthorized namespace_exists : Error
  census_id_missing invalid_authentication census_not_found census_not_loaded : Error
  census_not_published storage_not_supported uri_not_supported cannot_retrieve_census : Error
  bad_census_format cannot_import_census no_claims proof_not_provided : Error
  invalid_root_hash dump_root_mismatch imported_root_mismatch : Error
  -- trie
  claim_index_too_small claim_too_big tree_root_not_found : Error
