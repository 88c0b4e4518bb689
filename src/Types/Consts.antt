-- ===== src/Types/Consts.antt =====
-- types/consts.go. Go's strings are their bytes.
use go_dvote.Prelude.{ℕ, Bytes, codes}

abbrev pub process_id_size : ℕ
process_id_size = 32

abbrev pub entity_id_size : ℕ
entity_id_size = 20

abbrev pub entity_id_size_v2 : ℕ
entity_id_size_v2 = 32

abbrev pub vote_nullifier_size : ℕ
vote_nullifier_size = 32

abbrev pub max_key_index : ℕ
max_key_index = 16

-- The process types. They are shut: what matters of them is which are equal.
unfoldable pub petition_sign : Bytes
petition_sign = codes "petition-sign"

unfoldable pub poll_vote : Bytes
poll_vote = codes "poll-vote"

unfoldable pub encrypted_poll : Bytes
encrypted_poll = codes "encrypted-poll"

unfoldable pub snark_vote : Bytes
snark_vote = codes "snark-vote"

-- The transaction names.
unfoldable pub tx_vote : Bytes
tx_vote = codes "vote"

unfoldable pub tx_new_process : Bytes
tx_new_process = codes "newProcess"

unfoldable pub tx_cancel_process : Bytes
tx_cancel_process = codes "cancelProcess"

unfoldable pub tx_add_validator : Bytes
tx_add_validator = codes "addValidator"

unfoldable pub tx_remove_validator : Bytes
tx_remove_validator = codes "removeValidator"

unfoldable pub tx_add_oracle : Bytes
tx_add_oracle = codes "addOracle"

unfoldable pub tx_remove_oracle : Bytes
tx_remove_oracle = codes "removeOracle"

unfoldable pub tx_add_process_keys : Bytes
tx_add_process_keys = codes "addProcessKeys"

unfoldable pub tx_reveal_process_keys : Bytes
tx_reveal_process_keys = codes "revealProcessKeys"
