-- ===== src/Vochain/Transaction/NewProcess.antt =====
-- vochain/transaction.go: NewProcessTxCheck.
pub mod Created
pub mod Stored
use go_dvote.Prelude.Fallible.{◌>>=◌, ◌>>◌, reject_if}
use go_dvote.Prelude.{
  Bytes, List, replicate, Res, Bool, if◌then◌else◌, bytes_eq, not, no_oracles, unauthorized, false,
  [], ◌||◌, none, ok, err, length, malformed_process_id, no_state_header, ◌==◌, ◌&&◌, some,
  malformed_entity_id, start_block_too_low, duration_too_low, is_ok, process_already_exists,
  invalid_process_type, panic,
}
use go_dvote.Types.{NewProcessTx, Process, Header, process_require_keys}
use go_dvote.Vochain.Deps.{Deps}
use go_dvote.Vochain.State.{ChainState, header}
use go_dvote.Types.Consts.{
  max_key_index, snark_vote, process_id_size, poll_vote, petition_sign, entity_id_size,
  encrypted_poll, entity_id_size_v2,
}
use go_dvote.Vochain.State.Oracles.{oracles}
use go_dvote.Vochain.Apputils.{verify_signature_against_oracles}
use go_dvote.Util.Hex.{is_hex_encoded_string_with_length, decode_string}
use go_dvote.Prelude.Int.{pos, ltb_ℤ, leb_ℤ}
use go_dvote.Vochain.State.Processes.{process}

-- `make([]string, types.MaxKeyIndex)`: empty strings.
unfoldable pub no_keys : List Bytes
no_keys = replicate max_key_index []

-- The process of a transaction. One that needs keys gets its four lists of keys.
unfoldable pub process_of_tx : NewProcessTx → Bytes → Process
unfolding no_keys
process_of_tx tx eid =
    let keys = if process_require_keys tx.process_type then no_keys else [] in
    record {
      canceled = false;
      commitment_keys = keys;
      encryption_private_keys = keys;
      encryption_public_keys = keys;
      entity_id = eid;
      key_index = pos 0;
      mk_root = tx.mk_root;
      number_of_blocks = tx.number_of_blocks;
      paused = false;
      reveal_keys = keys;
      start_block = tx.start_block;
      type = tx.process_type;
    }

-- `case types.SnarkVote, types.PollVote, types.PetitionSign, types.EncryptedPoll`
unfoldable pub is_process_type : Bytes → Bool
is_process_type t =
    bytes_eq t snark_vote
    || (bytes_eq t poll_vote || (bytes_eq t petition_sign || bytes_eq t encrypted_poll))

module _ (X : Deps) where
  -- The oracles, or an error where there are none.
  unfoldable pub required_oracles : ChainState X → Res (List Bytes)
  required_oracles s = elim (oracles X false s) [
    | ok l ↦ (if length l == 0 then err no_oracles else ok l)
    | err e ↦ err no_oracles
    | panic ↦ panic
  ]

  -- The signature is checked to be that of an oracle.
  unfoldable pub check_oracle_signature : List Bytes → Bytes → Bytes → Res (Unit {0})
  check_oracle_signature authorized message signature = do
    r ← verify_signature_against_oracles X authorized message signature
    reject_if (not r.0) unauthorized

  unfoldable pub state_header : ChainState X → Res Header
  state_header s = elim (header X false s) [ none ↦ err no_state_header | some h ↦ ok h ]

  -- NewProcessTxCheck
  unfoldable pub new_process_tx_check : NewProcessTx → ChainState X → Res Process
  new_process_tx_check tx s = do
    reject_if (not (is_hex_encoded_string_with_length tx.process_id process_id_size))
        malformed_process_id
    reject_if
        (not (is_hex_encoded_string_with_length tx.entity_id entity_id_size)
          && not (is_hex_encoded_string_with_length tx.entity_id entity_id_size_v2))
        malformed_entity_id
    pid ← decode_string tx.process_id
    eid ← decode_string tx.entity_id
    authorized ← required_oracles s
    h ← state_header s
    reject_if (ltb_ℤ tx.start_block h.height) start_block_too_low
    reject_if (leb_ℤ tx.number_of_blocks (pos 0)) duration_too_low
    check_oracle_signature authorized tx.signed_bytes tx.signature
    reject_if (is_ok (process X pid false s)) process_already_exists
    reject_if (not (is_process_type tx.process_type)) invalid_process_type
    ok (process_of_tx tx eid)
