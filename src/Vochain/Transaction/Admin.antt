-- ===== src/Vochain/Transaction/Admin.antt =====
-- vochain/transaction.go: AdminTxCheck and the checks of keys.
pub mod KeyIndex
pub mod Balance
use go_dvote.Prelude.Fallible.{◌>>=◌, ◌>>◌, reject_if}
use go_dvote.Prelude.{
  Bytes, List, Res, Error, Bool, bind_res, if◌then◌else◌, at_index, not, ok, process_started,
  bytes_eq, is_set, ◌||◌, true, process_is_canceled, commitment_mismatch, invalid_keys_or_index,
  ◌&&◌, false, keys_already_revealed, key_index_already_exists, process_not_finished,
  key_index_does_not_exist, private_key_mismatch, keys_not_required,
}
use go_dvote.Prelude.Int.{ℤ, ltb_ℤ, pos, add64}
use go_dvote.Types.{AdminTx, Process, require_keys}
use go_dvote.Vochain.Deps.{Deps}
use go_dvote.Vochain.State.{ChainState}
use go_dvote.Util.Hex.{decode_string, encode_to_string}
use go_dvote.Vochain.Transaction.NewProcess.{required_oracles, check_oracle_signature, state_header}
use go_dvote.Types.Consts.{max_key_index, tx_add_process_keys, tx_reveal_process_keys}
use go_dvote.Nacl.{decode_private}
use go_dvote.Vochain.State.Processes.{process}

-- `len(x[i]) > 0`, which panics out of bounds.
unfoldable pub key_is_set : List Bytes → ℤ → Res Bool
key_is_set keys i = bind_res (at_index keys i) λ k. ok (is_set k)

-- `len(x[i])+len(y[i]) > 0`
unfoldable pub either_key_is_set : List Bytes → List Bytes → ℤ → Res Bool
either_key_is_set xs ys i = do a ← key_is_set xs i; b ← key_is_set ys i; ok (a || b)

-- `a || b` on tests that may panic: the second is made only if the first fails.
unfoldable pub or_else : Res Bool → Res Bool → Res Bool
or_else a b = bind_res a λ x. elim x [ true ↦ ok true | false ↦ b ]

-- The bounds that the two checks put on a key index.
unfoldable pub bad_key_index : ℤ → Bool
bad_key_index i = ltb_ℤ i (pos 1) || ltb_ℤ (pos max_key_index) i

-- checkAddProcessKeys
unfoldable pub check_add_process_keys : AdminTx → Process → Res (Unit {0})
check_add_process_keys tx p = do
  reject_if
      (not (is_set tx.commitment_key || is_set tx.encryption_public_key)
        || bad_key_index tx.key_index)
      invalid_keys_or_index
  used ←
      or_else (key_is_set p.encryption_public_keys tx.key_index)
        (key_is_set p.commitment_keys tx.key_index)
  reject_if used key_index_already_exists

-- The check of a transaction that adds keys.
unfoldable pub add_keys_check : AdminTx → Process → ℤ → Res (Unit {0})
add_keys_check tx p height = do
  reject_if (ltb_ℤ p.start_block height) process_started
  reject_if p.canceled process_is_canceled
  used ← either_key_is_set p.encryption_public_keys p.commitment_keys tx.key_index
  reject_if used keys_already_revealed
  check_add_process_keys tx p

-- The stored string is the lower-case hexadecimal form of the bytes.
unfoldable pub matches_key : Bytes → List Bytes → ℤ → Error → Res (Unit {0})
matches_key bytes keys i e = do
  stored ← at_index keys i
  reject_if (not (bytes_eq (encode_to_string bytes) stored)) e

module _ (X : Deps) where
  unfoldable pub check_private_key : AdminTx → Process → Res (Unit {0})
  check_private_key tx p =
      if is_set tx.encryption_private_key
      then (do
        key ← decode_private X.x25519_base tx.encryption_private_key
        matches_key key.1 p.encryption_public_keys tx.key_index private_key_mismatch)
      else ok tt

  unfoldable pub check_reveal_key : AdminTx → Process → Res (Unit {0})
  check_reveal_key tx p =
      if is_set tx.reveal_key
      then (do
        rb ← decode_string tx.reveal_key
        matches_key (X.poseidon rb) p.commitment_keys tx.key_index commitment_mismatch)
      else ok tt

  -- checkRevealProcessKeys
  unfoldable pub check_reveal_process_keys : AdminTx → Process → Res (Unit {0})
  check_reveal_process_keys tx p = do
    reject_if
        (not (is_set tx.reveal_key || is_set tx.encryption_private_key)
          || bad_key_index tx.key_index)
        invalid_keys_or_index
    missing ←
        or_else (bind_res (key_is_set p.encryption_public_keys tx.key_index) λ b. ok (not b))
          (bind_res (key_is_set p.commitment_keys tx.key_index) λ b. ok (not b))
    reject_if missing key_index_does_not_exist
    check_private_key tx p
    check_reveal_key tx p

  -- The check of a transaction that reveals keys.
  unfoldable pub reveal_keys_check : AdminTx → Process → ℤ → Res (Unit {0})
  reveal_keys_check tx p height = do
    reject_if (ltb_ℤ height (add64 p.start_block p.number_of_blocks) && not p.canceled)
        process_not_finished
    revealed ← either_key_is_set p.encryption_private_keys p.reveal_keys tx.key_index
    reject_if revealed keys_already_revealed
    check_reveal_process_keys tx p

  -- The case of the two transactions on keys.
  unfoldable pub keys_tx_check : AdminTx → ChainState X → Res (Unit {0})
  keys_tx_check tx s = do
    pid ← decode_string tx.process_id
    p ← process X pid false s
    reject_if (not (require_keys p)) keys_not_required
    h ← state_header X s
    if bytes_eq tx.type tx_add_process_keys then add_keys_check tx p h.height else ok tt
    if bytes_eq tx.type tx_reveal_process_keys then reveal_keys_check tx p h.height else ok tt

  -- AdminTxCheck
  unfoldable pub admin_tx_check : AdminTx → ChainState X → Res (Unit {0})
  admin_tx_check tx s = do
    authorized ← required_oracles X s
    check_oracle_signature X authorized tx.signed_bytes tx.signature
    if bytes_eq tx.type tx_add_process_keys || bytes_eq tx.type tx_reveal_process_keys
        then keys_tx_check tx s
        else ok tt
