-- ===== src/Vochain/Transaction/AddTx.antt =====
-- vochain/transaction.go: AddTx.
use go_dvote.Prelude.{
  Bytes, ℕ, Exec, Bool, if◌then◌else◌, ◌>>◌, ◌>>=◌, gets_res, bytes_eq, lift, pure, [],
}
use go_dvote.Vochain.Deps.{Deps}
use go_dvote.Types.{
  AdminTx, CancelProcessTx, NewProcessTx, VoteTx, GenericTx, vote_tx, admin_tx, cancel_process_tx,
  new_process_tx,
}
use go_dvote.Vochain.State.{ChainState}
use go_dvote.Vochain.Transaction.Vote.{vote_tx_check}
use go_dvote.Vochain.State.Votes.{add_vote}
use go_dvote.Types.Consts.{
  tx_add_oracle, tx_remove_oracle, tx_add_validator, tx_remove_validator, tx_add_process_keys,
  tx_reveal_process_keys,
}
use go_dvote.Vochain.Transaction.Admin.{admin_tx_check}
use go_dvote.Vochain.Transaction.CancelProcess.{cancel_process_tx_check}
use go_dvote.Vochain.Transaction.NewProcess.{new_process_tx_check}
use go_dvote.Vochain.State.Oracles.{add_oracle, remove_oracle}
use go_dvote.Util.Hex.{decode_string, trim_hex}
use go_dvote.Vochain.State.Processes.{
  add_process, cancel_process, add_process_keys, reveal_process_keys,
}
use go_dvote.Vochain.State.Validators.{
  hex_pub_key_to_tendermint_ed25519, add_validator, remove_validator,
}

module _ (X : Deps) where
  unfoldable pub add_vote_tx : ℕ → VoteTx → Bool → Exec (ChainState X) Bytes
  add_vote_tx now tx commit = do
    v ← vote_tx_check X now tx commit
    if commit then add_vote X v else pure tt
    pure v.nullifier

  -- The operation of an administrative transaction. Any other name does nothing.
  unfoldable pub run_admin_tx : AdminTx → Exec (ChainState X) (Unit {0})
  run_admin_tx tx =
      if bytes_eq tx.type tx_add_oracle
      then add_oracle X tx.address
      else if bytes_eq tx.type tx_remove_oracle
      then remove_oracle X tx.address
      else if bytes_eq tx.type tx_add_validator
      then (do
        pk ← lift (hex_pub_key_to_tendermint_ed25519 tx.pub_key)
        add_validator X pk tx.power)
      else if bytes_eq tx.type tx_remove_validator
      then remove_validator X tx.address
      else if bytes_eq tx.type tx_add_process_keys
      then add_process_keys X tx
      else if bytes_eq tx.type tx_reveal_process_keys
      then reveal_process_keys X tx
      else pure tt

  unfoldable pub add_admin_tx : AdminTx → Bool → Exec (ChainState X) Bytes
  add_admin_tx tx commit = do
    gets_res (admin_tx_check X tx)
    if commit then run_admin_tx tx else pure tt
    pure []

  unfoldable pub add_cancel_process_tx : CancelProcessTx → Bool → Exec (ChainState X) Bytes
  add_cancel_process_tx tx commit = do
    gets_res (cancel_process_tx_check X tx)
    if commit
        then (do pid ← lift (decode_string (trim_hex tx.process_id)); cancel_process X pid)
        else pure tt
    pure []

  unfoldable pub add_new_process_tx : NewProcessTx → Bool → Exec (ChainState X) Bytes
  add_new_process_tx tx commit = do
    p ← gets_res (new_process_tx_check X tx)
    if commit
        then (do pid ← lift (decode_string tx.process_id); add_process X p pid tx.mk_uri)
        else pure tt
    pure []

  -- AddTx at time `now`
  unfoldable pub add_tx : ℕ → GenericTx → Bool → Exec (ChainState X) Bytes
  add_tx now (vote_tx tx) commit = add_vote_tx now tx commit
  add_tx now (admin_tx tx) commit = add_admin_tx tx commit
  add_tx now (cancel_process_tx tx) commit = add_cancel_process_tx tx commit
  add_tx now (new_process_tx tx) commit = add_new_process_tx tx commit
