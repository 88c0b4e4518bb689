-- ===== src/Vochain/Transaction/CancelProcess.antt =====
-- vochain/transaction.go: CancelProcessTxCheck.
use go_dvote.Prelude.Fallible.{◌>>=◌, ◌>>◌, reject_if}
use go_dvote.Vochain.Deps.{Deps}
use go_dvote.Vochain.State.{ChainState, header}
use go_dvote.Types.{CancelProcessTx}
use go_dvote.Prelude.Int.{ℤ, pos, ltb_ℤ, add64}
use go_dvote.Prelude.{
  Res, not, false, none, malformed_process_id, some, already_canceled, process_finalized,
}
use go_dvote.Util.Hex.{is_hex_encoded_string_with_length, decode_string}
use go_dvote.Types.Consts.{process_id_size}
use go_dvote.Vochain.Transaction.NewProcess.{required_oracles, check_oracle_signature}
use go_dvote.Vochain.State.Processes.{process}

module _ (X : Deps) where
  -- The height of the header, or 0 where there is none.
  unfoldable pub height_or_zero : ChainState X → ℤ
  height_or_zero s = elim (header X false s) [ none ↦ pos 0 | some h ↦ h.height ]

  -- CancelProcessTxCheck. Its error for a missing process carries that of `Process`.
  unfoldable pub cancel_process_tx_check : CancelProcessTx → ChainState X → Res (Unit {0})
  cancel_process_tx_check tx s = do
    reject_if (not (is_hex_encoded_string_with_length tx.process_id process_id_size))
        malformed_process_id
    pid ← decode_string tx.process_id
    authorized ← required_oracles X s
    check_oracle_signature X authorized tx.signed_bytes tx.signature
    p ← process X pid false s
    reject_if p.canceled already_canceled
    reject_if (ltb_ℤ (add64 p.start_block p.number_of_blocks) (height_or_zero s)) process_finalized
