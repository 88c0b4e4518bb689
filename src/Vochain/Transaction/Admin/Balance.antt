-- ===== src/Vochain/Transaction/Admin/Balance.antt =====
-- The balance of the keys of a process under the transactions on keys.
use go_dvote.Prelude.{Bytes, ◌≡◌, false, ok, arith}
use go_dvote.Vochain.State.Processes.Keys.{KeysBalanced}
use go_dvote.Vochain.State.Processes.Preserved.{
  with_added_keys-KeysBalanced, with_revealed_keys-KeysBalanced,
}
use go_dvote.Vochain.Transaction.Admin.KeyIndex.{add_keys_check-ok, reveal_keys_check-ok}
use go_dvote.Vochain.State.Processes.Stored.{changed, found_after}
use go_dvote.Vochain.Deps.{Deps}
use go_dvote.Types.{AdminTx, Process}
use go_dvote.Vochain.State.{ChainState, on_process_keys, on_reveal_keys}
use go_dvote.Prelude.Int.{ℤ}
use go_dvote.Util.Hex.{decode_string}
use go_dvote.Vochain.State.Processes.{process, add_process_keys, reveal_process_keys}
use go_dvote.Vochain.Transaction.Admin.{add_keys_check, reveal_keys_check}

module _ (X : Deps) (tx : AdminTx) (s s' : ChainState X) (pid : Bytes) (p : Process) (height : ℤ)
    (decoded : decode_string tx.process_id ≡ ok pid) (found : process X pid false s ≡ ok p)
    (balanced : KeysBalanced p) where
  -- AddProcessKeys after the check of AdminTxCheck keeps the balance of the keys of the process.
  pub add_process_keys-KeysBalanced :
      add_keys_check tx p height ≡ ok tt
      → add_process_keys X tx s ≡ (ok tt, s')
      → (p' : Process) × (process X pid false s' ≡ ok p') × KeysBalanced p'
  unfolding add_process_keys
  add_process_keys-KeysBalanced checked h =
      let ((i, (index, low, in_bounds, fresh, given)), _, _) =
        add_keys_check-ok tx p height balanced checked in
      let (p', written, kept) =
        with_added_keys-KeysBalanced tx p i balanced index in_bounds fresh given in
      let after =
        changed X p' pid (on_process_keys pid tx.encryption_public_key tx.commitment_key) s s'
          (ground (arith, decoded, found, written, h)) in
      (p', found_after after, kept)

  -- RevealProcessKeys after the check of AdminTxCheck keeps the balance as well.
  pub reveal_process_keys-KeysBalanced :
      reveal_keys_check X tx p height ≡ ok tt
      → reveal_process_keys X tx s ≡ (ok tt, s')
      → (p' : Process) × (process X pid false s' ≡ ok p') × KeysBalanced p'
  unfolding reveal_process_keys
  reveal_process_keys-KeysBalanced checked h =
      let ((i, (index, low, in_bounds, used, hidden, given)), _) =
        reveal_keys_check-ok X tx p height balanced checked in
      let (p', written, kept) =
        with_revealed_keys-KeysBalanced tx p i balanced index in_bounds used hidden given in
      let after =
        changed X p' pid (on_reveal_keys pid tx.encryption_private_key tx.reveal_key) s s'
          (ground (arith, decoded, found, written, h)) in
      (p', found_after after, kept)
