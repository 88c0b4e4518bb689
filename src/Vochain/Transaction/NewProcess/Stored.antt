-- ===== src/Vochain/Transaction/NewProcess/Stored.antt =====
-- What AddTx stores of a new process.
use go_dvote.Prelude.{Bytes, ◌≡◌, true, ok, arith, Res-cases, inl, ◌≢◌, inr}
use go_dvote.Vochain.State.Processes.Stored.{changed, Changed, found_after}
use go_dvote.Vochain.Transaction.NewProcess.Created.{Accepted, new_process_tx_check-Accepted}
use go_dvote.Vochain.Deps.{Deps}
use go_dvote.Types.{NewProcessTx, Process}
use go_dvote.Vochain.State.{ChainState, on_process}
use go_dvote.Vochain.Transaction.AddTx.{add_new_process_tx}
use go_dvote.Vochain.State.Processes.{add_process}
use go_dvote.Vochain.Transaction.NewProcess.{new_process_tx_check}
use go_dvote.Util.Hex.{decode_string}

module _ (X : Deps) (tx : NewProcessTx) (s s' : ChainState X) (result : Bytes)
    (h : add_new_process_tx X tx true s ≡ (ok result, s')) where
  abbrev pub CreatedProcess : Type 0
  CreatedProcess =
      (p : Process) × (a : Accepted X tx s p) × Changed X p a.pid
        (on_process a.pid p.entity_id p.mk_root tx.mk_uri) s s'

  created_of : (p : Process) → new_process_tx_check X tx s ≡ ok p → CreatedProcess
  unfolding add_new_process_tx add_process
  created_of p checked =
      let a = new_process_tx_check-Accepted X tx s p checked in
      (p, a, changed X p a.pid _ s s' (ground (arith, checked, a.decoded)))

  -- A transaction for a new process that AddTx accepts in a block stores the process it describes,
  -- field by field, which was not there, which starts at the height of the header or later, and of which the
  -- listeners are told.
  pub add_new_process_tx-created : CreatedProcess
  unfolding add_new_process_tx
  add_new_process_tx-created = elim (Res-cases (new_process_tx_check X tx s)) [
    | inl (p, checked) ↦ created_of p checked
    | inr bad ↦ absurd (ground (arith, bad))
  ]

  -- Then no transaction for a process with the same id is accepted any more.
  pub new_process_tx_check-again :
      (tx' : NewProcessTx) (p' : Process)
      → decode_string tx'.process_id ≡ decode_string tx.process_id
      → new_process_tx_check X tx' s' ≢ ok p'
  new_process_tx_check-again tx' p' same checked =
      let (p, a, after) = add_new_process_tx-created in
      let a' = new_process_tx_check-Accepted X tx' s' p' checked in
      let taken = found_after after in
      let missing = a'.missing in
      let pids : a'.pid ≡ a.pid = ground (arith, a.decoded, a'.decoded, same) in
      absurd (ground (arith, rw pids at missing, taken))
