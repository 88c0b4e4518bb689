-- ===== src/Vochain/App/CheckTx.antt =====
-- vochain/app.go: what CheckTx writes.
use go_dvote.Prelude.{Bytes, ℕ, ◌≡◌, false, refl, Bool, true, Res-cases, arith, inl, inr}
use go_dvote.Vochain.Transaction.Vote.Acceptance.{SameChain, vote_tx_check-SameChain}
use go_dvote.Vochain.State.{State, ChainState}
use go_dvote.Vochain.Deps.{Deps}
use go_dvote.Vochain.Transaction.AddTx.{
  add_admin_tx, add_cancel_process_tx, add_new_process_tx, add_tx, add_vote_tx,
}
use go_dvote.Vochain.App.{check_tx}
use go_dvote.Types.{
  AdminTx, CancelProcessTx, GenericTx, NewProcessTx, VoteTx, vote_tx, admin_tx, cancel_process_tx,
  new_process_tx,
}
use go_dvote.Vochain.Transaction.Unmarshal.{unmarshal_tx}

SameChain-refl : {Db : Type 0} (s : State Db) → SameChain s s
SameChain-refl s = record { same_store = refl; same_listeners = refl; same_calls = refl }

module _ (X : Deps) (now : ℕ) (s : ChainState X) where
  add_vote_tx-SameChain : (tx : VoteTx) → SameChain s (add_vote_tx X now tx false s).1
  unfolding add_vote_tx
  add_vote_tx-SameChain tx =
      let kept = vote_tx_check-SameChain X now tx false s in ground (arith, kept)

  add_admin_tx-same : (tx : AdminTx) → (add_admin_tx X tx false s).1 ≡ s
  unfolding add_admin_tx
  add_admin_tx-same tx = ground arith

  add_cancel_process_tx-same : (tx : CancelProcessTx) → (add_cancel_process_tx X tx false s).1 ≡ s
  unfolding add_cancel_process_tx
  add_cancel_process_tx-same tx = ground arith

  add_new_process_tx-same : (tx : NewProcessTx) → (add_new_process_tx X tx false s).1 ≡ s
  unfolding add_new_process_tx
  add_new_process_tx-same tx = ground arith

  add_tx-SameChain : (tx : GenericTx) → SameChain s (add_tx X now tx false s).1
  unfolding add_tx
  add_tx-SameChain (vote_tx tx) = add_vote_tx-SameChain tx
  add_tx-SameChain (admin_tx tx) = rw (add_admin_tx-same tx) (SameChain-refl s)
  add_tx-SameChain (cancel_process_tx tx) = rw (add_cancel_process_tx-same tx) (SameChain-refl s)
  add_tx-SameChain (new_process_tx tx) = rw (add_new_process_tx-same tx) (SameChain-refl s)

  -- Whatever bytes CheckTx is given, the trees, the listeners and the calls to the listeners stay
  -- as they are: only the vote cache may change.
  pub check_tx-SameChain :
      (recheck : Bool) (content : Bytes) → SameChain s (check_tx X now recheck content s).1
  unfolding check_tx
  check_tx-SameChain true content = SameChain-refl s
  check_tx-SameChain false content = elim (Res-cases (unmarshal_tx X.json content)) [
    | inl (tx, e) ↦ let kept = add_tx-SameChain tx in rw e kept
    | inr (inl (x, e)) ↦ rw e (SameChain-refl s)
    | inr (inr e) ↦ rw e (SameChain-refl s)
  ]
