-- ===== src/Vochain/State/Processes/Cancel.antt =====
-- vochain/state.go: what CancelProcess stores.
use go_dvote.Prelude.{
  Bytes, ◌≡◌, false, refl, true, ok, Res-cases, Bool-cases, inl, arith, inr, if◌then◌else◌, ◌∙◌, ap,
}
use go_dvote.Vochain.Deps.{Deps}
use go_dvote.Vochain.State.{ChainState, header, notify, on_cancel}
use go_dvote.Types.{Process}
use go_dvote.Vochain.State.Processes.{cancel_process, store_canceled, process}
use go_dvote.Vochain.State.Processes.Stored.{changed, found_after}

module _ (X : Deps) (pid : Bytes) (s : ChainState X) where
  -- The process after CancelProcess; the listeners are told unless it was canceled before.
  abbrev pub CancelOutcome : ChainState X → Type 0
  CancelOutcome s' =
      (p : Process) × (process X pid false s ≡ ok p)
      × (process X pid false s' ≡ ok (record p { canceled = true }))
      × (header X false s' ≡ header X false s)
      × (s'.calls ≡ (if p.canceled then s.calls else (notify (on_cancel pid) s).calls))

  CancelOutcome-of :
      (p : Process) (s' : ChainState X)
      → process X pid false s ≡ ok p
      → cancel_process X pid s ≡ (ok tt, s')
      → CancelOutcome s'
  unfolding cancel_process store_canceled
  CancelOutcome-of p s' found h = elim (Bool-cases p.canceled) [
    | inl done ↦
        let same : s ≡ s' = ground (arith, found, done) in
        let as_is : p ≡ record p { canceled = true } = ground (arith, done) in
        rw (← same) (p, found, found ∙ ap (λ q. ok q) as_is, refl, rw done refl)
    | inr open_still ↦
        let after =
          changed X (record p { canceled = true }) pid (on_cancel pid) s s'
            (ground (arith, found, open_still)) in
        (p, found, found_after after, after.same_header, rw open_still after.notified)
  ]

  -- CancelProcess that succeeds found a process; afterwards it is the same process, canceled, the
  -- header is as before, and the listeners were told once, unless it was canceled already.
  pub cancel_process-outcome :
      (s' : ChainState X) → cancel_process X pid s ≡ (ok tt, s') → CancelOutcome s'
  unfolding cancel_process
  cancel_process-outcome s' h = elim (Res-cases (process X pid false s)) [
    | inl (p, found) ↦ CancelOutcome-of p s' found h
    | inr (inl (x, e)) ↦ absurd (ground (arith, e))
    | inr (inr e) ↦ absurd (ground (arith, e))
  ]
