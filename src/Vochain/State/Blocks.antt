-- ===== src/Vochain/State/Blocks.antt =====
-- vochain/state.go: what ends and restarts a block.
pub mod Versions
use go_dvote.Prelude.{Bytes, Exec, ◌>>◌, ◌>>=◌, ok, modify, err, panic, false, none, some, pure}
use go_dvote.Vochain.Deps.{Deps}
use go_dvote.Vochain.State.{ChainState, notify, rollback, header, commit}

module _ (X : Deps) where
  -- Save: the hash of the new version. A failed commit panics.
  unfoldable pub save : Exec (ChainState X) Bytes
  save = do
    hash ← λ s. elim (X.db.commit s.store) [
      | ok (h, db) ↦ (ok h, record s { store = db })
      | err e ↦ (panic, s)
      | panic ↦ (panic, s)
    ]
    modify (λ s. elim (header X false s) [ none ↦ s | some h ↦ notify (commit h.height) s ])
    pure hash

  -- Rollback: the listeners first, then the trees. A failed rollback panics.
  unfoldable pub rollback_state : Exec (ChainState X) (Unit {0})
  rollback_state = do
    modify (notify rollback)
    λ s. elim (X.db.rollback s.store) [
      | ok db ↦ (ok tt, record s { store = db })
      | err e ↦ (panic, s)
      | panic ↦ (panic, s)
    ]

  -- WorkingHash
  unfoldable pub working_hash : ChainState X → Bytes
  working_hash s = X.db.hash s.store
