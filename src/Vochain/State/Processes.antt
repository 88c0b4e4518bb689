-- ===== src/Vochain/State/Processes.antt =====
-- vochain/state.go: the processes, one under each process id of the process tree.
pub mod Cancel
pub mod Keys
pub mod Preserved
pub mod Stored
use go_dvote.Prelude.{
  Bytes, List, Bool, false, true, Exec, Res, ℕ, if◌then◌else◌, ◌>>=◌, none, ◌>>◌, set_index, gets,
  err, gets_res, lift, modify, or_error, process_not_found, ok, not, fail_if, cannot_unmarshal,
  pure, some, no_more_keys, is_set, bind_res,
}
use go_dvote.Vochain.Deps.{Deps}
use go_dvote.Vochain.State.{
  ChainState, tree_get, TreeName, notify, on_process, on_process_keys, on_reveal_keys, on_cancel,
  store_as,
}
use go_dvote.Types.{AdminTx, Process}
use go_dvote.Prelude.Int.{ℤ, add64, ltb_ℤ, pos, sub64}
use go_dvote.Util.Hex.{decode_string}

-- `keys[i] = key`, if a key is given
unfoldable pub set_key : List Bytes → ℤ → Bytes → Res (List Bytes)
set_key keys i key = if is_set key then set_index keys i key else ok keys

-- The process after AddProcessKeys has written the keys of a transaction into it.
unfoldable pub with_added_keys : AdminTx → Process → Res Process
unfolding set_key
with_added_keys tx p =
    bind_res (set_key p.commitment_keys tx.key_index tx.commitment_key) λ commitments.
      bind_res (set_key p.encryption_public_keys tx.key_index tx.encryption_public_key) λ publics.
        ok (record p {
          commitment_keys = commitments;
          encryption_public_keys = publics;
          key_index = add64 p.key_index (pos 1);
        })

-- The process after RevealProcessKeys has written the keys of a transaction into it.
unfoldable pub with_revealed_keys : AdminTx → Process → Res Process
unfolding set_key
with_revealed_keys tx p = bind_res (set_key p.reveal_keys tx.key_index tx.reveal_key) λ reveals.
    bind_res (set_key p.encryption_private_keys tx.key_index tx.encryption_private_key) λ privates.
      if ltb_ℤ p.key_index (pos 1)
      then err no_more_keys
      else ok (record p {
        reveal_keys = reveals;
        encryption_private_keys = privates;
        key_index = sub64 p.key_index (pos 1);
      })

module _ (X : Deps) where
  -- Process. A slice that decodes gives a process, never a nil pointer.
  unfoldable pub process : Bytes → Bool → ChainState X → Res Process
  process pid is_query s = elim (tree_get X TreeName.process_tree is_query pid s) [
    | none ↦ err process_not_found
    | some bytes ↦ or_error (X.process_codec.unmarshal (some bytes)) cannot_unmarshal
  ]

  -- setProcess
  unfoldable pub set_process : Process → Bytes → Exec (ChainState X) (Unit {0})
  set_process p pid = store_as X X.process_codec p TreeName.process_tree pid

  -- AddProcess
  unfoldable pub add_process : Process → Bytes → Bytes → Exec (ChainState X) (Unit {0})
  unfolding set_process
  add_process p pid mkuri = do
    set_process p pid
    modify (notify (on_process pid p.entity_id p.mk_root mkuri))

  -- The rest of CancelProcess.
  unfoldable pub store_canceled : Process → Bytes → Exec (ChainState X) (Unit {0})
  unfolding set_process
  store_canceled p pid = do
    set_process (record p { canceled = true }) pid
    modify (notify (on_cancel pid))

  -- CancelProcess
  unfoldable pub cancel_process : Bytes → Exec (ChainState X) (Unit {0})
  unfolding store_canceled
  cancel_process pid = do
    p ← gets_res (process pid false)
    if p.canceled then pure tt else store_canceled p pid

  -- PauseProcess: it decodes what is stored, so a missing process is a decoding error.
  unfoldable pub pause_process : Bytes → Exec (ChainState X) (Unit {0})
  unfolding set_process
  pause_process pid = do
    stored ← gets (tree_get X TreeName.process_tree false pid)
    p ← lift (or_error (X.process_codec.unmarshal stored) cannot_unmarshal)
    if p.paused then pure tt else set_process (record p { paused = true }) pid

  -- ResumeProcess
  unfoldable pub resume_process : Bytes → Exec (ChainState X) (Unit {0})
  unfolding set_process
  resume_process pid = do
    p ← gets_res (process pid false)
    if not p.paused then pure tt else set_process (record p { paused = false }) pid

  -- CountProcesses
  unfoldable pub count_processes : Bool → ChainState X → ℕ
  count_processes is_query s =
      if is_query
      then X.db.count_immutable s.store TreeName.process_tree
      else X.db.count s.store TreeName.process_tree

  -- AddProcessKeys
  unfoldable pub add_process_keys : AdminTx → Exec (ChainState X) (Unit {0})
  unfolding set_process with_added_keys
  add_process_keys tx = do
    pid ← lift (decode_string tx.process_id)
    p ← gets_res (process pid false)
    with_keys ← lift (with_added_keys tx p)
    set_process with_keys pid
    modify (notify (on_process_keys pid tx.encryption_public_key tx.commitment_key))

  -- RevealProcessKeys
  unfoldable pub reveal_process_keys : AdminTx → Exec (ChainState X) (Unit {0})
  unfolding set_process with_revealed_keys
  reveal_process_keys tx = do
    pid ← lift (decode_string tx.process_id)
    p ← gets_res (process pid false)
    with_keys ← lift (with_revealed_keys tx p)
    set_process with_keys pid
    modify (notify (on_reveal_keys pid tx.encryption_private_key tx.reveal_key))
