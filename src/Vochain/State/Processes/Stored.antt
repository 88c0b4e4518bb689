-- ===== src/Vochain/State/Processes/Stored.antt =====
-- What setProcess and the call of the listeners do to the state.
use go_dvote.Prelude.{
  Bytes, ◌≡◌, false, refl, Bool, ok, err, panic, Res, arith, Exec, ◌>>◌, modify, ◌∙◌, subst,
  bytes_eq_refl, if◌then◌else◌, bytes_eq,
}
use go_dvote.Vochain.Deps.{Deps}
use go_dvote.Types.{Process}
use go_dvote.Vochain.State.{Event, ChainState, header, tree_get, notify, header_key}
use go_dvote.Vochain.State.Processes.{process, set_process}
use go_dvote.Vochain.State.Laws.{Stored, tree_get-stored_ne, Stored-of_ok}
use go_dvote.Statedb.{tree_eq, TreeName}

module _ (X : Deps) (p : Process) (pid : Bytes) (s s' : ChainState X)
    (h : set_process X p pid s ≡ (ok tt, s')) where
  pub Stored-process : Stored X X.process_codec p TreeName.process_tree pid s s'
  unfolding set_process
  Stored-process = Stored-of_ok X X.process_codec p TreeName.process_tree pid s s' h

  process-set_process :
      (q : Bytes) → process X q false s' ≡ (if bytes_eq pid q then ok p else process X q false s)
  unfolding process tree_eq
  process-set_process q =
      let st = Stored-process in
      let read = st.reads TreeName.process_tree q in
      let back = X.process_codec.unmarshal-marshal _ st.bytes st.encoded in
      ground (arith, read, back)

  header-set_process : header X false s' ≡ header X false s
  unfolding header tree_eq
  header-set_process =
      let read = tree_get-stored_ne Stored-process TreeName.app_tree header_key refl in
      ground (arith, read)

module _ (X : Deps) (e : Event) (s : ChainState X) where
  process-notify : (pid : Bytes) (q : Bool) → process X pid q (notify e s) ≡ process X pid q s
  unfolding process tree_get notify
  process-notify pid q = refl

  header-notify : (q : Bool) → header X q (notify e s) ≡ header X q s
  unfolding header tree_get notify
  header-notify q = refl

-- The state after a process was stored and the listeners were told: the process is found under its
-- id, every other process and the header are as before, and the call is the last one made.
pub record Changed (X : Deps) (p : Process) (pid : Bytes) (e : Event) (s s' : ChainState X)
    : Type 0 where
  pub processes :
      (q : Bytes) → process X q false s' ≡ (if bytes_eq pid q then ok p else process X q false s)
  pub same_header : header X false s' ≡ header X false s
  pub notified : s'.calls ≡ (notify e s).calls

module _ (X : Deps) (p : Process) (pid : Bytes) (e : Event) (s : ChainState X) where
  -- `setProcess`, and then the call of the listeners.
  abbrev pub store_and_notify : Exec (ChainState X) (Unit {0})
  store_and_notify = set_process X p pid >> modify (notify e)

  Changed-notify :
      (s1 : ChainState X) → set_process X p pid s ≡ (ok tt, s1) → Changed X p pid e s (notify e s1)
  unfolding notify
  Changed-notify s1 stored =
      let st = Stored-process X p pid s s1 stored in
      record {
        processes = λ q. process-notify X e s1 q false ∙ process-set_process X p pid s s1 stored q;
        same_header = header-notify X e s1 false ∙ header-set_process X p pid s s1 stored;
        notified = rw (st.same_calls, st.same_listeners) refl;
      }

  Changed-of :
      (r : Res (Unit {0}) × ChainState X) (s' : ChainState X)
      → set_process X p pid s ≡ r
      → store_and_notify s ≡ (ok tt, s')
      → Changed X p pid e s s'
  Changed-of (ok tt, s1) s' e' h =
      let same : notify e s1 ≡ s' = ground (arith, e') in
      subst (λ z. Changed X p pid e s z) same (Changed-notify s1 e')
  Changed-of (err x, s1) s' e' h = absurd (ground (arith, e'))
  Changed-of (panic, s1) s' e' h = absurd (ground (arith, e'))

  pub changed : (s' : ChainState X) → store_and_notify s ≡ (ok tt, s') → Changed X p pid e s s'
  changed s' h = Changed-of (set_process X p pid s) s' refl h

module _ {X : Deps} {p : Process} {pid : Bytes} {e : Event} {s s' : ChainState X}
    (c : Changed X p pid e s s') where
  pub found_after : process X pid false s' ≡ ok p
  found_after = rw (c.processes pid, bytes_eq_refl pid)
