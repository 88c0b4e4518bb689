-- ===== src/Vochain/Transaction/NewProcess/Created.antt =====
-- A process that a transaction creates.
use go_dvote.Prelude.{
  Bytes, [], ℕ, ◌≡◌, false, refl, Bool, true, ok, arith, suc, get_or, replicate, ap, sym, Res-cases,
  is_ok, inr, inl, Option-cases, some,
}
use go_dvote.Vochain.State.Processes.Keys.{
  count_below, is_used, is_revealed, is_pending, KeysBalanced,
}
use go_dvote.Types.{NewProcessTx, process_require_keys, Process, Header}
use Prim.Native.Nat.{zero}
use go_dvote.Vochain.Transaction.NewProcess.{
  process_of_tx, no_keys, new_process_tx_check, state_header, is_process_type,
}
use go_dvote.Types.Consts.{max_key_index}
use go_dvote.Vochain.Deps.{Deps}
use go_dvote.Prelude.Int.{pos, ◌≤ℤ◌, ◌<ℤ◌}
use go_dvote.Vochain.State.{ChainState, header}
use go_dvote.Util.Hex.{decode_string}
use go_dvote.Vochain.State.Processes.{process}

get_or-replicate : (n i : ℕ) → get_or {A = Bytes} (replicate n []) i [] ≡ []
get_or-replicate zero i = refl
get_or-replicate (suc n) zero = refl
get_or-replicate (suc n) (suc i) = get_or-replicate n i

count_below_none : (f : ℕ → Bool) (n : ℕ) → ((j : ℕ) → f j ≡ false) → count_below f n ≡ 0
unfolding count_below
count_below_none f zero h = refl
count_below_none f (suc n) h =
    let rest = count_below_none f n h in let here = h n in ground (arith, rest, here)

module _ (tx : NewProcessTx) (eid : Bytes)
    (keys : process_require_keys tx.process_type ≡ true) where
  is_used-process_of_tx : (i : ℕ) → is_used (process_of_tx tx eid) i ≡ false
  unfolding is_used process_of_tx no_keys
  is_used-process_of_tx i = rw keys (rw (get_or-replicate max_key_index i) refl)

  is_revealed-process_of_tx : (i : ℕ) → is_revealed (process_of_tx tx eid) i ≡ false
  unfolding is_revealed process_of_tx no_keys
  is_revealed-process_of_tx i = rw keys (rw (get_or-replicate max_key_index i) refl)

  is_pending-process_of_tx : (i : ℕ) → is_pending (process_of_tx tx eid) i ≡ false
  unfolding is_pending
  is_pending-process_of_tx i = rw (is_used-process_of_tx i) refl

  new_process_balanced : KeysBalanced (process_of_tx tx eid)
  unfolding process_of_tx no_keys
  new_process_balanced = record {
    publics_length = rw keys refl;
    commitments_length = rw keys refl;
    privates_length = rw keys refl;
    reveals_length = rw keys refl;
    revealed_used = λ i. rw (is_revealed-process_of_tx i) refl;
    counted = ap pos (
        sym (
          count_below_none (is_pending (process_of_tx tx eid)) max_key_index
            is_pending-process_of_tx));
  }

  -- A new process that needs keys is balanced, with room for 16 keys in each of its four lists, its
  -- key index is 0, and no list has a key at any place.
  pub process_of_tx-KeysBalanced :
      KeysBalanced (process_of_tx tx eid)
      × ((process_of_tx tx eid).key_index ≡ pos 0)
      × ((i : ℕ)
          → (get_or (process_of_tx tx eid).encryption_public_keys i [] ≡ [])
            × (get_or (process_of_tx tx eid).encryption_private_keys i [] ≡ [])
            × (get_or (process_of_tx tx eid).commitment_keys i [] ≡ [])
            × (get_or (process_of_tx tx eid).reveal_keys i [] ≡ []))
  unfolding process_of_tx no_keys
  process_of_tx-KeysBalanced = (
    new_process_balanced,
    refl,
    λ i.
        let empty = get_or-replicate max_key_index i in
        (rw keys empty, rw keys empty, rw keys empty, rw keys empty),
  )

module _ (X : Deps) (tx : NewProcessTx) (s : ChainState X) where
  -- What NewProcessTxCheck has checked of a process that it accepts.
  pub record Accepted (p : Process) : Type 0 where
    pub pid : Bytes
    pub eid : Bytes
    pub hd : Header
    pub decoded : decode_string tx.process_id ≡ ok pid
    pub decoded_entity : decode_string tx.entity_id ≡ ok eid
    pub is_new : p ≡ process_of_tx tx eid
    pub same_entity : p.entity_id ≡ eid
    pub same_root : p.mk_root ≡ tx.mk_root
    pub same_start : p.start_block ≡ tx.start_block
    pub same_blocks : p.number_of_blocks ≡ tx.number_of_blocks
    pub same_type : p.type ≡ tx.process_type
    pub not_canceled : p.canceled ≡ false
    pub not_paused : p.paused ≡ false
    pub missing : is_ok (process X pid false s) ≡ false
    pub has_header : header X false s ≡ some hd
    pub starts_later : hd.height ≤ℤ tx.start_block
    pub has_blocks : pos 0 <ℤ tx.number_of_blocks
    pub known_type : is_process_type tx.process_type ≡ true

  pub new_process_tx_check-Accepted :
      (p : Process) → new_process_tx_check X tx s ≡ ok p → Accepted p
  unfolding new_process_tx_check state_header process_of_tx
  new_process_tx_check-Accepted p h = elim (Res-cases (decode_string tx.process_id)) [
    | inr bad ↦ absurd (ground (arith, bad))
    | inl (pid, e1) ↦ elim (Res-cases (decode_string tx.entity_id)) [
      | inr bad ↦ absurd (ground (arith, bad, e1))
      | inl (eid, e2) ↦ elim (Option-cases (header X false s)) [
        | inl none_there ↦ absurd (ground (arith, e1, e2, none_there))
        | inr (hd, e3) ↦ record {
          pid = pid;
          eid = eid;
          hd = hd;
          decoded = e1;
          decoded_entity = e2;
          is_new = ground (arith, e1, e2, e3);
          same_entity = ground (arith, e1, e2, e3);
          same_root = ground (arith, e1, e2, e3);
          same_start = ground (arith, e1, e2, e3);
          same_blocks = ground (arith, e1, e2, e3);
          same_type = ground (arith, e1, e2, e3);
          not_canceled = ground (arith, e1, e2, e3);
          not_paused = ground (arith, e1, e2, e3);
          missing = ground (arith, e1, e2, e3);
          has_header = e3;
          starts_later = ground (arith, e1, e2, e3);
          has_blocks = ground (arith, e1, e2, e3);
          known_type = ground (arith, e1, e2, e3);
        }
      ]
    ]
  ]
