-- ===== src/Vochain/Transaction/Admin/KeyIndex.antt =====
-- The index of the keys of a transaction, in the checks and against the lists of the process.
use go_dvote.Prelude.{
  Bytes, List, [], ℕ, ◌≡◌, false, refl, true, ok, panic, arith, ◌<◌, length, at_index, ◌≤◌, inr,
  is_set, at_index-out, ◌⊎◌, Bool-cases, get_or, ◌||◌, inl, ◌≢◌, at_index-in, ltb, ◌&&◌, not,
}
use go_dvote.Vochain.State.Processes.Keys.{is_used, is_revealed, KeysBalanced}
use go_dvote.Vochain.Transaction.Admin.{
  key_is_set, add_keys_check, either_key_is_set, check_add_process_keys, bad_key_index,
  reveal_keys_check, check_reveal_process_keys, or_else,
}
use go_dvote.Prelude.Int.{ℤ, pos, negsuc, ◌≤ℤ◌, ltb_ℤ, add64}
use go_dvote.Types.{AdminTx, Process}
use go_dvote.Types.Consts.{max_key_index}
use go_dvote.Vochain.Deps.{Deps}

key_is_set-in :
    (keys : List Bytes) (i : ℕ)
    → i < length keys
    → key_is_set keys (pos i) ≡ ok (is_set (get_or keys i []))
unfolding key_is_set
key_is_set-in keys i h = rw (at_index-in keys i [] h) refl

key_is_set-out : (keys : List Bytes) (i : ℕ) → length keys ≤ i → key_is_set keys (pos i) ≡ panic
unfolding key_is_set
key_is_set-out keys i h = rw (at_index-out keys i h) refl

key_is_set-negative : (keys : List Bytes) (i : ℕ) → key_is_set keys (negsuc i) ≡ panic
unfolding key_is_set at_index
key_is_set-negative keys i = refl

module _ (tx : AdminTx) (p : Process) (height : ℤ) (balanced : KeysBalanced p) where
  add_keys_check-in :
      (i : ℕ)
      → tx.key_index ≡ pos i
      → i < max_key_index
      → add_keys_check tx p height ≡ ok tt
      → (is_used p i ≡ false)
        × ((is_set tx.commitment_key || is_set tx.encryption_public_key) ≡ true)
  unfolding is_used add_keys_check either_key_is_set check_add_process_keys
  add_keys_check-in i index in_bounds h =
      let a = key_is_set-in p.encryption_public_keys i (rw balanced.publics_length in_bounds) in
      let b = key_is_set-in p.commitment_keys i (rw balanced.commitments_length in_bounds) in
      ground (arith, index, a, b, h)

  -- For a process whose keys are balanced, at a height up to its start block and while it is not
  -- canceled, an index that is no place of the lists makes the check of a transaction that adds keys
  -- panic: the lists are indexed before the bounds are tested.
  pub add_keys_check-out :
      height ≤ℤ p.start_block
      → p.canceled ≡ false
      → (i : ℕ) → ((tx.key_index ≡ pos i) × (max_key_index ≤ i)) ⊎ (tx.key_index ≡ negsuc i)
      → add_keys_check tx p height ≡ panic
  unfolding add_keys_check either_key_is_set
  add_keys_check-out not_started going_on i (inl (index, outside)) =
      let a = key_is_set-out p.encryption_public_keys i (rw balanced.publics_length outside) in
      ground (arith, index, a)
  add_keys_check-out not_started going_on i (inr index) =
      let a = key_is_set-negative p.encryption_public_keys i in ground (arith, index, a)

  add_keys_check-time :
      add_keys_check tx p height ≡ ok tt → (height ≤ℤ p.start_block) × (p.canceled ≡ false)
  unfolding add_keys_check
  add_keys_check-time h = ground arith

  add_keys_check-low : add_keys_check tx p height ≡ ok tt → tx.key_index ≢ pos 0
  unfolding add_keys_check check_add_process_keys bad_key_index
  add_keys_check-low h = ground arith

  abbrev pub AddedAt : ℕ → Type 0
  AddedAt i =
      (tx.key_index ≡ pos i)
      × (1 ≤ i)
      × (i < max_key_index)
      × (is_used p i ≡ false)
      × ((is_set tx.commitment_key || is_set tx.encryption_public_key) ≡ true)

  added_at : (k : ℤ) → tx.key_index ≡ k → add_keys_check tx p height ≡ ok tt → (i : ℕ) × AddedAt i
  added_at (negsuc i) index h =
      let (early, alive) = add_keys_check-time h in
      let fails = add_keys_check-out early alive i (inr index) in absurd (ground arith)
  added_at (pos i) index h =
      let (early, alive) = add_keys_check-time h in
      elim (Bool-cases (ltb i max_key_index)) [
        | inl e ↦
            let (fresh, given) = add_keys_check-in i index (ground arith) h in
            let low = add_keys_check-low h in
            (i, (index, ground (arith, low), ground arith, fresh, given))
        | inr e ↦
            let fails = add_keys_check-out early alive i (inl (index, ground arith)) in
            absurd (ground arith)
      ]

  -- A transaction that adds keys to a process whose keys are balanced, and that passes its check, has
  -- a key and an index between 1 and 15 that is not used, the height is at most the start block of
  -- the process, where votes are taken already, and the process is not canceled.
  pub add_keys_check-ok :
      add_keys_check tx p height ≡ ok tt
      → ((i : ℕ) × AddedAt i) × (height ≤ℤ p.start_block) × (p.canceled ≡ false)
  add_keys_check-ok h =
      let (early, alive) = add_keys_check-time h in (added_at tx.key_index refl h, early, alive)

module _ (X : Deps) (tx : AdminTx) (p : Process) (height : ℤ) (balanced : KeysBalanced p) where
  abbrev pub RevealedAt : ℕ → Type 0
  RevealedAt i =
      (tx.key_index ≡ pos i)
      × (1 ≤ i)
      × (i < max_key_index)
      × (is_used p i ≡ true)
      × (is_revealed p i ≡ false)
      × ((is_set tx.reveal_key || is_set tx.encryption_private_key) ≡ true)

  reveal_keys_check-time :
      reveal_keys_check X tx p height ≡ ok tt
      → (ltb_ℤ height (add64 p.start_block p.number_of_blocks) && not p.canceled) ≡ false
  unfolding reveal_keys_check
  reveal_keys_check-time h = ground arith

  reveal_keys_check-low : reveal_keys_check X tx p height ≡ ok tt → tx.key_index ≢ pos 0
  unfolding reveal_keys_check check_reveal_process_keys bad_key_index
  reveal_keys_check-low h = ground arith

  reveal_keys_check-in :
      (i : ℕ)
      → tx.key_index ≡ pos i
      → i < max_key_index
      → reveal_keys_check X tx p height ≡ ok tt
      → (is_used p i ≡ true)
        × (is_revealed p i ≡ false)
        × ((is_set tx.reveal_key || is_set tx.encryption_private_key) ≡ true)
  unfolding is_used is_revealed reveal_keys_check either_key_is_set check_reveal_process_keys
      or_else
  reveal_keys_check-in i index in_bounds h =
      let a = key_is_set-in p.encryption_private_keys i (rw balanced.privates_length in_bounds) in
      let b = key_is_set-in p.reveal_keys i (rw balanced.reveals_length in_bounds) in
      let c = key_is_set-in p.encryption_public_keys i (rw balanced.publics_length in_bounds) in
      let d = key_is_set-in p.commitment_keys i (rw balanced.commitments_length in_bounds) in
      ground (arith, index, a, b, c, d, h)

  -- A transaction that reveals keys panics likewise on an index that is no place of the lists, once
  -- the process has ended or is canceled.
  pub reveal_keys_check-out :
      (ltb_ℤ height (add64 p.start_block p.number_of_blocks) && not p.canceled) ≡ false
      → (i : ℕ) → ((tx.key_index ≡ pos i) × (max_key_index ≤ i)) ⊎ (tx.key_index ≡ negsuc i)
      → reveal_keys_check X tx p height ≡ panic
  unfolding reveal_keys_check either_key_is_set
  reveal_keys_check-out ended i (inl (index, outside)) =
      let a = key_is_set-out p.encryption_private_keys i (rw balanced.privates_length outside) in
      ground (arith, index, a, ended)
  reveal_keys_check-out ended i (inr index) =
      let a = key_is_set-negative p.encryption_private_keys i in ground (arith, index, a, ended)

  revealed_at :
      (k : ℤ) → tx.key_index ≡ k → reveal_keys_check X tx p height ≡ ok tt → (i : ℕ) × RevealedAt i
  revealed_at (negsuc i) index h =
      let fails = reveal_keys_check-out (reveal_keys_check-time h) i (inr index) in
      absurd (ground arith)
  revealed_at (pos i) index h = elim (Bool-cases (ltb i max_key_index)) [
    | inl e ↦
        let (used, hidden, given) = reveal_keys_check-in i index (ground arith) h in
        let low = reveal_keys_check-low h in
        (i, (index, ground (arith, low), ground arith, used, hidden, given))
    | inr e ↦
        let fails =
          reveal_keys_check-out (reveal_keys_check-time h) i (inl (index, ground arith)) in
        absurd (ground arith)
  ]

  -- A transaction that reveals keys of a process whose keys are balanced, and that passes its check,
  -- has a key and an index between 1 and 15 that is used and not revealed, and the height is at least
  -- the end block of the process, where votes are still taken, or the process is canceled.
  pub reveal_keys_check-ok :
      reveal_keys_check X tx p height ≡ ok tt
      → ((i : ℕ) × RevealedAt i)
        × ((ltb_ℤ height (add64 p.start_block p.number_of_blocks) && not p.canceled) ≡ false)
  reveal_keys_check-ok h = (revealed_at tx.key_index refl h, reveal_keys_check-time h)
