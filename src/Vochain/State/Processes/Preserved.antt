-- ===== src/Vochain/State/Processes/Preserved.antt =====
-- The balance of the keys of a process under AddProcessKeys and RevealProcessKeys.
use go_dvote.Prelude.{
  Bytes, List, [], ℕ, ◌≡◌, false, refl, true, ok, arith, length, ◌<◌, ◌≢◌, if◌then◌else◌,
  length-set, get_or, is_set, ◌||◌, get_or-set_ne, set_index-in, set, suc, get_or-set_self, ◌∙◌,
  ◌≤◌, ◌==◌, Bool-cases, inl, inr, sym, ap, ◌-◌, subst, ◌&&◌, not,
}
use go_dvote.Vochain.State.Processes.Keys.{
  count_below_more, count_below_le, count_below, is_used, is_revealed, is_pending, KeysBalanced,
}
use go_dvote.Vochain.State.Processes.{set_key, with_added_keys, with_revealed_keys}
use go_dvote.Types.{AdminTx, Process}
use go_dvote.Prelude.Int.{pos, add64, wrap64, ◌+ℤ◌, sub64, ◌-ℤ◌}
use go_dvote.Types.Consts.{max_key_index}

-- The keys after a key was written, if one is given.
put_key : List Bytes → ℕ → Bytes → List Bytes
put_key keys i key = if is_set key then set keys i key else keys

module _ (keys : List Bytes) (i : ℕ) (key : Bytes) where
  set_key-in : i < length keys → set_key keys (pos i) key ≡ ok (put_key keys i key)
  unfolding set_key put_key
  set_key-in h = let written = set_index-in keys i [] key h in ground (arith, written)

  length-put_key : length (put_key keys i key) ≡ length keys
  unfolding put_key
  length-put_key = ground (arith, length-set keys i key)

  get_or-put_key :
      i < length keys
      → is_set (get_or (put_key keys i key) i []) ≡ (is_set key || is_set (get_or keys i []))
  unfolding put_key
  get_or-put_key h = let written = get_or-set_self keys i key [] h in ground (arith, written)

  get_or-put_key_ne : (j : ℕ) → i ≢ j → get_or (put_key keys i key) j [] ≡ get_or keys j []
  unfolding put_key
  get_or-put_key_ne j h = let kept = get_or-set_ne keys i j key [] h in ground (arith, kept)

add64-one : (n : ℕ) → n ≤ max_key_index → add64 (pos n) (pos 1) ≡ pos (suc n)
unfolding add64 ◌+ℤ◌ wrap64
add64-one n h = ground arith

sub64-one : (n : ℕ) → n ≤ max_key_index → 1 ≤ n → sub64 (pos n) (pos 1) ≡ pos (n - 1)
unfolding sub64 ◌-ℤ◌ wrap64
sub64-one n h h' = ground arith

module _ (tx : AdminTx) (p : Process) (i : ℕ) (balanced : KeysBalanced p)
    (index : tx.key_index ≡ pos i) (in_bounds : i < max_key_index) where
  added : Process
  added = record p {
    commitment_keys = put_key p.commitment_keys i tx.commitment_key;
    encryption_public_keys = put_key p.encryption_public_keys i tx.encryption_public_key;
    key_index = pos (suc (count_below (is_pending p) max_key_index));
  }

  with_added_keys-added : with_added_keys tx p ≡ ok added
  unfolding with_added_keys added set_key
  with_added_keys-added =
      let a =
        set_key-in p.commitment_keys i tx.commitment_key
          (rw balanced.commitments_length in_bounds) in
      let b =
        set_key-in p.encryption_public_keys i tx.encryption_public_key
          (rw balanced.publics_length in_bounds) in
      let next = add64-one _ (count_below_le (is_pending p) max_key_index) in
      rw (index, balanced.counted) (ground (arith, a, b, next))

  is_used-added :
      (is_set tx.commitment_key || is_set tx.encryption_public_key) ≡ true → is_used added i ≡ true
  unfolding is_used added
  is_used-added given =
      let a =
        get_or-put_key p.commitment_keys i tx.commitment_key
          (rw balanced.commitments_length in_bounds) in
      let b =
        get_or-put_key p.encryption_public_keys i tx.encryption_public_key
          (rw balanced.publics_length in_bounds) in
      ground (arith, a, b, given)

  is_used-added_ne : (j : ℕ) → i ≢ j → is_used added j ≡ is_used p j
  unfolding is_used added
  is_used-added_ne j ne =
      let a = get_or-put_key_ne p.commitment_keys i tx.commitment_key j ne in
      let b = get_or-put_key_ne p.encryption_public_keys i tx.encryption_public_key j ne in
      rw (a, b) refl

  is_revealed-added : (j : ℕ) → is_revealed added j ≡ is_revealed p j
  unfolding is_revealed added
  is_revealed-added j = refl

  module _ (fresh : is_used p i ≡ false)
      (given : (is_set tx.commitment_key || is_set tx.encryption_public_key) ≡ true) where
    is_used-added_all : (j : ℕ) → is_used added j ≡ (is_used p j || (i == j))
    is_used-added_all j = elim (Bool-cases (i == j)) [
      | inl e ↦
          let same : i ≡ j = ground arith in
          let used : is_used added j ≡ true =
            subst (λ k. is_used added k ≡ true) same (is_used-added given) in
          ground (arith, used)
      | inr ne ↦ let used = is_used-added_ne j (λ e. ground arith) in ground (arith, used)
    ]

    pending_more :
        count_below (is_pending added) max_key_index
        ≡ suc (count_below (is_pending p) max_key_index)
    unfolding is_pending
    pending_more =
        let hidden = balanced.revealed_used i in
        let unrevealed = is_revealed-added i in
        count_below_more (is_pending p) (is_pending added) max_key_index i in_bounds
          (ground (arith, fresh)) (ground (arith, is_used-added given, hidden, unrevealed, fresh))
          (λ j ne. rw (is_used-added_ne j ne, is_revealed-added j) refl)

    revealed_used-added : (j : ℕ) → (is_revealed added j && not (is_used added j)) ≡ false
    revealed_used-added j =
        let before = balanced.revealed_used j in
        let after = is_used-added_all j in
        let same = is_revealed-added j in ground (arith, before, after, same)

    KeysBalanced-added : KeysBalanced added
    unfolding added
    KeysBalanced-added = record {
      publics_length =
          length-put_key p.encryption_public_keys i tx.encryption_public_key
          ∙ balanced.publics_length;
      commitments_length =
          length-put_key p.commitment_keys i tx.commitment_key ∙ balanced.commitments_length;
      privates_length = balanced.privates_length;
      reveals_length = balanced.reveals_length;
      revealed_used = revealed_used-added;
      counted = ap pos (sym pending_more);
    }

    -- AddProcessKeys succeeds on an index that is not used, if a key is given, and keeps the balance.
    pub with_added_keys-KeysBalanced :
        (p' : Process) × (with_added_keys tx p ≡ ok p') × KeysBalanced p'
    with_added_keys-KeysBalanced = (added, with_added_keys-added, KeysBalanced-added)

module _ (tx : AdminTx) (p : Process) (i : ℕ) (balanced : KeysBalanced p)
    (index : tx.key_index ≡ pos i) (in_bounds : i < max_key_index) (used : is_used p i ≡ true)
    (hidden : is_revealed p i ≡ false)
    (given : (is_set tx.reveal_key || is_set tx.encryption_private_key) ≡ true) where
  revealed : Process
  revealed = record p {
    reveal_keys = put_key p.reveal_keys i tx.reveal_key;
    encryption_private_keys = put_key p.encryption_private_keys i tx.encryption_private_key;
    key_index = pos (count_below (is_pending p) max_key_index - 1);
  }

  is_revealed-revealed : is_revealed revealed i ≡ true
  unfolding is_revealed revealed
  is_revealed-revealed =
      let a = get_or-put_key p.reveal_keys i tx.reveal_key (rw balanced.reveals_length in_bounds) in
      let b =
        get_or-put_key p.encryption_private_keys i tx.encryption_private_key
          (rw balanced.privates_length in_bounds) in
      ground (arith, a, b, given)

  is_revealed-revealed_ne : (j : ℕ) → i ≢ j → is_revealed revealed j ≡ is_revealed p j
  unfolding is_revealed revealed
  is_revealed-revealed_ne j ne =
      let a = get_or-put_key_ne p.reveal_keys i tx.reveal_key j ne in
      let b = get_or-put_key_ne p.encryption_private_keys i tx.encryption_private_key j ne in
      rw (a, b) refl

  is_used-revealed : (j : ℕ) → is_used revealed j ≡ is_used p j
  unfolding is_used revealed
  is_used-revealed j = refl

  pending_less :
      count_below (is_pending p) max_key_index
      ≡ suc (count_below (is_pending revealed) max_key_index)
  unfolding is_pending
  pending_less =
      let shown = is_revealed-revealed in
      count_below_more (is_pending revealed) (is_pending p) max_key_index i in_bounds
        (ground (arith, shown)) (ground (arith, used, hidden))
        (λ j ne. rw (is_revealed-revealed_ne j ne, is_used-revealed j) refl)

  with_revealed_keys-revealed : with_revealed_keys tx p ≡ ok revealed
  unfolding with_revealed_keys revealed set_key
  with_revealed_keys-revealed =
      let a = set_key-in p.reveal_keys i tx.reveal_key (rw balanced.reveals_length in_bounds) in
      let b =
        set_key-in p.encryption_private_keys i tx.encryption_private_key
          (rw balanced.privates_length in_bounds) in
      let before =
        sub64-one _ (count_below_le (is_pending p) max_key_index) (omega (arith, pending_less)) in
      rw (index, balanced.counted) (ground (arith, a, b, before, pending_less))

  revealed_used-revealed : (j : ℕ) → (is_revealed revealed j && not (is_used revealed j)) ≡ false
  revealed_used-revealed j = elim (Bool-cases (i == j)) [
    | inl e ↦
        let same : i ≡ j = ground arith in rw (is_used-revealed j, ← same) (ground (arith, used))
    | inr ne ↦
        let kept = is_revealed-revealed_ne j (λ e. ground arith) in
        rw (is_used-revealed j, kept) (balanced.revealed_used j)
  ]

  counted_less :
      count_below (is_pending p) max_key_index - 1 ≡ count_below (is_pending revealed) max_key_index
  counted_less = omega (arith, pending_less)

  KeysBalanced-revealed : KeysBalanced revealed
  unfolding revealed
  KeysBalanced-revealed = record {
    publics_length = balanced.publics_length;
    commitments_length = balanced.commitments_length;
    privates_length =
        length-put_key p.encryption_private_keys i tx.encryption_private_key
        ∙ balanced.privates_length;
    reveals_length = length-put_key p.reveal_keys i tx.reveal_key ∙ balanced.reveals_length;
    revealed_used = revealed_used-revealed;
    counted = ap pos counted_less;
  }

  -- RevealProcessKeys succeeds on an index that is used and not revealed, if a key is given, and
  -- keeps the balance: the key index never falls below zero.
  pub with_revealed_keys-KeysBalanced :
      (p' : Process) × (with_revealed_keys tx p ≡ ok p') × KeysBalanced p'
  with_revealed_keys-KeysBalanced = (revealed, with_revealed_keys-revealed, KeysBalanced-revealed)
