-- ===== src/Vochain/Keykeeper/Accepted.antt =====
-- The transactions of the key keeper against the checks of the chain.
use go_dvote.Prelude.{
  Bytes, [], ◌∷◌, ℕ, ok, arith, refl, length, ◌≡◌, All, ◌<◌, some, Res-cases, inl, Res, inr,
  Bool-cases, ◌++◌, ◌==◌, subst, is_set, true, at_index, bytes_eq_refl, ◌≤◌, ◌&&◌, not, false,
}
use go_dvote.Vochain.Keykeeper.{ProcessKeys, int8_of}
use go_dvote.Vochain.Keykeeper.Generate.{first_bytes, private_key_of, generate_keys, reveal_tx}
use go_dvote.Util.Hex.Laws.{decode_string-encode_to_string, decode_string-bytes}
use go_dvote.Nacl.{decode_private, decode_key}
use go_dvote.Util.Hex.{encode_to_string, decode_string}
use go_dvote.Vochain.Keykeeper.Encoding.{take_all}
use go_dvote.Ethereum.{hash_raw}
use go_dvote.Types.{Process}
use go_dvote.Prelude.Int.{pos, ℤ, ltb_ℤ, add64}
use go_dvote.Vochain.Transaction.Admin.{
  check_private_key, check_reveal_key, reveal_keys_check, check_reveal_process_keys,
  either_key_is_set, matches_key, key_is_set, or_else, bad_key_index,
}
use go_dvote.Types.Consts.{max_key_index}

-- What is known of keys that were made.
pub record Generated (X : go_dvote.Vochain.Deps.Deps) (index : ℕ) (pk : ProcessKeys) : Type 0 where
  pub key_decodes :
      decode_private X.x25519_base (encode_to_string pk.priv_key) ≡ ok (pk.priv_key, pk.pub_key)
  pub reveal_is : pk.reveal_key ≡ X.poseidon pk.priv_key
  pub commitment_is : pk.commitment_key ≡ X.poseidon pk.reveal_key
  pub index_is : pk.index ≡ index

module _ (X : go_dvote.Vochain.Deps.Deps) (secret pid : Bytes) (index : ℕ) (pk : ProcessKeys)
    (poseidon_length : (b : Bytes) → length (X.poseidon b) ≡ 32)
    (poseidon_bytes : (b : Bytes) → All (λ x. x < 256) (X.poseidon b))
    (generated : generate_keys X (some secret) index pid ≡ ok pk) where
  first_all : (b : Bytes) → length b ≡ 32 → first_bytes 32 b ≡ ok b
  unfolding first_bytes
  first_all b h = let whole = take_all 32 b (omega (arith, h)) in ground (arith, h, whole)

  decode_private-again :
      (x25519 : Bytes → Res Bytes) (s : Bytes) (key : Bytes × Bytes)
      → decode_private x25519 s ≡ ok key
      → decode_private x25519 (encode_to_string key.0) ≡ ok key
  unfolding decode_private decode_key
  decode_private-again x25519 s key h = elim (Res-cases (decode_string s)) [
    | inl (k, e) ↦
        let again = decode_string-encode_to_string k (decode_string-bytes s k e) in
        elim (Bool-cases (length k == 32)) [
          | inl size ↦ elim (Res-cases (x25519 k)) [
            | inl (d, e') ↦
                let same : (k, d) ≡ key = ground (arith, e, e', size, h) in
                subst (λ (u : Bytes × Bytes). decode_private x25519 (encode_to_string u.0) ≡ ok u)
                  same (ground (arith, again, size, e'))
            | inr (inl (x, e')) ↦ absurd (ground (arith, e, e', size, h))
            | inr (inr e') ↦ absurd (ground (arith, e, e', size, h))
          ]
          | inr size ↦ absurd (ground (arith, e, size, h))
        ]
    | inr (inl (x, e)) ↦ absurd (ground (arith, e, h))
    | inr (inr e) ↦ absurd (ground (arith, e, h))
  ]

  private_key_eq :
      (key : Bytes × Bytes)
      → private_key_of X secret index pid ≡ ok key
      → decode_private X.x25519_base
          (encode_to_string (hash_raw X.eth (secret ++ (pid ++ index ∷ []))))
        ≡ ok key
  unfolding private_key_of
  private_key_eq key e = e

  pub generate_keys-Generated : Generated X index pk
  unfolding generate_keys
  generate_keys-Generated = elim (Res-cases (private_key_of X secret index pid)) [
    | inl (key, e) ↦
        let once = X.poseidon key.0 in
        let a = first_all once (poseidon_length key.0) in
        let b = first_all (X.poseidon once) (poseidon_length once) in
        let again =
          decode_private-again X.x25519_base
            (encode_to_string (hash_raw X.eth (secret ++ (pid ++ index ∷ [])))) key
            (private_key_eq key e) in
        let made : record {
          pub_key = key.1;
          priv_key = key.0;
          reveal_key = once;
          commitment_key = X.poseidon once;
          index = index;
        }
            ≡ pk =
          ground (arith, a, b, e, generated) in
        subst (Generated X index) made
          (record { key_decodes = again; reveal_is = refl; commitment_is = refl; index_is = refl })
    | inr (inl (x, e)) ↦ absurd (ground (arith, e, generated))
    | inr (inr e) ↦ absurd (ground (arith, e, generated))
  ]

pub is_set-encode : (b : Bytes) → length b ≡ 32 → is_set (encode_to_string b) ≡ true
unfolding encode_to_string
is_set-encode [] h = absurd (omega arith)
is_set-encode (c ∷ b) h = refl

module _ (X : go_dvote.Vochain.Deps.Deps) (index : ℕ) (pk : ProcessKeys) (nonce pid : Bytes)
    (p : Process) (poseidon_length : (b : Bytes) → length (X.poseidon b) ≡ 32)
    (poseidon_bytes : (b : Bytes) → All (λ x. x < 256) (X.poseidon b)) (made : Generated X index pk)
    (i : ℕ) (at_i : int8_of pk.index ≡ pos i)
    (public_stored : at_index p.encryption_public_keys (pos i) ≡ ok (encode_to_string pk.pub_key))
    (commitment_stored : at_index p.commitment_keys (pos i)
      ≡ ok (encode_to_string pk.commitment_key)) where
  private_key_passes : check_private_key X (reveal_tx nonce pk pid) p ≡ ok tt
  unfolding check_private_key reveal_tx matches_key
  private_key_passes =
      ground
        (arith, made.key_decodes, at_i, public_stored, bytes_eq_refl (encode_to_string pk.pub_key))

  reveal_key_passes : check_reveal_key X (reveal_tx nonce pk pid) p ≡ ok tt
  unfolding check_reveal_key reveal_tx matches_key
  reveal_key_passes =
      let bytes : All (λ x. x < 256) pk.reveal_key =
        rw (made.reveal_is) (poseidon_bytes pk.priv_key) in
      let decoded = decode_string-encode_to_string pk.reveal_key bytes in
      ground (
        arith,
        made.commitment_is,
        at_i,
        decoded,
        commitment_stored,
        bytes_eq_refl (encode_to_string pk.commitment_key),
      )

  -- The checks of the bounds and of what is stored, on the index of the keys.
  pub reveal_passes :
      (height : ℤ)
      → 1 ≤ i
      → i < max_key_index
      → length pk.pub_key ≡ 32
      → (ltb_ℤ height (add64 p.start_block p.number_of_blocks) && not p.canceled) ≡ false
      → at_index p.encryption_private_keys (pos i) ≡ ok []
      → at_index p.reveal_keys (pos i) ≡ ok []
      → reveal_keys_check X (reveal_tx nonce pk pid) p height ≡ ok tt
  unfolding reveal_keys_check check_reveal_process_keys either_key_is_set key_is_set or_else
      bad_key_index reveal_tx
  reveal_passes height low high size ended no_private no_reveal =
      let a = is_set-encode pk.pub_key size in
      let b : is_set (encode_to_string pk.commitment_key) ≡ true =
        is_set-encode pk.commitment_key (rw made.commitment_is (poseidon_length pk.reveal_key)) in
      let c : is_set (encode_to_string pk.reveal_key) ≡ true =
        is_set-encode pk.reveal_key (rw made.reveal_is (poseidon_length pk.priv_key)) in
      ground (
        arith, a, b, c, low, high, ended, no_private, no_reveal, at_i, public_stored,
        commitment_stored, private_key_passes, reveal_key_passes,
      )
