-- ===== src/Vochain/State/Validators/Listed.antt =====
-- The validator list under AddValidator.
use go_dvote.Prelude.{
  Bytes, List, [], ◌∷◌, ◌≡◌, false, refl, true, ok, arith, bytes_eq, ◌++◌, Bool-cases, inl, inr,
  bytes_eq_refl,
}
use go_dvote.Vochain.State.Laws.{unmarshal-Stored, Stored-of_ok}
use go_dvote.Vochain.Deps.{Deps}
use go_dvote.Vochain.State.Validators.{
  has_pub_key_address, add_validator, stored_validators, put_validators,
}
use go_dvote.Prelude.Int.{ℤ}
use go_dvote.Types.{GenesisValidator}
use go_dvote.Vochain.State.{ChainState, validator_key}
use go_dvote.Statedb.{TreeName}

module _ (X : Deps) (addr : Bytes) where
  has_pub_key_address-append_one :
      (v : GenesisValidator) (vs : List GenesisValidator)
      → bytes_eq (X.hex_bytes_string (X.pub_key_address v.pub_key)) addr ≡ true
      → has_pub_key_address X addr (vs ++ v ∷ []) ≡ true
  unfolding has_pub_key_address
  has_pub_key_address-append_one v [] h = ground arith
  has_pub_key_address-append_one v (w ∷ vs) h =
      ground (arith, has_pub_key_address-append_one v vs h)

abbrev new_validator : (X : Deps) → Bytes → ℤ → GenesisValidator
new_validator X pub_key power = record {
  address = X.pub_key_address pub_key;
  pub_key = pub_key;
  power = power;
  name = [];
}

module _ (X : Deps) (pub_key : Bytes) (power : ℤ) (s s' : ChainState X)
    (h : add_validator X pub_key power s ≡ (ok tt, s')) where
  added_list :
      has_pub_key_address X (X.hex_bytes_string (X.pub_key_address pub_key)) (stored_validators X s)
        ≡ false
      → stored_validators X s' ≡ stored_validators X s ++ new_validator X pub_key power ∷ []
  unfolding add_validator put_validators stored_validators
  added_list fresh =
      let st =
        Stored-of_ok X X.validators_codec
          (stored_validators X s ++ new_validator X pub_key power ∷ []) TreeName.app_tree
          validator_key s s' (ground (arith, fresh)) in
      let back = unmarshal-Stored X X.validators_codec _ TreeName.app_tree validator_key s st in
      rw back refl

  listed_after :
      has_pub_key_address X
        (X.hex_bytes_string (X.pub_key_address pub_key))
        (stored_validators X s')
      ≡ true
  unfolding add_validator
  listed_after =
      elim (Bool-cases (
        has_pub_key_address X (X.hex_bytes_string (X.pub_key_address pub_key))
          (stored_validators X s))) [
            | inl there ↦ let same : s ≡ s' = ground (arith, there) in rw (← same) there
            | inr fresh ↦ rw (added_list fresh) (
                has_pub_key_address-append_one X _ (new_validator X pub_key power)
                  (stored_validators X s) (bytes_eq_refl _))
          ]

  -- After AddValidator of a key succeeded, the key is in the list, and adding it again, with
  -- whatever power, succeeds and changes nothing.
  pub add_validator-again :
      (power' : ℤ)
      → (has_pub_key_address X
            (X.hex_bytes_string (X.pub_key_address pub_key))
            (stored_validators X s')
          ≡ true)
        × (add_validator X pub_key power' s' ≡ (ok tt, s'))
  unfolding add_validator
  add_validator-again power' = (listed_after, ground (arith, listed_after))
