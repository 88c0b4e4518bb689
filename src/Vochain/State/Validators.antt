-- ===== src/Vochain/State/Validators.antt =====
-- vochain/state.go: the validators, a list under one key of the application tree.
pub mod Listed
use go_dvote.Prelude.{
  Bytes, List, [], ◌∷◌, Res, bind_res, Bool, if◌then◌else◌, Exec, length, value_or, bytes_eq, false,
  ◌==◌, ◌||◌, ok, err, pub_key_length, ◌>>=◌, gets, ◌>>◌, fail_if, not, validator_not_found, pure,
  ◌++◌,
}
use go_dvote.Util.Hex.{decode_string}
use go_dvote.Vochain.Deps.{Deps}
use go_dvote.Vochain.State.{ChainState, tree_get, TreeName, validator_key, store_as}
use go_dvote.Types.{GenesisValidator}
use go_dvote.Prelude.Int.{ℤ}

-- hexPubKeyToTendermintEd25519
unfoldable pub hex_pub_key_to_tendermint_ed25519 : Bytes → Res Bytes
hex_pub_key_to_tendermint_ed25519 pub_key =
    bind_res (decode_string pub_key) λ b. if length b == 32 then ok b else err pub_key_length

module _ (X : Deps) where
  unfoldable pub stored_validators : ChainState X → List GenesisValidator
  stored_validators s =
      value_or (X.validators_codec.unmarshal (tree_get X TreeName.app_tree false validator_key s))
        []

  -- The loop over `v.PubKey.Address().String() == addr`.
  unfoldable pub has_pub_key_address : Bytes → List GenesisValidator → Bool
  has_pub_key_address addr [] = false
  has_pub_key_address addr (v ∷ vs) =
      bytes_eq (X.hex_bytes_string (X.pub_key_address v.pub_key)) addr
      || has_pub_key_address addr vs

  -- Whether `val.Address.String() == address` for some validator, and the list without the first.
  unfoldable pub has_address : Bytes → List GenesisValidator → Bool
  has_address addr [] = false
  has_address addr (v ∷ vs) = bytes_eq (X.hex_bytes_string v.address) addr || has_address addr vs

  unfoldable pub remove_validator_at : Bytes → List GenesisValidator → List GenesisValidator
  remove_validator_at addr [] = []
  remove_validator_at addr (v ∷ vs) =
      if bytes_eq (X.hex_bytes_string v.address) addr then vs else v ∷ remove_validator_at addr vs

  unfoldable pub put_validators : List GenesisValidator → Exec (ChainState X) (Unit {0})
  put_validators l = store_as X X.validators_codec l TreeName.app_tree validator_key

  -- AddValidator: adding one that is there already is no error.
  unfoldable pub add_validator : Bytes → ℤ → Exec (ChainState X) (Unit {0})
  add_validator pub_key power = do
    validators ← gets stored_validators
    let addr = X.pub_key_address pub_key
    if has_pub_key_address (X.hex_bytes_string addr) validators
        then pure tt
        else put_validators (
            validators
            ++ (record { address = addr; pub_key = pub_key; power = power; name = [] }) ∷ [])

  -- RemoveValidator
  unfoldable pub remove_validator : Bytes → Exec (ChainState X) (Unit {0})
  remove_validator address = do
    validators ← gets stored_validators
    fail_if (not (has_address address validators)) validator_not_found
    put_validators (remove_validator_at address validators)

  -- Validators
  unfoldable pub validators : Bool → ChainState X → Res (List GenesisValidator)
  validators is_query s =
      X.validators_codec.unmarshal (tree_get X TreeName.app_tree is_query validator_key s)
