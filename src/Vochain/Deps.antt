-- ===== src/Vochain/Deps.antt =====
-- What the chain's code calls outside the repository, and the state database behind its interface.
use go_dvote.Prelude.{◌≡◌, Bool, List, some, Bytes, Res, ok, is_set, true}
use go_dvote.Types.{
  Slice, Vote, Process, GenesisValidator, Header, VoteTx, AdminTx, NewProcessTx, CancelProcessTx,
}
use go_dvote.Statedb.{StateDb}
use go_dvote.Ethereum.{EthCrypto}

-- go-amino's MarshalBinaryBare and UnmarshalBinaryBare at one type: what was encoded to a non-nil
-- slice decodes to the same value, and is not empty, since the bytes of a buffer that nothing was
-- written to are nil.
pub record Codec (A : Type 0) : Type 0 where
  pub marshal : A → Res Slice
  pub unmarshal : Slice → Res A
  pub unmarshal-marshal : (a : A) (b : Bytes) → marshal a ≡ ok (some b) → unmarshal (some b) ≡ ok a
  pub is_set-marshal : (a : A) (b : Bytes) → marshal a ≡ ok (some b) → is_set b ≡ true

-- encoding/json on the transactions.
pub record Json : Type 0 where
  pub unmarshal_tx : Bytes → Res Bytes
  pub unmarshal_vote_tx : Bytes → Res VoteTx
  pub unmarshal_admin_tx : Bytes → Res AdminTx
  pub unmarshal_new_process_tx : Bytes → Res NewProcessTx
  pub unmarshal_cancel_process_tx : Bytes → Res CancelProcessTx
  pub marshal_vote_tx : VoteTx → Res Bytes
  pub marshal_admin_tx : AdminTx → Res Bytes
  pub marshal_new_process_tx : NewProcessTx → Res Bytes
  pub marshal_cancel_process_tx : CancelProcessTx → Res Bytes

pub record Deps : Type 1 where
  pub json : Json
  pub db : StateDb
  pub process_codec : Codec Process
  pub vote_codec : Codec Vote
  pub header_codec : Codec Header
  pub oracles_codec : Codec (List Bytes)
  pub validators_codec : Codec (List GenesisValidator)
  pub eth : EthCrypto
  -- tendermint: `PubKey.Address` of an ed25519 key, and `HexBytes.String`
  pub pub_key_address : Bytes → Bytes
  pub hex_bytes_string : Bytes → Bytes
  -- iden3: the Poseidon hash of crypto/snarks
  pub poseidon : Bytes → Bytes
  -- golang.org/x/crypto: `curve25519.X25519` with the base point
  pub x25519_base : Bytes → Res Bytes
  -- graviton: `Proof.Unmarshal` and `Proof.VerifyMembership`
  pub Proof : Type 0
  pub unmarshal_proof : Bytes → Res Proof
  pub verify_membership : Proof → Bytes → Bytes → Bool
