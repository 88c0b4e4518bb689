-- ===== src/Types/Tx.antt =====
-- types/vochain.go: the transactions.
use go_dvote.Prelude.{
  ◌||◌, List, [], Bytes, bytes_eq, codes, length, take, ltb, if◌then◌else◌, ◌∷◌, lookup, none, some,
}
use go_dvote.Prelude.Int.{ℤ}
use go_dvote.Types.Consts

pub record VoteTx : Type 0 where
  pub encryption_key_indexes : List ℤ
  pub nonce : Bytes
  pub nullifier : Bytes
  pub process_id : Bytes
  pub proof : Bytes
  pub signature : Bytes
  pub type : Bytes
  pub vote_package : Bytes
  pub signed_bytes : Bytes

pub record NewProcessTx : Type 0 where
  pub entity_id : Bytes
  pub mk_root : Bytes
  pub mk_uri : Bytes
  pub number_of_blocks : ℤ
  pub process_id : Bytes
  pub process_type : Bytes
  pub signature : Bytes
  pub start_block : ℤ
  pub type : Bytes
  pub signed_bytes : Bytes

pub record CancelProcessTx : Type 0 where
  pub process_id : Bytes
  pub signature : Bytes
  pub type : Bytes
  pub signed_bytes : Bytes

pub record AdminTx : Type 0 where
  pub address : Bytes
  pub commitment_key : Bytes
  pub encryption_private_key : Bytes
  pub encryption_public_key : Bytes
  pub key_index : ℤ
  pub nonce : Bytes
  pub power : ℤ
  pub process_id : Bytes
  pub pub_key : Bytes
  pub reveal_key : Bytes
  pub signature : Bytes
  pub type : Bytes
  pub signed_bytes : Bytes

-- The four types that implement `GenericTX`.
pub data GenericTx : Type 0 where
  vote_tx : VoteTx → GenericTx
  admin_tx : AdminTx → GenericTx
  cancel_process_tx : CancelProcessTx → GenericTx
  new_process_tx : NewProcessTx → GenericTx

-- VoteTx.UniqID
unfoldable pub uniq_id : VoteTx → Bytes → Bytes
uniq_id tx process_type =
    if bytes_eq process_type Consts.poll_vote
      || (bytes_eq process_type Consts.petition_sign || bytes_eq process_type Consts.encrypted_poll)
    then (if ltb 32 (length tx.signature) then take 32 tx.signature else [])
    else []

-- ValidTypes: the name of the Go type for a transaction name.
unfoldable pub valid_types : List (Bytes × Bytes)
valid_types =
    (Consts.tx_vote, codes "VoteTx")
    ∷ (Consts.tx_new_process, codes "NewProcessTx")
    ∷ (Consts.tx_cancel_process, codes "CancelProcessTx")
    ∷ (Consts.tx_add_validator, codes "AdminTx")
    ∷ (Consts.tx_remove_validator, codes "AdminTx")
    ∷ (Consts.tx_add_oracle, codes "AdminTx")
    ∷ (Consts.tx_remove_oracle, codes "AdminTx")
    ∷ (Consts.tx_add_process_keys, codes "AdminTx")
    ∷ (Consts.tx_reveal_process_keys, codes "AdminTx")
    ∷ []

-- ValidateType
unfoldable pub validate_type : Bytes → Bytes
unfolding valid_types
validate_type t = elim (lookup t valid_types) [ none ↦ [] | some val ↦ val ]
