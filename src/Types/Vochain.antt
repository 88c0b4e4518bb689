-- ===== src/Types/Vochain.antt =====
-- types/vochain.go: votes, processes and validators. An `int64` or `int` is an integer.
use go_dvote.Prelude.{ℕ, Bool, true, false, List, Option, Bytes, bytes_eq, if◌then◌else◌}
use go_dvote.Prelude.Int.{ℤ}
use go_dvote.Types.Consts.{petition_sign, poll_vote, encrypted_poll, snark_vote}

-- A `[]byte` that may be nil.
abbrev pub Slice : Type 0
Slice = Option Bytes

pub record Vote : Type 0 where
  pub encryption_key_indexes : List ℤ
  pub height : ℤ
  pub nullifier : Bytes
  pub process_id : Bytes
  pub vote_package : Bytes

-- `created` is a time in nanoseconds.
pub record VoteProof : Type 0 where
  pub proof : Bytes
  pub pub_key : Bytes
  pub pub_key_digest : Bytes
  pub nullifier : Bytes
  pub created : ℕ

pub record Process : Type 0 where
  pub canceled : Bool
  pub commitment_keys : List Bytes
  pub encryption_private_keys : List Bytes
  pub encryption_public_keys : List Bytes
  pub entity_id : Bytes
  pub key_index : ℤ
  pub mk_root : Bytes
  pub number_of_blocks : ℤ
  pub paused : Bool
  pub reveal_keys : List Bytes
  pub start_block : ℤ
  pub type : Bytes

-- ProcessRequireKeys and ProcessIsEncrypted, maps with the same entries; a type that is no key of
-- the map gives false.
unfoldable pub process_require_keys : Bytes → Bool
process_require_keys t =
    if bytes_eq t poll_vote
    then false
    else if bytes_eq t petition_sign
    then false
    else if bytes_eq t encrypted_poll
    then true
    else if bytes_eq t snark_vote
    then true
    else false

unfoldable pub process_is_encrypted : Bytes → Bool
process_is_encrypted t =
    if bytes_eq t poll_vote
    then false
    else if bytes_eq t petition_sign
    then false
    else if bytes_eq t encrypted_poll
    then true
    else if bytes_eq t snark_vote
    then true
    else false

unfoldable pub require_keys : Process → Bool
require_keys p = process_require_keys p.type

unfoldable pub is_encrypted : Process → Bool
is_encrypted p = process_is_encrypted p.type

-- A validator of the application state; a public key is its bytes.
pub record GenesisValidator : Type 0 where
  pub address : Bytes
  pub pub_key : Bytes
  pub power : ℤ
  pub name : Bytes

-- The fields of tendermint's block header that the program reads.
pub record Header : Type 0 where
  pub height : ℤ
  pub app_hash : Bytes
