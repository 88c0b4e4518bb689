-- ===== src/Vochain/Scrutinizer.antt =====
-- vochain/scrutinizer/: the accounting of the votes, a listener of the chain's state. Its state, and
-- what it takes from outside. The operations are in the children, which use this module.
pub mod Writes
pub mod Tally
pub mod Entities
pub mod Results
pub mod Blocks
pub mod Listing
use go_dvote.Prelude.{Bytes, List, [], ◌∷◌, ℕ, Res, Exec, codes, ok, some, err, panic}
use go_dvote.Prelude.Int.{ℤ}
use go_dvote.Db.{Kv}
use go_dvote.Types.{Slice, Vote}
use go_dvote.Vochain.Deps.{Codec}
use mathlib.Core.Option.{none}

-- types.VotePackage, what a voter's payload decodes to.
pub record VotePackage : Type 0 where
  pub nonce : Bytes
  pub votes : List ℤ

-- types.ScrutinizerOnProcessData
pub record OnProcessData : Type 0 where
  pub entity_id : Bytes
  pub process_id : Bytes

-- ProcessVotes: for each question, for each option, a uint32.
abbrev pub ProcessVotes : Type 0
ProcessVotes = List (List ℕ)

-- The database, amino, the standard library's base64 and JSON, and nacl's anonymous boxes: `decrypt`
-- opens one with a pair of a private and a public key.
pub record Deps : Type 1 where
  pub kv : Kv
  pub results_codec : Codec ProcessVotes
  pub endings_codec : Codec (List Bytes)
  pub base64_decode : Bytes → Res Bytes
  pub unmarshal_package : Bytes → Res VotePackage
  pub decrypt : Bytes × Bytes → Bytes → Res Bytes

-- Scrutinizer. The state of the chain that it reads is an argument of the operations.
pub record Scrutinizer (Db : Type 0) : Type 0 where
  pub storage : Db
  pub vote_pool : List Vote
  pub process_pool : List OnProcessData
  pub results_pool : List OnProcessData
  pub entity_count : ℤ

abbrev pub max_questions : ℕ
max_questions = 64

abbrev pub max_options : ℕ
max_options = 64

-- encode, for the four kinds of keys.
unfoldable pub entity_key : Bytes → Bytes
entity_key eid = 0x22 ∷ eid

unfoldable pub live_process_key : Bytes → Bytes
live_process_key pid = 0x21 ∷ pid

unfoldable pub results_key : Bytes → Bytes
results_key pid = 0x24 ∷ pid

unfoldable pub process_ending_key : Bytes → Bytes
process_ending_key block = 0x25 ∷ block

-- The bytes of a slice; a nil slice is stored as an empty value.
unfoldable pub value_of : Slice → Bytes
value_of none = []
value_of (some b) = b

module _ (K : Deps) where
  abbrev pub Accounts : Type 0
  Accounts = Scrutinizer K.kv.Db

  -- `s.Storage.Get(key)`
  unfoldable pub storage_get : Bytes → Accounts → Res Bytes
  storage_get key s = K.kv.get s.storage key

  -- `s.Storage.Put(key, value)`
  unfoldable pub storage_put : Bytes → Bytes → Exec Accounts (Unit {0})
  storage_put key value s = elim (K.kv.put s.storage key value) [
    | ok db ↦ (ok tt, record s { storage = db })
    | err e ↦ (err e, s)
    | panic ↦ (panic, s)
  ]

  -- `s.Storage.Del(key)`
  unfoldable pub storage_del : Bytes → Exec Accounts (Unit {0})
  storage_del key s = elim (K.kv.del s.storage key) [
    | ok db ↦ (ok tt, record s { storage = db })
    | err e ↦ (err e, s)
    | panic ↦ (panic, s)
  ]
