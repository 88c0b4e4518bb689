-- ===== src/Vochain/Keykeeper.antt =====
-- vochain/keykeeper/keykeeper.go: the keys of the encrypted processes, which a listener of the
-- chain's state makes, publishes and reveals. Its state, and what it takes from outside.
pub mod Generate
pub mod Encoding
pub mod Accepted
pub mod Revealed
pub mod Pools
pub mod Reveal
use go_dvote.Prelude.{
  Bytes, List, [], ◌∷◌, ℕ, Res, Exec, codes, ok, err, panic, none, some, Option, if◌then◌else◌,
  insert, ltb, ◌-◌,
}
use go_dvote.Prelude.Int.{ℤ, pos, negsuc}
use go_dvote.Db.{Kv}
use go_dvote.Types.{AdminTx}
use go_dvote.Vochain.Deps.{Codec}

-- processKeys. The index is the byte of an int8.
pub record ProcessKeys : Type 0 where
  pub pub_key : Bytes
  pub priv_key : Bytes
  pub reveal_key : Bytes
  pub commitment_key : Bytes
  pub index : ℕ

-- What the key keeper takes from outside, next to what the chain's state does: the database, amino,
-- go-ethereum's signing of a hash with the secret of a key, and encoding/json. The nonces and the
-- code that the mempool answers depend on all that was sent before.
pub record Deps : Type 1 where
  pub kv : Kv
  pub pids_codec : Codec (List Bytes)
  pub eth_sign : Bytes → Bytes → Res Bytes
  pub marshal_admin_tx : AdminTx → Res Bytes
  pub random_hex : List AdminTx → Bytes
  pub send_tx : List AdminTx → Bytes → Res ℕ

-- KeyKeeper. The pools are Go maps from process ids; a nil map, on which a write panics, is `none`,
-- and so is a nil pointer in the pool of keys. The signer is the bytes of the number D of its
-- private key, `none` for a nil one. `sent` are the transactions handed to the mempool, the last
-- one first.
pub record KeyKeeper (Db : Type 0) : Type 0 where
  pub storage : Db
  pub key_pool : Option (List (Bytes × Option ProcessKeys))
  pub block_pool : Option (List (Bytes × ℤ))
  pub signer : Option Bytes
  pub my_index : ℕ
  pub sent : List AdminTx

-- The value of an int8 with a given byte.
unfoldable pub int8_of : ℕ → ℤ
int8_of b = if ltb b 128 then pos b else negsuc (255 - b)

-- The entries of a Go map that may be nil.
unfoldable pub entries_of {ℓ} : {A : Type ℓ} → Option (List A) → List A
entries_of none = []
entries_of (some es) = es

-- `m[k] = v` on a Go map that may be nil.
unfoldable pub map_write {ℓ} :
    {A : Type ℓ} → Bytes → A → Option (List (Bytes × A)) → Res (Option (List (Bytes × A)))
map_write k v none = panic
map_write k v (some m) = ok (some (insert k v m))

module _ (K : Deps) where
  abbrev pub Keeper : Type 0
  Keeper = KeyKeeper K.kv.Db

  unfoldable pub storage_get : Bytes → Keeper → Res Bytes
  storage_get key k = K.kv.get k.storage key

  unfoldable pub storage_put : Bytes → Bytes → Exec Keeper (Unit {0})
  storage_put key value k = elim (K.kv.put k.storage key value) [
    | ok db ↦ (ok tt, record k { storage = db })
    | err e ↦ (err e, k)
    | panic ↦ (panic, k)
  ]

  unfoldable pub storage_del : Bytes → Exec Keeper (Unit {0})
  storage_del key k = elim (K.kv.del k.storage key) [
    | ok db ↦ (ok tt, record k { storage = db })
    | err e ↦ (err e, k)
    | panic ↦ (panic, k)
  ]
