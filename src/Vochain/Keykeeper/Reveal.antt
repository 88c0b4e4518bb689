-- ===== src/Vochain/Keykeeper/Reveal.antt =====
-- vochain/keykeeper/keykeeper.go: the transactions that publish and reveal keys.
use go_dvote.Prelude.{
  Bytes, List, [], ◌∷◌, Res, ok, err, panic, none, some, Option, codes, Exec, ◌>>=◌, ◌++◌, pure,
  Bool, no_private_key, lift, ◌>>◌, bind_res, true, gets_res, gets, modify, if◌then◌else◌, fail_if,
  false, ◌||◌, not, is_ok, ◌==◌, keys_already_exist, at_index, send_tx_failed, is_set,
}
use go_dvote.Vochain.Keykeeper.{
  ProcessKeys, Deps, Keeper, storage_put, storage_get, storage_del, entries_of, int8_of,
}
use go_dvote.Vochain.Scrutinizer.Blocks.{logged}
use go_dvote.Prelude.Int.{ℤ}
use go_dvote.Types.{AdminTx, require_keys}
use go_dvote.Vochain.State.{ChainState}
use go_dvote.Util.Decimal.{decimal_ℤ}
use go_dvote.Ethereum.{hash}
use go_dvote.Vochain.Keykeeper.Generate.{generate_keys, publish_tx, reveal_tx, encode}
use go_dvote.Vochain.State.Processes.{process}
use go_dvote.Util.Hex.{encode_to_string}
use go_dvote.Db.{has_of}

-- dbPrefixProcess and dbPrefixBlock.
unfoldable pub process_keys_key : Bytes → Bytes
process_keys_key pid = codes "p_" ++ pid

unfoldable pub reveal_block_key : ℤ → Bytes
reveal_block_key height = codes "b_" ++ decimal_ℤ height

module _ (X : go_dvote.Vochain.Deps.Deps) (K : Deps) where
  -- SignKeys.Sign
  unfoldable pub sign : Option Bytes → Bytes → Res Bytes
  sign none message = err no_private_key
  sign (some secret) message =
      bind_res (K.eth_sign secret (hash X.eth message)) λ sig. ok (encode_to_string sig)

  -- signAndSendTx
  unfoldable pub sign_and_send_tx : AdminTx → Exec (Keeper K) (Unit {0})
  sign_and_send_tx tx = do
    k ← gets (λ k. k)
    bytes ← lift (K.marshal_admin_tx tx)
    signature ← lift (sign k.signer bytes)
    bytes' ← lift (K.marshal_admin_tx (record tx { signature = signature }))
    modify (λ k. record k { sent = record tx { signature = signature } ∷ k.sent })
    code ← lift (K.send_tx k.sent bytes')
    fail_if (not (code == 0)) send_tx_failed

  -- publishKeys, on a pointer that may be nil.
  unfoldable pub publish_keys : Option ProcessKeys → Bytes → Exec (Keeper K) (Unit {0})
  publish_keys none pid = lift panic
  publish_keys (some pk) pid = do
    k ← gets (λ k. k)
    sign_and_send_tx (publish_tx (K.random_hex k.sent) pk pid)
    has ← gets (λ k. has_of (storage_get K (process_keys_key pid) k))
    fail_if (has.0 || not (is_ok has.1)) keys_already_exist
    storage_put K (process_keys_key pid) (encode pk)

  -- revealKeys. That nothing is deleted is only logged.
  unfoldable pub reveal_keys : Bytes → Exec (Keeper K) (Unit {0})
  reveal_keys pid = do
    k ← gets (λ k. k)
    pk ← lift (generate_keys X k.signer k.my_index pid)
    sign_and_send_tx (reveal_tx (K.random_hex k.sent) pk pid)
    logged (storage_del K (process_keys_key pid))

  -- The loop of publishPendingKeys over the pool.
  unfoldable pub publish_all : List (Bytes × Option ProcessKeys) → Exec (Keeper K) (Unit {0})
  publish_all [] = pure tt
  publish_all ((pid, pk) ∷ rest) = do logged (publish_keys pk pid); publish_all rest

  -- publishPendingKeys
  unfoldable pub publish_pending_keys : Exec (Keeper K) (Unit {0})
  unfolding publish_all
  publish_pending_keys = do k ← gets (λ k. k); publish_all (entries_of k.key_pool)

  -- The loop of checkRevealProcess: false when a process that requires no keys ends it.
  unfoldable pub reveal_all : List Bytes → ChainState X → Exec (Keeper K) Bool
  reveal_all [] chain = pure true
  reveal_all (pid ∷ pids) chain = do
    k ← gets (λ k. k)
    let rest = reveal_all pids chain
    elim (process X pid false chain) [
      | err e ↦ rest
      | panic ↦ lift panic
      | ok p ↦ if not (require_keys p) then pure false else (do
        key ← lift (at_index p.encryption_public_keys (int8_of k.my_index))
        if is_set key then logged (reveal_keys pid) else pure tt
        rest)
    ]

  -- checkRevealProcess
  unfoldable pub check_reveal_process : ℤ → ChainState X → Exec (Keeper K) (Unit {0})
  unfolding reveal_all
  check_reveal_process height chain = logged (do
    stored ← gets_res (storage_get K (reveal_block_key height))
    pids ← lift (K.pids_codec.unmarshal (some stored))
    all ← reveal_all pids chain
    if all then storage_del K (reveal_block_key height) else pure tt)
