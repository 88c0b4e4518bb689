-- ===== src/Vochain/Keykeeper/Pools.antt =====
-- vochain/keykeeper/keykeeper.go: the listener, whose pools hold the work of one block.
use go_dvote.Prelude.{
  Bytes, List, [], ◌∷◌, ℕ, Res, ok, err, panic, none, some, Option, Exec, ◌>>=◌, pure, Bool, modify,
  if◌then◌else◌, ◌>>◌, gets_res, gets, ltb, lookup, lift, length, missing_values, bind_res, ◌++◌,
  false, not, ◌==◌, value_or, true, index_zero, at_index, is_set, ◌||◌,
}
use go_dvote.Vochain.Keykeeper.{
  ProcessKeys, Deps, Keeper, storage_put, storage_get, entries_of, map_write, int8_of,
}
use go_dvote.Vochain.Scrutinizer.Blocks.{logged}
use go_dvote.Prelude.Int.{ℤ, add64, pos}
use go_dvote.Vochain.State.{ChainState, header}
use go_dvote.Types.{Header, require_keys}
use go_dvote.Db.{has_of}
use go_dvote.Vochain.Keykeeper.Generate.{generate_keys}
use go_dvote.Vochain.Keykeeper.Reveal.{reveal_block_key}
use go_dvote.Vochain.State.Processes.{process}
use go_dvote.Vochain.Scrutinizer.{value_of}
use go_dvote.Vochain.Transaction.Admin.{either_key_is_set}

module _ (X : go_dvote.Vochain.Deps.Deps) (K : Deps) where
  -- NewKeyKeeper, on an opened database: the pools are nil maps. The application is given, and no
  -- listener is registered here.
  unfoldable pub new_key_keeper : Bytes → K.kv.Db → Option Bytes → ℕ → Res (Keeper K)
  new_key_keeper db_path db signer index =
      if ltb (length db_path) 1
      then err missing_values
      else if index == 0
      then err index_zero
      else ok (record {
        storage = db;
        key_pool = none;
        block_pool = none;
        signer = signer;
        my_index = index;
        sent = [];
      })

  -- Rollback
  unfoldable pub rollback : Exec (Keeper K) (Unit {0})
  rollback = modify (λ k. record k { key_pool = some []; block_pool = some [] })

  -- `k.keyPool[pid], err = k.generateKeys(pid)`: a nil pointer is stored with an error.
  unfoldable pub pool_keys : Bytes → Res ProcessKeys → Exec (Keeper K) (Unit {0})
  pool_keys pid r = do
    k ← gets (λ k. k)
    pk ← lift (elim r [ ok pk ↦ ok (some pk) | err e ↦ ok none | panic ↦ panic ])
    pool ← lift (map_write pid pk k.key_pool)
    modify (λ k. record k { key_pool = pool })

  -- The end of OnProcess, when keys are wanted.
  unfoldable pub make_keys : Bytes → ℤ → Exec (Keeper K) (Unit {0})
  unfolding pool_keys
  make_keys pid height = do
    k ← gets (λ k. k)
    let generated = generate_keys X k.signer k.my_index pid
    pool_keys pid generated
    lift generated
    pool ← lift (map_write pid height k.block_pool)
    modify (λ k. record k { block_pool = pool })

  -- Whether the pool has an entry for a process.
  unfoldable pub is_pooled : Bytes → Option (List (Bytes × Option ProcessKeys)) → Bool
  is_pooled pid pool = elim (lookup pid (entries_of pool)) [ none ↦ false | some pk ↦ true ]

  -- OnProcess
  unfoldable pub on_process : Bytes → ChainState X → Exec (Keeper K) (Unit {0})
  unfolding make_keys is_pooled
  on_process pid chain = logged (do
    k ← gets (λ k. k)
    p ← lift (process X pid false chain)
    if not (require_keys p) then pure tt else (do
      used ←
          lift (either_key_is_set p.encryption_public_keys p.commitment_keys (int8_of k.my_index))
      if used || is_pooled pid k.key_pool
          then pure tt
          else make_keys pid (add64 p.start_block p.number_of_blocks)))

  -- The height of the header, where a nil header panics.
  unfoldable pub header_height : Option Header → Res ℤ
  header_height none = panic
  header_height (some h) = ok h.height

  -- OnCancel
  unfoldable pub on_cancel : Bytes → ChainState X → Exec (Keeper K) (Unit {0})
  unfolding header_height
  on_cancel pid chain = logged (do
    k ← gets (λ k. k)
    p ← lift (process X pid false chain)
    if not (require_keys p) then pure tt else (do
      key ← lift (at_index p.encryption_public_keys (int8_of k.my_index))
      if not (is_set key) then pure tt else (do
        height ← lift (header_height (header X false chain))
        pool ← lift (map_write pid (add64 height (pos 1)) k.block_pool)
        modify (λ k. record k { block_pool = pool }))))

  -- The list of a block that is already in the storage; one that does not decode is taken as empty.
  unfoldable pub scheduled : ℤ → Keeper K → Res (List Bytes)
  scheduled height k =
      if (has_of (storage_get K (reveal_block_key height) k)).0
      then (bind_res (storage_get K (reveal_block_key height) k)
          λ stored. ok (value_or (K.pids_codec.unmarshal (some stored)) []))
      else ok []

  -- One round of scheduleRevealKeys.
  unfoldable pub schedule_one : Bytes → ℤ → Exec (Keeper K) (Unit {0})
  unfolding scheduled
  schedule_one pid height = do
    pids ← gets_res (scheduled height)
    bytes ← lift (K.pids_codec.marshal (pids ++ pid ∷ []))
    storage_put K (reveal_block_key height) (value_of bytes)

  unfoldable pub schedule_all : List (Bytes × ℤ) → Exec (Keeper K) (Unit {0})
  unfolding schedule_one
  schedule_all [] = pure tt
  schedule_all ((pid, height) ∷ rest) = do logged (schedule_one pid height); schedule_all rest

  -- scheduleRevealKeys
  unfoldable pub schedule_reveal_keys : Exec (Keeper K) (Unit {0})
  unfolding schedule_all
  schedule_reveal_keys = do k ← gets (λ k. k); schedule_all (entries_of k.block_pool)
