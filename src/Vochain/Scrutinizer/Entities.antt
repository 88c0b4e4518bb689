-- ===== src/Vochain/Scrutinizer/Entities.antt =====
-- vochain/scrutinizer/process.go: the list of the processes of an entity, one key for each entity.
use go_dvote.Prelude.{
  Bytes, List, [], ◌∷◌, Res, ok, err, panic, Bool, false, none, some, Exec, key_not_found, ◌>>=◌,
  bind_res, not, bytes_eq, gets_res, ◌>>◌, is_set, fail_if, length, if◌then◌else◌, ◌==◌, ◌||◌,
  wrong_process_id_size, ◌++◌, modify,
}
use go_dvote.Vochain.Scrutinizer.{Deps, Accounts, storage_get, storage_put, entity_key}
use go_dvote.Prelude.Int.{ℤ, sub64, pos, ltb_ℤ, add64}
use go_dvote.Util.Split.{split_bytes}
use go_dvote.Types.Consts.{process_id_size}

-- The loop of ProcessList: `waiting` until the process after which the list starts was seen.
unfoldable pub process_list_loop : Bool → Bytes → ℤ → List Bytes → List Bytes
process_list_loop waiting from max [] = []
process_list_loop waiting from max (p ∷ ps) =
    let still = process_list_loop (not (bytes_eq from p)) from max ps in
    let listed = process_list_loop false from (sub64 max (pos 1)) ps in
    if ltb_ℤ max (pos 1) || length p == 0 then [] else if waiting then still else p ∷ listed

-- The value of a Get whose missing key is no error: no bytes.
unfoldable pub found_or_empty : Res Bytes → Res Bytes
found_or_empty (ok b) = ok b
found_or_empty (err key_not_found) = ok []
found_or_empty (err e) = err e
found_or_empty panic = panic

module _ (K : Deps) where
  unfoldable pub get_or_empty : Bytes → Accounts K → Res Bytes
  unfolding found_or_empty
  get_or_empty key s = found_or_empty (storage_get K key s)

  -- ProcessList
  unfoldable pub process_list : Bytes → Bytes → ℤ → Accounts K → Res (List Bytes)
  process_list entity_id from_id max s = bind_res (storage_get K (entity_key entity_id) s) λ list.
      elim (split_bytes list (pos process_id_size)) [
        | none ↦ panic
        | some r ↦ bind_res r λ chunks. ok (process_list_loop (is_set from_id) from_id max chunks)
      ]

  -- addEntity. Its errors are logged and end it.
  unfoldable pub add_entity : Bytes → Bytes → Exec (Accounts K) (Unit {0})
  add_entity eid pid = do
    list ← gets_res (get_or_empty (entity_key eid))
    fail_if (not (length pid == process_id_size)) wrong_process_id_size
    storage_put K (entity_key eid) (list ++ pid)
    modify (λ s. record s { entity_count = add64 s.entity_count (pos 1) })

  -- EntityCount
  unfoldable pub entity_count : Accounts K → ℤ
  entity_count s = s.entity_count
