-- ===== src/Vochain/Scrutinizer/Listing.antt =====
-- vochain/scrutinizer/scrutinizer.go and process.go: the lists of the keys of the database that have
-- a prefix, in pages.
use go_dvote.Prelude.{
  Bytes, List, [], ◌∷◌, Res, ok, bind_res, map, ◌^◌, ◌++◌, if◌then◌else◌, drop, ◌-◌, length, is_set,
  not, ◌&&◌, bytes_eq,
}
use go_dvote.Vochain.Scrutinizer.{Deps, Accounts}
use go_dvote.Prelude.Int.{pos, ℤ, sub64, ltb_ℤ}
use go_dvote.Db.{seek, has_prefix}
use go_dvote.Util.Hex.{decode_string, encode_to_string, trim_hex}

-- The loop of List from the position of the iterator on.
unfoldable pub list_loop : Bytes → Bytes → ℤ → List (Bytes × Bytes) → List Bytes
list_loop prefix from max [] = []
list_loop prefix from max ((k, v) ∷ es) =
    let skipped = list_loop prefix from max es in
    let more = list_loop prefix from (sub64 max (pos 1)) es in
    let key = drop (length prefix) k in
    if not (has_prefix prefix k)
    then []
    else if is_set from && bytes_eq key from
    then skipped
    else key ∷ (if ltb_ℤ (sub64 max (pos 1)) (pos 1) then [] else more)

module _ (K : Deps) where
  -- List
  unfoldable pub list_keys : ℤ → Bytes → Bytes → Accounts K → List Bytes
  unfolding list_loop
  list_keys max from prefix s =
      list_loop prefix from max (seek (prefix ++ from) (K.kv.entries s.storage))

  -- NewScrutinizer, on an opened database.
  unfoldable pub new_scrutinizer : K.kv.Db → Accounts K
  unfolding list_keys
  new_scrutinizer db =
      let s : Accounts K = record {
        storage = db;
        vote_pool = [];
        process_pool = [];
        results_pool = [];
        entity_count = pos 0;
      } in
      let entities = list_keys (pos (2 ^ 63 - 1)) [] (0x22 ∷ []) s in
      record s { entity_count = pos (length entities) }

  -- The list of the keys of one kind, in hexadecimal.
  unfoldable pub list_hex : ℤ → Bytes → Bytes → Accounts K → List Bytes
  unfolding list_keys
  list_hex max from prefix s = map encode_to_string (list_keys max from prefix s)

  -- ProcessListWithResults
  unfoldable pub process_list_with_results : ℤ → Bytes → Accounts K → Res (List Bytes)
  unfolding list_hex
  process_list_with_results max from_id s =
      bind_res (decode_string from_id) λ from. ok (list_hex max from (0x24 ∷ []) s)

  -- ProcessListWithLiveResults
  unfoldable pub process_list_with_live_results : ℤ → Bytes → Accounts K → Res (List Bytes)
  unfolding list_hex
  process_list_with_live_results max from_id s =
      bind_res (decode_string from_id) λ from. ok (list_hex max from (0x21 ∷ []) s)

  -- EntityList
  unfoldable pub entity_list : ℤ → Bytes → Accounts K → Res (List Bytes)
  unfolding list_hex
  entity_list max from_id s =
      bind_res (if is_set from_id then decode_string (trim_hex from_id) else ok [])
        λ from. ok (list_hex max from (0x22 ∷ []) s)
