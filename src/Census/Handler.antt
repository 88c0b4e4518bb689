-- ===== src/Census/Handler.antt =====
-- census/handler.go: Handler.
use go_dvote.Census.{CensusDeps, Census, MetaRequest, MetaResponse, set_error, empty_response}
use go_dvote.Census.Import.{on_tree}
use go_dvote.Trie.{Trie, root, snapshot, is_public}
use go_dvote.Vochain.Deps.{Deps}
use go_dvote.Db.{has_prefix}
use go_dvote.Prelude.{
  Bool, Bytes, invalid_authentication, bytes_eq, Exec, if◌then◌else◌, not, codes, pure, lift, gets,
  ok, census_not_found, ◌||◌, lookup, none, census_not_loaded, ltb, length, some, err,
  census_not_published, invalid_root_hash, ◌&&◌, panic,
}
use go_dvote.Util.Hex.{trim_hex}
use go_dvote.Census.Requests.{
  add_census_method, add_claim_bulk_method, gen_proof_method, add_claim_method, get_size_method,
  census_list_method, import_dump_method, import_remote_method, dump_method, check_proof_method,
  publish_method,
}
use go_dvote.Census.Namespaces.{exists}

-- `r.Method == name`
unfoldable pub is_method : MetaRequest → Bytes → Bool
is_method r name = bytes_eq r.method name

-- A request with its identifiers trimmed.
abbrev pub trim_request : MetaRequest → MetaRequest
trim_request r = record r { census_id = trim_hex r.census_id; root_hash = trim_hex r.root_hash }

abbrev pub denied : MetaResponse
denied = set_error invalid_authentication empty_response

module _ (X : Deps) (K : CensusDeps) where
  -- A private method on the tree of the census.
  unfoldable pub private_method :
      Bool → MetaRequest → Exec (Trie K.trees_db) MetaResponse → Exec (Census K) MetaResponse
  private_method allowed r act = if allowed then on_tree K r.census_id act else pure denied

  -- The second switch, on the tree or on a snapshot of it.
  unfoldable pub rooted_methods :
      MetaRequest → Bool → Trie K.trees_db → Exec (Census K) MetaResponse
  unfolding is_method
  rooted_methods r allowed tr =
      if is_method r (codes "genProof")
      then lift (gen_proof_method X K r tr)
      else if is_method r (codes "getSize")
      then lift (get_size_method X K tr)
      else if is_method r (codes "dump") || is_method r (codes "dumpPlain")
      then (if allowed
          then lift (dump_method X K (not (is_method r (codes "dump"))) r tr)
          else pure denied)
      else if is_method r (codes "publish")
      then (if allowed then publish_method X K r tr else pure denied)
      else pure empty_response

  -- The first switch, and the snapshot.
  unfoldable pub tree_methods : MetaRequest → Bool → Trie K.trees_db → Exec (Census K) MetaResponse
  unfolding is_method rooted_methods private_method
  tree_methods r allowed tr =
      if is_method r (codes "getRoot")
      then pure (record empty_response { root = root K.trees_db tr })
      else if is_method r (codes "addClaimBulk")
      then private_method allowed r (add_claim_bulk_method X K r)
      else if is_method r (codes "addClaim")
      then private_method allowed r (add_claim_method X K r)
      else if is_method r (codes "importDump")
      then private_method allowed r (import_dump_method X K r)
      else if is_method r (codes "importRemote")
      then private_method allowed r (import_remote_method X K r)
      else if is_method r (codes "checkProof")
      then lift (check_proof_method X K r tr)
      else if ltb 1 (length r.root_hash)
      then (elim (snapshot K.trees_db r.root_hash tr) [
        | ok tr' ↦ rooted_methods r allowed tr'
        | err e ↦ pure (set_error invalid_root_hash empty_response)
        | panic ↦ lift panic
      ])
      else rooted_methods r allowed tr

  -- From the check that the census exists on.
  unfoldable pub census_methods : MetaRequest → Bool → Bytes → Exec (Census K) MetaResponse
  unfolding tree_methods
  census_methods r is_auth census_prefix m =
      if not (exists K r.census_id m)
      then (ok (set_error census_not_found empty_response), m)
      else elim (lookup r.census_id m.trees) [
        | none ↦ (ok (set_error census_not_loaded empty_response), m)
        | some tr ↦
            if not (is_public K.trees_db tr)
            then (ok (set_error census_not_published empty_response), m)
            else tree_methods r (is_auth && has_prefix census_prefix r.census_id) tr m
      ]

  -- Handler, without the time of its response.
  unfoldable pub handler : MetaRequest → Bool → Bytes → Exec (Census K) MetaResponse
  unfolding is_method census_methods
  handler req is_auth census_prefix =
      let r = trim_request req in
      if is_method r (codes "addCensus")
      then (if is_auth then add_census_method X K census_prefix r else pure denied)
      else if is_method r (codes "getCensusList")
      then (if is_auth then gets (census_list_method X K) else pure denied)
      else census_methods r is_auth census_prefix
