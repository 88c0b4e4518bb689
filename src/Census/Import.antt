-- ===== src/Census/Import.antt =====
-- census/importqueue.go: the import of a census from the remote storage, round by round of the loops
-- of its daemons.
use go_dvote.Census.{CensusDeps, Census, CensusDump}
use go_dvote.Census.Namespaces.{decompress_bytes, exists, add_namespace, del_namespace, put_tree}
use go_dvote.Trie.{Trie, import_dump, publish, root}
use go_dvote.Prelude.{
  Bytes, Error, Exec, List, pure, if◌then◌else◌, ok, Res, Bool, ◌>>=◌, lookup, lift, none, ◌∷◌, err,
  true, panic, or_error, false, insert, ◌>>◌, some, bad_census_format, modify, namespace_exists,
  erase, ltb, fail_if, length, not, drop, bytes_eq, dump_root_mismatch, ◌==◌, no_claims, [], fail,
  gets, imported_root_mismatch,
}

-- `err == ErrNamespaceExist`
unfoldable pub is_namespace_exists : Error → Bool
is_namespace_exists namespace_exists = true
is_namespace_exists e = false

-- An action whose error is handled.
abbrev pub catch : {S A : Type 0} → Exec S A → (Error → Exec S A) → Exec S A
catch m handle s =
    let (r, s') = m s in elim r [ ok a ↦ (ok a, s') | err e ↦ handle e s' | panic ↦ (panic, s') ]

-- An action whose error is logged, at most.
abbrev pub ignore_error : {S : Type 0} → Exec S (Unit {0}) → Exec S (Unit {0})
ignore_error m = catch m (λ e. pure tt)

module _ (K : CensusDeps) where
  -- A method of the tree of a namespace: the map holds a pointer to it.
  unfoldable pub on_tree : {A : Type 0} → Bytes → Exec (Trie K.trees_db) A → Exec (Census K) A
  unfolding put_tree
  on_tree name act m = elim (lookup name m.trees) [
    | none ↦ (panic, m)
    | some tr ↦ (let (r, tr') = act tr in (r, put_tree K name tr' m))
  ]

  unfoldable pub publish_tree : Bytes → Exec (Census K) (Unit {0})
  unfolding on_tree
  publish_tree name = on_tree name (λ tr. (ok tt, publish K.trees_db tr))

  -- The namespace of importTree: false when it exists.
  unfoldable pub create_namespace : Bytes → Exec (Census K) Bool
  unfolding is_namespace_exists
  create_namespace cid =
      catch (do add_namespace K cid []; pure true)
        (λ e. if is_namespace_exists e then pure false else fail e)

  -- Its claims.
  unfoldable pub fill_namespace : Bytes → CensusDump → Exec (Census K) (Unit {0})
  unfolding on_tree publish_tree
  fill_namespace cid dump = do
    on_tree cid (import_dump K.trees_db dump.claims_data)
    root_hash ← on_tree cid (gets (root K.trees_db))
    if not (bytes_eq root_hash dump.root_hash)
        then (do ignore_error (del_namespace K cid); fail imported_root_mismatch)
        else publish_tree cid

  -- importTree
  unfoldable pub import_tree : Bytes → Bytes → Exec (Census K) (Unit {0})
  unfolding create_namespace fill_namespace
  import_tree tree cid = do
    dump ← lift (or_error (K.unmarshal_dump tree) bad_census_format)
    fail_if (not (bytes_eq dump.root_hash cid)) dump_root_mismatch
    fail_if (length dump.claims_data == 0) no_claims
    is_new ← create_namespace cid
    if not is_new then pure tt else fill_namespace cid dump

  -- `m.RemoteStorage.Retrieve(ctx, uri[len(m.RemoteStorage.URIprefix()):])`
  unfoldable pub retrieve_uri : Bytes → Res Bytes
  retrieve_uri uri = elim K.remote [
    | none ↦ panic
    | some storage ↦
        if ltb (length uri) (length storage.uri_prefix)
        then panic
        else storage.retrieve (drop (length storage.uri_prefix) uri)
  ]

  -- A round of importQueueDaemon.
  unfoldable pub import_queue_round : Bytes → Bytes → Exec (Census K) (Unit {0})
  unfolding import_tree retrieve_uri
  import_queue_round cid uri m = if exists K cid m then (ok tt, m) else elim (retrieve_uri uri) [
    | ok raw ↦ ignore_error (import_tree (decompress_bytes K raw) cid) m
    | err e ↦
        if K.is_timeout e
        then (ok tt, record m { failed_queue = insert cid uri m.failed_queue })
        else (ok tt, m)
    | panic ↦ (panic, m)
  ]

  -- A round of the inner loop of importFailedQueueDaemon.
  unfoldable pub retry_import : Bytes → Bytes → Exec (Census K) (Unit {0})
  unfolding import_tree retrieve_uri
  retry_import cid uri =
      catch
        (do
          raw ← lift (retrieve_uri uri)
          ignore_error (import_tree (decompress_bytes K raw) cid)
          modify (λ m. record m { failed_queue = erase cid m.failed_queue }))
        (λ e. pure tt)

  -- A round of importFailedQueueDaemon, over a copy of the map.
  unfoldable pub retry_all : List (Bytes × Bytes) → Exec (Census K) (Unit {0})
  unfolding retry_import
  retry_all [] = pure tt
  retry_all (e ∷ queue) = do retry_import e.0 e.1; retry_all queue

  unfoldable pub import_failed_queue_round : Exec (Census K) (Unit {0})
  unfolding retry_all
  import_failed_queue_round m = retry_all m.failed_queue m
