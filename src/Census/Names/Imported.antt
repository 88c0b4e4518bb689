-- ===== src/Census/Names/Imported.antt =====
-- census/importqueue.go: importing a census keeps the names of the namespaces distinct.
use go_dvote.Prelude.Keeps.{Keeps-if}
use go_dvote.Census.{CensusDeps, Census, CensusDump}
use go_dvote.Census.Namespaces.{add_namespace, del_namespace, decompress_bytes}
use go_dvote.Census.Import.{
  on_tree, publish_tree, ignore_error, import_tree, import_queue_round, retry_import, retrieve_uri,
  is_namespace_exists, create_namespace, fill_namespace,
}
use go_dvote.Census.Names.Kept.{
  KeepsDistinct, DistinctKept, bind-KeepsDistinct, catch-KeepsDistinct, fail_if-KeepsDistinct,
  add_namespace-KeepsDistinct, del_namespace-KeepsDistinct, on_tree-KeepsDistinct,
  publish_tree-KeepsDistinct, ignore_error-KeepsDistinct, DistinctKept-refl, then-KeepsDistinct,
}
use go_dvote.Trie.{import_dump, root}
use go_dvote.Prelude.{
  Bytes, Res-cases, lift, pure, ◌>>◌, [], gets, inl, or_error, true, arith, bad_census_format, not,
  fail_if, inr, bytes_eq, dump_root_mismatch, length, ◌==◌, no_claims, if◌then◌else◌, false, fail,
  Exec, imported_root_mismatch, modify, erase, ◌>>=◌,
}

module _ (K : CensusDeps) where
  create_namespace-KeepsDistinct : (cid : Bytes) → KeepsDistinct K (create_namespace K cid)
  unfolding create_namespace
  create_namespace-KeepsDistinct cid =
      catch-KeepsDistinct K (do add_namespace K cid []; pure true)
        (λ e. if is_namespace_exists e then pure false else fail e)
        (then-KeepsDistinct K (add_namespace K cid []) (pure true)
          (add_namespace-KeepsDistinct K cid []) (DistinctKept-refl K))
        (λ e.
          Keeps-if (DistinctKept K) (is_namespace_exists e) (pure false) (fail e)
            (DistinctKept-refl K) (DistinctKept-refl K))

  fill_namespace-KeepsDistinct :
      (cid : Bytes) (dump : CensusDump) → KeepsDistinct K (fill_namespace K cid dump)
  unfolding fill_namespace
  fill_namespace-KeepsDistinct cid dump =
      let undone : Exec (Census K) (Unit {0}) = ignore_error (del_namespace K cid) in
      let undo : Exec (Census K) (Unit {0}) = undone >> fail imported_root_mismatch in
      let import_claims : Exec (Census K) (Unit {0}) =
        on_tree K cid (import_dump K.trees_db dump.claims_data) in
      let read_root : Exec (Census K) Bytes = on_tree K cid (gets (root K.trees_db)) in
      let end : Bytes → Exec (Census K) (Unit {0}) =
        λ h. if not (bytes_eq h dump.root_hash) then undo else publish_tree K cid in
      then-KeepsDistinct K import_claims (read_root >>= end)
        (on_tree-KeepsDistinct K cid (import_dump K.trees_db dump.claims_data))
        (bind-KeepsDistinct K read_root end (on_tree-KeepsDistinct K cid (gets (root K.trees_db)))
          λ h.
            Keeps-if (DistinctKept K) (not (bytes_eq h dump.root_hash)) undo (publish_tree K cid)
              (then-KeepsDistinct K undone (fail imported_root_mismatch)
                (ignore_error-KeepsDistinct K (del_namespace K cid)
                  (del_namespace-KeepsDistinct K cid))
                (DistinctKept-refl K))
              (publish_tree-KeepsDistinct K cid))

  pub import_tree-KeepsDistinct : (tree cid : Bytes) → KeepsDistinct K (import_tree K tree cid)
  unfolding import_tree
  import_tree-KeepsDistinct tree cid =
      let create : CensusDump → Exec (Census K) (Unit {0}) = λ dump.
        create_namespace K cid >>= λ is_new.
        if not is_new then pure tt else fill_namespace K cid dump in
      let filled : CensusDump → Exec (Census K) (Unit {0}) =
        λ dump. fail_if (length dump.claims_data == 0) no_claims >> create dump in
      let checked : CensusDump → Exec (Census K) (Unit {0}) =
        λ dump. fail_if (not (bytes_eq dump.root_hash cid)) dump_root_mismatch >> filled dump in
      bind-KeepsDistinct K (lift (or_error (K.unmarshal_dump tree) bad_census_format)) checked
        (DistinctKept-refl K)
        λ dump.
          then-KeepsDistinct K (fail_if (not (bytes_eq dump.root_hash cid)) dump_root_mismatch)
            (filled dump)
            (fail_if-KeepsDistinct K (not (bytes_eq dump.root_hash cid)) dump_root_mismatch)
            (then-KeepsDistinct K (fail_if (length dump.claims_data == 0) no_claims) (create dump)
              (fail_if-KeepsDistinct K (length dump.claims_data == 0) no_claims)
              (bind-KeepsDistinct K (create_namespace K cid)
                (λ is_new. if not is_new then pure tt else fill_namespace K cid dump)
                (create_namespace-KeepsDistinct cid)
                λ is_new.
                  Keeps-if (DistinctKept K) (not is_new) (pure tt) (fill_namespace K cid dump)
                    (DistinctKept-refl K) (fill_namespace-KeepsDistinct cid dump)))

  pub import_queue_round-KeepsDistinct :
      (cid uri : Bytes) → KeepsDistinct K (import_queue_round K cid uri)
  unfolding import_queue_round DistinctKept
  import_queue_round-KeepsDistinct cid uri s d =
      let imported : Bytes → Exec (Census K) (Unit {0}) =
        λ raw. import_tree K (decompress_bytes K raw) cid in
      elim (Res-cases (retrieve_uri K uri)) [
        | inl (raw, e) ↦ rw e (
            ground (
              arith,
              d,
              ignore_error-KeepsDistinct K (imported raw)
                  (import_tree-KeepsDistinct (decompress_bytes K raw) cid) s d,
            ))
        | inr (inl (er, e)) ↦ rw e (ground (arith, d))
        | inr (inr e) ↦ rw e (ground (arith, d))
      ]

  forget-KeepsDistinct :
      (cid : Bytes)
      → KeepsDistinct K (modify (λ m. record m { failed_queue = erase cid m.failed_queue }))
  unfolding DistinctKept
  forget-KeepsDistinct cid s d = d

  pub retry_import-KeepsDistinct : (cid uri : Bytes) → KeepsDistinct K (retry_import K cid uri)
  unfolding retry_import
  retry_import-KeepsDistinct cid uri =
      let imported : Bytes → Exec (Census K) (Unit {0}) =
        λ raw. import_tree K (decompress_bytes K raw) cid in
      let forget : Exec (Census K) (Unit {0}) =
        modify (λ m. record m { failed_queue = erase cid m.failed_queue }) in
      catch-KeepsDistinct K
        (lift (retrieve_uri K uri) >>= λ raw. ignore_error (imported raw) >> forget) (λ e. pure tt)
        (bind-KeepsDistinct K (lift (retrieve_uri K uri))
          (λ raw. ignore_error (imported raw) >> forget) (DistinctKept-refl K)
          λ raw.
            then-KeepsDistinct K (ignore_error (imported raw)) forget
              (ignore_error-KeepsDistinct K (imported raw)
                (import_tree-KeepsDistinct (decompress_bytes K raw) cid))
              (forget-KeepsDistinct cid))
        (λ e. DistinctKept-refl K)
