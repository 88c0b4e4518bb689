-- ===== src/Census/Names/Served.antt =====
-- census/handler.go: serving a request keeps the names of the namespaces distinct.
use go_dvote.Prelude.Keeps.{Keeps-if}
use go_dvote.Census.{CensusDeps, Census, MetaRequest, MetaResponse, empty_response, set_error}
use go_dvote.Census.Namespaces.{add_namespace, del_namespace}
use go_dvote.Census.Import.{on_tree, publish_tree, catch, ignore_error}
use go_dvote.Census.Requests.{
  add_census_method, add_published, publish_method, publish_dump, add_claim_bulk_method,
  add_claim_method, import_dump_method, import_remote_method,
}
use go_dvote.Census.Names.Kept.{
  KeepsDistinct, DistinctKept, DistinctKept-refl, bind-KeepsDistinct, then-KeepsDistinct,
  catch-KeepsDistinct, add_namespace-KeepsDistinct, del_namespace-KeepsDistinct,
  on_tree-KeepsDistinct, publish_tree-KeepsDistinct, ignore_error-KeepsDistinct,
}
use go_dvote.Trie.{Trie, import_dump, root, snapshot}
use go_dvote.Vochain.Deps.{Deps}
use go_dvote.Census.Handler.{
  trim_request, handler, census_methods, tree_methods, rooted_methods, private_method, denied,
}
use go_dvote.Prelude.{
  Bool, Bytes, List, Res-cases, Exec, inl, ◌++◌, arith, ◌>>◌, pure, inr, true, false, Error,
  if◌then◌else◌, not, Option-cases, lookup, ◌&&◌,
}
use go_dvote.Db.{has_prefix}

module _ (X : Deps) (K : CensusDeps) where
  add_census_method-KeepsDistinct :
      (prefix : Bytes) (r : MetaRequest) → KeepsDistinct K (add_census_method X K prefix r)
  unfolding add_census_method
  add_census_method-KeepsDistinct prefix r =
      let name = prefix ++ r.census_id in
      let answer : Exec (Census K) MetaResponse =
        pure (record empty_response { census_id = name }) in
      catch-KeepsDistinct K (add_namespace K name r.pub_keys >> (publish_tree K name >> answer))
        (λ e. pure (set_error e empty_response))
        (then-KeepsDistinct K (add_namespace K name r.pub_keys) (publish_tree K name >> answer)
          (add_namespace-KeepsDistinct K name r.pub_keys)
          (then-KeepsDistinct K (publish_tree K name) answer (publish_tree-KeepsDistinct K name)
            (DistinctKept-refl K)))
        (λ e. DistinctKept-refl K)

  add_published-KeepsDistinct :
      (r : MetaRequest) (claims : List Bytes) (resp : MetaResponse)
      → KeepsDistinct K (add_published X K r claims resp)
  unfolding add_published
  add_published-KeepsDistinct r claims resp =
      let created : Exec (Census K) Bool =
        catch (add_namespace K resp.root r.pub_keys >> pure true) (λ e. pure false) in
      let undo : Error → Exec (Census K) MetaResponse =
        λ e. ignore_error (del_namespace K resp.root) >> pure (set_error e resp) in
      let import_claims : Exec (Census K) (Unit {0}) =
        on_tree K resp.root (import_dump K.trees_db claims) in
      let publish_all : Exec (Census K) MetaResponse = publish_tree K resp.root >> pure resp in
      let fill : Exec (Census K) MetaResponse = catch (import_claims >> publish_all) undo in
      bind-KeepsDistinct K created (λ c. if not c then pure resp else fill)
        (catch-KeepsDistinct K (add_namespace K resp.root r.pub_keys >> pure true) (λ e. pure false)
          (then-KeepsDistinct K (add_namespace K resp.root r.pub_keys) (pure true)
            (add_namespace-KeepsDistinct K resp.root r.pub_keys) (DistinctKept-refl K))
          (λ e. DistinctKept-refl K))
        λ c. Keeps-if (DistinctKept K) (not c) (pure resp) fill (DistinctKept-refl K) (
          catch-KeepsDistinct K (import_claims >> publish_all) undo
            (then-KeepsDistinct K import_claims publish_all
              (on_tree-KeepsDistinct K resp.root (import_dump K.trees_db claims))
              (then-KeepsDistinct K (publish_tree K resp.root) (pure resp)
                (publish_tree-KeepsDistinct K resp.root) (DistinctKept-refl K)))
            (λ e.
              then-KeepsDistinct K (ignore_error (del_namespace K resp.root))
                (pure (set_error e resp))
                (ignore_error-KeepsDistinct K (del_namespace K resp.root)
                  (del_namespace-KeepsDistinct K resp.root))
                (DistinctKept-refl K)))

  publish_method-KeepsDistinct :
      (r : MetaRequest) (tr : Trie K.trees_db) → KeepsDistinct K (publish_method X K r tr)
  unfolding publish_method
  publish_method-KeepsDistinct r tr s = elim (Res-cases (publish_dump X K tr)) [
    | inl (p, e) ↦
        rw (e, publish_method)
          (add_published-KeepsDistinct r p.0
            (record empty_response { uri = p.1; root = root K.trees_db tr }) s)
    | inr (inl (er, e)) ↦ rw (e, publish_method) (DistinctKept-refl K s)
    | inr (inr e) ↦ rw (e, publish_method) (DistinctKept-refl K s)
  ]

  private_method-KeepsDistinct :
      (allowed : Bool) (r : MetaRequest) (act : Exec (Trie K.trees_db) MetaResponse)
      → KeepsDistinct K (private_method X K allowed r act)
  unfolding private_method
  private_method-KeepsDistinct allowed r act =
      Keeps-if (DistinctKept K) allowed (on_tree K r.census_id act) (pure denied)
        (on_tree-KeepsDistinct K r.census_id act) (DistinctKept-refl K)

  rooted_methods-KeepsDistinct :
      (r : MetaRequest) (allowed : Bool) (tr : Trie K.trees_db)
      → KeepsDistinct K (rooted_methods X K r allowed tr)
  unfolding rooted_methods
  rooted_methods-KeepsDistinct r allowed tr s =
      ground (arith, publish_method-KeepsDistinct r tr s, DistinctKept-refl K s)

  tree_methods-KeepsDistinct :
      (r : MetaRequest) (allowed : Bool) (tr : Trie K.trees_db)
      → KeepsDistinct K (tree_methods X K r allowed tr)
  unfolding tree_methods
  tree_methods-KeepsDistinct r allowed tr s =
      let bulk = private_method-KeepsDistinct allowed r (add_claim_bulk_method X K r) s in
      let one = private_method-KeepsDistinct allowed r (add_claim_method X K r) s in
      let dumped = private_method-KeepsDistinct allowed r (import_dump_method X K r) s in
      let fetched = private_method-KeepsDistinct allowed r (import_remote_method X K r) s in
      let same = DistinctKept-refl K s in
      let whole = rooted_methods-KeepsDistinct r allowed tr s in
      elim (Res-cases (snapshot K.trees_db r.root_hash tr)) [
        | inl (tr', e) ↦ rw e (
            ground (
              arith,
              bulk,
              one,
              dumped,
              fetched,
              same,
              whole,
              rooted_methods-KeepsDistinct r allowed tr' s,
            ))
        | inr (inl (er, e)) ↦ rw e (ground (arith, bulk, one, dumped, fetched, same, whole))
        | inr (inr e) ↦ rw e (ground (arith, bulk, one, dumped, fetched, same, whole))
      ]

  census_methods-KeepsDistinct :
      (r : MetaRequest) (is_auth : Bool) (census_prefix : Bytes)
      → KeepsDistinct K (census_methods X K r is_auth census_prefix)
  unfolding census_methods
  census_methods-KeepsDistinct r is_auth census_prefix s =
      let same = DistinctKept-refl K s in
      elim (Option-cases (lookup r.census_id s.trees)) [
        | inl e ↦ rw e (ground (arith, same))
        | inr (tr, e) ↦ rw e (
            ground (
              arith,
              same,
              tree_methods-KeepsDistinct r (is_auth && has_prefix census_prefix r.census_id) tr s,
            ))
      ]

  pub handler-KeepsDistinct :
      (req : MetaRequest) (is_auth : Bool) (census_prefix : Bytes)
      → KeepsDistinct K (handler X K req is_auth census_prefix)
  unfolding handler
  handler-KeepsDistinct req is_auth census_prefix s =
      let r = trim_request req in
      ground (
        arith,
        DistinctKept-refl K s,
        add_census_method-KeepsDistinct census_prefix r s,
        census_methods-KeepsDistinct r is_auth census_prefix s,
      )
