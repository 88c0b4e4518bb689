-- ===== src/Census/Names/Steps.antt =====
-- census/: the operations of the census manager as steps, in any order.
use go_dvote.Census.{CensusDeps, Census, MetaRequest}
use go_dvote.Census.Namespaces.{load_tree, unload_tree, exists, del_namespace}
use go_dvote.Census.Import.{import_queue_round, retry_import}
use go_dvote.Census.Handler.{handler}
use go_dvote.Census.Names.{distinct, remove_namespace-gone}
use go_dvote.Census.Names.Kept.{
  DistinctKept, load_tree-KeepsDistinct, del_namespace-KeepsDistinct, DistinctKept-refl,
  DistinctKept-trans,
}
use go_dvote.Census.Names.Imported.{import_queue_round-KeepsDistinct, retry_import-KeepsDistinct}
use go_dvote.Census.Names.Served.{handler-KeepsDistinct}
use go_dvote.Vochain.Deps.{Deps}
use go_dvote.Prelude.{Bool, Bytes, ◌≡◌, true, [], length, ◌≢◌, false, arith, refl}

module _ (X : Deps) (K : CensusDeps) where
  -- One operation.
  pub data Step : Census K → Census K → Type 0 where
    served :
        (req : MetaRequest) (is_auth : Bool) (census_prefix : Bytes) (m : Census K)
        → Step m (handler X K req is_auth census_prefix m).1
    imported : (cid uri : Bytes) (m : Census K) → Step m (import_queue_round K cid uri m).1
    retried : (cid uri : Bytes) (m : Census K) → Step m (retry_import K cid uri m).1
    loaded : (name : Bytes) (m : Census K) → Step m (load_tree K name m).1
    unloaded : (name : Bytes) (m : Census K) → Step m (unload_tree K name m).1
    deleted : (name : Bytes) (m : Census K) → Step m (del_namespace K name m).1

  -- Any number of operations.
  pub data Reaches : Census K → Census K → Type 0 where
    stays : (m : Census K) → Reaches m m
    goes : (m n o : Census K) → Step m n → Reaches n o → Reaches m o

  Step-distinct : {m n : Census K} → Step m n → DistinctKept K m n
  unfolding unload_tree DistinctKept
  Step-distinct (served req is_auth census_prefix m) =
      handler-KeepsDistinct X K req is_auth census_prefix m
  Step-distinct (imported cid uri m) = import_queue_round-KeepsDistinct K cid uri m
  Step-distinct (retried cid uri m) = retry_import-KeepsDistinct K cid uri m
  Step-distinct (loaded name m) = load_tree-KeepsDistinct K name m
  Step-distinct (unloaded name m) = λ d. d
  Step-distinct (deleted name m) = del_namespace-KeepsDistinct K name m

  pub Reaches-distinct : {m n : Census K} → Reaches m n → DistinctKept K m n
  Reaches-distinct (stays m) = DistinctKept-refl K m
  Reaches-distinct (goes m n o step rest) =
      DistinctKept-trans K m n o (Step-distinct step) (Reaches-distinct rest)

  -- Whatever requests, imports, loads and deletions a census manager without namespaces went through,
  -- DelNamespace of a name that is not empty leaves no namespace with the name.
  pub exists-del_namespace :
      (m n : Census K) (name : Bytes)
      → m.namespaces ≡ []
      → Reaches m n
      → length name ≢ 0
      → exists K name (del_namespace K name n).1 ≡ false
  unfolding exists del_namespace distinct DistinctKept
  exists-del_namespace m n name empty steps named =
      let d : distinct n.namespaces ≡ true = Reaches-distinct steps (rw empty refl) in
      ground (arith, d, named, remove_namespace-gone name n.namespaces d)
