-- ===== src/Census/Start.antt =====
-- census/census.go: Init, without the routines that it starts.
use go_dvote.Census.{CensusDeps, Census, Namespace}
use go_dvote.Census.Namespaces.{load_tree, save}
use go_dvote.Census.Import.{ignore_error}
use go_dvote.Ethereum.{pub_key_length}
use go_dvote.Prelude.Int.{pos}
use go_dvote.Prelude.{
  Bytes, List, Exec, pure, some, ◌>>◌, ◌∷◌, modify, if◌then◌else◌, [], lift, leb, ltb, none, length,
  ◌>>=◌,
}

module _ (K : CensusDeps) where
  -- The loop over the namespaces: an error is only logged.
  unfoldable pub load_trees : List Namespace → Exec (Census K) (Unit {0})
  load_trees [] = pure tt
  load_trees (v ∷ vs) = do ignore_error (do load_tree K v.name; pure tt); load_trees vs

  -- Where there is no file of the namespaces.
  unfoldable pub init_namespaces : Bytes → Exec (Census K) (Unit {0})
  init_namespaces root_key = do
    modify (λ m. record m {
      root_key = if ltb (length root_key) pub_key_length then [] else root_key;
      namespaces = [];
    })
    save K

  -- Where there is one. One that is no JSON is skipped.
  unfoldable pub read_namespaces : Bytes → Bytes → Exec (Census K) (Unit {0})
  unfolding load_trees
  read_namespaces root_key json_bytes =
      let (census, e) = K.unmarshal_namespaces json_bytes in
      elim e as (λ _. Exec (Census K) (Unit {0})) [
        | some e' ↦ modify (λ m. record m { root_key = census.0; namespaces = census.1 })
        | none ↦ do
          modify (λ m. record m {
            root_key = if leb pub_key_length (length root_key) then root_key else census.0;
            namespaces = census.1;
          })
          load_trees census.1
      ]

  -- Init, on a new manager.
  unfoldable pub init : Bytes → Exec (Census K) (Unit {0})
  unfolding init_namespaces read_namespaces
  init root_key = do
    modify (λ m. record m { trees = []; failed_queue = [] })
    lift K.open_local_storage
    modify (λ m. record m { auth_window = pos 10 })
    elim K.namespaces_file as (λ _. Exec (Census K) (Unit {0})) [
      | none ↦ init_namespaces root_key
      | some file ↦ lift file >>= λ json_bytes. read_namespaces root_key json_bytes
    ]
