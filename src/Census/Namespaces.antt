-- ===== src/Census/Namespaces.antt =====
-- census/census.go and census/compression.go: the namespaces and their trees.
use go_dvote.Prelude.{
  Bytes, List, [], ◌∷◌, ℕ, Bool, Exec, ok, err, panic, ◌>>◌, modify, insert, false, for_each, ◌>>=◌,
  lookup, if◌then◌else◌, ◌==◌, not, ◌||◌, some, fail_if, gets, bytes_eq, suc, erase, ◌&&◌,
  namespace_exists, length, true, census_id_missing, lift, ◌-◌, ◌++◌, pure,
}
use go_dvote.Census.{CensusDeps, Namespace, Census}
use go_dvote.Trie.{Trie, new_tree, publish}
use mathlib.Core.Option.{none}

-- Exists, on the namespaces.
unfoldable pub has_namespace : Bytes → List Namespace → Bool
has_namespace name [] = false
has_namespace name (n ∷ ns) =
    let rest = has_namespace name ns in if bytes_eq name n.name then true else rest

-- The loop of DelNamespace: the first one with the name.
unfoldable pub remove_namespace : Bytes → List Namespace → List Namespace
remove_namespace name [] = []
remove_namespace name (n ∷ ns) =
    let rest = remove_namespace name ns in if bytes_eq n.name name then ns else n ∷ rest

-- strings.Contains(name, "/")
unfoldable pub has_slash : Bytes → Bool
has_slash [] = false
has_slash (c ∷ name) = c == b'/' || has_slash name

-- isZstd
unfoldable pub is_zstd : Bytes → Bool
is_zstd (a ∷ b ∷ c ∷ d ∷ src) = a == 0x28 && (b == 0xB5 && (c == 0x2f && d == 0xFD))
is_zstd src = false

module _ (K : CensusDeps) where
  -- compressBytes
  unfoldable pub compress_bytes : Bytes → Bytes
  compress_bytes src = K.zstd_encode src

  -- decompressBytes
  unfoldable pub decompress_bytes : Bytes → Bytes
  unfolding is_zstd
  decompress_bytes src =
      if not (is_zstd src)
      then src
      else (elim (K.zstd_decode src) [ ok dst ↦ dst | err e ↦ [] | panic ↦ [] ])

  -- Exists
  unfoldable pub exists : Bytes → Census K → Bool
  unfolding has_namespace
  exists name m = has_namespace name m.namespaces

  -- save
  unfoldable pub save : Exec (Census K) (Unit {0})
  save m = (K.write_namespaces m.root_key m.namespaces, m)

  -- `m.Trees[name] = tr`
  unfoldable pub put_tree : Bytes → Trie K.trees_db → Census K → Census K
  put_tree name tr m = record m { trees = insert name tr m.trees }

  -- LoadTree
  unfoldable pub load_tree : Bytes → Exec (Census K) (Trie K.trees_db)
  unfolding put_tree
  load_tree name m = elim (lookup name m.trees) [
    | some tr ↦ (ok tr, m)
    | none ↦ elim (new_tree K.trees_db name) [
      | ok tr ↦ (ok (publish K.trees_db tr), put_tree name (publish K.trees_db tr) m)
      | err e ↦ (err e, m)
      | panic ↦ (panic, m)
    ]
  ]

  -- UnloadTree
  unfoldable pub unload_tree : Bytes → Exec (Census K) (Unit {0})
  unload_tree name = modify (λ m. record m { trees = erase name m.trees })

  -- AddNamespace. The tree that it returns is the one in the map.
  unfoldable pub add_namespace : Bytes → List Bytes → Exec (Census K) (Unit {0})
  unfolding put_tree save
  add_namespace name pub_keys = do
    m ← gets (λ m. m)
    fail_if (exists name m) namespace_exists
    tr ← lift (new_tree K.trees_db name)
    modify (put_tree name tr)
    modify (λ m. record m {
      namespaces = m.namespaces ++ record { name = name; keys = pub_keys } ∷ [];
    })
    save

  -- DelNamespace
  unfoldable pub del_namespace : Bytes → Exec (Census K) (Unit {0})
  unfolding remove_namespace save
  del_namespace name = do
    fail_if (length name == 0) census_id_missing
    m ← gets (λ m. m)
    if not (exists name m)
        then pure tt
        else (do modify (λ m. record m { namespaces = remove_namespace name m.namespaces }); save)

  -- Count: local, imported and loaded.
  unfoldable pub count : Census K → ℕ × ℕ × ℕ
  unfolding has_slash
  count m =
      let slashed : ℕ =
        for_each (λ c (n : Namespace). if has_slash n.name then suc c else c) 0 m.namespaces in
      (slashed, length m.namespaces - slashed, length m.trees)
