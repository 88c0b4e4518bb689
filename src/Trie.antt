-- ===== src/Trie.antt =====
-- trie/trie.go: the merkle tree of a census, over a tree of the state database. The time of the last
-- access is left out.
use go_dvote.Prelude.{
  Bytes, List, [], ◌∷◌, ℕ, Res, Exec, Option, none, some, ok, err, panic, Bool, ◌>>◌, true,
  tree_root_not_found, false, pure, bind_res, fail_if, ◌>>=◌, map, ltb, lift, length,
  claim_index_too_small, ◌||◌, claim_too_big, Error,
}
use go_dvote.Util.Hex.{decode_string, encode_to_string, trim_hex}

-- What a tree takes from statedb, with its store: opening one under a name, the version with a root
-- hash, and the base64 of the standard library, whose `DecodeString` returns with an error what it
-- decoded before it.
pub record TreeDb : Type 1 where
  pub Store : Type 0
  pub open_store : Bytes → Res Store
  pub add : Store → Bytes → Bytes → Res Store
  pub commit : Store → Res Store
  pub hash : Store → Bytes
  pub count : Store → ℕ
  pub entries : Store → List (Bytes × Bytes)
  pub tree_with_root : Store → Bytes → Option Store
  pub proof : Store → Bytes → Res (Option Bytes)
  pub base64_encode : Bytes → Bytes
  pub base64_decode : Bytes → Bytes × Option Error

-- Tree
pub record Tree (Store : Type 0) : Type 0 where
  pub tree : Store
  pub public : Bool

abbrev pub max_index_size : ℕ
max_index_size = 128

abbrev pub max_value_size : ℕ
max_value_size = 256

module _ (D : TreeDb) where
  abbrev pub Trie : Type 0
  Trie = Tree D.Store

  -- NewTree
  unfoldable pub new_tree : Bytes → Res Trie
  new_tree name = bind_res (D.open_store name) λ s. ok (record { tree = s; public = false })

  -- Publish, UnPublish and IsPublic
  unfoldable pub publish : Trie → Trie
  publish t = record t { public = true }

  unfoldable pub unpublish : Trie → Trie
  unpublish t = record t { public = false }

  unfoldable pub is_public : Trie → Bool
  is_public t = t.public

  -- `t.Tree.Add(index, value)`
  unfoldable pub tree_add : Bytes → Bytes → Exec Trie (Unit {0})
  tree_add index value t = elim (D.add t.tree index value) [
    | ok s ↦ (ok tt, record t { tree = s })
    | err e ↦ (err e, t)
    | panic ↦ (panic, t)
  ]

  -- `t.store.Commit()`
  unfoldable pub store_commit : Exec Trie (Unit {0})
  store_commit t = elim (D.commit t.tree) [
    | ok s ↦ (ok tt, record t { tree = s })
    | err e ↦ (err e, t)
    | panic ↦ (panic, t)
  ]

  -- AddClaim
  unfoldable pub add_claim : Bytes → Bytes → Exec Trie (Unit {0})
  unfolding tree_add store_commit
  add_claim index value = do
    fail_if (ltb (length index) 4) claim_index_too_small
    fail_if (ltb max_index_size (length index) || ltb max_value_size (length value)) claim_too_big
    tree_add index value
    store_commit

  -- GenProof
  unfoldable pub gen_proof : Bytes → Bytes → Trie → Res Bytes
  gen_proof index value t =
      bind_res (D.proof t.tree index)
        λ p. elim p [ none ↦ ok [] | some bytes ↦ ok (encode_to_string bytes) ]

  -- Root
  unfoldable pub root : Trie → Bytes
  root t = encode_to_string (D.hash t.tree)

  -- treeWithRoot: a nil tree is `none`.
  unfoldable pub tree_with_root : Bytes → Trie → Option D.Store
  tree_with_root [] t = some t.tree
  tree_with_root (c ∷ hash) t = elim (decode_string (trim_hex (c ∷ hash))) [
    | ok r ↦ D.tree_with_root t.tree r
    | err e ↦ none
    | panic ↦ none
  ]

  -- Dump
  unfoldable pub dump : Bytes → Trie → Res (List Bytes)
  unfolding tree_with_root
  dump hash t = elim (tree_with_root hash t) [
    | none ↦ err tree_root_not_found
    | some s ↦ ok (map (λ (e : Bytes × Bytes). encode_to_string e.0) (D.entries s))
  ]

  -- DumpPlain, in base64: the indexes.
  unfoldable pub dump_plain : Bytes → Trie → Res (List Bytes)
  unfolding tree_with_root
  dump_plain hash t = elim (tree_with_root hash t) [
    | none ↦ err tree_root_not_found
    | some s ↦ ok (map (λ (e : Bytes × Bytes). D.base64_encode e.0) (D.entries s))
  ]

  -- Size
  unfoldable pub size : Bytes → Trie → Res ℕ
  unfolding tree_with_root
  size hash t = elim (tree_with_root hash t) [
    | none ↦ err tree_root_not_found
    | some s ↦ ok (D.count s)
  ]

  -- The loop of ImportDump.
  unfoldable pub import_claims : List Bytes → Exec Trie (Unit {0})
  unfolding tree_add
  import_claims [] = pure tt
  import_claims (c ∷ cs) = do
    cb ← lift (decode_string (trim_hex c))
    tree_add cb []
    import_claims cs

  -- ImportDump
  unfoldable pub import_dump : List Bytes → Exec Trie (Unit {0})
  unfolding import_claims store_commit
  import_dump claims = do import_claims claims; store_commit

  -- Snapshot
  unfoldable pub snapshot : Bytes → Trie → Res Trie
  unfolding tree_with_root
  snapshot hash t = elim (tree_with_root hash t) [
    | none ↦ err tree_root_not_found
    | some s ↦ ok (record { tree = s; public = t.public })
  ]

  -- HashExist
  unfoldable pub hash_exist : Bytes → Trie → Bool
  unfolding tree_with_root
  hash_exist hash t = elim (tree_with_root hash t) [ none ↦ false | some s ↦ true ]
