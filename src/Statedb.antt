-- ===== src/Statedb.antt =====
-- statedb/statedb.go: the interface of the versioned key-value trees that hold the chain's state.
pub mod Iterate
use go_dvote.Prelude.{
  ℕ, ◌≡◌, Bool, true, false, ◌&&◌, List, none, some, Bytes, bytes_eq, Res, ok, err, nil_value,
  if◌then◌else◌, refl,
}
use go_dvote.Types.{Slice}
use Iterate.{iterate}
use go_dvote.Prelude.{lookup}

-- The trees that the chain adds: AppTree, ProcessTree and VoteTree.
pub data TreeName : Type 0 where
  app_tree process_tree vote_tree : TreeName

unfoldable pub tree_eq : TreeName → TreeName → Bool
tree_eq TreeName.app_tree TreeName.app_tree = true
tree_eq TreeName.process_tree TreeName.process_tree = true
tree_eq TreeName.vote_tree TreeName.vote_tree = true
tree_eq _ _ = false

pub tree_eq_refl : (t : TreeName) → tree_eq t t ≡ true
unfolding tree_eq
tree_eq_refl TreeName.app_tree = refl
tree_eq_refl TreeName.process_tree = refl
tree_eq_refl TreeName.vote_tree = refl

-- StateDB and StateTree. A tree is reached by its name: `Tree(t).Get(k)` is `get db t k`, and
-- `ImmutableTree(t).Get(k)` is `get_immutable db t k`, which reads the version last committed.
-- `pairs db t` are what a tree holds, in the order of the keys, and `entries db t p` the pairs on
-- which `Tree(t).Iterate(p, callback)` calls its callback until that answers true, in order.
pub record StateDb : Type 1 where
  pub Db : Type 0
  pub get : Db → TreeName → Bytes → Slice
  pub get_immutable : Db → TreeName → Bytes → Slice
  pub pairs : Db → TreeName → List (Bytes × Bytes)
  pub pairs_immutable : Db → TreeName → List (Bytes × Bytes)
  pub entries : Db → TreeName → Bytes → List (Bytes × Bytes)
  pub entries_immutable : Db → TreeName → Bytes → List (Bytes × Bytes)
  pub count : Db → TreeName → ℕ
  pub count_immutable : Db → TreeName → ℕ
  pub add : Db → TreeName → Bytes → Slice → Res Db
  pub commit : Db → Res (Bytes × Db)
  pub rollback : Db → Res Db
  pub hash : Db → Bytes
  -- Get finds what the tree holds, and Iterate goes over the range of keys that it computes.
  pub get-pairs : (d : Db) (t : TreeName) (k : Bytes) → get d t k ≡ lookup k (pairs d t)
  pub get_immutable-pairs :
      (d : Db) (t : TreeName) (k : Bytes) → get_immutable d t k ≡ lookup k (pairs_immutable d t)
  pub entries-iterate : (d : Db) (t : TreeName) (p : Bytes) → entries d t p ≡ iterate p (pairs d t)
  pub entries_immutable-iterate :
      (d : Db) (t : TreeName) (p : Bytes)
      → entries_immutable d t p ≡ iterate p (pairs_immutable d t)
  -- A nil value is refused; any other is stored under its key in its tree, and nowhere else.
  pub add-nil : (d : Db) (t : TreeName) (k : Bytes) → add d t k none ≡ err nil_value
  pub add-ok : (d : Db) (t : TreeName) (k v : Bytes) → (d' : Db) × (add d t k (some v) ≡ ok d')
  pub get-add :
      (d : Db) (t u : TreeName) (k j v : Bytes) (d' : Db)
      → add d t k (some v) ≡ ok d'
      → get d' u j ≡ (if tree_eq t u && bytes_eq k j then some v else get d u j)
  pub get_immutable-add :
      (d : Db) (t u : TreeName) (k j v : Bytes) (d' : Db)
      → add d t k (some v) ≡ ok d'
      → get_immutable d' u j ≡ get_immutable d u j
  -- A commit makes what was written the committed version, and a rollback goes back to that.
  pub get-commit :
      (d d' : Db) (h : Bytes) (t : TreeName) (k : Bytes)
      → commit d ≡ ok (h, d')
      → get d' t k ≡ get d t k
  pub get_immutable-commit :
      (d d' : Db) (h : Bytes) (t : TreeName) (k : Bytes)
      → commit d ≡ ok (h, d')
      → get_immutable d' t k ≡ get d t k
  pub get-rollback :
      (d d' : Db) (t : TreeName) (k : Bytes) → rollback d ≡ ok d' → get d' t k ≡ get_immutable d t k
  pub get_immutable-rollback :
      (d d' : Db) (t : TreeName) (k : Bytes)
      → rollback d ≡ ok d'
      → get_immutable d' t k ≡ get_immutable d t k
