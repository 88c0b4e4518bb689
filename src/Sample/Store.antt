-- ===== src/Sample/Store.antt =====
-- A state database in memory: the working and the committed contents of each tree.
use go_dvote.Prelude.{
  Bytes, [], List, if◌then◌else◌, lookup, some, ◌≡◌, length, Res, insert, ◌&&◌, ok, err, bytes_eq,
  nil_value, arith, Bool-cases, inl, lookup-insert, inr, refl,
}
use go_dvote.Statedb.{StateDb, TreeName, tree_eq}
use go_dvote.Types.{Slice}
use go_dvote.Statedb.Iterate.{iterate}
use mathlib.Core.Option.{none}

abbrev pub Contents : Type 0
Contents = TreeName → List (Bytes × Bytes)

pub record MemDb : Type 0 where
  pub working : Contents
  pub saved : Contents

update : Contents → TreeName → Bytes → Bytes → Contents
update c t k v u = if tree_eq t u then insert k v (c u) else c u

unfoldable pub mem_add : MemDb → TreeName → Bytes → Slice → Res MemDb
unfolding update
mem_add d t k none = err nil_value
mem_add d t k (some v) = ok (record d { working = update d.working t k v })

get_update :
    (c : Contents) (t u : TreeName) (k j v : Bytes)
    → lookup j (update c t k v u) ≡ (if tree_eq t u && bytes_eq k j then some v else lookup j (c u))
unfolding update
get_update c t u k j v = elim (Bool-cases (tree_eq t u)) [
  | inl e ↦ rw e (lookup-insert k j v (c u))
  | inr e ↦ rw e
]

module _ (d : MemDb) (t u : TreeName) (k j v : Bytes) (d' : MemDb)
    (added : mem_add d t k (some v) ≡ ok d') where
  added_eq : record d { working = update d.working t k v } ≡ d'
  unfolding mem_add
  added_eq = ground arith

  pub working-add :
      lookup j (d'.working u)
      ≡ (if tree_eq t u && bytes_eq k j then some v else lookup j (d.working u))
  working-add = rw (← added_eq) (get_update d.working t u k j v)

  pub saved-add : lookup j (d'.saved u) ≡ lookup j (d.saved u)
  saved-add = rw (← added_eq)

pub mem_add_nil : (d : MemDb) (t : TreeName) (k : Bytes) → mem_add d t k none ≡ err nil_value
unfolding mem_add
mem_add_nil d t k = refl

pub mem_add_ok :
    (d : MemDb) (t : TreeName) (k v : Bytes) → (d' : MemDb) × (mem_add d t k (some v) ≡ ok d')
unfolding mem_add
mem_add_ok d t k v = (record d { working = update d.working t k v }, refl)

abbrev pub snapshot : Contents → MemDb
snapshot c = record { working = c; saved = c }

module _ (c : Contents) (d' : MemDb) (t : TreeName) (k : Bytes) where
  module _ (h h' : Bytes)
      (e : ◌≡◌ {A = Res (Bytes × MemDb)} (ok (h, snapshot c)) (ok (h', d'))) where
    commit_eq : snapshot c ≡ d'
    commit_eq = ground arith

    pub working-commit : lookup k (d'.working t) ≡ lookup k (c t)
    working-commit = rw (← commit_eq)

    pub saved-commit : lookup k (d'.saved t) ≡ lookup k (c t)
    saved-commit = rw (← commit_eq)

  module _ (e : ◌≡◌ {A = Res MemDb} (ok (snapshot c)) (ok d')) where
    rollback_eq : snapshot c ≡ d'
    rollback_eq = ground arith

    pub working-rollback : lookup k (d'.working t) ≡ lookup k (c t)
    working-rollback = rw (← rollback_eq)

    pub saved-rollback : lookup k (d'.saved t) ≡ lookup k (c t)
    saved-rollback = rw (← rollback_eq)

abbrev pub mem_empty : MemDb
mem_empty = record { working = λ t. []; saved = λ t. [] }

abbrev pub mem_db : StateDb
mem_db = record {
  Db = MemDb;
  get = λ d t k. lookup k (d.working t);
  get_immutable = λ d t k. lookup k (d.saved t);
  pairs = λ d t. d.working t;
  pairs_immutable = λ d t. d.saved t;
  entries = λ d t p. iterate p (d.working t);
  entries_immutable = λ d t p. iterate p (d.saved t);
  get-pairs = λ d t k. refl;
  get_immutable-pairs = λ d t k. refl;
  entries-iterate = λ d t p. refl;
  entries_immutable-iterate = λ d t p. refl;
  count = λ d t. length (d.working t);
  count_immutable = λ d t. length (d.saved t);
  add = mem_add;
  commit = λ d. ok ([], snapshot d.working);
  rollback = λ d. ok (snapshot d.saved);
  hash = λ d. [];
  add-nil = mem_add_nil;
  add-ok = mem_add_ok;
  get-add = working-add;
  get_immutable-add = saved-add;
  get-commit = λ d d' h t k e. working-commit d.working d' t k [] h e;
  get_immutable-commit = λ d d' h t k e. saved-commit d.working d' t k [] h e;
  get-rollback = λ d d' t k e. working-rollback d.saved d' t k e;
  get_immutable-rollback = λ d d' t k e. saved-rollback d.saved d' t k e;
}
