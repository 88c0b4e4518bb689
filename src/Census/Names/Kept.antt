-- ===== src/Census/Names/Kept.antt =====
-- census/census.go and census/importqueue.go: the actions that keep the names distinct.
use go_dvote.Prelude.Keeps.{Keeps, Keeps->>=, Keeps->>}
use go_dvote.Census.{CensusDeps, Census}
use go_dvote.Census.Namespaces.{
  add_namespace, del_namespace, exists, has_namespace, save, put_tree, load_tree,
}
use go_dvote.Census.Import.{on_tree, publish_tree, catch, ignore_error}
use go_dvote.Census.Names.{distinct, distinct-++, distinct-remove_namespace}
use go_dvote.Trie.{Trie, new_tree, publish}
use go_dvote.Prelude.{
  Bytes, Error, Exec, ◌≡◌, true, Option-cases, ◌>>=◌, List, arith, Res, lookup, ok, Bool-cases, err,
  inl, panic, inr, Res-cases, refl, pure, Bool, fail_if, ◌>>◌,
}
use mathlib.Core.Bool.{false}

module _ (K : CensusDeps) where
  unfoldable pub DistinctKept : Census K → Census K → Type 0
  DistinctKept s t = distinct s.namespaces ≡ true → distinct t.namespaces ≡ true

  abbrev pub KeepsDistinct : {A : Type 0} → Exec (Census K) A → Type 0
  KeepsDistinct m = Keeps DistinctKept m

  pub DistinctKept-trans :
      (s t u : Census K) → DistinctKept s t → DistinctKept t u → DistinctKept s u
  unfolding DistinctKept
  DistinctKept-trans s t u f g d = g (f d)

  pub DistinctKept-refl : (s : Census K) → DistinctKept s s
  unfolding DistinctKept
  DistinctKept-refl s d = d

  -- An action that leaves the namespaces alone.
  pub same-KeepsDistinct :
      {A : Type 0} (m : Exec (Census K) A)
      → ((s : Census K) → (m s).1.namespaces ≡ s.namespaces)
      → KeepsDistinct m
  unfolding DistinctKept
  same-KeepsDistinct m h s d = rw (h s) d

  pub bind-KeepsDistinct :
      {A B : Type 0} (m : Exec (Census K) A) (f : A → Exec (Census K) B)
      → KeepsDistinct m
      → ((a : A) → KeepsDistinct (f a))
      → KeepsDistinct (m >>= f)
  bind-KeepsDistinct m f h k = Keeps->>= DistinctKept DistinctKept-trans m f h k

  pub then-KeepsDistinct :
      {A B : Type 0} (m : Exec (Census K) A) (m' : Exec (Census K) B)
      → KeepsDistinct m
      → KeepsDistinct m'
      → KeepsDistinct (m >> m')
  then-KeepsDistinct m m' h k = Keeps->> DistinctKept DistinctKept-trans m m' h k

  caught :
      {A : Type 0} (h : Error → Exec (Census K) A) (s : Census K) (r : Res A × Census K)
      → DistinctKept s r.1
      → ((e : Error) → KeepsDistinct (h e))
      → DistinctKept s
          (elim r.0 as (λ _. Res A × Census K) [
            | ok a ↦ (ok a, r.1)
            | err e ↦ h e r.1
            | panic ↦ (panic, r.1)
          ]).1
  caught h s (ok a, t) f k = f
  caught h s (err e, t) f k = DistinctKept-trans s t (h e t).1 f (k e t)
  caught h s (panic, t) f k = f

  pub catch-KeepsDistinct :
      {A : Type 0} (m : Exec (Census K) A) (h : Error → Exec (Census K) A)
      → KeepsDistinct m
      → ((e : Error) → KeepsDistinct (h e))
      → KeepsDistinct (catch m h)
  catch-KeepsDistinct m h f k s = caught h s (m s) (f s) k

  pub on_tree-KeepsDistinct :
      {A : Type 0} (name : Bytes) (act : Exec (Trie K.trees_db) A)
      → KeepsDistinct (on_tree K name act)
  unfolding on_tree put_tree
  on_tree-KeepsDistinct name act = same-KeepsDistinct (on_tree K name act) (λ s.
      elim (Option-cases (lookup name s.trees)) [
        | inl e ↦ rw (e, on_tree) refl
        | inr (tr, e) ↦ rw (e, on_tree) refl
      ])

  pub add_namespace-KeepsDistinct :
      (name : Bytes) (keys : List Bytes) → KeepsDistinct (add_namespace K name keys)
  unfolding DistinctKept add_namespace exists save put_tree
  add_namespace-KeepsDistinct name keys s d = elim (Bool-cases (has_namespace name s.namespaces)) [
    | inl e ↦ rw e d
    | inr e ↦ elim (Res-cases (new_tree K.trees_db name)) [
      | inl (tr, f) ↦ rw (e, f) (distinct-++ (record { name = name; keys = keys }) s.namespaces e d)
      | inr (inl (er, f)) ↦ rw (e, f) d
      | inr (inr f) ↦ rw (e, f) d
    ]
  ]

  pub del_namespace-KeepsDistinct : (name : Bytes) → KeepsDistinct (del_namespace K name)
  unfolding DistinctKept del_namespace exists save
  del_namespace-KeepsDistinct name s d =
      ground (arith, d, distinct-remove_namespace name s.namespaces d)

  pub load_tree-KeepsDistinct : (name : Bytes) → KeepsDistinct (load_tree K name)
  unfolding load_tree put_tree
  load_tree-KeepsDistinct name = same-KeepsDistinct (load_tree K name) (λ s.
      elim (Option-cases (lookup name s.trees)) [
        | inl e ↦ elim (Res-cases (new_tree K.trees_db name)) [
          | inl (tr, f) ↦ rw (e, f, load_tree) refl
          | inr (inl (er, f)) ↦ rw (e, f, load_tree) refl
          | inr (inr f) ↦ rw (e, f, load_tree) refl
        ]
        | inr (tr, e) ↦ rw (e, load_tree) refl
      ])

  pub publish_tree-KeepsDistinct : (name : Bytes) → KeepsDistinct (publish_tree K name)
  unfolding publish_tree
  publish_tree-KeepsDistinct name =
      on_tree-KeepsDistinct name (λ tr. (ok tt, publish K.trees_db tr))

  pub ignore_error-KeepsDistinct :
      (m : Exec (Census K) (Unit {0})) → KeepsDistinct m → KeepsDistinct (ignore_error m)
  ignore_error-KeepsDistinct m k = catch-KeepsDistinct m (λ e. pure tt) k (λ e. DistinctKept-refl)

  pub fail_if-KeepsDistinct : (c : Bool) (e : Error) → KeepsDistinct (fail_if c e)
  fail_if-KeepsDistinct true e = DistinctKept-refl
  fail_if-KeepsDistinct false e = DistinctKept-refl
