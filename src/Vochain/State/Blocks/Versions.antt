-- ===== src/Vochain/State/Blocks/Versions.antt =====
-- What Save and Rollback do to what the trees hold.
use go_dvote.Prelude.{Bytes, ◌≡◌, false, Bool, true, ok, arith, Res-cases, inl, inr}
use go_dvote.Vochain.Deps.{Deps}
use go_dvote.Vochain.State.{ChainState, tree_get, notify, rollback}
use go_dvote.Vochain.State.Blocks.{save, rollback_state}
use go_dvote.Statedb.{TreeName}

module _ (X : Deps) (s : ChainState X) where
  stored_commit :
      (db : X.db.Db) (t : TreeName) (q : Bool) (k : Bytes) (hash : Bytes)
      → X.db.commit s.store ≡ ok (hash, db)
      → tree_get X t q k (record s { store = db }) ≡ tree_get X t false k s
  unfolding tree_get
  stored_commit db t true k hash e = X.db.get_immutable-commit s.store db hash t k e
  stored_commit db t false k hash e = X.db.get-commit s.store db hash t k e

  pub saved :
      (s' : ChainState X) (hash : Bytes)
      → save X s ≡ (ok hash, s')
      → (db : X.db.Db) × (X.db.commit s.store ≡ ok (hash, db))
        × (s'.store ≡ db)
        × (s'.vote_cache ≡ s.vote_cache)
  unfolding save notify
  saved s' hash h = elim (Res-cases (X.db.commit s.store)) [
    | inl (r, e) ↦ (r.1, ground (arith, e), ground (arith, e), ground (arith, e))
    | inr (inl (x, e)) ↦ absurd (ground (arith, e))
    | inr (inr e) ↦ absurd (ground (arith, e))
  ]

  -- After Save, the working trees and the committed trees hold what the working trees held.
  pub tree_get-save :
      (s' : ChainState X) (hash : Bytes)
      → save X s ≡ (ok hash, s')
      → (t : TreeName) (q : Bool) (k : Bytes) → tree_get X t q k s' ≡ tree_get X t false k s
  unfolding tree_get
  tree_get-save s' hash h t q k =
      let (db, e, same, _) = saved s' hash h in
      let kept = stored_commit db t q k hash e in ground (arith, kept, same)

  -- After Rollback, the working trees and the committed trees hold what was last committed, the
  -- listeners were called, and the vote cache is kept.
  pub tree_get-rollback_state :
      (s' : ChainState X)
      → rollback_state X s ≡ (ok tt, s')
      → (t : TreeName) (q : Bool) (k : Bytes) → tree_get X t q k s' ≡ tree_get X t true k s
  unfolding tree_get rollback_state notify
  tree_get-rollback_state s' h t q k = elim (Res-cases (X.db.rollback s.store)) [
    | inl (db, e) ↦
        let live = X.db.get-rollback s.store db t k e in
        let committed = X.db.get_immutable-rollback s.store db t k e in
        ground (arith, e, live, committed)
    | inr (inl (x, e)) ↦ absurd (ground (arith, e))
    | inr (inr e) ↦ absurd (ground (arith, e))
  ]

  pub rolled_back :
      (s' : ChainState X)
      → rollback_state X s ≡ (ok tt, s')
      → (s'.calls ≡ (notify rollback s).calls) × (s'.vote_cache ≡ s.vote_cache)
  unfolding rollback_state notify
  rolled_back s' h = elim (Res-cases (X.db.rollback s.store)) [
    | inl (db, e) ↦ (ground (arith, e), ground (arith, e))
    | inr (inl (x, e)) ↦ absurd (ground (arith, e))
    | inr (inr e) ↦ absurd (ground (arith, e))
  ]
