-- ===== src/Vochain/Scrutinizer/Writes.antt =====
-- What a write to the database of the scrutinizer does to the entries.
use go_dvote.Prelude.{
  Bytes, ok, arith, refl, Res, bytes_eq, ◌≡◌, ap, false, if◌then◌else◌, Res-cases, inl, ◌∙◌, inr,
}
use go_dvote.Vochain.Scrutinizer.{
  Deps, Accounts, storage_get, storage_put, storage_del, results_key, live_process_key, entity_key,
  process_ending_key,
}

-- An action that only reads, and returned a value.
module _ {S A : Type 0} where
  pub reads-ok :
      (r : Res A) (s : S) (a : A) (s' : S)
      → ◌≡◌ {A = Res A × S} (r, s) (ok a, s')
      → (r ≡ ok a) × (s ≡ s')
  reads-ok r s a s' h = (ap (λ (q : Res A × S). q.0) h, ap (λ (q : Res A × S). q.1) h)

module _ (K : Deps) (key value j : Bytes) (s : Accounts K) where
  pub storage_get-storage_put :
      (s' : Accounts K)
      → storage_put K key value s ≡ (ok tt, s')
      → storage_get K j s' ≡ (if bytes_eq key j then ok value else storage_get K j s)
  unfolding storage_get storage_put
  storage_get-storage_put s' h = elim (Res-cases (K.kv.put s.storage key value)) [
    | inl (db, e) ↦
        let same : record s { storage = db } ≡ s' = ground (arith, h, e) in
        rw (← same) (K.kv.get-put s.storage key j value db e)
    | inr (inl (x, e)) ↦ absurd (ground (arith, h, e))
    | inr (inr e) ↦ absurd (ground (arith, h, e))
  ]

  -- An entry under another key stays, however the write ends.
  pub storage_put-other :
      bytes_eq key j ≡ false → storage_get K j (storage_put K key value s).1 ≡ storage_get K j s
  unfolding storage_get storage_put
  storage_put-other ne = elim (Res-cases (K.kv.put s.storage key value)) [
    | inl (db, e) ↦ rw (e, storage_put) (K.kv.get-put s.storage key j value db e ∙ rw ne refl)
    | inr (inl (x, e)) ↦ rw (e, storage_put) refl
    | inr (inr e) ↦ rw (e, storage_put) refl
  ]

module _ (K : Deps) (key j : Bytes) (s : Accounts K) where
  pub storage_del-other :
      bytes_eq key j ≡ false → storage_get K j (storage_del K key s).1 ≡ storage_get K j s
  unfolding storage_get storage_del
  storage_del-other ne = elim (Res-cases (K.kv.del s.storage key)) [
    | inl (db, e) ↦ rw (e, storage_del) (K.kv.get-del s.storage key j db e ∙ rw ne refl)
    | inr (inl (x, e)) ↦ rw (e, storage_del) refl
    | inr (inr e) ↦ rw (e, storage_del) refl
  ]

module _ (a b : Bytes) where
  pub live-ne-results : bytes_eq (live_process_key a) (results_key b) ≡ false
  unfolding bytes_eq live_process_key results_key
  live-ne-results = refl

  pub entity-ne-results : bytes_eq (entity_key a) (results_key b) ≡ false
  unfolding bytes_eq entity_key results_key
  entity-ne-results = refl

  pub ending-ne-results : bytes_eq (process_ending_key a) (results_key b) ≡ false
  unfolding bytes_eq process_ending_key results_key
  ending-ne-results = refl

  pub bytes_eq-results : bytes_eq (results_key a) (results_key b) ≡ bytes_eq a b
  unfolding bytes_eq results_key
  bytes_eq-results = refl
