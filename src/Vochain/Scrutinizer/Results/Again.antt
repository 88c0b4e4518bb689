-- ===== src/Vochain/Scrutinizer/Results/Again.antt =====
-- What ComputeResult and VoteResult do once there are results, and that results stay.
use go_dvote.Prelude.Keeps.{Keeps}
use go_dvote.Prelude.{
  Bytes, ok, err, panic, arith, refl, ◌≡◌, key_not_found, Bool-cases, bytes_eq, false, some, inl,
  inr, already_computed, Res, ◌∙◌, bytes_eq_refl, bytes_eq→≡, bind_res, Bool, if◌then◌else◌, sym,
}
use go_dvote.Vochain.Scrutinizer.Writes.{storage_put-other, bytes_eq-results}
use go_dvote.Vochain.Scrutinizer.{
  ProcessVotes, Deps, Accounts, storage_get, storage_put, results_key, value_of,
}
use go_dvote.Vochain.Scrutinizer.Results.{
  missing_of, results_of, compute_result, vote_result, compute_non_live_results,
  compute_live_results,
}
use go_dvote.Vochain.Scrutinizer.Results.Stored.{
  SameResults-at, ResultsKept, ValueKept-refl, SameResults, ValueKept-err, results_of-SameResults,
  missing_of-true, ResultsKept-same, ResultsKept-unchanged, compute_result-Computed,
}
use go_dvote.Vochain.State.{ChainState}
use go_dvote.Types.{Process, Slice, is_encrypted}
use go_dvote.Vochain.State.Processes.{process}
use mathlib.Core.Bool.{true}

ok-injective : {A : Type 0} {a b : A} → ◌≡◌ {A = Res A} (ok a) (ok b) → a ≡ b
ok-injective e = cc e

module _ (X : go_dvote.Vochain.Deps.Deps) (K : Deps) (pid : Bytes) where
  answers_stored :
      (chain : ChainState X) (s : Accounts K) (q : Process) (v : Bytes)
      → process X pid false chain ≡ ok q
      → storage_get K (results_key pid) s ≡ ok v
      → (vote_result X K pid chain s ≡ K.results_codec.unmarshal (some v))
        × (compute_result X K pid chain s ≡ (err already_computed, s))
  unfolding vote_result compute_result missing_of
  answers_stored chain s q v found there =
      (ground (arith, found, there), ground (arith, found, there))

  -- After ComputeResult stored results that encode to bytes, VoteResult answers with them, also on a
  -- later state of the chain that has the process, and another ComputeResult is refused and changes
  -- nothing. The results are those computed from the votes, by the kind of the process.
  pub vote_result-compute_result :
      (chain chain' : ChainState X) (s s' : Accounts K) (p q : Process) (results : ProcessVotes)
      (b : Bytes)
      → compute_result X K pid chain s ≡ (ok tt, s')
      → process X pid false chain ≡ ok p
      → (if is_encrypted p
          then compute_non_live_results X K pid p chain
          else compute_live_results X K pid s)
        ≡ ok results
      → K.results_codec.marshal results ≡ ok (some b)
      → process X pid false chain' ≡ ok q
      → (vote_result X K pid chain' s' ≡ ok results)
        × (compute_result X K pid chain' s' ≡ (err already_computed, s'))
  unfolding value_of
  vote_result-compute_result chain chain' s s' p q results b done found computed marshaled found' =
      let c = compute_result-Computed X K pid chain s s' done in
      let same_process : c.p ≡ p = ok-injective (sym c.found ∙ found) in
      let same_results : c.results ≡ results =
        ok-injective (sym c.computed ∙ rw same_process computed) in
      let same_bytes : c.bytes ≡ some b =
        ok-injective (sym c.encoded ∙ rw same_results marshaled) in
      let there : storage_get K (results_key pid) s' ≡ ok b =
        c.stored pid ∙ rw (bytes_eq_refl pid) (rw same_bytes refl) in
      let (answer, again) = answers_stored chain' s' q b found' there in
      (answer ∙ K.results_codec.unmarshal-marshal results b marshaled, again)

  put-ResultsKept :
      (s t : Accounts K) (v : Bytes)
      → storage_get K (results_key pid) s ≡ err key_not_found
      → SameResults K s t
      → ResultsKept K s (storage_put K (results_key pid) v t).1
  unfolding ResultsKept
  put-ResultsKept s t v none_yet same j = elim (Bool-cases (bytes_eq pid j)) [
    | inl e ↦
        let is_j = bytes_eq→≡ pid j e in
        let nothing : storage_get K (results_key j) s ≡ err key_not_found = rw is_j at none_yet in
        rw nothing (
          ValueKept-err key_not_found
            (storage_get K (results_key j) (storage_put K (results_key pid) v t).1))
    | inr e ↦
        let kept =
          storage_put-other K (results_key pid) v (results_key j) t (bytes_eq-results pid j ∙ e) in
        rw (kept ∙ SameResults-at K s t same j) (ValueKept-refl (storage_get K (results_key j) s))
  ]

  module _ (chain : ChainState X) (s : Accounts K) (p : Process)
      (found : process X pid false chain ≡ ok p)
      (none_yet : storage_get K (results_key pid) s ≡ err key_not_found) where
    -- The state after the results were computed, and after they were stored.
    compute_result-ends :
        (r : Res ProcessVotes) (m : Res Slice)
        → (results_of X K pid p chain s).0 ≡ r
        → bind_res r K.results_codec.marshal ≡ m
        → (compute_result X K pid chain s).1 ≡ (elim m [
          | ok bytes ↦
              (storage_put K (results_key pid) (value_of bytes) (results_of X K pid p chain s).1).1
          | err e ↦ (results_of X K pid p chain s).1
          | panic ↦ (results_of X K pid p chain s).1
        ])
    unfolding compute_result missing_of
    compute_result-ends (ok pv) (ok bytes) e e' = ground (arith, found, none_yet, e, e')
    compute_result-ends (ok pv) (err x) e e' = ground (arith, found, none_yet, e, e')
    compute_result-ends (ok pv) panic e e' = ground (arith, found, none_yet, e, e')
    compute_result-ends (err y) (ok bytes) e e' = absurd (ground (arith, e'))
    compute_result-ends (err y) (err x) e e' = ground (arith, found, none_yet, e, e')
    compute_result-ends (err y) panic e e' = absurd (ground (arith, e'))
    compute_result-ends panic (ok bytes) e e' = absurd (ground (arith, e'))
    compute_result-ends panic (err x) e e' = absurd (ground (arith, e'))
    compute_result-ends panic panic e e' = ground (arith, found, none_yet, e, e')

  module _ (chain : ChainState X) (s : Accounts K) where
    compute_result-kept :
        (p : Process) (m : Res Slice)
        → process X pid false chain ≡ ok p
        → storage_get K (results_key pid) s ≡ err key_not_found
        → bind_res (results_of X K pid p chain s).0 K.results_codec.marshal ≡ m
        → ResultsKept K s (compute_result X K pid chain s).1
    compute_result-kept p (ok bytes) found none_yet e =
        rw
          (compute_result-ends chain s p found none_yet (results_of X K pid p chain s).0 (ok bytes)
            refl e)
          (put-ResultsKept s (results_of X K pid p chain s).1 (value_of bytes) none_yet
            (results_of-SameResults X K pid p chain s))
    compute_result-kept p (err x) found none_yet e =
        rw
          (compute_result-ends chain s p found none_yet (results_of X K pid p chain s).0 (err x)
            refl e)
          (ResultsKept-same K s _ (results_of-SameResults X K pid p chain s))
    compute_result-kept p panic found none_yet e =
        rw
          (compute_result-ends chain s p found none_yet (results_of X K pid p chain s).0 panic refl
            e)
          (ResultsKept-same K s _ (results_of-SameResults X K pid p chain s))

    compute_result-refused :
        (r : Res Process) (m : Res Bool)
        → process X pid false chain ≡ r
        → missing_of (storage_get K (results_key pid) s) ≡ m
        → ResultsKept K s (compute_result X K pid chain s).1
    unfolding compute_result
    compute_result-refused (ok p) (ok true) e e' =
        compute_result-kept p _ e (missing_of-true (storage_get K (results_key pid) s) e') refl
    compute_result-refused (ok p) (ok false) e e' =
        ResultsKept-unchanged K s _ (ground (arith, e, e'))
    compute_result-refused (ok p) (err x) e e' = ResultsKept-unchanged K s _ (ground (arith, e, e'))
    compute_result-refused (ok p) panic e e' = ResultsKept-unchanged K s _ (ground (arith, e, e'))
    compute_result-refused (err x) m e e' = ResultsKept-unchanged K s _ (ground (arith, e))
    compute_result-refused panic m e e' = ResultsKept-unchanged K s _ (ground (arith, e))

  pub compute_result-ResultsKept :
      (chain : ChainState X) → Keeps (ResultsKept K) (compute_result X K pid chain)
  compute_result-ResultsKept chain s = compute_result-refused chain s _ _ refl refl
