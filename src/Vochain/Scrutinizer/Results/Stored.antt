-- ===== src/Vochain/Scrutinizer/Results/Stored.antt =====
-- The final results under ComputeResult, and what VoteResult answers afterwards.
use go_dvote.Prelude.{
  pure, Bytes, ok, refl, ◌∙◌, ◌≡◌, bytes_eq, false, gets_res, Res, if◌then◌else◌, true, Bool-cases,
  err, key_not_found, inl, arith, inr, panic, Res-cases, Bool, Error,
}
use go_dvote.Prelude.Keeps.{Keeps, Keeps->>=, Keeps->>, Keeps-if}
use go_dvote.Vochain.Scrutinizer.Writes.{
  storage_put-other, storage_del-other, live-ne-results, storage_get-storage_put, bytes_eq-results,
}
use go_dvote.Vochain.Scrutinizer.{
  Deps, Accounts, storage_get, storage_put, storage_del, results_key, live_process_key,
  ProcessVotes, value_of,
}
use go_dvote.Vochain.Scrutinizer.Results.{
  results_of, compute_live_results, missing_of, compute_result, compute_non_live_results,
}
use go_dvote.Types.{Process, is_encrypted, Slice}
use go_dvote.Vochain.State.{ChainState}
use go_dvote.Vochain.State.Processes.{process}

-- The final results of every process are as they were.
unfoldable pub SameResults : (K : Deps) → Accounts K → Accounts K → Type 0
SameResults K s t =
    (pid : Bytes) → storage_get K (results_key pid) t ≡ storage_get K (results_key pid) s

-- A value that was there is the value still.
unfoldable pub ValueKept : Res Bytes → Res Bytes → Type 0
ValueKept (ok b) r = r ≡ ok b
ValueKept (err e) r = Unit {0}
ValueKept panic r = Unit {0}

-- The final results that there were are as they were.
unfoldable pub ResultsKept : (K : Deps) → Accounts K → Accounts K → Type 0
unfolding ValueKept
ResultsKept K s t =
    (pid : Bytes)
    → ValueKept (storage_get K (results_key pid) s) (storage_get K (results_key pid) t)

pub ValueKept-err : (e : Error) (b : Res Bytes) → ValueKept (err e) b
unfolding ValueKept
ValueKept-err e b = tt

pub ValueKept-trans : (a b c : Res Bytes) → ValueKept a b → ValueKept b c → ValueKept a c
unfolding ValueKept
ValueKept-trans (ok x) b c h k = rw h at k
ValueKept-trans (err e) b c h k = tt
ValueKept-trans panic b c h k = tt

pub ValueKept-refl : (a : Res Bytes) → ValueKept a a
unfolding ValueKept
ValueKept-refl (ok x) = refl
ValueKept-refl (err e) = tt
ValueKept-refl panic = tt

module _ (K : Deps) where
  pub SameResults-trans :
      (s t u : Accounts K) → SameResults K s t → SameResults K t u → SameResults K s u
  unfolding SameResults
  SameResults-trans s t u a b pid = b pid ∙ a pid

  pub ResultsKept-trans :
      (s t u : Accounts K) → ResultsKept K s t → ResultsKept K t u → ResultsKept K s u
  unfolding ResultsKept
  ResultsKept-trans s t u a b pid = ValueKept-trans _ _ _ (a pid) (b pid)

  pub ResultsKept-same : (s t : Accounts K) → SameResults K s t → ResultsKept K s t
  unfolding SameResults ResultsKept
  ResultsKept-same s t a pid = rw (a pid) (ValueKept-refl (storage_get K (results_key pid) s))

  pub SameResults-refl : (s : Accounts K) → SameResults K s s
  unfolding SameResults
  SameResults-refl s pid = refl

  pub ResultsKept-unchanged : (s t : Accounts K) → s ≡ t → ResultsKept K s t
  ResultsKept-unchanged s t e = rw (← e) (ResultsKept-same s s (SameResults-refl s))

  pub SameResults-at :
      (s t : Accounts K)
      → SameResults K s t
      → (pid : Bytes) → storage_get K (results_key pid) t ≡ storage_get K (results_key pid) s
  unfolding SameResults
  SameResults-at s t a pid = a pid

  pub SameResults-put :
      (key value : Bytes)
      → ((pid : Bytes) → bytes_eq key (results_key pid) ≡ false)
      → Keeps (SameResults K) (storage_put K key value)
  unfolding SameResults
  SameResults-put key value ne s pid = storage_put-other K key value (results_key pid) s (ne pid)

  pub SameResults-del :
      (key : Bytes)
      → ((pid : Bytes) → bytes_eq key (results_key pid) ≡ false)
      → Keeps (SameResults K) (storage_del K key)
  unfolding SameResults
  SameResults-del key ne s pid = storage_del-other K key (results_key pid) s (ne pid)

module _ (X : go_dvote.Vochain.Deps.Deps) (K : Deps) (pid : Bytes) (p : Process)
    (chain : ChainState X) where
  pub results_of-SameResults : Keeps (SameResults K) (results_of X K pid p chain)
  unfolding results_of
  results_of-SameResults = Keeps-if (SameResults K) (is_encrypted p) _ _ (SameResults-refl K) (
      Keeps->>= (SameResults K) (SameResults-trans K) (gets_res (compute_live_results X K pid)) _
        (SameResults-refl K)
        (λ pv.
          Keeps->> (SameResults K) (SameResults-trans K) (storage_del K (live_process_key pid))
            (pure pv) (SameResults-del K (live_process_key pid) (live-ne-results pid))
            (SameResults-refl K)))

pub missing_of-true : (r : Res Bytes) → missing_of r ≡ ok true → r ≡ err key_not_found
unfolding missing_of
missing_of-true (ok b) h = absurd (ground arith)
missing_of-true (err key_not_found) h = refl
missing_of-true (err e) h = absurd (ground arith)
missing_of-true panic h = absurd (ground arith)

module _ (X : go_dvote.Vochain.Deps.Deps) (K : Deps) (pid : Bytes) (chain : ChainState X)
    (s s' : Accounts K) where
  -- What ComputeResult that succeeded has done: there were no results, and those that are computed
  -- from the votes are stored under the process id.
  pub record Computed : Type 0 where
    pub p : Process
    pub results : ProcessVotes
    pub bytes : Slice
    pub found : process X pid false chain ≡ ok p
    pub were_none : storage_get K (results_key pid) s ≡ err key_not_found
    pub computed :
        (if is_encrypted p
          then compute_non_live_results X K pid p chain
          else compute_live_results X K pid s)
        ≡ ok results
    pub encoded : K.results_codec.marshal results ≡ ok bytes
    pub stored :
        (j : Bytes)
        → storage_get K (results_key j) s'
          ≡ (if bytes_eq pid j then ok (value_of bytes) else storage_get K (results_key j) s)

  results_of-ok :
      (p : Process) (pv : ProcessVotes)
      → (results_of X K pid p chain s).0 ≡ ok pv
      → (if is_encrypted p
          then compute_non_live_results X K pid p chain
          else compute_live_results X K pid s)
        ≡ ok pv
  unfolding results_of
  results_of-ok p pv h = elim (Bool-cases (is_encrypted p)) [
    | inl e ↦ rw e (ground (arith, e, h))
    | inr e ↦ rw e (elim (Res-cases (compute_live_results X K pid s)) [
      | inl (pv1, e1) ↦ elim (Res-cases (storage_del K (live_process_key pid) s).0) [
        | inl (u, e2) ↦ ground (arith, e, e1, e2, h)
        | inr (inl (x, e2)) ↦ absurd (ground (arith, e, e1, e2, h))
        | inr (inr e2) ↦ absurd (ground (arith, e, e1, e2, h))
      ]
      | inr (inl (x, e1)) ↦ absurd (ground (arith, e, e1, h))
      | inr (inr e1) ↦ absurd (ground (arith, e, e1, h))
    ])
  ]

  module _ (p : Process) (found : process X pid false chain ≡ ok p)
      (none_yet : missing_of (storage_get K (results_key pid) s) ≡ ok true)
      (h : compute_result X K pid chain s ≡ (ok tt, s')) where
    Computed-of :
        (pv : ProcessVotes) (bytes : Slice)
        → (results_of X K pid p chain s).0 ≡ ok pv
        → K.results_codec.marshal pv ≡ ok bytes
        → Computed
    unfolding compute_result
    Computed-of pv bytes e e' =
        let t = (results_of X K pid p chain s).1 in
        let put : storage_put K (results_key pid) (value_of bytes) t ≡ (ok tt, s') =
          ground (arith, found, none_yet, h, e, e') in
        let same = results_of-SameResults X K pid p chain s in
        record {
          p = p;
          results = pv;
          bytes = bytes;
          found = found;
          were_none = missing_of-true (storage_get K (results_key pid) s) none_yet;
          computed = results_of-ok p pv e;
          encoded = e';
          stored = λ j.
              storage_get-storage_put K (results_key pid) (value_of bytes) (results_key j) t s' put
              ∙ rw (bytes_eq-results pid j) (rw (SameResults-at K s t same j) refl);
        }

    results-Computed : (r : Res ProcessVotes) → (results_of X K pid p chain s).0 ≡ r → Computed
    unfolding compute_result
    results-Computed (ok pv) e = elim (Res-cases (K.results_codec.marshal pv)) [
      | inl (bytes, e') ↦ Computed-of pv bytes e e'
      | inr (inl (x, e')) ↦ absurd (ground (arith, found, none_yet, h, e, e'))
      | inr (inr e') ↦ absurd (ground (arith, found, none_yet, h, e, e'))
    ]
    results-Computed (err x) e = absurd (ground (arith, found, none_yet, h, e))
    results-Computed panic e = absurd (ground (arith, found, none_yet, h, e))

  found-Computed :
      (p : Process) (missing : Res Bool)
      → process X pid false chain ≡ ok p
      → missing_of (storage_get K (results_key pid) s) ≡ missing
      → compute_result X K pid chain s ≡ (ok tt, s')
      → Computed
  unfolding compute_result
  found-Computed p (ok true) found e h =
      results-Computed p found e h (results_of X K pid p chain s).0 refl
  found-Computed p (ok false) found e h = absurd (ground (arith, found, e, h))
  found-Computed p (err x) found e h = absurd (ground (arith, found, e, h))
  found-Computed p panic found e h = absurd (ground (arith, found, e, h))

  -- ComputeResult that succeeds found a process without results, computed them from the votes by the
  -- kind of the process and stored what they encode to under its id; all other results stay.
  pub compute_result-Computed : compute_result X K pid chain s ≡ (ok tt, s') → Computed
  unfolding compute_result
  compute_result-Computed h = elim (Res-cases (process X pid false chain)) [
    | inl (p, found) ↦
        found-Computed p (missing_of (storage_get K (results_key pid) s)) found refl h
    | inr (inl (x, e)) ↦ absurd (ground (arith, h, e))
    | inr (inr e) ↦ absurd (ground (arith, h, e))
  ]
