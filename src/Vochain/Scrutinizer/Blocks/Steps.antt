-- ===== src/Vochain/Scrutinizer/Blocks/Steps.antt =====
-- The operations of the scrutinizer as steps, in any order, and that stored results stay.
use go_dvote.Prelude.Keeps.{Keeps, Keeps->>=, Keeps->>}
use go_dvote.Prelude.{Bytes, List, [], ◌∷◌, ok, refl, lift, pure, gets_res, Exec, some, ◌≡◌, arith}
use go_dvote.Prelude.Int.{ℤ}
use go_dvote.Types.{Vote}
use go_dvote.Vochain.State.{ChainState}
use go_dvote.Vochain.Scrutinizer.{Deps, Accounts, storage_get, storage_del, results_key}
use go_dvote.Vochain.Scrutinizer.Results.{compute_result}
use go_dvote.Vochain.Scrutinizer.Results.Stored.{
  ResultsKept, SameResults, SameResults-refl, SameResults-del, ResultsKept-trans, ResultsKept-same,
  ValueKept,
}
use go_dvote.Vochain.Scrutinizer.Results.Again.{compute_result-ResultsKept}
use go_dvote.Vochain.Scrutinizer.Blocks.{
  logged, rollback, on_process, on_vote, on_reveal_keys, commit, check_finished_processes,
  compute_results, ending_key,
}
use go_dvote.Vochain.Scrutinizer.Blocks.Kept.{commit-SameResults, logged-Keeps, ending-results}

module _ (X : go_dvote.Vochain.Deps.Deps) (K : Deps) where
  -- One operation, on any state of the chain.
  pub data Step : Accounts K → Accounts K → Type 0 where
    rolled_back : (s : Accounts K) → Step s (rollback X K s).1
    processed : (pid eid : Bytes) (s : Accounts K) → Step s (on_process X K pid eid s).1
    voted : (v : Vote) (chain : ChainState X) (s : Accounts K) → Step s (on_vote X K v chain s).1
    revealed :
        (pid : Bytes) (chain : ChainState X) (s : Accounts K)
        → Step s (on_reveal_keys X K pid chain s).1
    committed :
        (height : ℤ) (chain : ChainState X) (s : Accounts K) → Step s (commit X K height chain s).1
    checked :
        (height : ℤ) (chain : ChainState X) (s : Accounts K)
        → Step s (check_finished_processes X K height chain s).1
    computed :
        (pid : Bytes) (chain : ChainState X) (s : Accounts K)
        → Step s (compute_result X K pid chain s).1

  -- Any number of operations.
  pub data Reaches : Accounts K → Accounts K → Type 0 where
    stays : (s : Accounts K) → Reaches s s
    goes : (s t u : Accounts K) → Step s t → Reaches t u → Reaches s u

  same_kept :
      {A : Type 0} (m : Exec (Accounts K) A) → Keeps (SameResults K) m → Keeps (ResultsKept K) m
  same_kept m h s = ResultsKept-same K s (m s).1 (h s)

  compute_results-ResultsKept :
      (pids : List Bytes) (chain : ChainState X)
      → Keeps (ResultsKept K) (compute_results X K pids chain)
  unfolding compute_results
  compute_results-ResultsKept [] chain = same_kept (pure tt) (SameResults-refl K)
  compute_results-ResultsKept (pid ∷ pids) chain =
      Keeps->> (ResultsKept K) (ResultsKept-trans K) (logged (compute_result X K pid chain))
        (compute_results X K pids chain)
        (logged-Keeps K (ResultsKept K) (compute_result X K pid chain)
          (compute_result-ResultsKept X K pid chain))
        (compute_results-ResultsKept pids chain)

  check_finished_processes-ResultsKept :
      (height : ℤ) (chain : ChainState X)
      → Keeps (ResultsKept K) (check_finished_processes X K height chain)
  unfolding check_finished_processes
  check_finished_processes-ResultsKept height chain =
      let read = gets_res (storage_get K (ending_key height)) in
      let decode : Bytes → Exec (Accounts K) (List Bytes) =
        λ stored. lift (K.endings_codec.unmarshal (some stored)) in
      let remove = storage_del K (ending_key height) in
      logged-Keeps K (ResultsKept K) _ (
        Keeps->>= (ResultsKept K) (ResultsKept-trans K) read _ (same_kept read (SameResults-refl K))
          (λ stored.
            Keeps->>= (ResultsKept K) (ResultsKept-trans K) (decode stored) _
              (same_kept (decode stored) (SameResults-refl K))
              (λ pids.
                Keeps->> (ResultsKept K) (ResultsKept-trans K) (compute_results X K pids chain)
                  remove (compute_results-ResultsKept pids chain)
                  (same_kept remove
                    (SameResults-del K (ending_key height) (ending-results K height))))))

  on_vote-SameResults :
      (v : Vote) (chain : ChainState X) → Keeps (SameResults K) (on_vote X K v chain)
  unfolding on_vote SameResults storage_get
  on_vote-SameResults v chain s j = ground arith

  on_reveal_keys-SameResults :
      (pid : Bytes) (chain : ChainState X) → Keeps (SameResults K) (on_reveal_keys X K pid chain)
  unfolding on_reveal_keys SameResults storage_get
  on_reveal_keys-SameResults pid chain s j = ground arith

  rollback-SameResults : Keeps (SameResults K) (rollback X K)
  unfolding rollback SameResults storage_get
  rollback-SameResults s j = refl

  on_process-SameResults : (pid eid : Bytes) → Keeps (SameResults K) (on_process X K pid eid)
  unfolding on_process SameResults storage_get
  on_process-SameResults pid eid s j = refl

  Step-ResultsKept : {s t : Accounts K} → Step s t → ResultsKept K s t
  Step-ResultsKept (rolled_back s) = same_kept (rollback X K) rollback-SameResults s
  Step-ResultsKept (processed pid eid s) =
      same_kept (on_process X K pid eid) (on_process-SameResults pid eid) s
  Step-ResultsKept (voted v chain s) =
      same_kept (on_vote X K v chain) (on_vote-SameResults v chain) s
  Step-ResultsKept (revealed pid chain s) =
      same_kept (on_reveal_keys X K pid chain) (on_reveal_keys-SameResults pid chain) s
  Step-ResultsKept (committed height chain s) =
      same_kept (commit X K height chain) (commit-SameResults X K height chain) s
  Step-ResultsKept (checked height chain s) = check_finished_processes-ResultsKept height chain s
  Step-ResultsKept (computed pid chain s) = compute_result-ResultsKept X K pid chain s

  Reaches-ResultsKept : {s t : Accounts K} → Reaches s t → ResultsKept K s t
  Reaches-ResultsKept (stays s) = ResultsKept-same K s s (SameResults-refl K s)
  Reaches-ResultsKept (goes s m t step rest) =
      ResultsKept-trans K s m t (Step-ResultsKept step) (Reaches-ResultsKept rest)

  -- Results that are stored under a process id stay, byte for byte, under every sequence of
  -- operations of the scrutinizer, whatever states of the chain they are given.
  pub Reaches-results :
      (s t : Accounts K) (pid b : Bytes)
      → Reaches s t
      → storage_get K (results_key pid) s ≡ ok b
      → storage_get K (results_key pid) t ≡ ok b
  unfolding ResultsKept ValueKept
  Reaches-results s t pid b steps h = rw h at (Reaches-ResultsKept steps pid)
