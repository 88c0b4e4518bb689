-- ===== src/Vochain/Scrutinizer/Blocks/Kept.antt =====
-- The steps of the scrutinizer, and that none of them changes results that are stored.
use go_dvote.Prelude.Keeps.{Keeps, Keeps->>=, Keeps->>, Keeps-if}
use go_dvote.Prelude.{
  Bytes, ok, err, panic, refl, gets_res, modify, fail_if, bytes_eq, Bool, Res, ◌≡◌, Exec, Error,
  ◌>>◌, ◌>>=◌, false, ◌++◌, arith, value_or, [], List, none, or_error, some, ◌∷◌, cannot_unmarshal,
  lift, ℕ, if◌then◌else◌, pure, suc,
}
use go_dvote.Vochain.Scrutinizer.Writes.{
  entity-ne-results, storage_put-other, live-ne-results, ending-ne-results,
}
use go_dvote.Vochain.Scrutinizer.{
  Deps, Accounts, storage_get, storage_put, entity_key, results_key, live_process_key, value_of,
  OnProcessData,
}
use go_dvote.Vochain.Scrutinizer.Entities.{get_or_empty, add_entity}
use go_dvote.Vochain.Scrutinizer.Results.Stored.{
  SameResults, SameResults-refl, SameResults-put, SameResults-trans,
}
use go_dvote.Vochain.Scrutinizer.Blocks.{
  logged, register_pending_process, ending_key, ending_list, commit_results, commit_votes,
  commit_processes, commit,
}
use mathlib.Core.Bool.{true}
use go_dvote.Vochain.Scrutinizer.Results.{
  add_live_results_process, count_live_vote, add_live_results_vote, is_live_results_process,
}
use go_dvote.Prelude.Int.{ℤ, add64, pos}
use go_dvote.Vochain.Scrutinizer.Tally.{unmarshal_vote, empty_process, add_options}
use go_dvote.Util.Decimal.{decimal_ℤ}
use go_dvote.Vochain.State.{ChainState}
use go_dvote.Types.{Vote}

logged_at :
    {S A : Type 0} (R : S → S → Type 0) (s : S) (r : Res A × S)
    → R s r.1
    → R s
        (elim r.0 as (λ _. Res (Unit {0}) × S) [
          | ok a ↦ (ok tt, r.1)
          | err e ↦ (ok tt, r.1)
          | panic ↦ (panic, r.1)
        ]).1
logged_at R s (ok a, t) h = h
logged_at R s (err e, t) h = h
logged_at R s (panic, t) h = h

module _ (K : Deps) where
  same->>= :
      {A B : Type 0} (m : Exec (Accounts K) A) (f : A → Exec (Accounts K) B)
      → Keeps (SameResults K) m
      → ((a : A) → Keeps (SameResults K) (f a))
      → Keeps (SameResults K) (m >>= f)
  same->>= = Keeps->>= (SameResults K) (SameResults-trans K)

  same->> :
      {A B : Type 0} (m : Exec (Accounts K) A) (m' : Exec (Accounts K) B)
      → Keeps (SameResults K) m
      → Keeps (SameResults K) m'
      → Keeps (SameResults K) (m >> m')
  same->> = Keeps->> (SameResults K) (SameResults-trans K)

  same_read : {A : Type 0} (r : Accounts K → Res A) → Keeps (SameResults K) (gets_res r)
  same_read r = SameResults-refl K

  same_fail_if : (c : Bool) (e : Error) → Keeps (SameResults K) (fail_if c e)
  same_fail_if true e = SameResults-refl K
  same_fail_if false e = SameResults-refl K

  pub same_modify :
      (f : Accounts K → Accounts K)
      → ((s : Accounts K) → (f s).storage ≡ s.storage)
      → Keeps (SameResults K) (modify f)
  unfolding SameResults storage_get
  same_modify f h s pid = rw (h s) refl

  same_put :
      (key value : Bytes)
      → ((pid : Bytes) → bytes_eq key (results_key pid) ≡ false)
      → Keeps (SameResults K) (storage_put K key value)
  same_put = SameResults-put K

  pub logged-Keeps :
      (R : Accounts K → Accounts K → Type 0) {A : Type 0} (m : Exec (Accounts K) A)
      → Keeps R m
      → Keeps R (logged m)
  logged-Keeps R m kept s = logged_at R s (m s) (kept s)

  put_kept :
      (key value j : Bytes) (s : Accounts K)
      → bytes_eq key (results_key j) ≡ false
      → K.kv.get (storage_put K key value s).1.storage (results_key j)
        ≡ K.kv.get s.storage (results_key j)
  unfolding storage_get
  put_kept key value j s ne = storage_put-other K key value (results_key j) s ne

  add_entity-SameResults : (eid pid : Bytes) → Keeps (SameResults K) (add_entity K eid pid)
  unfolding add_entity SameResults storage_get
  add_entity-SameResults eid pid s j =
      let list = value_or (get_or_empty K (entity_key eid) s) [] in
      let kept = put_kept (entity_key eid) (list ++ pid) j s (entity-ne-results eid j) in
      ground (arith, kept)

  pub ending-results :
      (height : ℤ) (j : Bytes) → bytes_eq (ending_key height) (results_key j) ≡ false
  unfolding ending_key
  ending-results height j = ending-ne-results (decimal_ℤ height) j

  register_pending_process-SameResults :
      (X : go_dvote.Vochain.Deps.Deps) (pid : Bytes) (height : ℤ)
      → Keeps (SameResults K) (register_pending_process X K pid height)
  unfolding register_pending_process SameResults storage_get
  register_pending_process-SameResults X pid height s j =
      let stored = value_or (get_or_empty K (ending_key height) s) [] in
      let pids = value_or (ending_list X K stored) [] in
      let bytes = value_or (K.endings_codec.marshal (pids ++ pid ∷ [])) none in
      let kept = put_kept (ending_key height) (value_of bytes) j s (ending-results height j) in
      ground (arith, kept)

  add_live_results_process-SameResults :
      (X : go_dvote.Vochain.Deps.Deps) (pid : Bytes)
      → Keeps (SameResults K) (add_live_results_process X K pid)
  unfolding add_live_results_process SameResults storage_get
  add_live_results_process-SameResults X pid s j =
      let bytes = value_or (K.results_codec.marshal empty_process) none in
      let kept = put_kept (live_process_key pid) (value_of bytes) j s (live-ne-results pid j) in
      ground (arith, kept)

  count_live_vote-SameResults :
      (X : go_dvote.Vochain.Deps.Deps) (pid : Bytes) (votes : List ℤ)
      → Keeps (SameResults K) (count_live_vote X K pid votes)
  unfolding count_live_vote SameResults storage_get
  count_live_vote-SameResults X pid votes s j =
      let stored = value_or (K.kv.get s.storage (live_process_key pid)) [] in
      let pv = value_or (or_error (K.results_codec.unmarshal (some stored)) cannot_unmarshal) [] in
      let pv' = value_or (add_options 0 votes pv) [] in
      let bytes = value_or (K.results_codec.marshal pv') none in
      let kept = put_kept (live_process_key pid) (value_of bytes) j s (live-ne-results pid j) in
      ground (arith, kept)

module _ (X : go_dvote.Vochain.Deps.Deps) (K : Deps) where
  same_then : (s t u : Accounts K) → SameResults K s t → SameResults K t u → SameResults K s u
  same_then = SameResults-trans K

  add_live_results_vote-SameResults :
      (v : Vote) → Keeps (SameResults K) (add_live_results_vote X K v)
  unfolding add_live_results_vote
  add_live_results_vote-SameResults v =
      same->>= K (lift (unmarshal_vote X K v.vote_package [])) _ (SameResults-refl K)
        (λ vp. count_live_vote-SameResults K X v.process_id vp.votes)

  start_live : Bytes → ChainState X → Exec (Accounts K) (Unit {0})
  start_live pid chain = do
    live ← lift (is_live_results_process X K pid chain)
    if live then add_live_results_process X K pid else pure tt

  start_live-SameResults :
      (pid : Bytes) (chain : ChainState X) → Keeps (SameResults K) (start_live pid chain)
  unfolding start_live
  start_live-SameResults pid chain =
      same->>= K (lift (is_live_results_process X K pid chain)) _ (SameResults-refl K) (λ live.
        Keeps-if (SameResults K) live (add_live_results_process X K pid) (pure tt)
          (add_live_results_process-SameResults K X pid) (SameResults-refl K))

  pub logged_same :
      {A : Type 0} (m : Exec (Accounts K) A)
      → Keeps (SameResults K) m
      → Keeps (SameResults K) (logged m)
  logged_same = logged-Keeps K (SameResults K)

  commit_processes-SameResults :
      (ps : List OnProcessData) (chain : ChainState X)
      → Keeps (SameResults K) (commit_processes X K ps chain)
  unfolding commit_processes start_live
  commit_processes-SameResults [] chain = SameResults-refl K
  commit_processes-SameResults (p ∷ ps) chain =
      same->> K (logged (add_entity K p.entity_id p.process_id))
        (logged (start_live p.process_id chain) >> commit_processes X K ps chain)
        (logged_same _ (add_entity-SameResults K p.entity_id p.process_id))
        (same->> K (logged (start_live p.process_id chain)) (commit_processes X K ps chain)
          (logged_same _ (start_live-SameResults p.process_id chain))
          (commit_processes-SameResults ps chain))

  commit_results-SameResults :
      (i : ℕ) (ps : List OnProcessData) (height : ℤ)
      → Keeps (SameResults K) (commit_results X K i ps height)
  unfolding commit_results
  commit_results-SameResults i [] height = SameResults-refl K
  commit_results-SameResults i (p ∷ ps) height =
      let at_height = add64 height (pos (suc i)) in
      same->> K (logged (register_pending_process X K p.process_id at_height))
        (commit_results X K (suc i) ps height)
        (logged_same _ (register_pending_process-SameResults K X p.process_id at_height))
        (commit_results-SameResults (suc i) ps height)

  commit_votes-SameResults : (vs : List Vote) → Keeps (SameResults K) (commit_votes X K vs)
  unfolding commit_votes
  commit_votes-SameResults [] = SameResults-refl K
  commit_votes-SameResults (v ∷ vs) =
      same->> K (logged (add_live_results_vote X K v)) (commit_votes X K vs)
        (logged_same _ (add_live_results_vote-SameResults v)) (commit_votes-SameResults vs)

  pub commit-SameResults :
      (height : ℤ) (chain : ChainState X) → Keeps (SameResults K) (commit X K height chain)
  unfolding commit
  commit-SameResults height chain s =
      same->> K (commit_processes X K s.process_pool chain)
        (commit_results X K 0 s.results_pool height >> commit_votes X K s.vote_pool)
        (commit_processes-SameResults s.process_pool chain)
        (same->> K (commit_results X K 0 s.results_pool height) (commit_votes X K s.vote_pool)
          (commit_results-SameResults 0 s.results_pool height)
          (commit_votes-SameResults s.vote_pool))
        s
