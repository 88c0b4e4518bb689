-- ===== src/Vochain/Scrutinizer/Blocks.antt =====
-- vochain/scrutinizer/scrutinizer.go and process.go: what the scrutinizer does on the events of the
-- chain and at the end of a block. The computing of the results of a block runs on its own in the
-- code: it is an operation of its own here, in any order with the others.
pub mod Kept
pub mod Steps
use go_dvote.Prelude.{
  Bytes, List, [], ◌∷◌, ℕ, Res, ok, err, panic, if◌then◌else◌, Exec, ◌>>=◌, modify, pure, is_set,
  gets_res, gets, some, ◌>>◌, lift, ◌++◌, false, suc,
}
use go_dvote.Vochain.Scrutinizer.{
  Deps, Accounts, storage_get, storage_put, storage_del, OnProcessData, process_ending_key,
  value_of,
}
use go_dvote.Prelude.Int.{ℤ, add64, pos, ltb_ℤ}
use go_dvote.Types.{Vote, Process}
use go_dvote.Vochain.State.{ChainState}
use go_dvote.Util.Decimal.{decimal_ℤ}
use go_dvote.Vochain.Scrutinizer.Results.{
  add_live_results_vote, compute_result, is_live_results_process, add_live_results_process,
}
use go_dvote.Vochain.State.Processes.{process}
use go_dvote.Vochain.Scrutinizer.Entities.{add_entity, get_or_empty}

-- A call whose error is logged.
abbrev pub logged : {S A : Type 0} → Exec S A → Exec S (Unit {0})
logged m s =
    let (r, s') = m s in elim r [ ok a ↦ (ok tt, s') | err e ↦ (ok tt, s') | panic ↦ (panic, s') ]

-- The key of the processes whose results are computed at a block.
unfoldable pub ending_key : ℤ → Bytes
ending_key height = process_ending_key (decimal_ℤ height)

module _ (X : go_dvote.Vochain.Deps.Deps) (K : Deps) where
  -- Rollback
  unfoldable pub rollback : Exec (Accounts K) (Unit {0})
  rollback = modify (λ s. record s { vote_pool = []; process_pool = []; results_pool = [] })

  -- OnProcess
  unfoldable pub on_process : Bytes → Bytes → Exec (Accounts K) (Unit {0})
  on_process pid eid = modify (λ s. record s {
    process_pool = s.process_pool ++ record { entity_id = eid; process_id = pid } ∷ [];
  })

  -- OnVote
  unfoldable pub on_vote : Vote → ChainState X → Exec (Accounts K) (Unit {0})
  on_vote v chain = logged (do
    live ← lift (is_live_results_process X K v.process_id chain)
    if live then modify (λ s. record s { vote_pool = s.vote_pool ++ v ∷ [] }) else pure tt)

  -- OnRevealKeys
  unfoldable pub on_reveal_keys : Bytes → ChainState X → Exec (Accounts K) (Unit {0})
  on_reveal_keys pid chain =
      let pending : Process → OnProcessData =
        λ p. record { entity_id = p.entity_id; process_id = pid } in
      logged (do
        p ← lift (process X pid false chain)
        if ltb_ℤ p.key_index (pos 1)
            then modify (λ s. record s { results_pool = s.results_pool ++ pending p ∷ [] })
            else pure tt)

  -- The list of the processes of a block, as it is stored.
  unfoldable pub ending_list : Bytes → Res (List Bytes)
  ending_list stored = if is_set stored then K.endings_codec.unmarshal (some stored) else ok []

  -- registerPendingProcess
  unfoldable pub register_pending_process : Bytes → ℤ → Exec (Accounts K) (Unit {0})
  unfolding ending_list
  register_pending_process pid height = do
    stored ← gets_res (get_or_empty K (ending_key height))
    pids ← lift (ending_list stored)
    bytes ← lift (K.endings_codec.marshal (pids ++ pid ∷ []))
    storage_put K (ending_key height) (value_of bytes)

  -- The loop of checkFinishedProcesses.
  unfoldable pub compute_results : List Bytes → ChainState X → Exec (Accounts K) (Unit {0})
  compute_results [] chain = pure tt
  compute_results (pid ∷ pids) chain = do
    logged (compute_result X K pid chain)
    compute_results pids chain

  -- checkFinishedProcesses. An empty value does not decode.
  unfoldable pub check_finished_processes : ℤ → ChainState X → Exec (Accounts K) (Unit {0})
  unfolding compute_results
  check_finished_processes height chain = logged (do
    stored ← gets_res (storage_get K (ending_key height))
    pids ← lift (K.endings_codec.unmarshal (some stored))
    compute_results pids chain
    storage_del K (ending_key height))

  -- The loop of Commit over the new processes.
  unfoldable pub commit_processes : List OnProcessData → ChainState X → Exec (Accounts K) (Unit {0})
  commit_processes [] chain = pure tt
  commit_processes (p ∷ ps) chain = do
    logged (add_entity K p.entity_id p.process_id)
    logged (do
      live ← lift (is_live_results_process X K p.process_id chain)
      if live then add_live_results_process X K p.process_id else pure tt)
    commit_processes ps chain

  -- The loop of Commit over the processes whose keys are revealed, from the place `i`.
  unfoldable pub commit_results : ℕ → List OnProcessData → ℤ → Exec (Accounts K) (Unit {0})
  unfolding register_pending_process
  commit_results i [] height = pure tt
  commit_results i (p ∷ ps) height = do
    logged (register_pending_process p.process_id (add64 height (pos (suc i))))
    commit_results (suc i) ps height

  -- The loop of Commit over the votes.
  unfoldable pub commit_votes : List Vote → Exec (Accounts K) (Unit {0})
  commit_votes [] = pure tt
  commit_votes (v ∷ vs) = do logged (add_live_results_vote X K v); commit_votes vs

  -- Commit, less the check of the finished processes that it starts.
  unfoldable pub commit : ℤ → ChainState X → Exec (Accounts K) (Unit {0})
  unfolding commit_processes commit_results commit_votes
  commit height chain = do
    s ← gets (λ s. s)
    commit_processes s.process_pool chain
    commit_results 0 s.results_pool height
    commit_votes s.vote_pool
