-- ===== src/Vochain/Scrutinizer/Results.antt =====
-- vochain/scrutinizer/vote.go and process.go: live results and final results in the database.
pub mod Final
pub mod Stored
pub mod Again
use go_dvote.Prelude.{
  Bytes, List, [], ◌∷◌, Res, ok, err, panic, Bool, true, false, some, key_not_found, Exec, bind_res,
  if◌then◌else◌, ◌>>◌, ◌>>=◌, not, gets_res, fail_if, lift, ltb, is_set, no_results_yet,
  already_computed, pure, length, ◌*◌, ◌^◌, key_index_overflow, too_many_key_indexes,
  too_many_questions, ◌==◌, at_index, or_error, no_keys_provided, cannot_unmarshal,
}
use go_dvote.Prelude.Int.{ℤ, leb_ℤ, pos}
use go_dvote.Types.{Process, Vote, is_encrypted}
use go_dvote.Vochain.State.{ChainState}
use go_dvote.Vochain.State.Processes.{process}
use go_dvote.Vochain.State.Votes.{envelope, envelope_list}
use go_dvote.Types.Consts.{max_key_index}
use go_dvote.Vochain.Scrutinizer.{
  Deps, Accounts, storage_get, storage_put, storage_del, live_process_key, results_key, value_of,
  ProcessVotes, VotePackage, max_questions,
}
use go_dvote.Vochain.Scrutinizer.Tally.{
  empty_process, add_options, prune_vote_result, unmarshal_vote,
}
use go_dvote.Vochain.Scrutinizer.Entities.{found_or_empty}

-- The keys of an envelope, `keys = append(keys, p.EncryptionPrivateKeys[k])` in a loop: a key index of
-- MaxKeyIndex or more ends it with an error, and one out of the list panics.
unfoldable pub keys_of : List Bytes → List ℤ → Res (List Bytes)
keys_of private_keys [] = ok []
keys_of private_keys (k ∷ ks) =
    if leb_ℤ (pos max_key_index) k
    then err key_index_overflow
    else bind_res (at_index private_keys k)
        λ key. bind_res (keys_of private_keys ks) λ rest. ok (key ∷ rest)

-- Whether a key is missing, for a Get whose other errors are returned.
unfoldable pub missing_of : Res Bytes → Res Bool
missing_of (ok b) = ok false
missing_of (err key_not_found) = ok true
missing_of (err e) = err e
missing_of panic = panic

module _ (X : go_dvote.Vochain.Deps.Deps) (K : Deps) where
  -- isLiveResultsProcess
  unfoldable pub is_live_results_process : Bytes → ChainState X → Res Bool
  is_live_results_process pid chain =
      bind_res (process X pid false chain) λ p. ok (not (is_encrypted p))

  -- newEmptyLiveProcess, and addLiveResultsProcess, whose errors are logged.
  unfoldable pub add_live_results_process : Bytes → Exec (Accounts K) (Unit {0})
  add_live_results_process pid = do
    process ← gets_res (λ s. found_or_empty (storage_get K (live_process_key pid) s))
    if is_set process then pure tt else (do
      bytes ← lift (K.results_codec.marshal empty_process)
      storage_put K (live_process_key pid) (value_of bytes))

  -- The part of addLiveResultsVote after the vote is decoded. A vote whose options are all counted
  -- is written back as one table.
  unfoldable pub count_live_vote : Bytes → List ℤ → Exec (Accounts K) (Unit {0})
  count_live_vote pid votes = do
    fail_if (ltb max_questions (length votes)) too_many_questions
    stored ← gets_res (storage_get K (live_process_key pid))
    pv ← lift (or_error (K.results_codec.unmarshal (some stored)) cannot_unmarshal)
    pv' ← lift (add_options 0 votes pv)
    bytes ← lift (K.results_codec.marshal pv')
    storage_put K (live_process_key pid) (value_of bytes)

  -- addLiveResultsVote. A process id is never nil here: it comes from a stored vote.
  unfoldable pub add_live_results_vote : Vote → Exec (Accounts K) (Unit {0})
  unfolding count_live_vote
  add_live_results_vote envelope = do
    vote ← lift (unmarshal_vote X K envelope.vote_package [])
    count_live_vote envelope.process_id vote.votes

  -- computeLiveResults
  unfoldable pub compute_live_results : Bytes → Accounts K → Res ProcessVotes
  compute_live_results pid s =
      bind_res (storage_get K (live_process_key pid) s)
        λ stored. bind_res (K.results_codec.unmarshal (some stored)) prune_vote_result

  -- The vote package of an envelope in computeNonLiveResults.
  unfoldable pub package_of : Process → Vote → Res VotePackage
  package_of p v =
      if not (is_encrypted p)
      then unmarshal_vote X K v.vote_package []
      else if ltb (length p.encryption_private_keys) (length v.encryption_key_indexes)
      then err too_many_key_indexes
      else bind_res (keys_of p.encryption_private_keys v.encryption_key_indexes) λ keys.
        if length keys == 0 then err no_keys_provided else unmarshal_vote X K v.vote_package keys

  -- The loop of computeNonLiveResults over the nullifiers: an envelope that cannot be read is left
  -- out.
  unfoldable pub count_envelopes :
      Bytes → Process → ChainState X → List Bytes → ProcessVotes → Res ProcessVotes
  count_envelopes pid p chain [] pv = ok pv
  count_envelopes pid p chain (nullifier ∷ rest) pv =
      elim (bind_res (envelope X pid nullifier false chain) (package_of p)) [
        | err e ↦ count_envelopes pid p chain rest pv
        | panic ↦ panic
        | ok vp ↦ bind_res (add_options 0 vp.votes pv) (count_envelopes pid p chain rest)
      ]

  -- computeNonLiveResults
  unfoldable pub compute_non_live_results : Bytes → Process → ChainState X → Res ProcessVotes
  unfolding count_envelopes
  compute_non_live_results pid p chain =
      bind_res
        (count_envelopes pid p chain (envelope_list X pid (pos 0) (pos (32 * 2 ^ 18)) false chain)
          empty_process)
        prune_vote_result

  -- The results that ComputeResult stores, live or not; live ones are taken out of the database.
  unfoldable pub results_of : Bytes → Process → ChainState X → Exec (Accounts K) ProcessVotes
  results_of pid p chain =
      if is_encrypted p then lift (compute_non_live_results pid p chain) else (do
        pv ← gets_res (compute_live_results pid)
        storage_del K (live_process_key pid)
        pure pv)

  -- ComputeResult
  unfoldable pub compute_result : Bytes → ChainState X → Exec (Accounts K) (Unit {0})
  unfolding results_of
  compute_result pid chain = do
    p ← lift (process X pid false chain)
    missing ← gets_res (λ s. missing_of (storage_get K (results_key pid) s))
    fail_if (not missing) already_computed
    pv ← results_of pid p chain
    bytes ← lift (K.results_codec.marshal pv)
    storage_put K (results_key pid) (value_of bytes)

  -- VoteResult
  unfoldable pub vote_result : Bytes → ChainState X → Accounts K → Res ProcessVotes
  vote_result pid chain s = bind_res (process X pid false chain) λ p.
      bind_res (missing_of (storage_get K (results_key pid) s)) λ missing.
        if not missing
        then bind_res (storage_get K (results_key pid) s) (λ b. K.results_codec.unmarshal (some b))
        else if is_encrypted p
        then err no_results_yet
        else compute_live_results pid s
