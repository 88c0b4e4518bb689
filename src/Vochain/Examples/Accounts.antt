-- ===== src/Vochain/Examples/Accounts.antt =====
-- The scrutinizer in the setting: one vote, and a poll with live results.
use go_dvote.Statedb.Iterate.{iterate, in_range, until_of, before, all_ff}
use go_dvote.Vochain.Scrutinizer.Blocks.{rollback}
use go_dvote.Vochain.Scrutinizer.{value_of, ProcessVotes}
use go_dvote.Vochain.Scrutinizer.{storage_put}
use go_dvote.Vochain.Scrutinizer.{storage_del}
use go_dvote.Vochain.Scrutinizer.{results_key}
use go_dvote.Vochain.Scrutinizer.{live_process_key}
use go_dvote.Vochain.Scrutinizer.Tally.{prune_rounds}
use go_dvote.Vochain.Scrutinizer.Tally.{prune_questions}
use go_dvote.Vochain.Scrutinizer.Tally.{increment}
use go_dvote.Vochain.Scrutinizer.Tally.{has_option}
use go_dvote.Vochain.Scrutinizer.Tally.{chosen}
use go_dvote.Vochain.Scrutinizer.Tally.{answered}
use go_dvote.Vochain.Scrutinizer.Results.{
  results_of, count_live_vote, is_live_results_process, vote_result,
}
use go_dvote.Vochain.Scrutinizer.Results.{compute_live_results}
use go_dvote.Sample.{strings_ser, vote_ser}
use go_dvote.Sample.Accounts.{found_in}
use go_dvote.Prelude.{set_index, erase, if◌then◌else◌, some, Bytes, err, already_computed}
use go_dvote.Prelude.Int.{◌+ℤ◌}
use go_dvote.Sample.Accounts.{mem_get}
use go_dvote.Vochain.Scrutinizer.{storage_get}
use go_dvote.Vochain.Scrutinizer.Results.{missing_of}
use go_dvote.Sample.{process_ser}
use go_dvote.Vochain.State.Processes.{process}
use go_dvote.Vochain.State.{tree_get}
use go_dvote.Vochain.State.{notify}
use go_dvote.Vochain.State.Votes.{vote_entries}
use go_dvote.Vochain.State.Votes.{envelope}
use go_dvote.Vochain.Scrutinizer.Tally.{unmarshal_vote}
use go_dvote.Vochain.Scrutinizer.Tally.{decrypt_all}
use go_dvote.Vochain.Scrutinizer.Results.{package_of}
use go_dvote.Vochain.Scrutinizer.Results.Final.{package_at}
use go_dvote.Types.Consts.{snark_vote}
use go_dvote.Types.Consts.{poll_vote}
use go_dvote.Types.Consts.{petition_sign}
use go_dvote.Types.Consts.{encrypted_poll}
use go_dvote.Prelude.{at_index}
use go_dvote.Prelude.Int.{◌+ℤ◌}
use go_dvote.Prelude.Int.{wrap64}
use go_dvote.Prelude.Int.{add64}
use go_dvote.Sample.{header_ser}
use go_dvote.Vochain.State.{header_key}
use go_dvote.Prelude.{bytes_eq}
use go_dvote.Vochain.State.{store_as}
use go_dvote.Vochain.State.Processes.{set_process}
use go_dvote.Prelude.{insert}
use go_dvote.Statedb.{tree_eq}
use go_dvote.Sample.{mem_add}
use go_dvote.Vochain.State.{tree_add}
use go_dvote.Vochain.App.{put_header}
use go_dvote.Prelude.{lookup}
use go_dvote.Sample.{codec_of}
use go_dvote.Vochain.State.{header}
use go_dvote.Vochain.State.Votes.{vote_id}
use go_dvote.Vochain.State.Votes.{add_vote}
use go_dvote.Vochain.State.Votes.{envelope_list}
use go_dvote.Vochain.Scrutinizer.Tally.Counted.{is_accepted}
use go_dvote.Prelude.{[], ◌∷◌, ok, refl, ◌≡◌, panic, false, map, true, ◌%◌, ◌^◌}
use go_dvote.Sample.{sample}
use go_dvote.Sample.Accounts.{sample_accounts}
use go_dvote.Vochain.Examples.Setting.{voted_chain, open_chain, a_pid, a_process, a_vote}
use go_dvote.Vochain.Scrutinizer.{Accounts}
use go_dvote.Vochain.Scrutinizer.Tally.{empty_process, add_options, prune_vote_result}
use go_dvote.Vochain.Scrutinizer.Tally.Counted.{all_accepted}
use go_dvote.Vochain.Scrutinizer.Tally.Tables.{empty_process-IsTable, table_of}
use go_dvote.Vochain.Scrutinizer.Tally.Ballots.{add_options-panic, total}
use go_dvote.Vochain.Scrutinizer.Tally.Pruned.{prune_vote_result-trim, trim_row, trim, all_zero}
use go_dvote.Vochain.Scrutinizer.Results.{
  compute_result, add_live_results_process, add_live_results_vote, compute_non_live_results,
}
use go_dvote.Prelude.Int.{pos}
use go_dvote.Vochain.Scrutinizer.Results.Final.{
  countable, counted_nullifiers, ballots, compute_non_live_results-trim,
}
use go_dvote.Vochain.Scrutinizer.Results.Stored.{Computed, compute_result-Computed}
use go_dvote.Types.{is_encrypted, process_is_encrypted}
use go_dvote.Vochain.Scrutinizer.Entities.{found_or_empty}
use go_dvote.Vochain.Scrutinizer.Blocks.Steps.{Reaches, Reaches-results, Step}
use go_dvote.Vochain.Scrutinizer.Results.Again.{vote_result-compute_result}

abbrev accounts : Accounts sample_accounts
accounts = record {
  storage = [];
  vote_pool = [];
  process_pool = [];
  results_pool = [];
  entity_count = pos 0;
}

refused : all_accepted 0 (pos 64 ∷ []) ≡ false
unfolding all_accepted is_accepted
refused = refl

-- A vote for the option 64 of the first question.
add_options-panic_example : add_options 0 (pos 64 ∷ []) empty_process ≡ panic
add_options-panic_example =
    add_options-panic 0 (pos 64 ∷ []) empty_process empty_process-IsTable refused

prune_vote_result-trim_example :
    prune_vote_result empty_process ≡ ok (map trim_row (trim all_zero empty_process))
prune_vote_result-trim_example = prune_vote_result-trim empty_process empty_process-IsTable

a_vote_countable :
    countable sample sample_accounts a_pid a_process voted_chain
      (counted_nullifiers sample sample_accounts a_pid a_process voted_chain)
    ≡ true
unfolding iterate in_range until_of before all_ff countable package_at package_of unmarshal_vote
    decrypt_all all_accepted is_accepted add_vote envelope envelope_list vote_entries vote_id header
    header_key codec_of lookup put_header tree_add tree_get mem_add tree_eq insert set_process
    store_as bytes_eq header_ser process_ser vote_ser strings_ser process notify add64 wrap64 ◌+ℤ◌
    at_index is_encrypted process_is_encrypted encrypted_poll petition_sign poll_vote snark_vote
a_vote_countable = refl

compute_non_live_results-trim_example :
    compute_non_live_results sample sample_accounts a_pid a_process voted_chain
    ≡ ok (
        map trim_row (
          trim all_zero (
            table_of (λ i j.
              total
                (ballots sample sample_accounts a_pid a_process voted_chain
                  (counted_nullifiers sample sample_accounts a_pid a_process voted_chain))
                i
                j
              % 2 ^ 32))))
compute_non_live_results-trim_example =
    compute_non_live_results-trim sample sample_accounts a_pid a_process voted_chain
      a_vote_countable

-- The poll has live results, with one vote, which are then its final results.
abbrev live : Accounts sample_accounts
live =
    (add_live_results_vote sample sample_accounts a_vote
      (add_live_results_process sample sample_accounts a_pid accounts).1).1

abbrev final : Accounts sample_accounts
final = (compute_result sample sample_accounts a_pid open_chain live).1

final_computed : compute_result sample sample_accounts a_pid open_chain live ≡ (ok tt, final)
unfolding add_vote envelope envelope_list vote_entries vote_id header header_key codec_of lookup
    put_header tree_add tree_get mem_add tree_eq insert set_process store_as bytes_eq header_ser
    process_ser vote_ser strings_ser process notify add64 wrap64 ◌+ℤ◌ at_index is_encrypted
    process_is_encrypted encrypted_poll petition_sign poll_vote snark_vote storage_get storage_put
    storage_del value_of live_process_key results_key mem_get found_in erase
    add_live_results_process count_live_vote add_live_results_vote unmarshal_vote decrypt_all
    found_or_empty missing_of empty_process add_options increment set_index results_of
    compute_result compute_live_results prune_vote_result answered has_option chosen prune_questions
    prune_rounds is_live_results_process
final_computed = refl

compute_result-Computed_example : Computed sample sample_accounts a_pid open_chain live final
compute_result-Computed_example =
    compute_result-Computed sample sample_accounts a_pid open_chain live final final_computed

-- Option 9 of the first question has one vote.
abbrev final_results : ProcessVotes
final_results = (0 ∷ 0 ∷ 0 ∷ 0 ∷ 0 ∷ 0 ∷ 0 ∷ 0 ∷ 0 ∷ 1 ∷ []) ∷ []

abbrev final_bytes : Bytes
final_bytes = 1 ∷ 1 ∷ 10 ∷ 0 ∷ 0 ∷ 0 ∷ 0 ∷ 0 ∷ 0 ∷ 0 ∷ 0 ∷ 0 ∷ 1 ∷ []

process_found : process sample a_pid false open_chain ≡ ok a_process
unfolding add_vote envelope envelope_list vote_entries vote_id header header_key codec_of lookup
    put_header tree_add tree_get mem_add tree_eq insert set_process store_as bytes_eq header_ser
    process_ser vote_ser strings_ser process notify add64 wrap64 ◌+ℤ◌ at_index is_encrypted
    process_is_encrypted encrypted_poll petition_sign poll_vote snark_vote storage_get storage_put
    storage_del value_of live_process_key results_key mem_get found_in erase
    add_live_results_process count_live_vote add_live_results_vote unmarshal_vote decrypt_all
    found_or_empty missing_of empty_process add_options increment set_index results_of
    compute_result compute_live_results prune_vote_result answered has_option chosen prune_questions
    prune_rounds is_live_results_process
process_found = refl

live_counted :
    (if is_encrypted a_process
      then compute_non_live_results sample sample_accounts a_pid a_process open_chain
      else compute_live_results sample sample_accounts a_pid live)
    ≡ ok final_results
unfolding add_vote envelope envelope_list vote_entries vote_id header header_key codec_of lookup
    put_header tree_add tree_get mem_add tree_eq insert set_process store_as bytes_eq header_ser
    process_ser vote_ser strings_ser process notify add64 wrap64 ◌+ℤ◌ at_index is_encrypted
    process_is_encrypted encrypted_poll petition_sign poll_vote snark_vote storage_get storage_put
    storage_del value_of live_process_key results_key mem_get found_in erase
    add_live_results_process count_live_vote add_live_results_vote unmarshal_vote decrypt_all
    found_or_empty missing_of empty_process add_options increment set_index results_of
    compute_result compute_live_results prune_vote_result answered has_option chosen prune_questions
    prune_rounds is_live_results_process
live_counted = refl

final_marshaled : sample_accounts.results_codec.marshal final_results ≡ ok (some final_bytes)
unfolding codec_of strings_ser
final_marshaled = refl

vote_result-compute_result_example :
    (vote_result sample sample_accounts a_pid open_chain final ≡ ok final_results)
    × (compute_result sample sample_accounts a_pid open_chain final ≡ (err already_computed, final))
vote_result-compute_result_example =
    vote_result-compute_result sample sample_accounts a_pid open_chain open_chain live final
      a_process a_process final_results final_bytes final_computed process_found live_counted
      final_marshaled process_found

final_stored : storage_get sample_accounts (results_key a_pid) final ≡ ok final_bytes
unfolding add_vote envelope envelope_list vote_entries vote_id header header_key codec_of lookup
    put_header tree_add tree_get mem_add tree_eq insert set_process store_as bytes_eq header_ser
    process_ser vote_ser strings_ser process notify add64 wrap64 ◌+ℤ◌ at_index is_encrypted
    process_is_encrypted encrypted_poll petition_sign poll_vote snark_vote storage_get storage_put
    storage_del value_of live_process_key results_key mem_get found_in erase
    add_live_results_process count_live_vote add_live_results_vote unmarshal_vote decrypt_all
    found_or_empty missing_of empty_process add_options increment set_index results_of
    compute_result compute_live_results prune_vote_result answered has_option chosen prune_questions
    prune_rounds is_live_results_process
final_stored = refl

-- After the results were computed they are computed again, and the block is rolled back.
abbrev later : Accounts sample_accounts
later =
    (rollback sample sample_accounts
      (compute_result sample sample_accounts a_pid open_chain final).1).1

two_steps : Reaches sample sample_accounts final later
two_steps =
    Reaches.goes final (compute_result sample sample_accounts a_pid open_chain final).1 later
      (Step.computed a_pid open_chain final)
      (Reaches.goes (compute_result sample sample_accounts a_pid open_chain final).1 later later
        (Step.rolled_back (compute_result sample sample_accounts a_pid open_chain final).1)
        (Reaches.stays later))

Reaches-results_example : storage_get sample_accounts (results_key a_pid) later ≡ ok final_bytes
Reaches-results_example =
    Reaches-results sample sample_accounts final later a_pid final_bytes two_steps final_stored
