-- ===== src/Vochain/Examples/Setting.antt =====
-- A chain with a process that is open for votes, and transactions for it.
use go_dvote.Prelude.{◌++◌, Bytes, [], ◌∷◌, false, true, codes, replicate}
use go_dvote.Sample.{sample, mem_empty, sample_vote_tx, sample_signature}
use go_dvote.Vochain.State.{ChainState}
use go_dvote.Types.{Header, Process, Vote, VoteTx, NewProcessTx}
use go_dvote.Vochain.App.{put_header, begin_block}
use go_dvote.Vochain.State.Votes.{add_vote}
use go_dvote.Prelude.Int.{pos}
use go_dvote.Vochain.State.Processes.{set_process, cancel_process}
use go_dvote.Vochain.State.Blocks.{save}
use go_dvote.Vochain.Transaction.Vote.{vote_tx_check}
use go_dvote.Vochain.Transaction.AddTx.{add_vote_tx, add_new_process_tx}
use go_dvote.Vochain.State.Oracles.{add_oracle, remove_oracle}

abbrev pub Chain : Type 0
Chain = ChainState sample

abbrev pub empty_chain : Chain
empty_chain = record { store = mem_empty; vote_cache = []; event_listeners = 1 ∷ []; calls = [] }

abbrev pub a_pid : Bytes
a_pid = replicate 32 1

-- The hexadecimal form of the id.
abbrev pub a_pid_hex : Bytes
a_pid_hex = codes "0101010101010101010101010101010101010101010101010101010101010101"

abbrev pub a_process : Process
a_process = record {
  canceled = false;
  commitment_keys = [];
  encryption_private_keys = [];
  encryption_public_keys = [];
  entity_id = replicate 20 2;
  key_index = pos 0;
  mk_root = codes "0303030303030303030303030303030303030303030303030303030303030303";
  number_of_blocks = pos 100;
  paused = false;
  reveal_keys = [];
  start_block = pos 0;
  type = codes "poll-vote";
}

abbrev pub a_header : Header
a_header = record { height = pos 5; app_hash = [] }

-- The process and the header are stored.
abbrev pub open_chain : Chain
open_chain = (put_header sample a_header (set_process sample a_process a_pid empty_chain).1).1

abbrev pub a_vote : Vote
a_vote = record {
  encryption_key_indexes = [];
  height = pos 0;
  nullifier = replicate 32 4;
  process_id = a_pid;
  vote_package = 9 ∷ [];
}

abbrev pub voted_chain : Chain
voted_chain = (add_vote sample a_vote open_chain).1

-- Save ends the block.
abbrev pub saved_chain : Chain
saved_chain = (save sample voted_chain).1

-- The vote transaction that the sample's JSON decodes.
abbrev pub a_vote_tx : VoteTx
a_vote_tx = sample_vote_tx

-- The nullifier of its voter in the setting.
abbrev pub a_nullifier : Bytes
a_nullifier = replicate 20 5 ++ replicate 12 1

abbrev pub a_tx_vote : Vote
a_tx_vote = record a_vote { nullifier = a_nullifier }

-- CheckTx of the vote, which caches its proof.
abbrev pub checked_chain : Chain
checked_chain = (vote_tx_check sample 7 a_vote_tx false open_chain).1

-- AddTx of the vote in a block.
abbrev pub delivered_chain : Chain
delivered_chain = (add_vote_tx sample 7 a_vote_tx true open_chain).1

-- CancelProcess of the process.
abbrev pub canceled_chain : Chain
canceled_chain = (cancel_process sample a_pid open_chain).1

-- A second vote after Save, and the next block.
abbrev pub second_chain : Chain
second_chain = (add_vote sample a_tx_vote saved_chain).1

abbrev pub next_header : Header
next_header = record { height = pos 6; app_hash = [] }

abbrev pub begun_chain : Chain
begun_chain = (begin_block sample 7 next_header second_chain).1

-- The oracle that signs the transactions of the setting.
abbrev pub an_oracle : Bytes
an_oracle = codes "0x0505050505050505050505050505050505050505"

abbrev pub oracle_chain : Chain
oracle_chain = (add_oracle sample an_oracle open_chain).1

abbrev pub removed_chain : Chain
removed_chain = (remove_oracle sample an_oracle oracle_chain).1

abbrev pub a_new_process_tx : NewProcessTx
a_new_process_tx = record {
  entity_id = codes "0202020202020202020202020202020202020202";
  mk_root = [];
  mk_uri = [];
  number_of_blocks = pos 10;
  process_id = codes "0606060606060606060606060606060606060606060606060606060606060606";
  process_type = codes "encrypted-poll";
  signature = sample_signature;
  start_block = pos 8;
  type = codes "newProcess";
  signed_bytes = [];
}

abbrev pub created_chain : Chain
created_chain = (add_new_process_tx sample a_new_process_tx true oracle_chain).1
