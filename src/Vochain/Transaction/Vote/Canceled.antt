-- ===== src/Vochain/Transaction/Vote/Canceled.antt =====
-- Votes of a canceled process.
use go_dvote.Prelude.{
  Bytes, ℕ, ◌≡◌, false, Bool, true, ok, err, arith, some, invalid_block_frame, ◌∙◌,
}
use go_dvote.Vochain.State.Processes.Cancel.{cancel_process-outcome}
use go_dvote.Vochain.Deps.{Deps}
use go_dvote.Types.{VoteTx, Header, Process}
use go_dvote.Vochain.State.{ChainState, header}
use go_dvote.Vochain.Transaction.Vote.{accepts_votes, vote_tx_check}
use go_dvote.Util.Hex.{decode_string}
use go_dvote.Vochain.State.Processes.{process, cancel_process}

module _ (X : Deps) (now : ℕ) (tx : VoteTx) (commit : Bool) (s : ChainState X) (pid : Bytes)
    (p : Process) (hd : Header) where
  vote_tx_check-not_accepted :
      decode_string tx.process_id ≡ ok pid
      → process X pid false s ≡ ok p
      → header X false s ≡ some hd
      → accepts_votes p hd.height ≡ false
      → vote_tx_check X now tx commit s ≡ (err invalid_block_frame, s)
  unfolding vote_tx_check
  vote_tx_check-not_accepted decoded found has closed = ground (arith, decoded, found, has, closed)

  accepts_votes-canceled : accepts_votes (record p { canceled = true }) hd.height ≡ false
  unfolding accepts_votes
  accepts_votes-canceled = ground arith

-- Once CancelProcess succeeded on a process, VoteTxCheck refuses every vote for it and writes
-- nothing, for the mempool as for a block, and whatever the vote cache holds.
pub vote_tx_check-canceled :
    (X : Deps) (now : ℕ) (tx : VoteTx) (commit : Bool) (s s' : ChainState X) (pid : Bytes)
    (hd : Header)
    → decode_string tx.process_id ≡ ok pid
    → header X false s ≡ some hd
    → cancel_process X pid s ≡ (ok tt, s')
    → vote_tx_check X now tx commit s' ≡ (err invalid_block_frame, s')
vote_tx_check-canceled X now tx commit s s' pid hd decoded has h =
    let (p, found, after, same_header, _) = cancel_process-outcome X pid s s' h in
    vote_tx_check-not_accepted X now tx commit s' pid (record p { canceled = true }) hd decoded
      after (same_header ∙ has) (accepts_votes-canceled X now tx commit s' pid p hd)
