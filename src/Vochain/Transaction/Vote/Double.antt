-- ===== src/Vochain/Transaction/Vote/Double.antt =====
-- A second vote with the nullifier of a first one.
use go_dvote.Prelude.{Bytes, ℕ, ◌≡◌, Bool, ok, ap, ◌≢◌, sym, ◌∙◌, arith}
use go_dvote.Vochain.Transaction.Vote.Acceptance.{Checked, accepted_checks}
use go_dvote.Vochain.State.Votes.Identity.{envelope_exists-save}
use go_dvote.Vochain.Transaction.Vote.{vote_of, vote_tx_check}
use go_dvote.Vochain.Deps.{Deps}
use go_dvote.Types.{Vote, VoteTx}
use go_dvote.Vochain.State.{ChainState}
use go_dvote.Vochain.State.Votes.{add_vote}
use go_dvote.Vochain.State.Blocks.{save}

checked_pid :
    (X : Deps) (tx : VoteTx) (s : ChainState X) (c : Checked X tx s) (v : Vote)
    → v ≡ vote_of c.p tx c.pid v.nullifier
    → v.process_id ≡ c.pid
unfolding vote_of
checked_pid X tx s c v e = ap (λ (w : Vote). w.process_id) e

module _ (X : Deps) (v : Vote) (s s1 s2 s3 : ChainState X) (hash : Bytes) (now : ℕ) (tx : VoteTx)
    (commit : Bool) (v' : Vote) where
  -- No vote counts twice across blocks: once a vote was stored by AddVote and committed by Save,
  -- VoteTxCheck accepts no transaction for a vote of the same process with the same nullifier,
  -- neither for the mempool nor for a block, and whatever the vote cache holds.
  pub vote_tx_check-after_save :
      add_vote X v s ≡ (ok tt, s1)
      → save X s1 ≡ (ok hash, s2)
      → vote_tx_check X now tx commit s2 ≡ (ok v', s3)
      → v'.process_id ≡ v.process_id
      → v'.nullifier ≢ v.nullifier
  vote_tx_check-after_save added saved accepted same_pid same_nullifier =
      let (c, fresh, is_vote) = accepted_checks X now tx commit s2 s3 v' accepted in
      let exists = envelope_exists-save X v s s1 added s2 hash saved in
      let pid = checked_pid X tx s2 c v' is_vote in
      let pids : c.pid ≡ v.process_id = sym pid ∙ same_pid in
      ground (arith, fresh, exists, pids, same_nullifier)
