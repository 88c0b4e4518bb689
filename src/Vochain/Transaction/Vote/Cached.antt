-- ===== src/Vochain/Transaction/Vote/Cached.antt =====
-- The vote cache between CheckTx and DeliverTx.
use go_dvote.Prelude.{ℕ, ◌≡◌, some, false, true, ok, err, vote_in_cache, arith}
use go_dvote.Vochain.Deps.{Deps}
use go_dvote.Types.{VoteTx, VoteProof, uniq_id}
use go_dvote.Vochain.State.{ChainState}
use go_dvote.Vochain.Transaction.Vote.Acceptance.{Checked, vote_tx_check-checked}
use go_dvote.Vochain.State.Cache.{vote_cache_get, vote_cache_del}
use go_dvote.Vochain.Transaction.Vote.{vote_proof, vote_tx_check, vote_of}
use go_dvote.Vochain.State.Votes.{envelope_exists}

module _ (X : Deps) (now : ℕ) (tx : VoteTx) (s : ChainState X) (c : Checked X tx s) (vp : VoteProof)
    (cached : vote_cache_get (uniq_id tx c.p.type) s ≡ some vp) where
  -- A vote whose proof is cached is delivered on the word of the cache alone: whatever the
  -- signature, the census proof and the package of the transaction are, it is accepted with the
  -- cached nullifier unless that has a committed vote, and the proof is taken out of the cache.
  pub vote_tx_check-cached :
      envelope_exists X c.pid vp.nullifier s ≡ false
      → vote_tx_check X now tx true s
        ≡ (ok (vote_of c.p tx c.pid vp.nullifier), vote_cache_del (uniq_id tx c.p.type) s)
  unfolding vote_proof
  vote_tx_check-cached fresh =
      rw (vote_tx_check-checked X now tx true s c) (ground (arith, cached, fresh))

  -- While its proof is cached, the vote is refused by CheckTx, and the cache stays.
  pub vote_tx_check-in_cache : vote_tx_check X now tx false s ≡ (err vote_in_cache, s)
  unfolding vote_proof
  vote_tx_check-in_cache = rw (vote_tx_check-checked X now tx false s c) (ground (arith, cached))
