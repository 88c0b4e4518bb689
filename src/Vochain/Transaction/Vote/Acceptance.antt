-- ===== src/Vochain/Transaction/Vote/Acceptance.antt =====
-- What VoteTxCheck has checked of a vote that it accepts, and what it writes.
use go_dvote.Prelude.{
  Bytes, ◌≡◌, ℕ, Bool, Res, ◌⊎◌, Res-cases, inl, ◌>>=◌, ok, inr, Error, pure, err, false, panic,
  Option-cases, some, Bool-cases, no_state_header, true, invalid_block_frame, arith, refl, sym, ◌∙◌,
}
use go_dvote.Vochain.State.{State, ChainState, header}
use go_dvote.Vochain.Deps.{Deps}
use go_dvote.Types.{Header, VoteTx, Vote, Process, VoteProof}
use go_dvote.Vochain.Transaction.Vote.{
  vote_proof, vote_tx_check, new_vote_proof, vote_of, accepts_votes, check_process_type,
}
use go_dvote.Vochain.State.Cache.{vote_cache_add, vote_cache_del}
use go_dvote.Util.Hex.{decode_string}
use go_dvote.Vochain.State.Processes.{process}
use go_dvote.Vochain.State.Votes.{envelope_exists}

-- Two states that differ in their vote caches at most.
pub record SameChain {Db : Type 0} (s s' : State Db) : Type 0 where
  pub same_store : s'.store ≡ s.store
  pub same_listeners : s'.event_listeners ≡ s.event_listeners
  pub same_calls : s'.calls ≡ s.calls

module _ (X : Deps) (now : ℕ) (tx : VoteTx) (commit : Bool) (s : ChainState X) where
  vote_proof-SameChain :
      (p : Process) (pid : Bytes) → SameChain s (vote_proof X now commit p pid tx s).1
  unfolding vote_proof vote_cache_add vote_cache_del
  vote_proof-SameChain p pid = ground arith

-- The tests before the proof: what they read, and how VoteTxCheck goes on.
pub record Checked (X : Deps) (tx : VoteTx) (s : ChainState X) : Type 0 where
  pub pid : Bytes
  pub p : Process
  pub hd : Header
  pub decoded : decode_string tx.process_id ≡ ok pid
  pub found : process X pid false s ≡ ok p
  pub has_header : header X false s ≡ some hd
  pub open_for_votes : accepts_votes p hd.height ≡ true
  pub type_checked : check_process_type p tx ≡ ok tt

module _ (X : Deps) (now : ℕ) (tx : VoteTx) (commit : Bool) (s : ChainState X) where
  -- VoteTxCheck after its first tests.
  abbrev pub rest_of : Checked X tx s → Res Vote × ChainState X
  rest_of c =
      (do vp ← vote_proof X now commit c.p c.pid tx; pure (vote_of c.p tx c.pid vp.nullifier)) s

  pub vote_tx_check-checked : (c : Checked X tx s) → vote_tx_check X now tx commit s ≡ rest_of c
  unfolding vote_tx_check
  vote_tx_check-checked c =
      ground (arith, c.decoded, c.found, c.has_header, c.open_for_votes, c.type_checked)

  -- Either a test fails and nothing is written, or all pass and the proof decides.
  abbrev pub CheckOutcome : Type 0
  CheckOutcome =
      ((c : Checked X tx s) × (vote_tx_check X now tx commit s ≡ rest_of c))
      ⊎ ((e : Error) × (vote_tx_check X now tx commit s ≡ (err e, s)))
      ⊎ (vote_tx_check X now tx commit s ≡ (panic, s))

  after_header :
      (pid : Bytes) (p : Process) (hd : Header)
      → decode_string tx.process_id ≡ ok pid
      → process X pid false s ≡ ok p
      → header X false s ≡ some hd
      → CheckOutcome
  unfolding vote_tx_check
  after_header pid p hd e1 e2 e3 = elim (Bool-cases (accepts_votes p hd.height)) [
    | inr e4 ↦ inr (inl (invalid_block_frame, ground (arith, e1, e2, e3, e4)))
    | inl e4 ↦ elim (Res-cases (check_process_type p tx)) [
      | inl (u, e5) ↦ inl (
        record {
          pid = pid;
          p = p;
          hd = hd;
          decoded = e1;
          found = e2;
          has_header = e3;
          open_for_votes = e4;
          type_checked = e5;
        },
        ground (arith, e1, e2, e3, e4, e5),
      )
      | inr (inl (x, e5)) ↦ inr (inl (x, ground (arith, e1, e2, e3, e4, e5)))
      | inr (inr e5) ↦ inr (inr (ground (arith, e1, e2, e3, e4, e5)))
    ]
  ]

  pub check_outcome : CheckOutcome
  unfolding vote_tx_check
  check_outcome = elim (Res-cases (decode_string tx.process_id)) [
    | inr (inl (x, e1)) ↦ inr (inl (x, rw e1))
    | inr (inr e1) ↦ inr (inr (rw e1))
    | inl (pid, e1) ↦ elim (Res-cases (process X pid false s)) [
      | inr (inl (x, e2)) ↦ inr (inl (x, ground (arith, e1, e2)))
      | inr (inr e2) ↦ inr (inr (ground (arith, e1, e2)))
      | inl (p, e2) ↦ elim (Option-cases (header X false s)) [
        | inl e3 ↦ inr (inl (no_state_header, ground (arith, e1, e2, e3)))
        | inr (hd, e3) ↦ after_header pid p hd e1 e2 e3
      ]
    ]
  ]

  -- VoteTxCheck changes nothing but the cache.
  pub vote_tx_check-SameChain : SameChain s (vote_tx_check X now tx commit s).1
  vote_tx_check-SameChain = elim check_outcome [
    | inl (c, e) ↦
        let kept = vote_proof-SameChain X now tx commit s c.p c.pid in rw e (ground (arith, kept))
    | inr (inl (x, e)) ↦
        rw e (record { same_store = refl; same_listeners = refl; same_calls = refl })
    | inr (inr e) ↦ rw e (record { same_store = refl; same_listeners = refl; same_calls = refl })
  ]

-- The proof that a vote is accepted with is of a nullifier with no committed vote.
pub vote_proof_fresh :
    (X : Deps) (now : ℕ) (tx : VoteTx) (commit : Bool) (p : Process) (pid : Bytes)
    (s s' : ChainState X) (vp : VoteProof)
    → vote_proof X now commit p pid tx s ≡ (ok vp, s')
    → envelope_exists X pid vp.nullifier s ≡ false
unfolding vote_proof new_vote_proof
vote_proof_fresh X now tx commit p pid s s' vp h = ground arith

proof_of_ok :
    (X : Deps) (now : ℕ) (tx : VoteTx) (commit : Bool) (p : Process) (pid : Bytes)
    (s s' : ChainState X) (v : Vote)
    → (do vp ← vote_proof X now commit p pid tx; pure (vote_of p tx pid vp.nullifier)) s
      ≡ (ok v, s')
    → (envelope_exists X pid v.nullifier s ≡ false) × (v ≡ vote_of p tx pid v.nullifier)
unfolding vote_of
proof_of_ok X now tx commit p pid s s' v h = go (vote_proof X now commit p pid tx s) refl
  where
    go :
        (r : Res VoteProof × ChainState X)
        → vote_proof X now commit p pid tx s ≡ r
        → (envelope_exists X pid v.nullifier s ≡ false) × (v ≡ vote_of p tx pid v.nullifier)
    go (ok vp, s1) e =
        let fresh = vote_proof_fresh X now tx commit p pid s s1 vp e in
        let ve : vote_of p tx pid vp.nullifier ≡ v = ground (arith, e) in rw (← ve) (fresh, refl)
    go (err x, s1) e = absurd (ground (arith, e))
    go (panic, s1) e = absurd (ground (arith, e))

-- An accepted vote passed the tests, and has no committed vote with its nullifier.
pub accepted_checks :
    (X : Deps) (now : ℕ) (tx : VoteTx) (commit : Bool) (s s' : ChainState X) (v : Vote)
    → vote_tx_check X now tx commit s ≡ (ok v, s')
    → (c : Checked X tx s) × (envelope_exists X c.pid v.nullifier s ≡ false)
      × (v ≡ vote_of c.p tx c.pid v.nullifier)
accepted_checks X now tx commit s s' v h = elim (check_outcome X now tx commit s) [
  | inr (inl (x, e)) ↦ absurd (ground (arith, e))
  | inr (inr e) ↦ absurd (ground (arith, e))
  | inl (c, e) ↦
      let proved = proof_of_ok X now tx commit c.p c.pid s s' v (sym e ∙ h) in
      (c, proved.0, proved.1)
]
