-- ===== src/Vochain/Transaction/Vote/Delivery.antt =====
-- What AddTx stores of a vote that a block delivers.
use go_dvote.Prelude.{
  Bytes, ℕ, ◌≡◌, false, refl, true, ok, err, panic, Res, arith, if◌then◌else◌, [],
}
use go_dvote.Vochain.Transaction.Vote.Acceptance.{
  Checked, accepted_checks, vote_tx_check-SameChain, SameChain,
}
use go_dvote.Vochain.State.Votes.Identity.{envelope-add_vote}
use go_dvote.Vochain.Deps.{Deps}
use go_dvote.Types.{VoteTx, Vote, Header, is_encrypted}
use go_dvote.Vochain.State.{ChainState, header, tree_get}
use go_dvote.Vochain.Transaction.AddTx.{add_vote_tx}
use go_dvote.Vochain.Transaction.Vote.{vote_tx_check, vote_of}
use go_dvote.Vochain.State.Votes.{add_vote, envelope}

module _ (X : Deps) (now : ℕ) (tx : VoteTx) (s s' : ChainState X) (nullifier : Bytes)
    (h : add_vote_tx X now tx true s ≡ (ok nullifier, s')) where
  abbrev AddedVoteTx : Type 0
  AddedVoteTx =
      (v : Vote) × (s1 : ChainState X) × (vote_tx_check X now tx true s ≡ (ok v, s1))
      × (add_vote X v s1 ≡ (ok tt, s'))
      × (v.nullifier ≡ nullifier)

  stored_vote_of :
      (v : Vote) (s1 : ChainState X)
      → vote_tx_check X now tx true s ≡ (ok v, s1)
      → (r : Res (Unit {0}) × ChainState X) → add_vote X v s1 ≡ r
      → AddedVoteTx
  unfolding add_vote_tx
  stored_vote_of v s1 e (ok tt, s2) e' = (v, s1, e, ground (arith, e, e'), ground (arith, e, e'))
  stored_vote_of v s1 e (err x, s2) e' = absurd (ground (arith, e, e'))
  stored_vote_of v s1 e (panic, s2) e' = absurd (ground (arith, e, e'))

  added_vote_of : (r : Res Vote × ChainState X) → vote_tx_check X now tx true s ≡ r → AddedVoteTx
  unfolding add_vote_tx
  added_vote_of (ok v, s1) e = stored_vote_of v s1 e (add_vote X v s1) refl
  added_vote_of (err x, s1) e = absurd (ground (arith, e))
  added_vote_of (panic, s1) e = absurd (ground (arith, e))

  pub added_vote_tx : AddedVoteTx
  added_vote_tx = added_vote_of (vote_tx_check X now tx true s) refl

  header_before : (s1 : ChainState X) → SameChain s s1 → header X false s1 ≡ header X false s
  unfolding header tree_get
  header_before s1 same = rw same.same_store refl

  -- The vote of the transaction at the height of the header, field by field.
  abbrev StoredTx : Checked X tx s → Type 0
  StoredTx c =
      envelope X c.pid nullifier false s'
      ≡ ok (record {
        encryption_key_indexes = if is_encrypted c.p then tx.encryption_key_indexes else [];
        height = c.hd.height;
        nullifier = nullifier;
        process_id = c.pid;
        vote_package = tx.vote_package;
      })

  envelope_of :
      (c : Checked X tx s) (hd : Header)
      → hd ≡ c.hd
      → (v : Vote) → v ≡ vote_of c.p tx c.pid nullifier
      → envelope X v.process_id v.nullifier false s' ≡ ok (record v { height = hd.height })
      → StoredTx c
  unfolding vote_of
  envelope_of c hd same v is_vote found = rw (is_vote, same) at found

  -- A vote transaction that AddTx accepts stores its package under the process and the nullifier,
  -- at the height of the header, with its key indexes if the process is encrypted and else none.
  pub envelope-add_vote_tx : (c : Checked X tx s) × StoredTx c
  envelope-add_vote_tx =
      let (v, s1, checked, stored, same) = added_vote_tx in
      let (c, fresh, is_vote) = accepted_checks X now tx true s s1 v checked in
      let (hd, has, found) = envelope-add_vote X v s1 s' stored in
      let kept = vote_tx_check-SameChain X now tx true s in
      let before = header_before s1 (rw checked at kept) in
      let same_header : hd ≡ c.hd = ground (arith, has, before, c.has_header) in
      (c, envelope_of c hd same_header v (rw same at is_vote) found)
