-- ===== src/Vochain/Transaction/Vote/Lifecycle.antt =====
-- A vote from the mempool to its block: CheckTx caches its proof, and DeliverTx uses it.
use go_dvote.Vochain.Transaction.Vote.Signatures.{vote_proof-new}
use go_dvote.Prelude.{
  Bytes, ℕ, ◌≡◌, false, refl, ok, arith, length, ◌∙◌, ◌<◌, length-take, some, lookup-insert,
  bytes_eq_refl, Res, err, inl, panic, true, inr, take, ap,
}
use go_dvote.Vochain.Transaction.Vote.Acceptance.{
  Checked, SameChain, check_outcome, rest_of, vote_tx_check-SameChain, vote_proof_fresh,
}
use go_dvote.Vochain.Deps.{Deps}
use go_dvote.Types.{uniq_id, VoteTx, Process, VoteProof, Vote}
use go_dvote.Vochain.Transaction.Vote.{
  check_process_type, is_ballot_type, vote_proof, vote_tx_check, vote_of,
}
use go_dvote.Vochain.State.{ChainState, header, tree_get}
use go_dvote.Vochain.State.Processes.{process}
use go_dvote.Vochain.State.Votes.{envelope_exists}
use go_dvote.Vochain.State.Cache.{vote_cache_get, vote_cache_add, vote_cache_del}
use go_dvote.Vochain.Transaction.Vote.Cached.{vote_tx_check-cached}
use go_dvote.Util.Hex.{decode_string}

module _ (X : Deps) (tx : VoteTx) (s s' : ChainState X) (same : SameChain s s') where
  pub process-SameChain : (pid : Bytes) → process X pid false s' ≡ process X pid false s
  unfolding process tree_get
  process-SameChain pid = rw same.same_store refl

  pub header-SameChain : header X false s' ≡ header X false s
  unfolding header tree_get
  header-SameChain = rw same.same_store refl

  pub envelope_exists-SameChain :
      (pid nullifier : Bytes)
      → envelope_exists X pid nullifier s' ≡ envelope_exists X pid nullifier s
  unfolding envelope_exists tree_get
  envelope_exists-SameChain pid nullifier = rw same.same_store refl

  -- What was checked in one state is checked in the other.
  unfoldable pub checked_again : Checked X tx s → Checked X tx s'
  checked_again c = record {
    pid = c.pid;
    p = c.p;
    hd = c.hd;
    decoded = c.decoded;
    found = process-SameChain c.pid ∙ c.found;
    has_header = header-SameChain ∙ c.has_header;
    open_for_votes = c.open_for_votes;
    type_checked = c.type_checked;
  }

-- A signature of more than 32 bytes gives a vote of a ballot process an id in the cache.
pub uniq_id_set :
    (tx : VoteTx) (p : Process)
    → check_process_type p tx ≡ ok tt
    → 32 < length tx.signature
    → length (uniq_id tx p.type) ≡ 32
unfolding uniq_id check_process_type is_ballot_type
uniq_id_set tx p checked long = let short = length-take 32 tx.signature in ground (arith, short)

module _ (X : Deps) (now : ℕ) (tx : VoteTx) (s s' : ChainState X) (c : Checked X tx s)
    (id_set : length (uniq_id tx c.p.type) ≡ 32) where
  pub vote_proof_cached :
      (vp : VoteProof)
      → vote_proof X now false c.p c.pid tx s ≡ (ok vp, s')
      → vote_cache_get (uniq_id tx c.p.type) s' ≡ some vp
  unfolding vote_proof vote_cache_get vote_cache_add
  vote_proof_cached vp h =
      let added = lookup-insert (uniq_id tx c.p.type) (uniq_id tx c.p.type) vp s.vote_cache in
      let itself = bytes_eq_refl (uniq_id tx c.p.type) in ground (arith, added, itself)

uniq_id-same_prefix :
    (tx tx' : VoteTx) (t : Bytes)
    → take 32 tx'.signature ≡ take 32 tx.signature
    → 32 < length tx.signature
    → 32 < length tx'.signature
    → uniq_id tx' t ≡ uniq_id tx t
unfolding uniq_id
uniq_id-same_prefix tx tx' t same long long' = ground (arith, same)

-- The checks of a transaction are those of another for the process with the same key indexes.
copied_check :
    {X : Deps} {tx : VoteTx} (tx' : VoteTx) (s : ChainState X)
    → Checked X tx s
    → tx'.process_id ≡ tx.process_id
    → tx'.encryption_key_indexes ≡ tx.encryption_key_indexes
    → Checked X tx' s
unfolding check_process_type
copied_check tx' s c same_id same_indexes = record {
  pid = c.pid;
  p = c.p;
  hd = c.hd;
  decoded = ap decode_string same_id ∙ c.decoded;
  found = c.found;
  has_header = c.has_header;
  open_for_votes = c.open_for_votes;
  type_checked = rw same_indexes c.type_checked;
}

module _ (X : Deps) (now : ℕ) (tx : VoteTx) (s s' : ChainState X) (v : Vote)
    (h : vote_tx_check X now tx false s ≡ (ok v, s')) where
  unfoldable pub ProvedVote : Type 0
  ProvedVote =
      (c : Checked X tx s) × (vp : VoteProof) × (vote_proof X now false c.p c.pid tx s
        ≡ (ok vp, s'))
      × (vote_of c.p tx c.pid vp.nullifier ≡ v)

  proved_of :
      (c : Checked X tx s) (r : Res VoteProof × ChainState X)
      → vote_proof X now false c.p c.pid tx s ≡ r
      → vote_tx_check X now tx false s ≡ rest_of X now tx false s c
      → ProvedVote
  unfolding ProvedVote
  proved_of c (ok vp, s1) e checked =
      let same : s1 ≡ s' = ground (arith, e) in (c, vp, rw e (rw same refl), ground (arith, e))
  proved_of c (err x, s1) e checked = absurd (ground (arith, e))
  proved_of c (panic, s1) e checked = absurd (ground (arith, e))

  pub proved_vote : ProvedVote
  proved_vote = elim (check_outcome X now tx false s) [
    | inl (c, e) ↦ proved_of c (vote_proof X now false c.p c.pid tx s) refl e
    | inr (inl (x, e)) ↦ absurd (ground (arith, e))
    | inr (inr e) ↦ absurd (ground (arith, e))
  ]

  -- The id of an accepted vote in the cache is not empty: only signatures of 130 bytes are read.
  pub long_signature :
      (c : Checked X tx s) (vp : VoteProof)
      → vote_proof X now false c.p c.pid tx s ≡ (ok vp, s')
      → 32 < length tx.signature
  long_signature c vp proved = omega (arith, (vote_proof-new X now tx c.p c.pid s s' vp proved).1)

  -- After CheckTx accepted a vote, another transaction for the process, with the same key indexes
  -- and a signature with the same first 32 bytes, is delivered as a vote with the nullifier of the
  -- first and the package of the other, whatever its signature and its proof are.
  pub vote_tx_check-same_prefix :
      (later : ℕ) (tx' : VoteTx)
      → tx'.process_id ≡ tx.process_id
      → tx'.encryption_key_indexes ≡ tx.encryption_key_indexes
      → take 32 tx'.signature ≡ take 32 tx.signature
      → 32 < length tx'.signature
      → (v' : Vote) × (s2 : ChainState X) × (vote_tx_check X later tx' true s' ≡ (ok v', s2))
        × (v'.nullifier ≡ v.nullifier)
        × (v'.process_id ≡ v.process_id)
        × (v'.vote_package ≡ tx'.vote_package)
  unfolding ProvedVote checked_again vote_of copied_check proved_vote
  vote_tx_check-same_prefix later tx' same_id same_indexes same_start long' =
      let (c, vp, proved, same) = proved_vote in
      let long = long_signature c vp proved in
      let id_set = uniq_id_set tx c.p c.type_checked long in
      let cached = vote_proof_cached X now tx s s' c id_set vp proved in
      let kept : SameChain s s' = rw h at (vote_tx_check-SameChain X now tx false s) in
      let c' = copied_check tx' s' (checked_again X tx s s' kept c) same_id same_indexes in
      let same_uid = uniq_id-same_prefix tx tx' c.p.type same_start long long' in
      let fresh =
        envelope_exists-SameChain X tx s s' kept c.pid vp.nullifier
        ∙ vote_proof_fresh X now tx false c.p c.pid s s' vp proved in
      (
        vote_of c.p tx' c.pid vp.nullifier,
        vote_cache_del (uniq_id tx' c.p.type) s',
        vote_tx_check-cached X later tx' s' c' vp
            (ap (λ uid. vote_cache_get uid s') same_uid ∙ cached) fresh,
        rw (← same) refl,
        rw (← same) refl,
        refl,
      )
