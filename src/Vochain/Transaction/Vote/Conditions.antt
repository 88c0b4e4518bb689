-- ===== src/Vochain/Transaction/Vote/Conditions.antt =====
-- The conditions on which VoteTxCheck accepts a vote.
use go_dvote.Vochain.Transaction.Vote.{
  new_vote_proof, accepts_votes, check_process_type, is_ballot_type, vote_of, vote_proof,
  vote_tx_check,
}
use go_dvote.Vochain.Deps.{Deps}
use go_dvote.Types.{Header, VoteTx, Vote, Process, VoteProof, require_keys, is_encrypted, uniq_id}
use go_dvote.Types.Consts.{poll_vote, petition_sign, encrypted_poll}
use go_dvote.Vochain.State.{ChainState, header}
use go_dvote.Vochain.State.Cache.{vote_cache_get}
use go_dvote.Vochain.State.Processes.{process}
use go_dvote.Vochain.State.Votes.{envelope_exists}
use go_dvote.Vochain.Apputils.{generate_nullifier, check_merkle_proof}
use go_dvote.Ethereum.{pub_key_from_signature, addr_from_public_key}
use go_dvote.Util.Hex.{decode_string}
use go_dvote.Prelude.Int.{pos, ◌≤ℤ◌, add64}
use go_dvote.Prelude.{
  Bytes, ℕ, ◌≡◌, ◌⊎◌, true, ok, Res-cases, false, bytes_eq→≡, Bool-cases, arith, length, some, inr,
  ◌≢◌, bytes_eq, inl, Bool, Res, Option-cases, ◌>>=◌, sym, pure, err, ◌∙◌, panic, refl,
}
use go_dvote.Vochain.Transaction.Vote.Acceptance.{check_outcome, vote_proof_fresh}

-- The nullifier is that of the key that signed the transaction, and the key is in the census.
pub record SignedBy (X : Deps) (tx : VoteTx) (p : Process) (pid nullifier : Bytes) : Type 0 where
  pub pub_key : Bytes
  pub addr : Bytes
  pub pub_key_dec : Bytes
  pub signed : pub_key_from_signature X.eth tx.signed_bytes tx.signature ≡ ok pub_key
  pub addressed : addr_from_public_key X.eth pub_key ≡ ok addr
  pub key_decoded : decode_string pub_key ≡ ok pub_key_dec
  pub own_nullifier : nullifier ≡ generate_nullifier X addr pid
  pub in_census : check_merkle_proof X p.mk_root tx.proof (X.poseidon pub_key_dec) ≡ ok true

-- The type of a process with ballots.
abbrev pub HasBallots : Process → Type 0
HasBallots p = (p.type ≡ poll_vote) ⊎ (p.type ≡ petition_sign) ⊎ (p.type ≡ encrypted_poll)

-- What holds of a vote that is accepted.
pub record Acceptable (X : Deps) (tx : VoteTx) (s : ChainState X) (v : Vote) : Type 0 where
  pub pid : Bytes
  pub p : Process
  pub hd : Header
  pub decoded : decode_string tx.process_id ≡ ok pid
  pub found : process X pid false s ≡ ok p
  pub has_header : header X false s ≡ some hd
  pub started : p.start_block ≤ℤ hd.height
  pub not_ended : hd.height ≤ℤ add64 p.start_block p.number_of_blocks
  pub not_canceled : p.canceled ≡ false
  pub not_paused : p.paused ≡ false
  pub has_ballots : HasBallots p
  pub has_keys : (require_keys p ≡ false) ⊎ (pos 1 ≤ℤ p.key_index)
  pub has_key_indexes : (is_encrypted p ≡ false) ⊎ (length tx.encryption_key_indexes ≢ 0)
  pub uncommitted : envelope_exists X pid v.nullifier s ≡ false
  pub same_process : v.process_id ≡ pid
  pub same_package : v.vote_package ≡ tx.vote_package
  pub proved :
      SignedBy X tx p pid v.nullifier
      ⊎ ((vp : VoteProof) × (vote_cache_get (uniq_id tx p.type) s ≡ some vp)
          × (v.nullifier ≡ vp.nullifier))

accepts_votes-bounds :
    (p : Process) (hd : Header)
    → accepts_votes p hd.height ≡ true
    → (p.start_block ≤ℤ hd.height)
      × (hd.height ≤ℤ add64 p.start_block p.number_of_blocks)
      × (p.canceled ≡ false)
      × (p.paused ≡ false)
unfolding accepts_votes
accepts_votes-bounds p hd h = ground arith

is_ballot_type-HasBallots : (p : Process) → is_ballot_type p.type ≡ true → HasBallots p
unfolding is_ballot_type
is_ballot_type-HasBallots p h =
    let poll = bytes_eq→≡ p.type poll_vote in
    let petition = bytes_eq→≡ p.type petition_sign in
    let encrypted = bytes_eq→≡ p.type encrypted_poll in
    elim (Bool-cases (bytes_eq p.type poll_vote)) [
      | inl e ↦ inl (poll e)
      | inr e ↦ elim (Bool-cases (bytes_eq p.type petition_sign)) [
        | inl e' ↦ inr (inl (petition e'))
        | inr e' ↦ inr (inr (encrypted (ground (arith, e, e', h))))
      ]
    ]

check_process_type-ok :
    (p : Process) (tx : VoteTx)
    → check_process_type p tx ≡ ok tt
    → HasBallots p
      × ((require_keys p ≡ false) ⊎ (pos 1 ≤ℤ p.key_index))
      × ((is_encrypted p ≡ false) ⊎ (length tx.encryption_key_indexes ≢ 0))
unfolding check_process_type
check_process_type-ok p tx h =
    let ballots : is_ballot_type p.type ≡ true = ground (arith, h) in
    (
      is_ballot_type-HasBallots p ballots,
      elim (Bool-cases (require_keys p)) [ inr e ↦ inl e | inl e ↦ inr (ground (arith, e, h)) ],
      elim (Bool-cases (is_encrypted p)) [
        | inr e ↦ inl e
        | inl e ↦ inr (λ z. absurd (ground (arith, e, h, z, ballots)))
      ],
    )

module _ (X : Deps) (now : ℕ) (tx : VoteTx) (p : Process) (pid : Bytes) (s : ChainState X)
    (vp : VoteProof) where
  pub new_vote_proof-SignedBy :
      new_vote_proof X now p pid tx s ≡ ok vp → SignedBy X tx p pid vp.nullifier
  unfolding new_vote_proof
  new_vote_proof-SignedBy h =
      elim (Res-cases (pub_key_from_signature X.eth tx.signed_bytes tx.signature)) [
        | inr bad ↦ absurd (ground (arith, bad))
        | inl (pub_key, e1) ↦ elim (Res-cases (addr_from_public_key X.eth pub_key)) [
          | inr bad ↦ absurd (ground (arith, bad, e1))
          | inl (addr, e2) ↦ elim (Res-cases (decode_string pub_key)) [
            | inr bad ↦ absurd (ground (arith, bad, e1, e2))
            | inl (dec, e3) ↦
                elim (Res-cases (check_merkle_proof X p.mk_root tx.proof (X.poseidon dec))) [
                  | inr bad ↦ absurd (ground (arith, bad, e1, e2, e3))
                  | inl (valid, e4) ↦ record {
                    pub_key = pub_key;
                    addr = addr;
                    pub_key_dec = dec;
                    signed = e1;
                    addressed = e2;
                    key_decoded = e3;
                    own_nullifier = ground (arith, e1, e2, e3, e4, h);
                    in_census = ground (arith, e1, e2, e3, e4, h);
                  }
                ]
          ]
        ]
      ]

module _ (X : Deps) (now : ℕ) (tx : VoteTx) (commit : Bool) (p : Process) (pid : Bytes)
    (s : ChainState X) where
  -- Where a proof comes from.
  abbrev pub ProofSource : VoteProof → Type 0
  ProofSource vp =
      (new_vote_proof X now p pid tx s ≡ ok vp) ⊎ (vote_cache_get (uniq_id tx p.type) s ≡ some vp)

  pub vote_proof-ProofSource :
      (s' : ChainState X) (vp : VoteProof)
      → vote_proof X now commit p pid tx s ≡ (ok vp, s')
      → ProofSource vp
  unfolding vote_proof
  vote_proof-ProofSource s' vp h = elim (Option-cases (vote_cache_get (uniq_id tx p.type) s)) [
    | inr (cached, e) ↦ inr (ground (arith, e, h))
    | inl e ↦ elim (Res-cases (new_vote_proof X now p pid tx s)) [
      | inl (made, f) ↦ inl (ground (arith, e, f, h))
      | inr bad ↦ absurd (ground (arith, e, bad, h))
    ]
  ]

  proof_behind :
      (v : Vote) (s' : ChainState X) (r : Res VoteProof × ChainState X)
      → vote_proof X now commit p pid tx s ≡ r
      → (do vp ← vote_proof X now commit p pid tx; pure (vote_of p tx pid vp.nullifier)) s
        ≡ (ok v, s')
      → (vp : VoteProof) × ProofSource vp
        × (envelope_exists X pid vp.nullifier s ≡ false)
        × (v ≡ vote_of p tx pid vp.nullifier)
  proof_behind v s' (ok vp, s1) e h = (
    vp,
    vote_proof-ProofSource s1 vp e,
    vote_proof_fresh X now tx commit p pid s s1 vp e,
    ground (arith, e, h),
  )
  proof_behind v s' (err x, s1) e h = absurd (ground (arith, e, h))
  proof_behind v s' (panic, s1) e h = absurd (ground (arith, e, h))

-- VoteTxCheck accepts a vote only of a process that is there, at a height of the header between its
-- start and its end, while it is neither canceled nor paused; of a type that has ballots, with keys
-- and key indexes where the type wants them. No vote with the nullifier is committed, and the
-- nullifier is that of the signer of the transaction, who is in the census, or comes with a cached
-- proof. The vote has the process and the package of the transaction.
pub vote_tx_check-accepted :
    (X : Deps) (now : ℕ) (tx : VoteTx) (commit : Bool) (s s' : ChainState X) (v : Vote)
    → vote_tx_check X now tx commit s ≡ (ok v, s')
    → Acceptable X tx s v
unfolding vote_of
vote_tx_check-accepted X now tx commit s s' v h = elim (check_outcome X now tx commit s) [
  | inr (inl (x, e)) ↦ absurd (ground (arith, e))
  | inr (inr e) ↦ absurd (ground (arith, e))
  | inl (c, e) ↦
      let behind =
        proof_behind X now tx commit c.p c.pid s v s' (vote_proof X now commit c.p c.pid tx s) refl
          (sym e ∙ h) in
      let (vp, source, fresh, is_vote) = behind in
      let (begun, running, kept, unpaused) = accepts_votes-bounds c.p c.hd c.open_for_votes in
      let (ballots, keys, indexes) = check_process_type-ok c.p tx c.type_checked in
      let nullifier : vp.nullifier ≡ v.nullifier = rw is_vote refl in
      record {
        pid = c.pid;
        p = c.p;
        hd = c.hd;
        decoded = c.decoded;
        found = c.found;
        has_header = c.has_header;
        started = begun;
        not_ended = running;
        not_canceled = kept;
        not_paused = unpaused;
        has_ballots = ballots;
        has_keys = keys;
        has_key_indexes = indexes;
        uncommitted = rw (← nullifier) fresh;
        same_process = rw is_vote refl;
        same_package = rw is_vote refl;
        proved = elim source [
          | inl made ↦ inl (rw (← nullifier) (new_vote_proof-SignedBy X now tx c.p c.pid s vp made))
          | inr cached ↦ inr (vp, cached, sym nullifier)
        ];
      }
]
