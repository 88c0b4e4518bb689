-- ===== src/Vochain/Transaction/Vote/Purged.antt =====
-- The proof of a vote after a purge of the cache, and a proof that is made again.
use go_dvote.Vochain.Transaction.Vote.{new_vote_proof}
use go_dvote.Vochain.Deps.{Deps}
use go_dvote.Types.{VoteTx, Process, VoteProof}
use go_dvote.Vochain.State.{State, ChainState}
use go_dvote.Vochain.State.Cache.{vote_cache_get, purge_old, vote_cache_purge}
use go_dvote.Vochain.State.Votes.{envelope_exists}
use go_dvote.Vochain.Apputils.{generate_nullifier, check_merkle_proof}
use go_dvote.Ethereum.{pub_key_from_signature, addr_from_public_key}
use go_dvote.Util.Hex.{decode_string}
use go_dvote.Prelude.Int.{ℤ}
use go_dvote.Prelude.{
  [], ◌∷◌, Bytes, List, ℕ, lookup, insert, ◌≡◌, some, none, ok, length, lookup-insert, Res-cases,
  ◌⊎◌, bytes_eq_refl, arith, inr, inl,
}

-- The proof under a key that was free is there or gone after a purge.
lookup-purge_insert :
    (now : ℕ) (id : Bytes) (vp : VoteProof) (m : List (Bytes × VoteProof))
    → lookup id m ≡ none
    → (lookup id (purge_old now (insert id vp m)) ≡ some vp)
      ⊎ (lookup id (purge_old now (insert id vp m)) ≡ none)
unfolding lookup insert purge_old
lookup-purge_insert now id vp [] free = ground (arith, bytes_eq_refl id)
lookup-purge_insert now id vp ((j, w) ∷ m) free = ground (arith, lookup-purge_insert now id vp m)

lookup-insert_here :
    (id : Bytes) (vp : VoteProof) (m : List (Bytes × VoteProof))
    → lookup id (insert id vp m) ≡ some vp
lookup-insert_here id vp m =
    let added = lookup-insert id id vp m in
    let itself = bytes_eq_refl id in ground (arith, added, itself)

module _ {Db : Type 0} (height : ℤ) (now : ℕ) (id : Bytes) (vp : VoteProof) (s s1 s2 : State Db)
    (free : vote_cache_get id s ≡ none) (id_set : length id ≡ 32)
    (added : s1.vote_cache ≡ insert id vp s.vote_cache)
    (purged : s2.vote_cache ≡ (vote_cache_purge height now s1).vote_cache) where
  pub vote_cache_get-purge : (vote_cache_get id s2 ≡ some vp) ⊎ (vote_cache_get id s2 ≡ none)
  unfolding vote_cache_get vote_cache_purge
  vote_cache_get-purge =
      let free' : lookup id s.vote_cache ≡ none = ground (arith, free, id_set) in
      ground (
        arith,
        id_set,
        added,
        purged,
        lookup-insert_here id vp s.vote_cache,
        lookup-purge_insert now id vp s.vote_cache free',
      )

module _ (X : Deps) (now later : ℕ) (tx : VoteTx) (p : Process) (pid : Bytes) (s s2 : ChainState X)
    (vp : VoteProof)
    (same : (n : Bytes) → envelope_exists X pid n s2 ≡ envelope_exists X pid n s) where
  pub new_vote_proof-again :
      new_vote_proof X now p pid tx s ≡ ok vp
      → new_vote_proof X later p pid tx s2 ≡ ok (record vp { created = later })
  unfolding new_vote_proof
  new_vote_proof-again h =
      elim (Res-cases (pub_key_from_signature X.eth tx.signed_bytes tx.signature)) [
        | inr bad ↦ absurd (ground (arith, bad))
        | inl (pub_key, e1) ↦ elim (Res-cases (addr_from_public_key X.eth pub_key)) [
          | inr bad ↦ absurd (ground (arith, bad, e1))
          | inl (addr, e2) ↦
              let kept = same (generate_nullifier X addr pid) in
              elim (Res-cases (decode_string pub_key)) [
                | inr bad ↦ absurd (ground (arith, bad, e1, e2))
                | inl (dec, e3) ↦
                    elim (Res-cases (check_merkle_proof X p.mk_root tx.proof (X.poseidon dec))) [
                      | inr bad ↦ absurd (ground (arith, bad, e1, e2, e3))
                      | inl (valid, e4) ↦ ground (arith, e1, e2, e3, e4, h, kept)
                    ]
              ]
        ]
      ]
