-- ===== src/Vochain/State/Cache/Purge.antt =====
-- What VoteCachePurge keeps.
use go_dvote.Prelude.{Bytes, List, [], ◌∷◌, ℕ, ◌≡◌, false, true, arith, lookup, some, ltb, ◌-◌}
use go_dvote.Types.{VoteProof}
use go_dvote.Prelude.Int.{ℤ}
use go_dvote.Vochain.State.Cache.{
  purge_old, vote_cache_get, vote_cache_purge_threshold, vote_cache_purge, is_multiple_of_six,
}
use go_dvote.Vochain.State.{State}

module _ (now : ℕ) (id : Bytes) (vp : VoteProof) where
  lookup-purge_old :
      (m : List (Bytes × VoteProof))
      → lookup id m ≡ some vp
      → ltb vote_cache_purge_threshold (now - vp.created) ≡ false
      → lookup id (purge_old now m) ≡ some vp
  unfolding lookup purge_old
  lookup-purge_old [] h young = ground arith
  lookup-purge_old ((j, w) ∷ m) h young = ground (arith, lookup-purge_old m)

  lookup-purge_old_young :
      (m : List (Bytes × VoteProof))
      → lookup id (purge_old now m) ≡ some vp
      → ltb vote_cache_purge_threshold (now - vp.created) ≡ false
  unfolding lookup purge_old
  lookup-purge_old_young [] h = ground arith
  lookup-purge_old_young ((j, w) ∷ m) h = ground (arith, lookup-purge_old_young m)

module _ {Db : Type 0} (height : ℤ) (now : ℕ) (id : Bytes) (vp : VoteProof) (s : State Db) where
  -- VoteCachePurge keeps every proof of at most 600 seconds of age, at every height.
  pub vote_cache_get-vote_cache_purge :
      vote_cache_get id s ≡ some vp
      → ltb vote_cache_purge_threshold (now - vp.created) ≡ false
      → vote_cache_get id (vote_cache_purge height now s) ≡ some vp
  unfolding vote_cache_get vote_cache_purge
  vote_cache_get-vote_cache_purge h young =
      let kept = lookup-purge_old now id vp s.vote_cache in ground (arith, kept)

  -- At a height that is a multiple of six, a proof that is found after VoteCachePurge is of at most
  -- 600 seconds of age.
  pub vote_cache_purge-young :
      is_multiple_of_six height ≡ true
      → vote_cache_get id (vote_cache_purge height now s) ≡ some vp
      → ltb vote_cache_purge_threshold (now - vp.created) ≡ false
  unfolding vote_cache_get vote_cache_purge
  vote_cache_purge-young six found =
      let young = lookup-purge_old_young now id vp s.vote_cache in ground (arith, young)
