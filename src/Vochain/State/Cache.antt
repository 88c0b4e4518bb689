-- ===== src/Vochain/State/Cache.antt =====
-- vochain/cache.go: the cache of checked vote proofs. Times are in nanoseconds.
pub mod Purge
use go_dvote.Prelude.{
  Bytes, List, [], ◌∷◌, ℕ, ◌*◌, ◌^◌, Bool, if◌then◌else◌, Option, length, ◌%◌, ◌==◌, ltb, not, ◌-◌,
  insert, none, erase, suc, lookup,
}
use go_dvote.Prelude.Int.{ℤ, pos, negsuc}
use go_dvote.Types.{VoteProof}
use go_dvote.Vochain.State.{State}

-- voteCachePurgeThreshold, 600 seconds.
abbrev pub vote_cache_purge_threshold : ℕ
vote_cache_purge_threshold = 600 * 10 ^ 9

-- VoteCacheAdd
unfoldable pub vote_cache_add : {Db : Type 0} → Bytes → VoteProof → State Db → State Db
vote_cache_add id vc s =
    if length id == 0 then s else record s { vote_cache = insert id vc s.vote_cache }

-- VoteCacheDel
unfoldable pub vote_cache_del : {Db : Type 0} → Bytes → State Db → State Db
vote_cache_del id s = if length id == 0 then s else record s { vote_cache = erase id s.vote_cache }

-- VoteCacheGet
unfoldable pub vote_cache_get : {Db : Type 0} → Bytes → State Db → Option VoteProof
vote_cache_get id s = if length id == 0 then none else lookup id s.vote_cache

-- The loop of VoteCachePurge at time `now`; `time.Since` is negative for a later time.
unfoldable pub purge_old : ℕ → List (Bytes × VoteProof) → List (Bytes × VoteProof)
purge_old now [] = []
purge_old now ((id, vp) ∷ m) =
    let rest = purge_old now m in
    if ltb vote_cache_purge_threshold (now - vp.created) then rest else (id, vp) ∷ rest

-- height % 6 for an int64: Go's remainder has the sign of the dividend.
unfoldable pub is_multiple_of_six : ℤ → Bool
is_multiple_of_six (pos n) = n % 6 == 0
is_multiple_of_six (negsuc n) = suc n % 6 == 0

-- VoteCachePurge
unfoldable pub vote_cache_purge : {Db : Type 0} → ℤ → ℕ → State Db → State Db
vote_cache_purge height now s =
    if not (is_multiple_of_six height)
    then s
    else record s { vote_cache = purge_old now s.vote_cache }

-- VoteCacheSize
unfoldable pub vote_cache_size : {Db : Type 0} → State Db → ℕ
vote_cache_size s = length s.vote_cache
