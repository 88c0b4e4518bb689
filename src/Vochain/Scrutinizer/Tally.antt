-- ===== src/Vochain/Scrutinizer/Tally.antt =====
-- vochain/scrutinizer/vote.go and process.go: the counting of votes, on the table of results alone.
pub mod Counted
pub mod Ballots
pub mod Tables
pub mod Pruned
use go_dvote.Prelude.{
  Bytes, List, [], ◌∷◌, ℕ, zero, suc, Res, ok, err, panic, Bool, true, false, bind_res, replicate,
  at_index, if◌then◌else◌, set_index, take, ◌==◌, ◌+◌, ◌%◌, ◌^◌,
}
use mathlib.Core.List.{reverse}
use go_dvote.Prelude.Fallible.{◌>>=◌}
use go_dvote.Vochain.Scrutinizer.{Deps, VotePackage, ProcessVotes, max_questions, max_options}
use go_dvote.Prelude.Int.{ℤ, pos, ltb_ℤ}
use go_dvote.Nacl.{decode_private}

-- emptyProcess
unfoldable pub empty_process : ProcessVotes
empty_process = replicate max_questions (replicate max_options 0)

-- `pv[question][opt]++` on a uint32, which panics out of bounds.
unfoldable pub increment : ProcessVotes → ℤ → ℤ → Res ProcessVotes
increment pv question opt = do
  row ← at_index pv question
  count ← at_index row opt
  row' ← set_index row opt ((count + 1) % 2 ^ 32)
  set_index pv question row'

-- `for question, opt := range votes`, from the question `q`. An option above MaxOptions is left out.
unfoldable pub add_options : ℕ → List ℤ → ProcessVotes → Res ProcessVotes
unfolding increment
add_options q [] pv = ok pv
add_options q (opt ∷ opts) pv =
    if ltb_ℤ (pos max_options) opt
    then add_options (suc q) opts pv
    else bind_res (increment pv (pos q) opt) (add_options (suc q) opts)

-- The inner loop of pruneVoteResult: whether an option from `j` on is not zero.
unfoldable pub has_option : List ℕ → ℕ → ℕ → Res Bool
has_option row zero j = ok false
has_option row (suc left) j =
    bind_res (at_index row (pos j))
      λ count. if count == 0 then has_option row left (suc j) else ok true

-- The number of questions up to the last one with an answer, `min + 1` in the code, of the first `n`.
unfoldable pub answered : ProcessVotes → ℕ → Res ℕ
unfolding has_option
answered pv zero = ok 0
answered pv (suc n) = bind_res (at_index pv (pos n)) λ row.
    bind_res (has_option row max_options 0) λ found. if found then ok (suc n) else answered pv n

-- The number of options up to the last one that is not zero, `j2 + 1` in the code, of the first `n`.
unfoldable pub chosen : List ℕ → ℕ → Res ℕ
chosen row zero = ok 0
chosen row (suc n) =
    bind_res (at_index row (pos n)) λ count. if count == 0 then chosen row n else ok (suc n)

-- The loop over `i2`: the first `n` questions, from `i2` on, each with its options pruned.
unfoldable pub prune_questions : ProcessVotes → ℕ → ℕ → Res ProcessVotes
unfolding chosen
prune_questions pv zero i2 = ok []
prune_questions pv (suc n) i2 = bind_res (at_index pv (pos i2)) λ row.
    bind_res (chosen row max_options)
      λ size. bind_res (prune_questions pv n (suc i2)) λ rest. ok (take size row ∷ rest)

-- The loop over `i`, which computes the whole table anew in each round.
unfoldable pub prune_rounds : ProcessVotes → ℕ → ℕ → ProcessVotes → Res ProcessVotes
unfolding prune_questions
prune_rounds pv zero i pvc = ok pvc
prune_rounds pv (suc n) i pvc = bind_res (prune_questions pv (suc i) 0) (prune_rounds pv n (suc i))

-- pruneVoteResult
unfoldable pub prune_vote_result : ProcessVotes → Res ProcessVotes
unfolding answered prune_rounds
prune_vote_result pv = bind_res (answered pv max_questions) λ n. prune_rounds pv n 0 []

module _ (X : go_dvote.Vochain.Deps.Deps) (K : Deps) where
  -- The loop of unmarshalVote over the keys, from the last one: a key that does not decode is left
  -- out, and a box that does not open leaves no bytes.
  unfoldable pub decrypt_all : List Bytes → Bytes → Res Bytes
  decrypt_all [] raw = ok raw
  decrypt_all (key ∷ keys) raw = elim (decode_private X.x25519_base key) [
    | err e ↦ decrypt_all keys raw
    | panic ↦ panic
    | ok pair ↦ elim (K.decrypt pair raw) [
      | ok message ↦ decrypt_all keys message
      | err e ↦ decrypt_all keys []
      | panic ↦ panic
    ]
  ]

  -- unmarshalVote
  unfoldable pub unmarshal_vote : Bytes → List Bytes → Res VotePackage
  unfolding decrypt_all
  unmarshal_vote vote_package keys = do
    raw ← K.base64_decode vote_package
    opened ← decrypt_all (reverse keys) raw
    K.unmarshal_package opened
