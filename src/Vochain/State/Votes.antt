-- ===== src/Vochain/State/Votes.antt =====
-- vochain/state.go: the votes, one under each vote id of the vote tree.
pub mod Identity
pub mod Listing
use go_dvote.Prelude.{
  Bytes, List, [], ◌∷◌, Res, if◌then◌else◌, not, length, ◌==◌, Bool, err, ok, for_each, Exec,
  wrong_process_id_size, bind_res, true, wrong_nullifier_size, ◌>>=◌, none, ◌++◌, drop,
  vote_not_found, lift, false, gets_res, some, or_error, ltb, panic, cannot_unmarshal, ◌>>◌, modify,
  is_set, recovered_panic,
}
use go_dvote.Types.Consts.{process_id_size, vote_nullifier_size}
use go_dvote.Vochain.Deps.{Deps}
use go_dvote.Types.{Vote}
use go_dvote.Vochain.State.{ChainState, TreeName, tree_get, header, notify, on_vote, store_as}
use go_dvote.Prelude.Int.{ℤ, add64, pos, leb_ℤ}

-- voteID: the process id and the nullifier, one after the other.
unfoldable pub vote_id : Bytes → Bytes → Res Bytes
vote_id pid nullifier =
    if not (length pid == process_id_size)
    then err wrong_process_id_size
    else if not (length nullifier == vote_nullifier_size)
    then err wrong_nullifier_size
    else ok (pid ++ nullifier)

-- The callback of EnvelopeList over the entries. A key that is too short makes the slice expression panic; the deferred recover
-- then returns what was collected.
unfoldable pub envelope_loop : ℤ → ℤ → ℤ → List Bytes → List (Bytes × Bytes) → List Bytes
envelope_loop from until idx nullifiers [] = nullifiers
envelope_loop from until idx nullifiers ((key, value) ∷ rest) =
    let listed =
      envelope_loop from until (add64 idx (pos 1)) (nullifiers ++ drop 32 key ∷ []) rest in
    let skipped = envelope_loop from until (add64 idx (pos 1)) nullifiers rest in
    if leb_ℤ until idx
    then nullifiers
    else if leb_ℤ from idx
    then (if ltb (length key) 32 then nullifiers else listed)
    else skipped

-- The deferred `recover` of Envelope.
abbrev pub recovered {ℓ} : {A : Type ℓ} → Res A → Res A
recovered (ok a) = ok a
recovered (err e) = err e
recovered panic = err recovered_panic

module _ (X : Deps) where
  -- AddVote. Without a header the code dereferences a nil pointer.
  unfoldable pub add_vote : Vote → Exec (ChainState X) (Unit {0})
  add_vote vote = do
    vid ← lift (vote_id vote.process_id vote.nullifier)
    h ← gets_res (λ s. elim (header X false s) [ none ↦ panic | some h ↦ ok h ])
    let stored = record vote { height = h.height }
    store_as X X.vote_codec stored TreeName.vote_tree vid
    modify (notify (on_vote stored))

  -- Envelope. A panic of the tree or the codec is recovered as an error.
  unfoldable pub envelope : Bytes → Bytes → Bool → ChainState X → Res Vote
  envelope process_id nullifier is_query s = bind_res (vote_id process_id nullifier) λ vid.
      elim (tree_get X TreeName.vote_tree is_query vid s) [
        | none ↦ err vote_not_found
        | some bytes ↦ recovered (or_error (X.vote_codec.unmarshal (some bytes)) cannot_unmarshal)
      ]

  -- EnvelopeExists: it always reads the committed tree.
  unfoldable pub envelope_exists : Bytes → Bytes → ChainState X → Bool
  envelope_exists process_id nullifier s = elim (vote_id process_id nullifier) [
    | ok vid ↦ elim (tree_get X TreeName.vote_tree true vid s) [ none ↦ false | some b ↦ is_set b ]
    | err e ↦ false
    | panic ↦ false
  ]

  -- iterateProcessID: the pairs that its callback is called on.
  unfoldable pub vote_entries : Bytes → Bool → ChainState X → List (Bytes × Bytes)
  vote_entries process_id is_query s =
      if is_query
      then X.db.entries_immutable s.store TreeName.vote_tree process_id
      else X.db.entries s.store TreeName.vote_tree process_id

  -- CountVotes
  unfoldable pub count_votes : Bytes → Bool → ChainState X → ℤ
  unfolding vote_entries
  count_votes process_id is_query s =
      for_each (λ count kv. add64 count (pos 1)) (pos 0) (vote_entries process_id is_query s)

  -- EnvelopeList
  unfoldable pub envelope_list : Bytes → ℤ → ℤ → Bool → ChainState X → List Bytes
  unfolding vote_entries envelope_loop
  envelope_list process_id from list_size is_query s =
      envelope_loop from (add64 from list_size) (pos 0) [] (vote_entries process_id is_query s)
