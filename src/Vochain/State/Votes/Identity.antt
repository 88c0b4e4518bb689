-- ===== src/Vochain/State/Votes/Identity.antt =====
-- Vote ids, and what AddVote stores under them.
use go_dvote.Prelude.{
  true, Bytes, ◌≡◌, ok, append-take_eq, length, ◌∙◌, sym, false, some, drop-append, ◌++◌, arith,
  drop, ap, Res-cases, inr, inl, Option-cases, ◌≢◌, ◌⊎◌,
}
use go_dvote.Vochain.State.Votes.{
  vote_id, Vote, ChainState, add_vote, header, process_id_size, vote_nullifier_size, TreeName,
  notify, on_vote, tree_get, envelope,
}
use go_dvote.Vochain.Deps.{Deps}
use go_dvote.Types.{Header}
use mathlib.Core.Path.{ap₂}
use go_dvote.Vochain.State.Blocks.{save}
use go_dvote.Vochain.State.Votes.{envelope_exists}
use go_dvote.Vochain.State.Blocks.Versions.{tree_get-save}
use go_dvote.Vochain.State.Laws.{
  Stored, store_outcome, tree_get-stored, bytes_eq-ne, tree_get-notify, tree_get-stored_ne,
}
use go_dvote.Vochain.State.{Event}
use go_dvote.Statedb.{tree_eq}

vote_id_ok :
    (p n v : Bytes)
    → vote_id p n ≡ ok v
    → (length p ≡ process_id_size) × (length n ≡ vote_nullifier_size) × (p ++ n ≡ v)
unfolding vote_id
vote_id_ok p n v h = ground arith

-- Two votes with the same id are of the same process and have the same nullifier.
pub vote_id_injective :
    (p n p' n' v : Bytes) → vote_id p n ≡ ok v → vote_id p' n' ≡ ok v → (p ≡ p') × (n ≡ n')
vote_id_injective p n p' n' v h h' =
    let (lp, ln, e) = vote_id_ok p n v h in
    let (lp', ln', e') = vote_id_ok p' n' v h' in
    let same : p ≡ p' = append-take_eq p n p' n' (lp ∙ sym lp') (e ∙ sym e') in
    (same, sym (drop-append p n) ∙ (ap₂ drop (ap length same) (e ∙ sym e') ∙ drop-append p' n'))

module _ (X : Deps) (vote : Vote) (s s' : ChainState X) (h : add_vote X vote s ≡ (ok tt, s')) where
  AddedVote : Type 0
  AddedVote =
      (vid : Bytes) × (hd : Header) × (s1 : ChainState X) × (vote_id vote.process_id vote.nullifier
        ≡ ok vid)
      × (header X false s ≡ some hd)
      × Stored X X.vote_codec (record vote { height = hd.height }) TreeName.vote_tree vid s s1
      × (notify (on_vote (record vote { height = hd.height })) s1 ≡ s')

  added_vote : AddedVote
  unfolding AddedVote add_vote
  added_vote = elim (Res-cases (vote_id vote.process_id vote.nullifier)) [
    | inr bad ↦ absurd (ground (arith, bad))
    | inl (vid, e) ↦ elim (Option-cases (header X false s)) [
      | inl missing ↦ absurd (ground (arith, missing))
      | inr (hd, e') ↦
          elim (store_outcome X X.vote_codec (record vote { height = hd.height }) TreeName.vote_tree
            vid s) [
              | inl (s1, stored, st) ↦ (vid, hd, s1, e, e', st, ground (arith, stored))
              | inr (inl (x, failed)) ↦ absurd (ground (arith, failed))
              | inr (inr failed) ↦ absurd (ground (arith, failed))
            ]
    ]
  ]

  tree_get_after :
      (s1 : ChainState X) (e : Event) (u : TreeName) (j : Bytes)
      → notify e s1 ≡ s'
      → tree_get X u false j s' ≡ tree_get X u false j s1
  tree_get_after s1 e u j same = rw (← same, tree_get-notify)

  -- A vote that AddVote stored is what Envelope returns, at the height of the header.
  pub envelope-add_vote :
      (hd : Header) × (header X false s ≡ some hd)
      × (envelope X vote.process_id vote.nullifier false s'
          ≡ ok (record vote { height = hd.height }))
  unfolding envelope AddedVote
  envelope-add_vote =
      let (vid, hd, s1, e, e', st, same) = added_vote in
      let after = tree_get_after s1 _ TreeName.vote_tree vid same in
      let read = tree_get-stored st in
      let back = X.vote_codec.unmarshal-marshal _ st.bytes st.encoded in
      (hd, e', ground (arith, e, after, read, back))

  other_envelope :
      (pid nullifier vid vid' : Bytes)
      → (pid ≢ vote.process_id) ⊎ (nullifier ≢ vote.nullifier)
      → vote_id vote.process_id vote.nullifier ≡ ok vid
      → vote_id pid nullifier ≡ ok vid'
      → vid ≢ vid'
  other_envelope pid nullifier vid vid' (inl d) h h' e =
      d (sym (vote_id_injective _ _ _ _ vid' (rw e at h) h').0)
  other_envelope pid nullifier vid vid' (inr d) h h' e =
      d (sym (vote_id_injective _ _ _ _ vid' (rw e at h) h').1)

  -- AddVote leaves every other vote alone.
  pub envelope-add_vote_other :
      (pid nullifier : Bytes)
      → (pid ≢ vote.process_id) ⊎ (nullifier ≢ vote.nullifier)
      → envelope X pid nullifier false s' ≡ envelope X pid nullifier false s
  unfolding envelope AddedVote
  envelope-add_vote_other pid nullifier differs =
      let (vid, hd, s1, e, e', st, same) = added_vote in
      elim (Res-cases (vote_id pid nullifier)) [
        | inr bad ↦ ground (arith, bad)
        | inl (vid', h') ↦
            let apart = bytes_eq-ne vid vid' (other_envelope pid nullifier vid vid' differs e h') in
            let after = tree_get_after s1 _ TreeName.vote_tree vid' same in
            let read = tree_get-stored_ne st TreeName.vote_tree vid' (unfold tree_eq in apart) in
            ground (arith, h', after, read)
      ]

  -- AddVote does not change what EnvelopeExists answers of any vote, the added one included.
  pub envelope_exists-add_vote :
      (pid nullifier : Bytes)
      → envelope_exists X pid nullifier s' ≡ envelope_exists X pid nullifier s
  unfolding envelope_exists AddedVote
  envelope_exists-add_vote pid nullifier =
      let (vid, hd, s1, e, e', st, same) = added_vote in
      elim (Res-cases (vote_id pid nullifier)) [
        | inr bad ↦ ground (arith, bad)
        | inl (vid', h') ↦
            let kept = st.committed TreeName.vote_tree vid' in
            let after =
              tree_get-notify X (on_vote (record vote { height = hd.height })) s1 TreeName.vote_tree
                true vid' in
            ground (arith, h', kept, after, same)
      ]

  -- A vote that AddVote stored and Save committed exists.
  pub envelope_exists-save :
      (s2 : ChainState X) (hash : Bytes)
      → save X s' ≡ (ok hash, s2)
      → envelope_exists X vote.process_id vote.nullifier s2 ≡ true
  unfolding envelope_exists AddedVote
  envelope_exists-save s2 hash saved =
      let (vid, hd, s1, e, e', st, same) = added_vote in
      let after = tree_get_after s1 _ TreeName.vote_tree vid same in
      let read = tree_get-stored st in
      let full = X.vote_codec.is_set-marshal _ st.bytes st.encoded in
      let kept = tree_get-save X s' s2 hash saved TreeName.vote_tree true vid in
      ground (arith, e, after, read, full, kept)
