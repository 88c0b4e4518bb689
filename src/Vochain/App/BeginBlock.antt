-- ===== src/Vochain/App/BeginBlock.antt =====
-- vochain/app.go: what BeginBlock does to the trees.
use go_dvote.Prelude.{
  ℕ, ◌≡◌, refl, true, ok, err, panic, Res, arith, Option-cases, some, inl, inr, false, Bool, Bytes,
  ◌&&◌, bytes_eq, ap, ◌∙◌, if◌then◌else◌,
}
use go_dvote.Vochain.State.Laws.{tree_add-nil, Stored, Stored-of_ok, unmarshal-Stored}
use go_dvote.Vochain.Deps.{Deps}
use go_dvote.Types.{Header, Slice}
use go_dvote.Vochain.State.{ChainState, store_as, header_key, header, tree_get, notify, rollback}
use go_dvote.Vochain.App.{begin_block, put_header, or_fatal}
use go_dvote.Statedb.{TreeName, tree_eq}
use go_dvote.Vochain.State.Blocks.{rollback_state}
use go_dvote.Vochain.State.Cache.{vote_cache_purge}
use go_dvote.Prelude.Int.{ℤ}
use go_dvote.Vochain.State.Blocks.Versions.{tree_get-rollback_state, rolled_back}

module _ (X : Deps) (h : Header) (s s' : ChainState X) where
  stored_header_of :
      (r : Res Slice)
      → X.header_codec.marshal h ≡ r
      → put_header X h s ≡ (ok tt, s')
      → store_as X X.header_codec h TreeName.app_tree header_key s ≡ (ok tt, s')
  unfolding put_header store_as
  stored_header_of (ok b) e put = ground (arith, e)
  stored_header_of (err x) e put =
      let refused = tree_add-nil X TreeName.app_tree header_key s in
      absurd (ground (arith, e, refused))
  stored_header_of panic e put =
      let refused = tree_add-nil X TreeName.app_tree header_key s in
      absurd (ground (arith, e, refused))

  pub Stored-header :
      put_header X h s ≡ (ok tt, s') → Stored X X.header_codec h TreeName.app_tree header_key s s'
  Stored-header put =
      Stored-of_ok X X.header_codec h TreeName.app_tree header_key s s'
        (stored_header_of _ refl put)

module _ (X : Deps) (now : ℕ) (h : Header) (s s' : ChainState X)
    (begun : begin_block X now h s ≡ (ok tt, s')) where
  Begun : Type 0
  Begun =
      (s1 : ChainState X) × (s2 : ChainState X) × (c : Header) × (rollback_state X s ≡ (ok tt, s1))
      × (put_header X h s1 ≡ (ok tt, s2))
      × (header X true s2 ≡ some c)
      × (vote_cache_purge c.height now s2 ≡ s')

  begun_of : (r : Res (Unit {0}) × ChainState X) → rollback_state X s ≡ r → Begun
  unfolding Begun begin_block or_fatal
  begun_of (err x, s1) e = absurd (ground (arith, e))
  begun_of (panic, s1) e = absurd (ground (arith, e))
  begun_of (ok tt, s1) e = go (put_header X h s1) refl
    where
      go : (r : Res (Unit {0}) × ChainState X) → put_header X h s1 ≡ r → Begun
      go (err x, s2) e' = absurd (ground (arith, e, e'))
      go (panic, s2) e' = absurd (ground (arith, e, e'))
      go (ok tt, s2) e' = elim (Option-cases (header X true s2)) [
        | inl e'' ↦ absurd (ground (arith, e, e', e''))
        | inr (c, e'') ↦ (s1, s2, c, e, e', e'', ground (arith, e, e', e''))
      ]

  begun_steps : Begun
  begun_steps = begun_of (rollback_state X s) refl

  tree_get-purge :
      (height : ℤ) (s2 : ChainState X) (t : TreeName) (q : Bool) (k : Bytes)
      → tree_get X t q k (vote_cache_purge height now s2) ≡ tree_get X t q k s2
  unfolding tree_get vote_cache_purge
  tree_get-purge height s2 t q k = ground arith

  calls-purge : (height : ℤ) (s2 : ChainState X) → (vote_cache_purge height now s2).calls ≡ s2.calls
  unfolding vote_cache_purge
  calls-purge height s2 = ground arith

  header-of_tree :
      (hd : Header)
      → X.header_codec.unmarshal (tree_get X TreeName.app_tree false header_key s') ≡ ok hd
      → header X false s' ≡ some hd
  unfolding header
  header-of_tree hd e = ground (arith, e)

  -- A block begins from the state that was last committed, with its own header: what was written
  -- since is gone from every tree, the committed trees stay, and the listeners are told of the
  -- rollback and of nothing else.
  pub begin_block-committed :
      (header X false s' ≡ some h)
      × ((bytes : Bytes) × ((t : TreeName) (k : Bytes)
            → tree_get X t false k s' ≡ (
                if tree_eq TreeName.app_tree t && bytes_eq header_key k
                then some bytes
                else tree_get X t true k s)))
      × ((t : TreeName) (k : Bytes) → tree_get X t true k s' ≡ tree_get X t true k s)
      × (s'.calls ≡ (notify rollback s).calls)
  unfolding Begun
  begin_block-committed =
      let (s1, s2, c, rolled, put, _, purged) = begun_steps in
      let st = Stored-header X h s1 s2 put in
      let decoded = unmarshal-Stored X X.header_codec h TreeName.app_tree header_key s1 st in
      let after : (t : TreeName) (q : Bool) (k : Bytes)
          → tree_get X t q k s' ≡ tree_get X t q k s2 =
        λ t q k. rw (← purged) (tree_get-purge c.height s2 t q k) in
      let back = tree_get-rollback_state X s s1 rolled in
      (
        header-of_tree h (ap X.header_codec.unmarshal (after _ _ _) ∙ decoded),
        (st.bytes, λ t k. after t false k ∙ (rw (← back t false k) (st.reads t k))),
        (λ t k. after t true k ∙ (st.committed t k ∙ back t true k)),
        rw (← purged) (calls-purge c.height s2 ∙ (st.same_calls ∙ (rolled_back X s s1 rolled).0)),
      )

  -- The cache is that from before, purged.
  pub begin_block-cache :
      (height : ℤ) × ((s0 : ChainState X) × (s0.vote_cache ≡ s.vote_cache)
        × (vote_cache_purge height now s0 ≡ s'))
  unfolding Begun
  begin_block-cache =
      let (s1, s2, c, rolled, put, _, purged) = begun_steps in
      (
        c.height,
        (s2, (Stored-header X h s1 s2 put).same_cache ∙ (rolled_back X s s1 rolled).1, purged),
      )
