-- ===== src/Vochain/State/Laws.antt =====
-- What a write to a tree does: what is read back, and what it leaves alone.
use go_dvote.Prelude.{
  Bytes, ◌≡◌, true, none, false, some, refl, err, ok, if◌then◌else◌, nil_value, ◌&&◌, bytes_eq,
  bytes_eq_refl, Res, ◌⊎◌, inr, Error, panic, inl, cannot_marshal, sym, subst, ap, ◌∙◌, Bool, ◌≢◌,
  arith, bytes_eq→≡,
}
use go_dvote.Vochain.Deps.{Deps, Codec}
use go_dvote.Vochain.State.{
  notify, Event, TreeName, State, ChainState, Slice, tree_get, tree_add, store_as,
}
use go_dvote.Statedb.{tree_eq, tree_eq_refl}

module _ {S A : Type 0} {s s' : S} where
  pair_snd : {r r' : Res A} → ◌≡◌ {A = Res A × S} (r, s) (r', s') → s ≡ s'
  pair_snd e = ap (λ (p : Res A × S). p.1) e

  pair_clash : {x : Error} {a : A} → ◌≡◌ {A = Res A × S} (err x, s) (ok a, s') → ⊥
  pair_clash e = cc (ap (λ (p : Res A × S). p.0) e)

  pair_clash_panic : {a : A} → ◌≡◌ {A = Res A × S} (panic, s) (ok a, s') → ⊥
  pair_clash_panic e = cc (ap (λ (p : Res A × S). p.0) e)

  pair_clash_err : {x : Error} → ◌≡◌ {A = Res A × S} (err x, s) (panic, s') → ⊥
  pair_clash_err e = cc (ap (λ (p : Res A × S). p.0) e)

module _ (X : Deps) (t : TreeName) (k : Bytes) (s : ChainState X) where
  pub tree_add-nil : tree_add X t k none s ≡ (err nil_value, s)
  unfolding tree_add
  tree_add-nil = rw (X.db.add-nil s.store t k, tree_add)

  pub tree_add-some :
      (v : Bytes)
      → (db : X.db.Db) × (X.db.add s.store t k (some v) ≡ ok db)
        × (tree_add X t k (some v) s ≡ (ok tt, record s { store = db }))
  unfolding tree_add
  tree_add-some v = let (db, e) = X.db.add-ok s.store t k v in (db, e, rw (e, tree_add))

  -- Either the value was nil and nothing happened, or the state differs in its store alone.
  pub calls-tree_add : (v : Slice) → (tree_add X t k v s).1.calls ≡ s.calls
  calls-tree_add none = rw tree_add-nil
  calls-tree_add (some v) = rw ((tree_add-some v).2)

  pub vote_cache-tree_add : (v : Slice) → (tree_add X t k v s).1.vote_cache ≡ s.vote_cache
  vote_cache-tree_add none = rw tree_add-nil
  vote_cache-tree_add (some v) = rw ((tree_add-some v).2)

  pub event_listeners-tree_add :
      (v : Slice) → (tree_add X t k v s).1.event_listeners ≡ s.event_listeners
  event_listeners-tree_add none = rw tree_add-nil
  event_listeners-tree_add (some v) = rw ((tree_add-some v).2)

  pub tree_get-tree_add :
      (v : Bytes) (u : TreeName) (j : Bytes)
      → tree_get X u false j (tree_add X t k (some v) s).1
        ≡ (if tree_eq t u && bytes_eq k j then some v else tree_get X u false j s)
  unfolding tree_get
  tree_get-tree_add v u j =
      let (db, e, e') = tree_add-some v in rw e' (X.db.get-add s.store t u k j v db e)

  pub committed-tree_add :
      (v : Slice) (u : TreeName) (j : Bytes)
      → tree_get X u true j (tree_add X t k v s).1 ≡ tree_get X u true j s
  unfolding tree_get
  committed-tree_add none u j = rw tree_add-nil
  committed-tree_add (some v) u j =
      let (db, e, e') = tree_add-some v in rw e' (X.db.get_immutable-add s.store t u k j v db e)

-- The state after a value was stored: it is read back under its key, and nothing else is changed.
pub record Stored {A : Type 0} (X : Deps) (C : Codec A) (a : A) (t : TreeName) (k : Bytes)
    (s s' : ChainState X) : Type 0 where
  pub bytes : Bytes
  pub encoded : C.marshal a ≡ ok (some bytes)
  pub reads :
      (u : TreeName) (j : Bytes)
      → tree_get X u false j s'
        ≡ (if tree_eq t u && bytes_eq k j then some bytes else tree_get X u false j s)
  pub committed : (u : TreeName) (j : Bytes) → tree_get X u true j s' ≡ tree_get X u true j s
  pub same_calls : s'.calls ≡ s.calls
  pub same_listeners : s'.event_listeners ≡ s.event_listeners
  pub same_cache : s'.vote_cache ≡ s.vote_cache

module _ {A : Type 0} (X : Deps) (C : Codec A) (a : A) (t : TreeName) (k : Bytes)
    (s : ChainState X) where
  Stored-some :
      (b : Bytes) → C.marshal a ≡ ok (some b) → Stored X C a t k s (tree_add X t k (some b) s).1
  Stored-some b e = record {
    bytes = b;
    encoded = e;
    reads = tree_get-tree_add X t k s b;
    committed = committed-tree_add X t k s (some b);
    same_calls = calls-tree_add X t k s (some b);
    same_listeners = event_listeners-tree_add X t k s (some b);
    same_cache = vote_cache-tree_add X t k s (some b);
  }

  -- How storing a value ends: it is stored, or nothing has changed.
  abbrev pub StoreOutcome : Type 0
  StoreOutcome =
      ((s' : ChainState X) × (store_as X C a t k s ≡ (ok tt, s')) × Stored X C a t k s s')
      ⊎ ((e : Error) × (store_as X C a t k s ≡ (err e, s)))
      ⊎ (store_as X C a t k s ≡ (panic, s))

  store_outcome_of : (r : Res Slice) → C.marshal a ≡ r → StoreOutcome
  unfolding store_as
  store_outcome_of (ok none) e = inr (inl (nil_value, rw (e, tree_add-nil X t k s)))
  store_outcome_of (ok (some b)) e =
      let (db, _, added) = tree_add-some X t k s b in
      inl ((tree_add X t k (some b) s).1, rw (e, added), Stored-some b e)
  store_outcome_of (err x) e = inr (inl (cannot_marshal, rw e))
  store_outcome_of panic e = inr (inr (rw e))

  pub store_outcome : StoreOutcome
  store_outcome = store_outcome_of (C.marshal a) refl

  -- A value that was stored decodes.
  pub unmarshal-Stored :
      {s' : ChainState X} → Stored X C a t k s s' → C.unmarshal (tree_get X t false k s') ≡ ok a
  unmarshal-Stored h =
      rw (h.reads t k, bytes_eq_refl k)
        (rw (tree_eq_refl t) (C.unmarshal-marshal a h.bytes h.encoded))

  pub Stored-of_ok :
      (s' : ChainState X) → store_as X C a t k s ≡ (ok tt, s') → Stored X C a t k s s'
  Stored-of_ok s' h = elim store_outcome [
    | inl (s1, e, st) ↦ subst (λ x. Stored X C a t k s x) (pair_snd (sym e ∙ h)) st
    | inr (inl (x, e)) ↦ absurd (pair_clash (sym e ∙ h))
    | inr (inr e) ↦ absurd (pair_clash_panic (sym e ∙ h))
  ]

  -- A store that fails leaves the state as it was.
  pub unchanged-of_err :
      (x : Error) (s' : ChainState X) → store_as X C a t k s ≡ (err x, s') → s' ≡ s
  unchanged-of_err x s' h = elim store_outcome [
    | inl (s1, e, st) ↦ absurd (pair_clash (sym h ∙ e))
    | inr (inl (y, e)) ↦ pair_snd (sym h ∙ e)
    | inr (inr e) ↦ absurd (pair_clash_err (sym h ∙ e))
  ]

module _ {A : Type 0} {X : Deps} {C : Codec A} {a : A} {t : TreeName} {k : Bytes}
    {s s' : ChainState X} (st : Stored X C a t k s s') where
  pub tree_get-stored : tree_get X t false k s' ≡ some st.bytes
  tree_get-stored = rw (st.reads t k, bytes_eq_refl k, tree_eq_refl t)

  -- Another tree, or another key, reads as before.
  pub tree_get-stored_ne :
      (u : TreeName) (j : Bytes)
      → (tree_eq t u && bytes_eq k j) ≡ false
      → tree_get X u false j s' ≡ tree_get X u false j s
  tree_get-stored_ne u j h = rw (st.reads u j, h)

-- Two values that are apart are not equal as strings.
pub bytes_eq-ne : (a b : Bytes) → a ≢ b → bytes_eq a b ≡ false
bytes_eq-ne a b h = ground (arith, bytes_eq→≡ a b)

-- Calling the listeners leaves the rest of the state alone.
pub store-notify : {Db : Type 0} (e : Event) (s : State Db) → (notify e s).store ≡ s.store
unfolding notify
store-notify e s = refl

module _ (X : Deps) (e : Event) (s : ChainState X) where
  pub tree_get-notify :
      (t : TreeName) (q : Bool) (k : Bytes) → tree_get X t q k (notify e s) ≡ tree_get X t q k s
  unfolding tree_get notify
  tree_get-notify t q k = refl
