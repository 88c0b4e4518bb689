-- ===== src/Vochain/State.antt =====
-- vochain/state.go and vochain/cache.go: the record of the state, and the calls of its listeners.
-- The operations are in the children, which use this module.
pub mod Oracles
pub mod Validators
pub mod Processes
pub mod Votes
pub mod Cache
pub mod Blocks
pub mod Laws
use go_dvote.Prelude.{
  ℕ, Bool, List, [], ◌∷◌, ◌++◌, map, Bytes, Exec, ok, err, panic, Option, none, some, if◌then◌else◌,
  codes, ◌>>=◌, lift, or_error, cannot_marshal,
}
use go_dvote.Prelude.Int.{ℤ}
use go_dvote.Types.{Slice, Vote, VoteProof, Header}
use go_dvote.Statedb.{TreeName}
use go_dvote.Vochain.Deps.{Deps, Codec}

-- The methods of `EventListener`, with their arguments.
pub data Event : Type 0 where
  on_vote : Vote → Event
  on_process : Bytes → Bytes → Bytes → Bytes → Event
  on_cancel : Bytes → Event
  on_process_keys : Bytes → Bytes → Bytes → Event
  on_reveal_keys : Bytes → Bytes → Bytes → Event
  commit : ℤ → Event
  rollback : Event

-- State. `calls` records the calls that were made to the listeners, in order.
pub record State (Db : Type 0) : Type 0 where
  pub store : Db
  pub vote_cache : List (Bytes × VoteProof)
  pub event_listeners : List ℕ
  pub calls : List (ℕ × Event)

-- The keys of the application tree.
unfoldable pub header_key : Bytes
header_key = codes "header"

unfoldable pub oracle_key : Bytes
oracle_key = codes "oracle"

unfoldable pub validator_key : Bytes
validator_key = codes "validator"

-- `for _, l := range v.eventListeners { l.Method(args) }`
unfoldable pub notify : {Db : Type 0} → Event → State Db → State Db
notify e s = record s { calls = s.calls ++ map (λ l. (l, e)) s.event_listeners }

-- AddEventListener
unfoldable pub add_event_listener : {Db : Type 0} → ℕ → State Db → State Db
add_event_listener l s = record s { event_listeners = s.event_listeners ++ l ∷ [] }

module _ (X : Deps) where
  abbrev pub ChainState : Type 0
  ChainState = State X.db.Db

  -- `v.Store.Tree(t).Get(k)`, or `v.Store.ImmutableTree(t).Get(k)` for a query.
  unfoldable pub tree_get : TreeName → Bool → Bytes → ChainState → Slice
  tree_get t is_query k s =
      if is_query then X.db.get_immutable s.store t k else X.db.get s.store t k

  -- `v.Store.Tree(t).Add(k, v)`
  unfoldable pub tree_add : TreeName → Bytes → Slice → Exec ChainState (Unit {0})
  tree_add t k v s = elim (X.db.add s.store t k v) [
    | ok db ↦ (ok tt, record s { store = db })
    | err e ↦ (err e, s)
    | panic ↦ (panic, s)
  ]

  -- An encoded value is written under a key; a value that does not encode is an error.
  unfoldable pub store_as :
      {A : Type 0} → Codec A → A → TreeName → Bytes → Exec ChainState (Unit {0})
  store_as C a t k = do bytes ← lift (or_error (C.marshal a) cannot_marshal); tree_add t k bytes

  -- Header: nil where the stored bytes do not decode.
  unfoldable pub header : Bool → ChainState → Option Header
  unfolding tree_get
  header is_query s =
      elim (X.header_codec.unmarshal (tree_get TreeName.app_tree is_query header_key s)) [
        | ok h ↦ some h
        | err e ↦ none
        | panic ↦ none
      ]

  -- AppHash
  unfoldable pub app_hash : Bool → ChainState → Bytes
  unfolding header
  app_hash is_query s = elim (header is_query s) [ none ↦ [] | some h ↦ h.app_hash ]
