-- ===== src/Vochain/App.antt =====
-- vochain/app.go: the methods of `BaseApplication` that tendermint calls. A `log.Fatal` ends the
-- process, as a panic does.
pub mod CheckTx
pub mod BeginBlock
use go_dvote.Prelude.{
  Bytes, ℕ, List, Error, Exec, Res, ok, pure, Bool, err, ◌>>◌, value_or, if◌then◌else◌, ◌∷◌, ◌>>=◌,
  gets, lift, [], panic, gets_res, true, false, none, some, modify,
}
use go_dvote.Vochain.Deps.{Deps}
use go_dvote.Types.{GenesisValidator, Header}
use go_dvote.Vochain.State.{ChainState, tree_add, header, app_hash, header_key}
use go_dvote.Vochain.State.Blocks.{save, rollback_state}
use go_dvote.Prelude.Int.{ℤ, pos}
use go_dvote.Vochain.State.Oracles.{add_oracle}
use go_dvote.Vochain.Transaction.AddTx.{add_tx}
use go_dvote.Vochain.State.Validators.{add_validator}
use go_dvote.Vochain.State.Cache.{vote_cache_purge}
use go_dvote.Vochain.Transaction.Unmarshal.{unmarshal_tx}
use go_dvote.Statedb.{TreeName}

-- The data of a response: a result, or the message of an error.
pub data Payload : Type 0 where
  result : Bytes → Payload
  message : Error → Payload

pub record ResponseTx : Type 0 where
  pub code : ℕ
  pub payload : Payload

unfoldable pub response_of : Res Bytes → Res ResponseTx
response_of (ok bytes) = ok (record { code = 0; payload = result bytes })
response_of (err e) = ok (record { code = 1; payload = message e })
response_of panic = panic

-- GenesisAppState
pub record GenesisAppState : Type 0 where
  pub validators : List GenesisValidator
  pub oracles : List Bytes

-- A call that an error ends the process at.
unfoldable pub or_fatal : {S A : Type 0} → Exec S A → Exec S A
or_fatal m s =
    let (r, s') = m s in elim r [ ok a ↦ (ok a, s') | err e ↦ (panic, s') | panic ↦ (panic, s') ]

-- `for _, x := range xs { f(x) }` where the errors of `f` are ignored, and where they are not.
unfoldable pub run_ignoring : {S A : Type 0} → (A → Exec S (Unit {0})) → List A → Exec S (Unit {0})
run_ignoring f [] s = (ok tt, s)
run_ignoring f (x ∷ xs) s = run_ignoring f xs (f x s).1

unfoldable pub run_all : {S A : Type 0} → (A → Exec S (Unit {0})) → List A → Exec S (Unit {0})
run_all f [] = pure tt
run_all f (x ∷ xs) = let rest = run_all f xs in f x >> rest

module _ (X : Deps) where
  -- `app.State.Store.Tree(AppTree).Add(headerKey, headerBytes)` on the encoding of a header; what
  -- does not encode is stored as a nil slice.
  unfoldable pub put_header : Header → Exec (ChainState X) (Unit {0})
  put_header h = tree_add X TreeName.app_tree header_key (value_or (X.header_codec.marshal h) none)

  -- CheckTx; a recheck is accepted with no work.
  unfoldable pub check_tx : ℕ → Bool → Bytes → Exec (ChainState X) ResponseTx
  check_tx now recheck content s =
      if recheck
      then (ok (record { code = 0; payload = result [] }), s)
      else let (r, s') = (do tx ← lift (unmarshal_tx X.json content); add_tx X now tx false) s in
        (response_of r, s')

  -- DeliverTx
  unfoldable pub deliver_tx : ℕ → Bytes → Exec (ChainState X) ResponseTx
  deliver_tx now content s =
      let (r, s') = (do tx ← lift (unmarshal_tx X.json content); add_tx X now tx true) s in
      (response_of r, s')

  -- BeginBlock at time `now`
  unfoldable pub begin_block : ℕ → Header → Exec (ChainState X) (Unit {0})
  begin_block now h = do
    rollback_state X
    or_fatal (put_header h)
    committed ← gets_res (λ s. elim (header X true s) [ none ↦ panic | some c ↦ ok c ])
    modify (vote_cache_purge committed.height now)

  -- Commit
  unfoldable pub app_commit : Exec (ChainState X) Bytes
  app_commit = save X

  -- Info: the height and the hash of the last block
  unfoldable pub info : Exec (ChainState X) (ℤ × Bytes)
  info = do
    height ← gets (λ s. elim (header X false s) [ none ↦ pos 0 | some h ↦ h.height ])
    rollback_state X
    h ← gets (app_hash X false)
    pure (height, h)

  -- InitChain on the genesis state as amino decodes it; what does not decode leaves it empty.
  unfoldable pub init_chain : Res GenesisAppState → Exec (ChainState X) (Unit {0})
  init_chain decoded = do
    let genesis = value_or decoded (record { validators = []; oracles = [] })
    run_ignoring (add_oracle X) genesis.oracles
    or_fatal (run_all (λ v. add_validator X v.pub_key v.power) genesis.validators)
    or_fatal (put_header (record { height = pos 0; app_hash = [] }))
    save X
    pure tt
