-- ===== src/Vochain/Transaction/Vote/NextBlock.antt =====
-- A vote from the mempool to the next block: CheckTx, BeginBlock and DeliverTx.
use go_dvote.Vochain.Transaction.Vote.Acceptance.{Checked, SameChain}
use go_dvote.Vochain.Transaction.Vote.{vote_proof, accepts_votes}
use go_dvote.Vochain.App.BeginBlock.{begin_block-committed}
use go_dvote.Vochain.App.{begin_block}
use go_dvote.Vochain.Deps.{Deps}
use go_dvote.Types.{Header, VoteTx, Vote, Process, VoteProof, uniq_id}
use go_dvote.Vochain.State.{ChainState, tree_get}
use go_dvote.Vochain.State.Processes.{process}
use go_dvote.Statedb.{TreeName, tree_eq}
use go_dvote.Prelude.Int.{ℤ, ◌≤ℤ◌, add64}
use go_dvote.Prelude.{Bytes, ℕ, ◌≡◌, ok, length, arith, false, true, refl, ◌∙◌}

module _ (X : Deps) (s s' s2 : ChainState X) (same : SameChain s s')
    (others : (t : TreeName) (k : Bytes)
      → tree_eq TreeName.app_tree t ≡ false
      → tree_get X t false k s2 ≡ tree_get X t true k s')
    (committed : (t : TreeName) (k : Bytes) → tree_get X t true k s2 ≡ tree_get X t true k s') where
  tree_get-SameChain : (t : TreeName) (k : Bytes) → tree_get X t true k s' ≡ tree_get X t true k s
  unfolding tree_get
  tree_get-SameChain t k = rw same.same_store refl

  process-next : (pid : Bytes) → process X pid false s2 ≡ process X pid true s
  unfolding process tree_eq
  process-next pid =
      let read =
        others TreeName.process_tree pid refl ∙ tree_get-SameChain TreeName.process_tree pid in
      rw (read, process) refl

in_frame :
    (p : Process) (before height : ℤ)
    → accepts_votes p before ≡ true
    → p.start_block ≤ℤ height
    → height ≤ℤ add64 p.start_block p.number_of_blocks
    → accepts_votes p height ≡ true
unfolding accepts_votes
in_frame p before height h started running = ground (arith, h)

module _ (X : Deps) (now began later : ℕ) (tx : VoteTx) (hd : Header) (s s' s2 : ChainState X)
    (c : Checked X tx s) (vp : VoteProof) (same : SameChain s s')
    (begun : begin_block X began hd s' ≡ (ok tt, s2))
    (proved : vote_proof X now false c.p c.pid tx s ≡ (ok vp, s'))
    (id_set : length (uniq_id tx c.p.type) ≡ 32) (stored : process X c.pid true s ≡ ok c.p)
    (started : c.p.start_block ≤ℤ hd.height)
    (running : hd.height ≤ℤ add64 c.p.start_block c.p.number_of_blocks) where
  others_next :
      (t : TreeName) (k : Bytes)
      → tree_eq TreeName.app_tree t ≡ false
      → tree_get X t false k s2 ≡ tree_get X t true k s'
  others_next t k e =
      let read = (begin_block-committed X began hd s' s2 begun).1.1 t k in ground (arith, read, e)

  committed_next : (t : TreeName) (k : Bytes) → tree_get X t true k s2 ≡ tree_get X t true k s'
  committed_next = (begin_block-committed X began hd s' s2 begun).2

  unfoldable next_check : Checked X tx s2
  next_check = record {
    pid = c.pid;
    p = c.p;
    hd = hd;
    decoded = c.decoded;
    found = process-next X s s' s2 same others_next committed_next c.pid ∙ stored;
    has_header = (begin_block-committed X began hd s' s2 begun).0;
    open_for_votes = in_frame c.p c.hd.height hd.height c.open_for_votes started running;
    type_checked = c.type_checked;
  }
