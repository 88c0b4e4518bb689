-- ===== src/Vochain/Scrutinizer/Results/Final.antt =====
-- The final results of an encrypted process, against the numbers of votes.
use go_dvote.Prelude.{
  Bytes, List, [], ◌∷◌, ok, err, panic, arith, refl, Bool, Res, ◌≡◌, true, bind_res, Res-cases,
  ◌&&◌, inl, false, inr, map, All, ◌%◌, ◌^◌, ◌*◌, ap,
}
use go_dvote.Vochain.Scrutinizer.{ProcessVotes, Deps, VotePackage}
use go_dvote.Vochain.Scrutinizer.Tally.{add_options, empty_process}
use go_dvote.Vochain.Scrutinizer.Results.{package_of, count_envelopes, compute_non_live_results}
use go_dvote.Vochain.Scrutinizer.Tally.Counted.{all_accepted}
use go_dvote.Vochain.Scrutinizer.Tally.Ballots.{count_ballots, total}
use go_dvote.Vochain.Scrutinizer.Tally.Tables.{
  table_of, count_ballots-table_of, table_of-total-IsTable,
}
use go_dvote.Vochain.Scrutinizer.Tally.Pruned.{trim, trim_row, all_zero, prune_vote_result-trim}
use go_dvote.Types.{Process}
use go_dvote.Vochain.State.{ChainState}
use go_dvote.Prelude.Int.{ℤ, pos}
use go_dvote.Vochain.State.Votes.{envelope, envelope_list}

-- The votes of a package in front of others, if there is a package.
abbrev pub keep_votes : Res VotePackage → List (List ℤ) → List (List ℤ)
keep_votes (ok vp) bs = vp.votes ∷ bs
keep_votes (err e) bs = bs
keep_votes panic bs = bs

module _ (X : go_dvote.Vochain.Deps.Deps) (K : Deps) (pid : Bytes) (p : Process)
    (chain : ChainState X) where
  -- What is made of the envelope with a nullifier.
  unfoldable pub package_at : Bytes → Res VotePackage
  package_at nullifier = bind_res (envelope X pid nullifier false chain) (package_of X K p)

  -- The answers in the envelopes that can be read.
  unfoldable pub ballots : List Bytes → List (List ℤ)
  ballots [] = []
  ballots (n ∷ ns) = keep_votes (package_at n) (ballots ns)

  -- Reading the envelopes does not panic, and neither does counting the votes in them.
  unfoldable pub countable : List Bytes → Bool
  countable [] = true
  countable (n ∷ ns) =
      let rest = countable ns in
      elim (package_at n) [ ok vp ↦ all_accepted 0 vp.votes && rest | err e ↦ rest | panic ↦ false ]

  count_envelopes-nil : (pv : ProcessVotes) → count_envelopes X K pid p chain [] pv ≡ ok pv
  unfolding count_envelopes
  count_envelopes-nil pv = refl

  count_envelopes-cons :
      (n : Bytes) (ns : List Bytes) (pv : ProcessVotes)
      → count_envelopes X K pid p chain (n ∷ ns) pv ≡ (elim (package_at n) [
        | err e ↦ count_envelopes X K pid p chain ns pv
        | panic ↦ panic
        | ok vp ↦ bind_res (add_options 0 vp.votes pv) (count_envelopes X K pid p chain ns)
      ])
  unfolding count_envelopes package_at
  count_envelopes-cons n ns pv = refl

  ballots-nil : ballots [] ≡ []
  unfolding ballots
  ballots-nil = refl

  ballots-cons :
      (n : Bytes) (ns : List Bytes) (r : Res VotePackage)
      → package_at n ≡ r
      → ballots (n ∷ ns) ≡ keep_votes r (ballots ns)
  unfolding ballots
  ballots-cons n ns r e = ap (λ r. keep_votes r (ballots ns)) e

  count_envelopes-ballots :
      (ns : List Bytes) (pv : ProcessVotes)
      → countable ns ≡ true
      → count_envelopes X K pid p chain ns pv ≡ count_ballots (ballots ns) pv
  unfolding countable count_ballots
  count_envelopes-ballots [] pv h = rw ballots-nil (count_envelopes-nil pv)
  count_envelopes-ballots (n ∷ ns) pv h = elim (Res-cases (package_at n)) [
    | inl (vp, e) ↦
        let rest : countable ns ≡ true = ground (arith, e) in
        rw (count_envelopes-cons n ns pv) (
          rw e (
            rw (ballots-cons n ns (ok vp) e) (elim (Res-cases (add_options 0 vp.votes pv)) [
              | inl (pv1, e1) ↦ rw e1 (count_envelopes-ballots ns pv1 rest)
              | inr (inl (x, e1)) ↦ rw e1 refl
              | inr (inr e1) ↦ rw e1 refl
            ])))
    | inr (inl (x, e)) ↦ rw (count_envelopes-cons n ns pv) (
        rw e (rw (ballots-cons n ns (err x) e) (count_envelopes-ballots ns pv (ground (arith, e)))))
    | inr (inr e) ↦ absurd (ground (arith, e))
  ]

  ballots-accepted :
      (ns : List Bytes) → countable ns ≡ true → All (λ b. all_accepted 0 b ≡ true) (ballots ns)
  unfolding countable
  ballots-accepted [] h = rw ballots-nil tt
  ballots-accepted (n ∷ ns) h = elim (Res-cases (package_at n)) [
    | inl (vp, e) ↦
        let here : all_accepted 0 vp.votes ≡ true = ground (arith, e) in
        let rest : countable ns ≡ true = ground (arith, e) in
        rw (ballots-cons n ns (ok vp) e) (here, ballots-accepted ns rest)
    | inr (inl (x, e)) ↦ rw (ballots-cons n ns (err x) e) (ballots-accepted ns (ground (arith, e)))
    | inr (inr e) ↦ absurd (ground (arith, e))
  ]

  -- The nullifiers that the code goes over.
  abbrev pub counted_nullifiers : List Bytes
  counted_nullifiers = envelope_list X pid (pos 0) (pos (32 * 2 ^ 18)) false chain

  -- computeNonLiveResults, when no envelope makes it panic: for each question and option the number
  -- of readable envelopes that choose it, modulo 2 ^ 32, without the questions at the end that have
  -- no vote and without the options at the end of each question that have none.
  pub compute_non_live_results-trim :
      countable counted_nullifiers ≡ true
      → compute_non_live_results X K pid p chain
        ≡ ok (
            map trim_row
              (trim all_zero (table_of (λ i j. total (ballots counted_nullifiers) i j % 2 ^ 32))))
  unfolding compute_non_live_results
  compute_non_live_results-trim h =
      let same = count_envelopes-ballots counted_nullifiers empty_process h in
      let accepted = ballots-accepted counted_nullifiers h in
      let counted = count_ballots-table_of (ballots counted_nullifiers) accepted in
      let table = table_of-total-IsTable (ballots counted_nullifiers) accepted in
      rw same (
        rw counted (
          prune_vote_result-trim (table_of (λ i j. total (ballots counted_nullifiers) i j % 2 ^ 32))
            table))
