-- ===== src/Vochain/Scrutinizer/Tally/Ballots.antt =====
-- What the counting of votes makes of a table, whole votes and lists of them.
use go_dvote.Prelude.{
  List, [], ◌∷◌, ℕ, suc, ok, arith, refl, ◌<◌, ◌≡◌, ◌+◌, true, ◌%◌, inl, ◌^◌, inr, ◌⊎◌, Bool-cases,
  ltb, if◌then◌else◌, ◌==◌, All, false, Res, panic, bind_res, ◌&&◌, ◌≤◌,
}
use go_dvote.Vochain.Scrutinizer.{ProcessVotes, max_questions, max_options}
use go_dvote.Vochain.Scrutinizer.Tally.{add_options, increment}
use go_dvote.Vochain.Scrutinizer.Tally.Counted.{
  cell, IsTable, is_accepted, all_accepted, answer_is, marks, bumped, bumped-IsTable, cell-bumped,
  increment-in, increment-negative, increment-out,
}
use go_dvote.Prelude.Int.{ℤ, ltb_ℤ, pos, negsuc}

-- A table that has what the votes mark in addition to what another has.
pub record Adds (pv : ProcessVotes) (votes : ℕ → ℕ → ℕ) (pv' : ProcessVotes) : Type 0 where
  pub is_table : IsTable pv'
  pub added :
      (i j : ℕ)
      → i < max_questions
      → j < max_options
      → cell pv' i j ≡ (cell pv i j + votes i j) % 2 ^ 32

-- The three things an answer can do to a table.
accepted-cases :
    (pv : ProcessVotes) (q : ℕ) (opt : ℤ)
    → IsTable pv
    → is_accepted q opt ≡ true
    → ((ltb_ℤ (pos max_options) opt ≡ true) × ((j : ℕ) → j < max_options → answer_is opt j ≡ 0))
      ⊎ ((o : ℕ) × (opt ≡ pos o) × (q < max_questions) × (o < max_options))
unfolding is_accepted answer_is
accepted-cases pv q (negsuc o) table h = absurd (ground arith)
accepted-cases pv q (pos o) table h = elim (Bool-cases (ltb max_options o)) [
  | inl over ↦ inl (ground arith, λ j hj. ground arith)
  | inr under ↦ inr (o, refl, ground arith, ground arith)
]

marks_past : (q : ℕ) (os : List ℤ) (i j : ℕ) → i < q → marks q os i j ≡ 0
unfolding marks
marks_past q [] i j h = refl
marks_past q (o ∷ os) i j h =
    let rest = marks_past (suc q) os i j (omega arith) in ground (arith, rest)

pub add_options-Adds :
    (q : ℕ) (os : List ℤ) (pv : ProcessVotes)
    → IsTable pv
    → all_accepted q os ≡ true
    → (pv' : ProcessVotes) × (add_options q os pv ≡ ok pv') × Adds pv (marks q os) pv'
unfolding add_options all_accepted marks answer_is
add_options-Adds q [] pv table h = (
  pv,
  refl,
  record { is_table = table; added = λ i j hi hj. let small = table.cells i j in ground arith },
)
add_options-Adds q (opt ∷ os) pv table h =
    let here : is_accepted q opt ≡ true = ground arith in
    let others : all_accepted (suc q) os ≡ true = ground arith in
    elim (accepted-cases pv q opt table here) [
      | inl (over, none_marked) ↦
          let (pv', e, adds) = add_options-Adds (suc q) os pv table others in
          (
            pv',
            rw over e,
            record {
              is_table = adds.is_table;
              added = λ i j hi hj.
                  let rest = adds.added i j hi hj in
                  let nothing = none_marked j hj in
                  let past = marks_past (suc q) os i j in ground (arith, rest, nothing, past);
            },
          )
      | inr (o, is_o, hq, ho) ↦
          let table' = bumped-IsTable pv q o table hq ho in
          let (pv', e, adds) = add_options-Adds (suc q) os (bumped pv q o) table' others in
          (
            pv',
            ground (arith, is_o, increment-in pv q o table hq ho, e),
            record {
              is_table = adds.is_table;
              added = λ i j hi hj.
                  let rest = adds.added i j hi hj in
                  let one = cell-bumped pv q o table hq ho i j in
                  let answer : answer_is opt j ≡ (if o == j then 1 else 0) = rw is_o refl in
                  let past = marks_past (suc q) os i j in
                  let same : q ≡ i → o ≡ j → cell pv i j ≡ cell pv q o =
                    λ e e'. rw e (rw e' refl) in
                  ground (arith, rest, one, answer, past, same);
            },
          )
    ]

-- On a table of 64 questions and 64 options, a vote with an answer that is negative, or 64, or at
-- most 64 to a question after the 64th, makes the counting panic.
pub add_options-panic :
    (q : ℕ) (os : List ℤ) (pv : ProcessVotes)
    → IsTable pv
    → all_accepted q os ≡ false
    → add_options q os pv ≡ panic
unfolding add_options all_accepted is_accepted
add_options-panic q [] pv table h = absurd (ground arith)
add_options-panic q (negsuc o ∷ os) pv table h = ground (arith, increment-negative pv q o)
add_options-panic q (pos o ∷ os) pv table h = elim (Bool-cases (ltb max_options o)) [
  | inl over ↦ ground (arith, add_options-panic (suc q) os pv table)
  | inr under ↦ elim (Bool-cases (ltb q max_questions && ltb o max_options)) [
    | inl inside ↦
        let table' = bumped-IsTable pv q o table (ground arith) (ground arith) in
        let one = increment-in pv q o table (ground arith) (ground arith) in
        let rest = add_options-panic (suc q) os (bumped pv q o) table' in ground (arith, one, rest)
    | inr outside ↦
        let out = increment-out pv q o table in
        let past : max_questions ≤ q → increment pv (pos q) (pos o) ≡ panic = λ e. out (inl e) in
        let over : q < max_questions → max_options ≤ o → increment pv (pos q) (pos o) ≡ panic =
          λ e e'. out (inr (e, e')) in
        ground (arith, past, over)
  ]
]

-- The votes one after the other.
unfoldable pub count_ballots : List (List ℤ) → ProcessVotes → Res ProcessVotes
count_ballots [] pv = ok pv
count_ballots (b ∷ bs) pv = bind_res (add_options 0 b pv) (count_ballots bs)

-- How many of the votes mark a cell.
unfoldable pub total : List (List ℤ) → ℕ → ℕ → ℕ
total [] i j = 0
total (b ∷ bs) i j = marks 0 b i j + total bs i j

pub count_ballots-Adds :
    (bs : List (List ℤ)) (pv : ProcessVotes)
    → IsTable pv
    → All (λ b. all_accepted 0 b ≡ true) bs
    → (pv' : ProcessVotes) × (count_ballots bs pv ≡ ok pv') × Adds pv (total bs) pv'
unfolding count_ballots total
count_ballots-Adds [] pv table h = (
  pv,
  refl,
  record { is_table = table; added = λ i j hi hj. let small = table.cells i j in ground arith },
)
count_ballots-Adds (b ∷ bs) pv table (here, others) =
    let (pv1, e1, adds1) = add_options-Adds 0 b pv table here in
    let (pv2, e2, adds2) = count_ballots-Adds bs pv1 adds1.is_table others in
    (
      pv2,
      rw e1 e2,
      record {
        is_table = adds2.is_table;
        added = λ i j hi hj.
            let first = adds1.added i j hi hj in
            let second = adds2.added i j hi hj in ground (arith, first, second);
      },
    )
