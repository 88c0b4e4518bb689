-- ===== src/Vochain/Scrutinizer/Tally/Counted.antt =====
-- What the counting of one vote does to a table of 64 questions and 64 options.
use go_dvote.Prelude.{
  List, [], ◌∷◌, ℕ, suc, ok, panic, arith, refl, ◌<◌, set, ◌≤◌, length, get_or, if◌then◌else◌, ◌+◌,
  Bool, ◌≡◌, ◌⊎◌, ◌==◌, inl, at_index-in, ◌%◌, true, ltb, ◌&&◌, at_index-out, ◌||◌, ◌^◌,
  set_index-in, false, Bool-cases, inr, length-set, ◌∙◌, get_or-set_self, get_or-set_ne, at_index,
}
use go_dvote.Vochain.Scrutinizer.{ProcessVotes, max_questions, max_options}
use go_dvote.Vochain.Scrutinizer.Tally.{increment}
use go_dvote.Prelude.Int.{ℤ, pos, negsuc}

-- The number in a cell.
unfoldable pub cell : ProcessVotes → ℕ → ℕ → ℕ
cell pv i j = get_or (get_or pv i []) j 0

pub record IsTable (pv : ProcessVotes) : Type 0 where
  pub questions : length pv ≡ max_questions
  pub options : (i : ℕ) → i < max_questions → length (get_or pv i []) ≡ max_options
  pub cells : (i j : ℕ) → cell pv i j < 2 ^ 32

-- Whether an answer to a question is counted or left out; on the others the code panics.
unfoldable pub is_accepted : ℕ → ℤ → Bool
is_accepted q (pos o) = ltb max_options o || (ltb q max_questions && ltb o max_options)
is_accepted q (negsuc o) = false

unfoldable pub all_accepted : ℕ → List ℤ → Bool
all_accepted q [] = true
all_accepted q (o ∷ os) = is_accepted q o && all_accepted (suc q) os

-- What a vote adds to a cell.
unfoldable pub answer_is : ℤ → ℕ → ℕ
answer_is (pos o) j = if o == j then 1 else 0
answer_is (negsuc o) j = 0

unfoldable pub marks : ℕ → List ℤ → ℕ → ℕ → ℕ
marks q [] i j = 0
marks q (o ∷ os) i j = let rest = marks (suc q) os i j in if q == i then answer_is o j else rest

-- The table with one more in a cell.
unfoldable pub bumped : ProcessVotes → ℕ → ℕ → ProcessVotes
unfolding cell
bumped pv q o = set pv q (set (get_or pv q []) o ((cell pv q o + 1) % 2 ^ 32))

at_index-negative : (row : List ℕ) (o : ℕ) → at_index row (negsuc o) ≡ panic
unfolding at_index
at_index-negative row o = refl

pub increment-negative : (pv : ProcessVotes) (q o : ℕ) → increment pv (pos q) (negsuc o) ≡ panic
unfolding increment
increment-negative pv q o = elim (Bool-cases (ltb q (length pv))) [
  | inl inside ↦
      rw (at_index-in pv q [] (ground arith)) (rw (at_index-negative (get_or pv q []) o) refl)
  | inr outside ↦ rw (at_index-out pv q (ground arith)) refl
]

module _ (pv : ProcessVotes) (q o : ℕ) (table : IsTable pv) where
  pub increment-in :
      q < max_questions → o < max_options → increment pv (pos q) (pos o) ≡ ok (bumped pv q o)
  unfolding increment bumped cell
  increment-in hq ho =
      let len = table.options q hq in
      let in_table : q < length pv = rw table.questions hq in
      let in_row : o < length (get_or pv q []) = rw len ho in
      rw (at_index-in pv q [] in_table) (
        rw (at_index-in (get_or pv q []) o 0 in_row) (
          rw (set_index-in (get_or pv q []) o 0 ((get_or (get_or pv q []) o 0 + 1) % 2 ^ 32) in_row)
            (set_index-in pv q []
              (set (get_or pv q []) o ((get_or (get_or pv q []) o 0 + 1) % 2 ^ 32)) in_table)))

  pub increment-out :
      (max_questions ≤ q) ⊎ ((q < max_questions) × (max_options ≤ o))
      → increment pv (pos q) (pos o) ≡ panic
  unfolding increment
  increment-out (inl outside) = rw (at_index-out pv q (rw table.questions outside)) refl
  increment-out (inr (hq, outside)) =
      let in_table : q < length pv = rw table.questions hq in
      rw (at_index-in pv q [] in_table)
        (rw (at_index-out (get_or pv q []) o (rw (table.options q hq) outside)) refl)

  pub cell-bumped :
      q < max_questions
      → o < max_options
      → (i j : ℕ)
      → cell (bumped pv q o) i j
        ≡ (if q == i && o == j then (cell pv q o + 1) % 2 ^ 32 else cell pv i j)
  unfolding bumped cell
  cell-bumped hq ho i j =
      let v = (get_or (get_or pv q []) o 0 + 1) % 2 ^ 32 in
      let row = set (get_or pv q []) o v in
      let in_table : q < length pv = rw table.questions hq in
      let in_row : o < length (get_or pv q []) = rw (table.options q hq) ho in
      elim (Bool-cases (q == i)) [
        | inl e ↦
            let same : q ≡ i = ground arith in
            rw e (
              rw (← same) (
                rw (get_or-set_self pv q row [] in_table) (elim (Bool-cases (o == j)) [
                  | inl e' ↦
                      let same' : o ≡ j = ground arith in
                      rw e' (rw (← same') (get_or-set_self (get_or pv q []) o v 0 in_row))
                  | inr e' ↦ rw e' (get_or-set_ne (get_or pv q []) o j v 0 (λ e''. ground arith))
                ])))
        | inr e ↦ rw e (rw (get_or-set_ne pv q i row [] (λ e'. ground arith)) refl)
      ]

  pub bumped-IsTable : q < max_questions → o < max_options → IsTable (bumped pv q o)
  unfolding bumped
  bumped-IsTable hq ho =
      let row = set (get_or pv q []) o ((cell pv q o + 1) % 2 ^ 32) in
      record {
        questions = length-set pv q row ∙ table.questions;
        options = λ i h. elim (Bool-cases (q == i)) [
          | inl e ↦
              let same : q ≡ i = ground arith in
              let here = get_or-set_self pv q row [] (rw table.questions hq) in
              rw (← same) (
                rw here
                  (length-set (get_or pv q []) o ((cell pv q o + 1) % 2 ^ 32) ∙ table.options q hq))
          | inr e ↦ rw (get_or-set_ne pv q i row [] (λ e'. ground arith)) (table.options i h)
        ];
        cells = λ i j.
            let cells = cell-bumped hq ho i j in
            let before = table.cells i j in ground (arith, cells, before);
      }
