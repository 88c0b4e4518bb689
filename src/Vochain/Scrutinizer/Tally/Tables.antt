-- ===== src/Vochain/Scrutinizer/Tally/Tables.antt =====
-- Tables as functions: a table is determined by its cells.
use go_dvote.Prelude.{
  List, [], ◌∷◌, ℕ, zero, suc, ok, arith, refl, replicate, ◌<◌, length, length-replicate, get_or,
  ◌≡◌, All, true, ◌%◌, ◌^◌, ap, subst, ◌∙◌,
}
use go_dvote.Vochain.Scrutinizer.{ProcessVotes, max_questions, max_options}
use go_dvote.Vochain.Scrutinizer.Tally.{empty_process}
use go_dvote.Vochain.Scrutinizer.Tally.Counted.{cell, IsTable, all_accepted}
use go_dvote.Vochain.Scrutinizer.Tally.Ballots.{count_ballots, count_ballots-Adds, total}
use go_dvote.Prelude.Int.{ℤ}

-- `f 0, f 1, …`, of a length.
unfoldable pub tabulate {ℓ} : {A : Type ℓ} → ℕ → (ℕ → A) → List A
tabulate zero f = []
tabulate (suc n) f = f 0 ∷ tabulate n (λ i. f (suc i))

-- The table with given cells.
unfoldable pub table_of : (ℕ → ℕ → ℕ) → ProcessVotes
unfolding tabulate
table_of f = tabulate max_questions (λ i. tabulate max_options (f i))

tabulate-ext {ℓ} :
    {A : Type ℓ} (xs : List A) (d : A) (n : ℕ) (f : ℕ → A)
    → length xs ≡ n
    → ((i : ℕ) → i < n → get_or xs i d ≡ f i)
    → xs ≡ tabulate n f
unfolding tabulate
tabulate-ext [] d zero f h same = refl
tabulate-ext [] d (suc n) f h same = absurd (omega arith)
tabulate-ext (x ∷ xs) d zero f h same = absurd (omega arith)
tabulate-ext (x ∷ xs) d (suc n) f h same =
    let first = same 0 (omega arith) in
    let others =
      tabulate-ext xs d n (λ i. f (suc i)) (omega arith) (λ i lt. same (suc i) (omega arith)) in
    cc (first, others)

pub IsTable-table_of :
    (pv : ProcessVotes) (f : ℕ → ℕ → ℕ)
    → IsTable pv
    → ((i j : ℕ) → i < max_questions → j < max_options → cell pv i j ≡ f i j)
    → pv ≡ table_of f
unfolding table_of cell
IsTable-table_of pv f table same =
    tabulate-ext pv [] max_questions (λ i. tabulate max_options (f i)) table.questions
      λ i hi.
        tabulate-ext (get_or pv i []) 0 max_options (f i) (table.options i hi)
          (λ j hj. same i j hi hj)

get_or-replicate {ℓ} : {A : Type ℓ} (n i : ℕ) (a d : A) → i < n → get_or (replicate n a) i d ≡ a
get_or-replicate zero i a d h = absurd (omega arith)
get_or-replicate (suc n) zero a d h = refl
get_or-replicate (suc n) (suc i) a d h = get_or-replicate n i a d (omega arith)

get_or_zero : (n i : ℕ) → get_or (replicate {A = ℕ} n 0) i 0 ≡ 0
get_or_zero zero i = refl
get_or_zero (suc n) zero = refl
get_or_zero (suc n) (suc i) = get_or_zero n i

cell_zero : (n m i j : ℕ) → cell (replicate n (replicate {A = ℕ} m 0)) i j ≡ 0
unfolding cell
cell_zero zero m i j = refl
cell_zero (suc n) m zero j = get_or_zero m j
cell_zero (suc n) m (suc i) j = cell_zero n m i j

pub empty_process-IsTable : IsTable empty_process
unfolding empty_process
empty_process-IsTable = record {
  questions = length-replicate max_questions (replicate {A = ℕ} max_options 0);
  options = λ i h.
      rw (get_or-replicate max_questions i (replicate {A = ℕ} max_options 0) [] h)
        (length-replicate {A = ℕ} max_options 0);
  cells = λ i j. rw (cell_zero max_questions max_options i j) (ground arith);
}

counted :
    (bs : List (List ℤ))
    → All (λ b. all_accepted 0 b ≡ true) bs
    → (pv : ProcessVotes) × (count_ballots bs empty_process ≡ ok pv)
      × IsTable pv
      × (pv ≡ table_of (λ i j. total bs i j % 2 ^ 32))
unfolding empty_process
counted bs h =
    let (pv, e, adds) = count_ballots-Adds bs empty_process empty_process-IsTable h in
    let same : (i j : ℕ)
        → i < max_questions
        → j < max_options
        → cell pv i j ≡ total bs i j % 2 ^ 32 =
      λ i j hi hj.
        let added = adds.added i j hi hj in
        let nothing = cell_zero max_questions max_options i j in ground (arith, added, nothing) in
    (pv, e, adds.is_table, IsTable-table_of pv (λ i j. total bs i j % 2 ^ 32) adds.is_table same)

pub table_of-total-IsTable :
    (bs : List (List ℤ))
    → All (λ b. all_accepted 0 b ≡ true) bs
    → IsTable (table_of (λ i j. total bs i j % 2 ^ 32))
table_of-total-IsTable bs h = let (pv, e, table, same) = counted bs h in subst IsTable same table

-- Votes whose answers are all in the table, or above the number of options and so left out, are
-- counted without a panic, and the table is the numbers of votes for each option, modulo 2 ^ 32.
pub count_ballots-table_of :
    (bs : List (List ℤ))
    → All (λ b. all_accepted 0 b ≡ true) bs
    → count_ballots bs empty_process ≡ ok (table_of (λ i j. total bs i j % 2 ^ 32))
count_ballots-table_of bs h = let (pv, e, table, same) = counted bs h in e ∙ ap (λ t. ok t) same
