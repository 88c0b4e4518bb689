-- ===== src/Vochain/Scrutinizer/Tally/Pruned.antt =====
-- pruneVoteResult against a description of what it leaves.
use go_dvote.Prelude.{
  List, [], ◌∷◌, ℕ, zero, suc, ok, arith, refl, take, Bool, ◌<◌, ◌≤◌, ◌+◌, if◌then◌else◌, ◌++◌,
  length, true, ◌==◌, ◌≡◌, Bool-cases, get_or, not, ap, ◌&&◌, at_index-in, drop, inl, ◌∙◌,
  length-append, inr, length-take, map, at_index, sym,
}
use go_dvote.Vochain.Scrutinizer.Tally.{
  has_option, chosen, prune_vote_result, prune_questions, prune_rounds, answered,
}
use go_dvote.Vochain.Scrutinizer.{ProcessVotes, max_questions, max_options}
use go_dvote.Vochain.Scrutinizer.Tally.Counted.{IsTable}
use go_dvote.Prelude.Int.{pos}

module _ {ℓ} {A : Type ℓ} where
  unfoldable pub push_kept : (A → Bool) → A → List A → List A
  push_kept dead x [] = if dead x then [] else x ∷ []
  push_kept dead x (y ∷ ys) = x ∷ y ∷ ys

  -- A list without the elements at its end that are `dead`.
  unfoldable pub trim : (A → Bool) → List A → List A
  unfolding push_kept
  trim dead [] = []
  trim dead (x ∷ xs) = push_kept dead x (trim dead xs)

  trim-snoc :
      (dead : A → Bool) (xs : List A) (x : A)
      → trim dead (xs ++ x ∷ []) ≡ (if dead x then trim dead xs else xs ++ x ∷ [])
  unfolding trim push_kept
  trim-snoc dead [] x = refl
  trim-snoc dead (y ∷ []) x = elim (Bool-cases (dead x)) [ inl e ↦ rw e refl | inr e ↦ rw e refl ]
  trim-snoc dead (y ∷ z ∷ xs) x =
      let rest = trim-snoc dead (z ∷ xs) x in
      elim (Bool-cases (dead x)) [
        | inl e ↦
            let same : trim dead ((z ∷ xs) ++ x ∷ []) ≡ trim dead (z ∷ xs) = rw e at rest in
            rw same (rw e refl)
        | inr e ↦
            let same : trim dead ((z ∷ xs) ++ x ∷ []) ≡ (z ∷ xs) ++ x ∷ [] = rw e at rest in
            rw same (rw e refl)
      ]

  take-push_kept :
      (dead : A → Bool) (x : A) (xs ys : List A)
      → take (length ys) xs ≡ ys
      → take (length (push_kept dead x ys)) (x ∷ xs) ≡ push_kept dead x ys
  unfolding push_kept
  take-push_kept dead x xs [] h = elim (Bool-cases (dead x)) [
    | inl e ↦ rw e refl
    | inr e ↦ rw e (ap (λ ys. x ∷ ys) h)
  ]
  take-push_kept dead x xs (y ∷ ys) h = ap (λ ys. x ∷ ys) h

  take-trim : (dead : A → Bool) (xs : List A) → take (length (trim dead xs)) xs ≡ trim dead xs
  unfolding trim
  take-trim dead [] = refl
  take-trim dead (x ∷ xs) = take-push_kept dead x xs (trim dead xs) (take-trim dead xs)

  pub length-trim : (dead : A → Bool) (xs : List A) → length (trim dead xs) ≤ length xs
  length-trim dead xs =
      let taken = length-take (length (trim dead xs)) xs in
      let same = ap length (take-trim dead xs) in ground (arith, taken, same)

  drop-all : (xs : List A) → drop (length xs) xs ≡ []
  drop-all [] = refl
  drop-all (x ∷ xs) = drop-all xs

  take-suc :
      (xs : List A) (i : ℕ) (d : A)
      → i < length xs
      → take (suc i) xs ≡ take i xs ++ get_or xs i d ∷ []
  take-suc [] i d h = absurd (omega arith)
  take-suc (x ∷ xs) zero d h = refl
  take-suc (x ∷ xs) (suc i) d h = ap (λ ys. x ∷ ys) (take-suc xs i d (omega arith))

  drop-suc :
      (xs : List A) (i : ℕ) (d : A) → i < length xs → drop i xs ≡ get_or xs i d ∷ drop (suc i) xs
  drop-suc [] i d h = absurd (omega arith)
  drop-suc (x ∷ xs) zero d h = refl
  drop-suc (x ∷ xs) (suc i) d h = drop-suc xs i d (omega arith)

  take-all : (xs : List A) → take (length xs) xs ≡ xs
  take-all [] = refl
  take-all (x ∷ xs) = ap (λ ys. x ∷ ys) (take-all xs)

abbrev is_zero : ℕ → Bool
is_zero n = n == 0

-- Whether no option of a question has votes.
unfoldable pub all_zero : List ℕ → Bool
all_zero [] = true
all_zero (n ∷ ns) = n == 0 && all_zero ns

chosen_lem :
    (row : List ℕ) (n : ℕ) → n ≤ length row → chosen row n ≡ ok (length (trim is_zero (take n row)))
unfolding chosen trim
chosen_lem row zero h = refl
chosen_lem row (suc n) h =
    let here = at_index-in row n 0 (omega arith) in
    let rest = chosen_lem row n (omega arith) in
    let before = get_or row n 0 in
    let grown = trim-snoc is_zero (take n row) before in
    let len = length-append (take n row) (before ∷ []) in
    let taken = length-take n row in
    rw (take-suc row n 0 (omega arith)) (elim (Bool-cases (before == 0)) [
      | inl e ↦
          let same : trim is_zero (take n row ++ before ∷ []) ≡ trim is_zero (take n row) =
            rw e at grown in
          rw here (rw e (rw same rest))
      | inr e ↦
          let same : trim is_zero (take n row ++ before ∷ []) ≡ take n row ++ before ∷ [] =
            rw e at grown in
          let size : suc n ≡ length (take n row ++ before ∷ []) = ground (arith, len, taken) in
          rw here (rw e (rw same (ap ok size)))
    ])

has_option_lem :
    (row : List ℕ) (left j : ℕ)
    → j + left ≡ length row
    → has_option row left j ≡ ok (not (all_zero (drop j row)))
unfolding has_option all_zero
has_option_lem row zero j h =
    let all : j ≡ length row = omega arith in
    let nothing : drop j row ≡ [] = rw all (drop-all row) in rw nothing refl
has_option_lem row (suc left) j h =
    let here = at_index-in row j 0 (omega arith) in
    let rest = has_option_lem row left (suc j) (omega arith) in
    let grown = drop-suc row j 0 (omega arith) in
    elim (Bool-cases (get_or row j 0 == 0)) [
      | inl e ↦ rw here (rw e (rest ∙ rw grown (rw e refl)))
      | inr e ↦ rw here (rw e (rw grown (rw e refl)))
    ]

-- The options up to the last one with votes.
abbrev pub trim_row : List ℕ → List ℕ
trim_row row = trim is_zero row

module _ (pv : ProcessVotes) (table : IsTable pv) where
  row_in : (i : ℕ) → i < max_questions → at_index pv (pos i) ≡ ok (get_or pv i [])
  row_in i h = at_index-in pv i [] (rw table.questions h)

  answered_lem :
      (n : ℕ) → n ≤ max_questions → answered pv n ≡ ok (length (trim all_zero (take n pv)))
  unfolding answered trim
  answered_lem zero h = refl
  answered_lem (suc n) h =
      let rest = answered_lem n (omega arith) in
      let row = get_or pv n [] in
      let here = row_in n (omega arith) in
      let found = has_option_lem row max_options 0 (sym (table.options n (omega arith))) in
      let grown = trim-snoc all_zero (take n pv) row in
      let len = length-append (take n pv) (row ∷ []) in
      let taken = length-take n pv in
      let in_table = table.questions in
      rw (take-suc pv n [] (rw in_table h)) (elim (Bool-cases (all_zero row)) [
        | inl e ↦
            let same : trim all_zero (take n pv ++ row ∷ []) ≡ trim all_zero (take n pv) =
              rw e at grown in
            rw here (rw found (rw e (rw same rest)))
        | inr e ↦
            let same : trim all_zero (take n pv ++ row ∷ []) ≡ take n pv ++ row ∷ [] =
              rw e at grown in
            let size : suc n ≡ length (take n pv ++ row ∷ []) = ground (arith, len, taken) in
            rw here (rw found (rw e (rw same (ap ok size))))
      ])

  prune_questions_lem :
      (n i : ℕ)
      → i + n ≤ max_questions
      → prune_questions pv n i ≡ ok (map trim_row (take n (drop i pv)))
  unfolding prune_questions
  prune_questions_lem zero i h = refl
  prune_questions_lem (suc n) i h =
      let row = get_or pv i [] in
      let here = row_in i (omega arith) in
      let size = table.options i (omega arith) in
      let all : take max_options row ≡ row = rw (← size) (take-all row) in
      let kept : chosen row max_options ≡ ok (length (trim_row row)) =
        rw all at (chosen_lem row max_options (omega (arith, size))) in
      let rest = prune_questions_lem n (suc i) (omega arith) in
      let cut = take-trim is_zero row in
      rw (drop-suc pv i [] (rw table.questions (omega arith))) (
        rw here
          (rw kept (rw rest (ap ok (ap (λ r. r ∷ map trim_row (take n (drop (suc i) pv))) cut)))))

  prune_rounds_lem :
      (n i : ℕ) (pvc : ProcessVotes)
      → i + suc n ≤ max_questions
      → prune_rounds pv (suc n) i pvc ≡ ok (map trim_row (take (i + suc n) pv))
  unfolding prune_rounds
  prune_rounds_lem zero i pvc h =
      let here = prune_questions_lem (suc i) 0 (omega arith) in
      let same : i + 1 ≡ suc i = omega arith in rw same (rw here refl)
  prune_rounds_lem (suc n) i pvc h =
      let here = prune_questions_lem (suc i) 0 (omega arith) in
      let same : i + suc (suc n) ≡ suc i + suc n = omega arith in
      rw same (rw here (prune_rounds_lem n (suc i) (map trim_row (take (suc i) pv)) (omega arith)))

  prune_rounds_all :
      (n : ℕ) → n ≤ max_questions → prune_rounds pv n 0 [] ≡ ok (map trim_row (take n pv))
  unfolding prune_rounds
  prune_rounds_all zero h = refl
  prune_rounds_all (suc n) h =
      let sum : 0 + suc n ≡ suc n = omega arith in rw sum at (prune_rounds_lem n 0 [] (omega arith))

  answered_all :
      (n : ℕ) → length pv ≡ n → n ≤ max_questions → answered pv n ≡ ok (length (trim all_zero pv))
  answered_all n len h =
      let all : take n pv ≡ pv = rw len at (take-all pv) in rw all at (answered_lem n h)

  -- pruneVoteResult on a table of 64 questions and 64 options: what is left are the questions up to
  -- the last one that has a vote, each with its options up to the last one that has a vote.
  pub prune_vote_result-trim : prune_vote_result pv ≡ ok (map trim_row (trim all_zero pv))
  unfolding prune_vote_result
  prune_vote_result-trim =
      let found = answered_all max_questions table.questions (omega arith) in
      let small : length (trim all_zero pv) ≤ max_questions =
        rw table.questions at (length-trim all_zero pv) in
      let kept = prune_rounds_all (length (trim all_zero pv)) small in
      rw found (rw kept (ap (λ xs. ok (map trim_row xs)) (take-trim all_zero pv)))
