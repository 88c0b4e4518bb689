-- ===== src/Util/Split/Laws.antt =====
-- What SplitBytes returns.
use go_dvote.Prelude.{
  Bytes, List, [], ◌∷◌, ℕ, zero, suc, some, arith, refl, ◌<◌, ◌++◌, length, ◌≡◌, All, ◌≤◌,
  Bool-cases, leb, inl, drop, length-drop, take, take-append-drop, inr, length-append, length-take,
  take-append, ltb, drop-append, ok,
}
use go_dvote.Util.Split.{split_loop, split_bytes}
use mathlib.Core.List.{append-nil}
use go_dvote.Prelude.Int.{pos}

-- The chunks one after the other.
unfoldable pub join : List Bytes → Bytes
join [] = []
join (c ∷ cs) = c ++ join cs

positive_limit :
    (lim : ℕ)
    → 0 < lim
    → (buf : Bytes) (chunks : List Bytes) → split_loop (suc (length buf)) buf lim ≡ some chunks
    → split_bytes buf (pos lim) ≡ some (ok chunks)
unfolding split_bytes
positive_limit zero positive buf chunks e = absurd (omega arith)
positive_limit (suc n) positive buf chunks e = rw (e, split_bytes) refl

module _ (lim : ℕ) (positive : 0 < lim) where
  split_loop-ends :
      (fuel : ℕ) (buf : Bytes)
      → length buf < fuel
      → (chunks : List Bytes) × (split_loop fuel buf lim ≡ some chunks)
        × (join chunks ≡ buf)
        × All (λ c. (0 < length c) × (length c ≤ lim)) chunks
  unfolding split_loop join
  split_loop-ends zero buf h = absurd (omega arith)
  split_loop-ends (suc fuel) buf h = elim (Bool-cases (leb lim (length buf))) [
    | inl more ↦
        let shorter = length-drop lim buf in
        let taken = length-take lim buf in
        let (chunks, e, joined, sized) =
          split_loop-ends fuel (drop lim buf) (ground (arith, shorter)) in
        (
          take lim buf ∷ chunks,
          rw more (rw e refl),
          rw joined (take-append-drop lim buf),
          ((ground (arith, taken), ground (arith, taken)), sized),
        )
    | inr last ↦ rw last (elim (Bool-cases (ltb 0 (length buf))) [
      | inl some_left ↦
          rw some_left (buf ∷ [], refl, append-nil buf, ((ground arith, ground arith), tt))
      | inr none_left ↦ rw none_left ([], refl, ground arith, tt)
    ])
  ]

  split_bytes-loop :
      (buf : Bytes) (chunks : List Bytes)
      → split_loop (suc (length buf)) buf lim ≡ some chunks
      → split_bytes buf (pos lim) ≡ some (ok chunks)
  split_bytes-loop = positive_limit lim positive

  -- SplitBytes with a positive limit ends, and returns chunks of one byte at least and `lim` bytes
  -- at most that are the buffer, one after the other.
  pub split_bytes-ends :
      (buf : Bytes)
      → (chunks : List Bytes) × (split_bytes buf (pos lim) ≡ some (ok chunks))
        × (join chunks ≡ buf)
        × All (λ c. (0 < length c) × (length c ≤ lim)) chunks
  unfolding split_bytes
  split_bytes-ends buf =
      let (chunks, e, joined, sized) = split_loop-ends (suc (length buf)) buf (omega arith) in
      (chunks, split_bytes-loop buf chunks e, joined, sized)

  split_loop-join :
      (fuel : ℕ) (chunks : List Bytes)
      → All (λ c. length c ≡ lim) chunks
      → length (join chunks) < fuel
      → split_loop fuel (join chunks) lim ≡ some chunks
  unfolding split_loop join
  split_loop-join zero chunks sized h = absurd (omega arith)
  split_loop-join (suc fuel) [] sized h = ground arith
  split_loop-join (suc fuel) (c ∷ cs) (len, sized) h =
      let total = length-append c (join cs) in
      let first : take lim (c ++ join cs) ≡ c = rw (← len) (take-append c (join cs)) in
      let others : drop lim (c ++ join cs) ≡ join cs = rw (← len) (drop-append c (join cs)) in
      let rest = split_loop-join fuel cs sized (omega (arith, total)) in
      ground (arith, total, first, others, rest)

  -- Chunks of exactly `lim` bytes are found again in their concatenation.
  pub split_bytes-join :
      (chunks : List Bytes)
      → All (λ c. length c ≡ lim) chunks
      → split_bytes (join chunks) (pos lim) ≡ some (ok chunks)
  unfolding split_bytes
  split_bytes-join chunks sized =
      split_bytes-loop (join chunks) chunks
        (split_loop-join (suc (length (join chunks))) chunks sized (omega arith))
