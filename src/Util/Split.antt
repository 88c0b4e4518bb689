-- ===== src/Util/Split.antt =====
-- util/helpers.go: SplitBytes.
pub mod Laws
mod Tests
use go_dvote.Prelude.Int.{ℤ, pos, negsuc}
use go_dvote.Prelude.{
  Bytes, List, [], ◌∷◌, ℕ, zero, suc, Option, none, some, arith, refl, length, drop, if◌then◌else◌,
  leb, take, ltb, Res, panic, ok,
}

-- `for len(buf) >= lim`, with fuel; `none` means that the fuel ran out. What is left is the last
-- chunk, if it is not empty.
unfoldable pub split_loop : ℕ → Bytes → ℕ → Option (List Bytes)
split_loop zero buf lim = none
split_loop (suc fuel) buf lim =
    let rest = split_loop fuel (drop lim buf) lim in
    if leb lim (length buf)
    then elim rest [ none ↦ none | some chunks ↦ some (take lim buf ∷ chunks) ]
    else some (if ltb 0 (length buf) then buf ∷ [] else [])

-- SplitBytes. A limit of 0 divides by zero, and a negative one makes the capacity or a slice
-- expression out of range.
unfoldable pub split_bytes : Bytes → ℤ → Option (Res (List Bytes))
unfolding split_loop
split_bytes buf (negsuc n) = some panic
split_bytes buf (pos zero) = some panic
split_bytes buf (pos (suc n)) = elim (split_loop (suc (length buf)) buf (suc n)) [
  | none ↦ none
  | some chunks ↦ some (ok chunks)
]
